-- ===== src/StrCat/Appended.antt =====
-- The text that strlcat.c leaves.
use mathlib.Core.List.{append_assoc}
use aping.Base.{
  ℕ, zero, suc, ◌+◌, ◌-◌, ◌%◌, ◌^◌, ◌<◌, ◌≤◌, List, [], ◌∷◌, ◌++◌, take, drop, length, length-take,
  length-append, length-drop, ltb, ◌==◌, ◌≡◌, refl, sym, ap, ap₂, ◌∙◌, false, arith,
}
use aping.Base.Text.{Text}
use aping.Base.Outcome.{ok, ◌>>=◌}
use aping.StrCopy.{copy_loop, copy_loop-take}
use aping.StrCat.{find_end, overwrite, strlcat}

abbrev pub NoZero : Text → Type 0
NoZero [] = Unit
NoZero (c ∷ cs) = (0 < c) × NoZero cs

-- The text `t` stands at the start of the buffer, which has `n` bytes.
pub record Holds (n : ℕ) (buf : List ℕ) (t : Text) : Type 0 where
  pub rest : List ℕ
  pub shape : buf ≡ t ++ (0 ∷ rest)
  pub zero_free : NoZero t
  pub room : length buf ≡ n

NoZero-take : (n : ℕ) (t : Text) → NoZero t → NoZero (take n t)
NoZero-take zero t h = tt
NoZero-take (suc n) [] h = tt
NoZero-take (suc n) (c ∷ cs) h = (h.0, NoZero-take n cs h.1)

NoZero-append : (s t : Text) → NoZero s → NoZero t → NoZero (s ++ t)
NoZero-append [] t h k = k
NoZero-append (c ∷ cs) t h k = (h.0, NoZero-append cs t h.1 k)

find_end-shape : (t : Text) (rest : List ℕ) → NoZero t → find_end (t ++ (0 ∷ rest)) ≡ ok (length t)
unfolding find_end
find_end-shape [] rest h = refl
find_end-shape (c ∷ cs) rest h =
    let p : (c == 0) ≡ false = positive c h.0 in rw (p, find_end-shape cs rest h.1) refl
  where
    positive : (c : ℕ) → 0 < c → (c == 0) ≡ false
    positive c h = ground arith

take-append : (t u : List ℕ) → take (length t) (t ++ u) ≡ t
take-append [] u = refl
take-append (c ∷ cs) u = ap (◌∷◌ c) (take-append cs u)

take_append : (t u : List ℕ) (k : ℕ) → t ++ take k u ≡ take (length t + k) (t ++ u)
take_append [] u k = ap (λ n. take n u) (omega arith)
take_append (c ∷ cs) u k =
    ap (◌∷◌ c) (take_append cs u k)
    ∙ ap (λ n. take n (c ∷ cs ++ u)) {x = suc (length cs + k)} {y = suc (length cs) + k}
        (omega arith)

overwrite_fits :
    (buf : List ℕ) (at : ℕ) (bs : List ℕ)
    → at + length bs ≤ length buf
    → overwrite buf at bs ≡ ok (take at buf ++ bs ++ drop (at + length bs) buf)
unfolding overwrite
overwrite_fits buf at bs h = rw (fits (length buf) (at + length bs) h) refl
  where
    fits : (l n : ℕ) → n ≤ l → ltb l n ≡ false
    fits l n h = ground arith

-- One step of `strlcat` with the number of places as `suc k`.
strlcat-eq :
    (buf : List ℕ) (src : Text) (siz d k : ℕ)
    → 0 < siz
    → find_end buf ≡ ok d
    → d + suc k ≡ siz
    → siz < 2 ^ 32
    → strlcat buf src siz
      ≡ (overwrite buf d (copy_loop (suc k) src) >>= λ b. ok (b, d + length src))
unfolding strlcat
strlcat-eq buf src siz d k h e p small =
    rw (not_zero siz h, e, places, not_zero (suc k) (omega arith)) refl
  where
    not_zero : (c : ℕ) → 0 < c → (c == 0) ≡ false
    not_zero c h = ground arith

    places : (siz + (2 ^ 32 - d)) % 2 ^ 32 ≡ suc k
    places = omega arith

regroup : (t x rest : List ℕ) → t ++ (x ++ (0 ∷ [])) ++ rest ≡ (t ++ x) ++ (0 ∷ rest)
regroup t x rest =
    append_assoc t (x ++ (0 ∷ [])) rest
    ∙ ap (λ u. t ++ u) (append_assoc x (0 ∷ []) rest)
    ∙ sym (append_assoc t x (0 ∷ rest))

-- For a buffer of fewer than 2 ^ 32 bytes that holds a text shorter than `siz`, with `siz` in the
-- buffer, and a source with no zero: `strlcat` leaves both texts in sequence, cut to `siz - 1`
-- characters and ended, in a buffer of the same length, and returns the sum of the lengths.
pub strlcat-Holds :
    (n : ℕ) (buf : List ℕ) (t src : Text) (siz : ℕ)
    → Holds n buf t
    → NoZero src
    → length t < siz
    → siz ≤ n
    → n < 2 ^ 32
    → (buf' : List ℕ) × (strlcat buf src siz ≡ ok (buf', length t + length src))
      × Holds n buf' (take (siz - 1) (t ++ src))
strlcat-Holds n buf t src siz h zero_free short room small =
    let k = siz - 1 - length t in
    let bs = copy_loop (suc k) src in
    let at = length t + length bs in
    let rest = drop at buf in
    let start = ap (take (length t)) h.shape ∙ take-append t (0 ∷ h.rest) in
    let cut : take (length t + k) (t ++ src) ≡ take (siz - 1) (t ++ src) =
      ap (λ m. take m (t ++ src)) (omega arith) in
    let copied : bs ≡ take k src ++ (0 ∷ []) = copy_loop-take k src in
    let most : length bs ≤ suc k =
      omega (arith, ap length copied, length-append (take k src) (0 ∷ []), length-take k src) in
    let e1 = ap find_end h.shape ∙ find_end-shape t h.rest h.zero_free in
    let e2 = strlcat-eq buf src siz (length t) k (omega arith) e1 (omega arith) (omega arith) in
    let e3 = overwrite_fits buf (length t) bs (omega (arith, h.room)) in
    (
      take (length t) buf ++ bs ++ rest,
      e2 ∙ ap (λ m. m >>= λ b. ok (b, length t + length src)) e3,
      record {
        rest = rest;
        shape =
            ap₂ (λ a b. a ++ b ++ rest) start copied
            ∙ regroup t (take k src) rest
            ∙ ap (◌++ (0 ∷ rest)) (take_append t src k ∙ cut);
        zero_free = NoZero-take (siz - 1) (t ++ src) (NoZero-append t src h.zero_free zero_free);
        room = omega (
          arith,
          length-append (take (length t) buf ++ bs) rest,
          length-append (take (length t) buf) bs,
          length-take (length t) buf,
          length-drop at buf,
          h.room,
          most,
        );
      },
    )
