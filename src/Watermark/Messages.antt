-- ===== src/Watermark/Messages.antt =====
-- The messages of wmdata.c: what a reader finds of what a server has pushed.
use mathlib.Core.Path.{subst}
use aping.Base.{
  ℕ, zero, suc, ◌+◌, ◌%◌, ◌^◌, ◌<◌, ◌≤◌, List, [], ◌∷◌, ◌++◌, true, false, Option, none, some, take,
  drop, length, get_elem?, set, length-set, get_elem?-set_self, get_elem?-set_ne, leb, ltb, ◌==◌,
  if◌then◌else◌, ◌≡◌, ◌≢◌, ◌⊎◌, leb→le, refl, sym, ap, ◌∙◌, inl, inr, Bool-cases, arith,
}
use aping.Base.Int.{ℤ, pos, negsuc, ◌+ℤ◌, residue}
use aping.Base.Outcome.{Run, ok, ◌>>=◌}
use aping.Watermark.{
  eth_crc, Bucket, Arena, watermark_init, slot_of, set_id, flag, new_bucket, swap, watermark_push,
  is_message, watermark_pop,
}

-- The id before a message, as the server gives it.
abbrev old_id : ℕ → ℤ
old_id zero = negsuc 0
old_id (suc n) = pos n

next_id : (n : ℕ) → old_id n +ℤ pos 1 ≡ pos n
unfolding ◌+ℤ◌
next_id zero = refl
next_id (suc n) = ground arith

before_or_same : (m n : ℕ) → m < suc n → (m < n) ⊎ (m ≡ n)
before_or_same m n h = omega arith

take_kept : (k : ℕ) (x y : List ℕ) → k ≤ length x → take k (take k x ++ y) ≡ take k x
take_kept zero x y h = refl
take_kept (suc k) [] y h = absurd (omega arith)
take_kept (suc k) (c ∷ cs) y h = ap (◌∷◌ c) (take_kept k cs y (omega arith))

-- A cut at the lesser of 12 and the length is a cut at 12.
cut : (k : ℕ) (x : List ℕ) → take (if ltb k (length x) then k else length x) x ≡ take k x
cut k x = elim (Bool-cases (ltb k (length x))) [
  | inl t ↦ rw t refl
  | inr f ↦ rw f (cut_all k x (not_ltb k (length x) f))
]
  where
    not_ltb : (k l : ℕ) → ltb k l ≡ false → l ≤ k
    not_ltb k l h = ground arith

    cut_all : (k : ℕ) (x : List ℕ) → length x ≤ k → take (length x) x ≡ take k x
    cut_all zero [] h = refl
    cut_all (suc k) [] h = refl
    cut_all zero (c ∷ cs) h = absurd (omega arith)
    cut_all (suc k) (c ∷ cs) h = ap (◌∷◌ c) (cut_all k cs (omega arith))

small_word : (m : ℕ) → m < 2 ^ 31 → (m + 1) % 2 ^ 32 ≡ m + 1
small_word m h = omega arith

module _ (stack : List ℕ) (messages : ℕ → List ℕ) where
  -- The server pushes the messages 0 to `n - 1`, from its start on.
  unfoldable pub serve : ℕ → Run Arena
  serve zero = ok watermark_init
  serve (suc n) =
      serve n >>= λ a. watermark_push stack a (messages n) (length (messages n)) (old_id n)

  -- The length that is kept of a message.
  abbrev kept : ℕ → ℕ
  kept n = if ltb 12 (length (messages n)) then 12 else length (messages n)

  abbrev bucket_of : ℕ → Bucket
  bucket_of n = record {
    id = n;
    wrote = n;
    crc = eth_crc (take (kept n) (messages n));
    len = kept n;
    buffer = take (kept n) (messages n) ++ drop (kept n) stack;
  }

  kept-le : (n : ℕ) → leb (kept n) (length (messages n)) ≡ true
  kept-le n = ground arith

  residue_small : (n : ℕ) → n < 2 ^ 32 → residue (2 ^ 32) (pos n) ≡ n
  residue_small n h = omega arith

  new_bucket-eq :
      (n : ℕ)
      → n < 2 ^ 32
      → new_bucket stack (messages n) (length (messages n)) (pos n) ≡ ok (bucket_of n)
  unfolding new_bucket
  new_bucket-eq n h = rw (kept-le n, residue_small n h) refl

  abbrev flagged : Arena → ℕ → List Bucket
  flagged a n = set_id n (get_elem? a.buckets (n % 12)) a.buckets (n % 12)

  push-eq :
      (a : Arena) (n : ℕ)
      → n < 2 ^ 32
      → watermark_push stack a (messages n) (length (messages n)) (old_id n)
        ≡ ok (record a { buckets = set (flagged a n) (n % 12) (bucket_of n) })
  unfolding watermark_push flag swap slot_of
  push-eq a n h = rw (next_id n, new_bucket-eq n h, residue_small n h) refl

  flagged-length :
      (i k : ℕ) (o : Option Bucket) (bs : List Bucket) → length (set_id i o bs k) ≡ length bs
  flagged-length i k none bs = refl
  flagged-length i k (some b) bs = length-set bs k _

  flagged-other :
      (i k j : ℕ) (o : Option Bucket) (bs : List Bucket)
      → k ≢ j
      → get_elem? (set_id i o bs k) j ≡ get_elem? bs j
  flagged-other i k j none bs ne = refl
  flagged-other i k j (some b) bs ne = get_elem?-set_ne bs _ ne

  -- After `n` messages the last twelve stand in the ring.
  record Recent (a : Arena) (n : ℕ) : Type 0 where
    room : length a.buckets ≡ 12
    stored : (m : ℕ) → m < n → n ≤ m + 12 → get_elem? a.buckets (m % 12) ≡ some (bucket_of m)

  -- One bucket more.
  pushed-Recent :
      (a : Arena) (n : ℕ)
      → Recent a n
      → Recent (record a { buckets = set (flagged a n) (n % 12) (bucket_of n) }) (suc n)
  pushed-Recent a n h = record {
    room = length-set (flagged a n) (n % 12) (bucket_of n) ∙ keep_length;
    stored = λ m low high. stored_at m low high;
  }
    where
      keep_length : length (flagged a n) ≡ 12
      keep_length = flagged-length n (n % 12) (get_elem? a.buckets (n % 12)) a.buckets ∙ h.room

      apart : (m : ℕ) → m < n → suc n ≤ m + 12 → n % 12 ≢ m % 12
      apart m low high e = omega arith

      stored_at :
          (m : ℕ)
          → m < suc n
          → suc n ≤ m + 12
          → get_elem? (set (flagged a n) (n % 12) (bucket_of n)) (m % 12) ≡ some (bucket_of m)
      stored_at m low high = elim (before_or_same m n low) [
        | inl before ↦
            get_elem?-set_ne (flagged a n) (bucket_of n) (apart m before high)
            ∙ flagged-other n (n % 12) (m % 12) (get_elem? a.buckets (n % 12)) a.buckets
                (apart m before high)
            ∙ h.stored m before (omega arith)
        | inr same ↦
            subst
              (λ x.
                get_elem? (set (flagged a n) (n % 12) (bucket_of n)) (x % 12) ≡ some (bucket_of x))
              (sym same)
              (get_elem?-set_self (flagged a n) (n % 12) (bucket_of n) (omega (arith, keep_length)))
      ]

  served : (n : ℕ) → n ≤ 2 ^ 31 → (a : Arena) × (serve n ≡ ok a) × Recent a n
  unfolding serve
  served zero h =
      (watermark_init, refl, record { room = refl; stored = λ m low high. absurd (omega arith) })
  served (suc n) h =
      let (a, e, r) = served n (omega arith) in
      (_, rw e (push-eq a n (omega arith)), pushed-Recent a n r)

  bucket-kept : (n : ℕ) → take (kept n) (bucket_of n).buffer ≡ take (kept n) (messages n)
  bucket-kept n =
      take_kept (kept n) (messages n) (drop (kept n) stack)
        (leb→le (kept n) (length (messages n)) (kept-le n))

  same_word : (n : ℕ) → (n == n) ≡ true
  same_word n = ground arith

  leb_self : (n : ℕ) → leb n n ≡ true
  leb_self n = ground arith

  bucket-is_message : (n : ℕ) → n < 2 ^ 32 → is_message (bucket_of n) (pos n) ≡ true
  unfolding is_message
  bucket-is_message n h =
      rw (same_word n, residue_small n h, leb_self n, bucket-kept n)
        (same_word (eth_crc (take (kept n) (messages n))))

  pop-found :
      (a : Arena) (later : List Arena) (m : ℕ) (b : Bucket)
      → get_elem? a.buckets (m % 12) ≡ some b
      → is_message b (pos m) ≡ true
      → watermark_pop (a ∷ later) (pos m) ≡ ok (b, (b.id + 1) % 2 ^ 32)
  unfolding watermark_pop slot_of
  pop-found a later m b h k = rw (h, k) refl

  -- After a server has pushed up to 2 ^ 31 messages in order from the start, a reader of any of
  -- the last twelve gets, with the next id, the first 12 bytes of that message.
  pub served-popped :
      (n m : ℕ) (later : List Arena)
      → n ≤ 2 ^ 31
      → m < n
      → n ≤ m + 12
      → (a : Arena) × (serve n ≡ ok a)
        × ((b : Bucket) × (watermark_pop (a ∷ later) (pos m) ≡ ok (b, m + 1))
            × (take b.len b.buffer ≡ take 12 (messages m)))
  served-popped n m later small low high =
      let (a, e, r) = served n small in
      (
        a,
        e,
        (
          bucket_of m,
          pop-found a later m (bucket_of m) (r.stored m low high)
                (bucket-is_message m (omega arith))
              ∙ ap (λ i. ok (bucket_of m, i)) (small_word m (omega arith)),
          bucket-kept m ∙ cut 12 (messages m),
        ),
      )
