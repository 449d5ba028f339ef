-- ===== src/Socket.antt =====
-- `atomic_sendto` of socket.c, on the results of `sendto` in the order of the calls.
use mathlib.Core.Path.{subst}
use aping.Base.{
  ℕ, zero, suc, ◌+◌, ◌-◌, ◌≤◌, ◌<◌, List, [], ◌∷◌, ◌++◌, take, drop, take-append-drop, length,
  length-drop, Bool, true, false, ◌≡◌, refl, sym, ap, ◌∙◌, arith, leb, if◌then◌else◌, Option, none,
  some, ◌⊎◌, inl, inr, Bool-cases,
}
use aping.Base.Int.{ℤ, pos, negsuc}

-- One result of `sendto`: the bytes that were sent, or an error, with whether it is `EINTR` or `EAGAIN`.
pub data Sent : Type 0 where
  sent : ℕ → Sent
  failed_with : Bool → Sent

-- The bytes that one call took, before those of the later calls.
abbrev pub taken_first : List ℕ → Option (ℤ × List ℕ) → Option (ℤ × List ℕ)
taken_first bs none = none
taken_first bs (some (v, later)) = some (v, bs ++ later)

-- The loop at `pos` of the bytes `s`: the value of `atomic_sendto`, and the bytes that the calls took
-- from the place `s + pos` on; `none` where the results end before the call does.
unfoldable send_from : List ℕ → ℕ → List Sent → Option (ℤ × List ℕ)
send_from s done [] = if leb (length s) done then some (pos done, []) else none
send_from s done (sent zero ∷ rs) =
    if leb (length s) done then some (pos done, []) else some (pos 0, [])
send_from s done (sent (suc k) ∷ rs) =
    let rest = taken_first (take (suc k) (drop done s)) (send_from s (done + suc k) rs) in
    if leb (length s) done then some (pos done, []) else rest
send_from s done (failed_with true ∷ rs) =
    let rest = send_from s done rs in if leb (length s) done then some (pos done, []) else rest
send_from s done (failed_with false ∷ rs) =
    if leb (length s) done then some (pos done, []) else some (negsuc 0, [])

-- `atomic_sendto` for the bytes `s`.
unfoldable pub atomic_sendto : List ℕ → List Sent → Option (ℤ × List ℕ)
unfolding send_from
atomic_sendto s rs = send_from s 0 rs

-- `sendto` takes at most what it is given.
abbrev pub Fits : ℕ → List Sent → Type 0
Fits room [] = Unit
Fits room (sent k ∷ rs) = (k ≤ room) × Fits (room - k) rs
Fits room (failed_with b ∷ rs) = Fits room rs

-- The bytes of all results.
abbrev pub taken : List Sent → ℕ
taken [] = 0
taken (sent k ∷ rs) = k + taken rs
taken (failed_with b ∷ rs) = taken rs

-- The value of a call that ends the loop: 0 bytes, or an error that is neither `EINTR` nor `EAGAIN`.
abbrev pub stops : Sent → Option ℤ
stops (sent zero) = some (pos 0)
stops (sent (suc k)) = none
stops (failed_with true) = none
stops (failed_with false) = some (negsuc 0)

abbrev pub AllGoOn : List Sent → Type 0
AllGoOn [] = Unit
AllGoOn (r ∷ rs) = (stops r ≡ none) × AllGoOn rs

-- The results up to the last call that is made go on, and sum to the length.
abbrev pub Whole : ℕ → List Sent → Type 0
Whole n rs =
    (before : List Sent) × (after : List Sent) × (rs ≡ before ++ after)
    × AllGoOn before
    × (taken before ≡ n)

-- A call ends the loop with the value `v`, after others that went on and sum to `k`, less than the length.
abbrev pub Stopped : ℕ → ℕ → ℤ → List Sent → Type 0
Stopped n k v rs =
    (before : List Sent) × (x : Sent) × (after : List Sent) × (rs ≡ before ++ (x ∷ after))
    × AllGoOn before
    × (stops x ≡ some v)
    × (taken before ≡ k)
    × (k < n)

-- What the loop leaves for the bytes `s`, of which `done` were sent before.
abbrev pub Ends : ℕ → List ℕ → List Sent → Option (ℤ × List ℕ) → Type 0
Ends done s rs none = AllGoOn rs × (taken rs < length s)
Ends done s rs (some (v, bs)) =
    ((v ≡ pos (done + length s)) × (bs ≡ s) × Whole (length s) rs)
    ⊎ ((k : ℕ) × (bs ≡ take k s) × Stopped (length s) k v rs)

take_nil : (m : ℕ) → take {A = ℕ} m [] ≡ []
take_nil zero = refl
take_nil (suc m) = refl

drop_nil : (m : ℕ) → drop {A = ℕ} m [] ≡ []
drop_nil zero = refl
drop_nil (suc m) = refl

take-drop : (k m : ℕ) (s : List ℕ) → take k s ++ take m (drop k s) ≡ take (k + m) s
take-drop zero m s = ap (λ j. take j s) {x = m} {y = 0 + m} (omega arith)
take-drop (suc k) m [] = take_nil m ∙ sym (take_nil (suc k + m))
take-drop (suc k) m (x ∷ s) =
    ap (λ l. x ∷ l) (take-drop k m s)
    ∙ ap (λ j. take j (x ∷ s)) {x = suc (k + m)} {y = suc k + m} (omega arith)

drop-drop : (k m : ℕ) (s : List ℕ) → drop m (drop k s) ≡ drop (k + m) s
drop-drop zero m s = ap (λ j. drop j s) {x = m} {y = 0 + m} (omega arith)
drop-drop (suc k) m [] = drop_nil m ∙ sym (drop_nil (suc k + m))
drop-drop (suc k) m (x ∷ s) =
    drop-drop k m s ∙ ap (λ j. drop j (x ∷ s)) {x = suc (k + m)} {y = suc k + m} (omega arith)

nothing_left : (s : List ℕ) → length s ≡ 0 → [] ≡ s
nothing_left [] e = refl
nothing_left (x ∷ s) e = absurd (omega (arith, e))

-- The loop is not entered again.
finished : (d : ℕ) (s : List ℕ) (rs : List Sent) → length s ≡ 0 → Ends d s rs (some (pos d, []))
finished d s rs e =
    inl (ap pos (omega (arith, e)), nothing_left s e, ([], rs, refl, tt, omega (arith, e)))

again :
    (d : ℕ) (s : List ℕ) (rs : List Sent) (out : Option (ℤ × List ℕ))
    → Ends d s rs out
    → Ends d s (failed_with true ∷ rs) out
again d s rs none (all, less) = ((refl, all), less)
again d s rs (some (v, bs)) (inl (e, b, (before, after, q, all, t))) =
    inl (e, b, (failed_with true ∷ before, after, ap (λ l. failed_with true ∷ l) q, (refl, all), t))
again d s rs (some (v, bs)) (inr (k, b, (before, x, after, q, all, st, t, less))) = inr (
  k,
  b,
  (failed_with true ∷ before, x, after, ap (λ l. failed_with true ∷ l) q, (refl, all), st, t, less),
)

one_more :
    (k d : ℕ) (s : List ℕ) (rs : List Sent) (out : Option (ℤ × List ℕ))
    → suc k ≤ length s
    → Ends (d + suc k) (drop (suc k) s) rs out
    → Ends d s (sent (suc k) ∷ rs) (taken_first (take (suc k) s) out)
one_more k d s rs none h (all, less) = ((refl, all), omega (arith, less, length-drop (suc k) s))
one_more k d s rs (some (v, bs)) h (inl (e, b, (before, after, q, all, t))) = inl (
  e ∙ ap pos (omega (arith, length-drop (suc k) s)),
  ap (λ l. take (suc k) s ++ l) b ∙ take-append-drop (suc k) s,
  (
    sent (suc k) ∷ before,
    after,
    ap (λ l. sent (suc k) ∷ l) q,
    (refl, all),
    omega (arith, t, length-drop (suc k) s, h),
  ),
)
one_more k d s rs (some (v, bs)) h (inr (j, b, (before, x, after, q, all, st, t, less))) = inr (
  suc k + j,
  ap (λ l. take (suc k) s ++ l) b ∙ take-drop (suc k) j s,
  (
    sent (suc k) ∷ before,
    x,
    after,
    ap (λ l. sent (suc k) ∷ l) q,
    (refl, all),
    st,
    omega (arith, t),
    omega (arith, less, length-drop (suc k) s),
  ),
)

module _ (s : List ℕ) where
  chosen :
      (d : ℕ) (rs : List Sent) (out : Option (ℤ × List ℕ))
      → d ≤ length s
      → (d < length s → Ends d (drop d s) rs out)
      → Ends d (drop d s) rs (if leb (length s) d then some (pos d, []) else out)
  chosen d rs out h rest = elim (Bool-cases (leb (length s) d)) [
    | inl e ↦
        let full : length s ≤ d = ground (arith, e) in
        rw e (finished d (drop d s) rs (omega (arith, full, h, length-drop d s)))
    | inr e ↦ let less : d < length s = ground (arith, e) in rw e (rest less)
  ]

  send_from-Ends :
      (d : ℕ) (rs : List Sent)
      → d ≤ length s
      → Fits (length s - d) rs
      → Ends d (drop d s) rs (send_from s d rs)
  unfolding send_from
  send_from-Ends d [] h f = chosen d [] none h (λ less. (tt, omega (arith, less, length-drop d s)))
  send_from-Ends d (sent zero ∷ rs) h f = chosen d (sent zero ∷ rs) _ h (λ less.
      inr
        (0, refl, ([], sent zero, rs, refl, tt, refl, refl, omega (arith, less, length-drop d s))))
  send_from-Ends d (failed_with false ∷ rs) h f = chosen d (failed_with false ∷ rs) _ h (λ less.
      inr (
        0,
        refl,
        ([], failed_with false, rs, refl, tt, refl, refl, omega (arith, less, length-drop d s)),
      ))
  send_from-Ends d (failed_with true ∷ rs) h f =
      chosen d (failed_with true ∷ rs) _ h
        (λ less. again d (drop d s) rs _ (send_from-Ends d rs h f))
  send_from-Ends d (sent (suc k) ∷ rs) h f =
      let room : Fits (length s - (d + suc k)) rs = subst (λ r. Fits r rs) (omega arith) f.1 in
      let next =
        subst (λ l. Ends (d + suc k) l rs (send_from s (d + suc k) rs))
          (sym (drop-drop d (suc k) s))
          (send_from-Ends (d + suc k) rs (omega (arith, f.0, h)) room) in
      chosen d (sent (suc k) ∷ rs) _ h
        (λ less. one_more k d (drop d s) rs _ (omega (arith, f.0, length-drop d s)) next)

-- Where no result of `sendto` exceeds what was left to send: `atomic_sendto` passes over the
-- errors `EINTR` and `EAGAIN` and sends all bytes in order, once each, with the length as its
-- value; or it ends at the first call with 0 bytes or another error before the end, with the
-- value 0 or -1 and the first bytes sent that the calls before took; and the results run out only
-- where all go on and sum to less than the length.
pub atomic_sendto-Ends :
    (s : List ℕ) (rs : List Sent) → Fits (length s) rs → Ends 0 s rs (atomic_sendto s rs)
unfolding atomic_sendto
atomic_sendto-Ends s rs f =
    send_from-Ends s 0 rs (omega arith) (subst (λ r. Fits r rs) (omega arith) f)
