-- ===== src/Statistic/Round.antt =====
-- `magic_round` of statistic.c: the multiple of the sending period that is nearest to a time.
use aping.Base.{ℕ, zero, suc, ◌+◌, ◌*◌, ◌^◌, ◌≤◌, ◌<◌, true, false, Option, none, some}
use aping.Base.{◌≡◌, ◌⊎◌, inl, inr, refl, sym, ap, ◌∙◌, arith, if◌then◌else◌, Bool-cases}
use mathlib.Core.Path.{subst}
use native.Mathlib.Decide.{dec_le}
use aping.Base.Int.{
  ℤ, pos, negsuc, pos_part, neg_part, ◌+ℤ◌, ◌-ℤ◌, abs, ltb_ℤ, i32, i32-eq, +ℤ_pos, wrap,
}

-- `while (s <= b) s += a`; `none` means that the fuel ran out.
unfoldable round_loop : ℕ → ℤ → ℤ → ℤ → Option ℤ
round_loop zero a b s = none
round_loop (suc f) a b s =
    let rest = round_loop f a b (i32 (s +ℤ a)) in if ltb_ℤ b s then some s else rest

-- `ABS` of an `int`.
abbrev pub abs_int : ℤ → ℤ
abs_int x = i32 (abs x)

-- The differences are taken in 32 bits.
unfoldable pub pick : ℤ → ℤ → ℤ → ℤ
pick a b s =
    if ltb_ℤ (abs_int (i32 (s -ℤ b))) (abs_int (i32 (i32 (s -ℤ a) -ℤ b))) then s else i32 (s -ℤ a)

abbrev pick_some : ℤ → ℤ → Option ℤ → Option ℤ
pick_some a b none = none
pick_some a b (some s) = some (pick a b s)

unfoldable pub magic_round : ℕ → ℤ → ℤ → Option ℤ
unfolding round_loop pick
magic_round fuel a b = pick_some a b (round_loop fuel a b a)

step-eq : (m A B : ℕ) → m * A ≤ B → A + B < 2 ^ 31 → i32 (pos (m * A) +ℤ pos A) ≡ pos (suc m * A)
step-eq m A B h r =
    let e : m * A + A ≡ suc m * A = omega arith in
    ap i32 (+ℤ_pos (m * A) A ∙ ap pos e) ∙ i32-eq (pos (suc m * A)) (omega arith) (omega arith)

-- The loop ends at the first multiple above `B`, from the multiple that it has reached.
loop_stops :
    (f A m B : ℕ)
    → 0 < A
    → A + B < 2 ^ 31
    → 0 < f
    → B + 1 < f + m * A
    → (n : ℕ) × (round_loop f (pos A) (pos B) (pos (m * A)) ≡ some (pos (n * A)))
      × (B < n * A)
      × (m ≤ n)
      × ((n ≡ m) ⊎ (n * A ≤ B + A))
unfolding round_loop
loop_stops zero A m B h r p l = absurd (omega arith)
loop_stops (suc f) A m B h r p l = elim (Bool-cases (ltb_ℤ (pos B) (pos (m * A)))) [
  | inl stop ↦ (m, rw stop, ground arith, omega arith, inl refl)
  | inr more ↦
      let small : m * A ≤ B = ground arith in
      let (n, e, above, le, near) = loop_stops f A (suc m) B h r (omega arith) (omega arith) in
      (n, rw (more, step-eq m A B small r) e, above, omega arith, inr (near_eq n near small))
]
  where
    near_eq : (n : ℕ) → (n ≡ suc m) ⊎ (n * A ≤ B + A) → m * A ≤ B → n * A ≤ B + A
    near_eq n (inl e) small = rw e (omega arith)
    near_eq n (inr h) small = h

-- The multiple `r * A`, as a distance from `b`.
abbrev pub distance : ℤ → ℤ → ℕ
distance a b = pos_part (abs (a -ℤ b))

pub record IsNearest (A : ℕ) (b : ℤ) (r : ℤ) : Type 0 where
  pub factor : ℕ
  pub multiple : r ≡ pos (factor * A)
  pub nearest : (k : ℕ) → distance r b ≤ distance (pos (k * A)) b

mul_mono : (k p A : ℕ) → k ≤ p → k * A ≤ p * A
mul_mono k p A h = grind arith

minus_period : (p A : ℕ) → pos (suc p * A) -ℤ pos A ≡ pos (p * A)
unfolding ◌-ℤ◌
minus_period p A = ground arith

-- In range nothing wraps.
abbrev InRange : ℤ → Type 0
InRange z = pos_part z + neg_part z < 2 ^ 31

in_range : (z : ℤ) → InRange z → (i32 z ≡ z) × (abs_int z ≡ abs z)
in_range z h = (i32-eq z (omega (arith, h)) (omega (arith, h)), i32-eq (abs z) h (omega arith))

abbrev exact_pick : ℤ → ℤ → ℤ → ℤ
exact_pick a b s = if ltb_ℤ (abs (s -ℤ b)) (abs (s -ℤ a -ℤ b)) then s else s -ℤ a

pick-eq :
    (a b s : ℤ)
    → InRange (s -ℤ b)
    → InRange (s -ℤ a)
    → InRange (s -ℤ a -ℤ b)
    → pick a b s ≡ exact_pick a b s
unfolding pick
pick-eq a b s h k l =
    let (e1, e2) = in_range (s -ℤ b) h in
    let (e3, e4) = in_range (s -ℤ a) k in
    let (e5, e6) = in_range (s -ℤ a -ℤ b) l in rw (e3, e1, e5, e2, e6) refl

-- Between two multiples that enclose `B`, the nearer is the nearest of all.
module _ (p A B : ℕ) (low : p * A ≤ B) (high : B < suc p * A) (range : A + B < 2 ^ 31) where
  upper_nearest :
      ltb_ℤ (abs (pos (suc p * A) -ℤ pos B)) (abs (pos (p * A) -ℤ pos B)) ≡ true
      → (k : ℕ) → distance (pos (suc p * A)) (pos B) ≤ distance (pos (k * A)) (pos B)
  unfolding ◌-ℤ◌
  upper_nearest t k = elim (dec_le k p) [
    | yes le ↦ let m : k * A ≤ p * A = mul_mono k p A le in ground arith
    | no gt ↦ let m : suc p * A ≤ k * A = mul_mono (suc p) k A (omega arith) in ground arith
  ]

  lower_nearest :
      ltb_ℤ (abs (pos (suc p * A) -ℤ pos B)) (abs (pos (p * A) -ℤ pos B)) ≡ false
      → (k : ℕ) → distance (pos (p * A)) (pos B) ≤ distance (pos (k * A)) (pos B)
  unfolding ◌-ℤ◌
  lower_nearest t k = elim (dec_le k p) [
    | yes le ↦ let m : k * A ≤ p * A = mul_mono k p A le in ground arith
    | no gt ↦ let m : suc p * A ≤ k * A = mul_mono (suc p) k A (omega arith) in ground arith
  ]

  differences : (k : ℕ) → k * A ≤ A + B → InRange (pos (k * A) -ℤ pos B)
  unfolding ◌-ℤ◌
  differences k h = ground arith

  exact_pick-IsNearest : IsNearest A (pos B) (exact_pick (pos A) (pos B) (pos (suc p * A)))
  exact_pick-IsNearest =
      rw (minus_period p A)
        (elim (Bool-cases (ltb_ℤ (abs (pos (suc p * A) -ℤ pos B)) (abs (pos (p * A) -ℤ pos B)))) [
          | inl t ↦ rw t (record { factor = suc p; multiple = refl; nearest = upper_nearest t })
          | inr t ↦ rw t (record { factor = p; multiple = refl; nearest = lower_nearest t })
        ])

  pick-IsNearest : IsNearest A (pos B) (pick (pos A) (pos B) (pos (suc p * A)))
  pick-IsNearest =
      let e = minus_period p A in
      let back : InRange (pos (suc p * A) -ℤ pos A) = subst InRange (sym e) (omega arith) in
      let far : InRange (pos (suc p * A) -ℤ pos A -ℤ pos B) =
        subst (λ z. InRange (z -ℤ pos B)) (sym e) (differences p (omega arith)) in
      subst (IsNearest A (pos B))
        (sym
          (pick-eq (pos A) (pos B) (pos (suc p * A)) (differences (suc p) (omega arith)) back far))
        exact_pick-IsNearest

pick_next-IsNearest :
    (n A B : ℕ)
    → B < n * A
    → 1 ≤ n
    → (n ≡ 1) ⊎ (n * A ≤ B + A)
    → A + B < 2 ^ 31
    → IsNearest A (pos B) (pick (pos A) (pos B) (pos (n * A)))
pick_next-IsNearest zero A B h l c range = absurd (omega arith)
pick_next-IsNearest (suc p) A B h l (inl e) range =
    let z : p ≡ 0 = omega arith in pick-IsNearest p A B (rw z (omega arith)) h range
pick_next-IsNearest (suc p) A B h l (inr c) range = pick-IsNearest p A B (omega arith) h range

-- For a period above 0 that with the absolute value of the time stays below 2 ^ 31, and fuel
-- above 0 that with the period exceeds the time by more than 1, the loop of `magic_round` ends,
-- and its result, with all differences taken in 32 bits, is a multiple of the period that is at
-- least as near to the time as every multiple that is not negative.
pub magic_round-IsNearest :
    (fuel A : ℕ) (b : ℤ)
    → 0 < A
    → A + (pos_part b + neg_part b) < 2 ^ 31
    → 0 < fuel
    → pos_part b + 1 < fuel + A
    → (r : ℤ) × (magic_round fuel (pos A) b ≡ some r) × IsNearest A b r
unfolding magic_round
magic_round-IsNearest fuel A (pos B) h r f l =
    let one : 1 * A ≡ A = omega arith in
    let (n, e, above, le, near) = loop_stops fuel A 1 B h (omega (arith, r)) f (omega arith) in
    (
      pick (pos A) (pos B) (pos (n * A)),
      ap (λ t. pick_some (pos A) (pos B) (round_loop fuel (pos A) (pos B) (pos t))) (sym one)
          ∙ ap (pick_some (pos A) (pos B)) e,
      pick_next-IsNearest n A B above le near (omega arith),
    )
magic_round-IsNearest zero A (negsuc B) h r f l = absurd (omega arith)
magic_round-IsNearest (suc fuel) A (negsuc B) h r f l = (
  pos 0,
  negative,
  record { factor = 0; multiple = ap pos (omega arith); nearest = λ k. closest k },
)
  where
    negative : magic_round (suc fuel) (pos A) (negsuc B) ≡ some (pos 0)
    negative =
        let same : pos A -ℤ pos A ≡ pos 0 = unfold ◌-ℤ◌ in ground arith in
        let e : pick (pos A) (negsuc B) (pos A) ≡ pos 0 =
          pick-eq (pos A) (negsuc B) (pos A) (unfold ◌-ℤ◌ in ground arith)
            (subst InRange (sym same) (omega arith))
            (subst (λ z. InRange (z -ℤ negsuc B)) (sym same) (unfold ◌-ℤ◌ in ground arith))
          ∙ (unfold ◌-ℤ◌ in ground arith) in
        let stop : ltb_ℤ (negsuc B) (pos A) ≡ true = ground arith in
        unfold round_loop in (rw stop (ap some e))

    closest : (k : ℕ) → distance (pos 0) (negsuc B) ≤ distance (pos (k * A)) (negsuc B)
    closest k = unfold ◌-ℤ◌ in ground arith

period_zero_stays : (f b : ℕ) → round_loop f (pos 0) (pos b) (pos 0) ≡ none
unfolding round_loop ◌+ℤ◌ wrap
period_zero_stays zero b = refl
period_zero_stays (suc f) b = ground (arith, period_zero_stays f b)

-- With a period of 0 and a time that is not negative no fuel ends the loop of `magic_round`.
magic_round_period_zero : (fuel B : ℕ) → magic_round fuel (pos 0) (pos B) ≡ none
unfolding magic_round
magic_round_period_zero fuel B = ap (pick_some (pos 0) (pos B)) (period_zero_stays fuel B)
