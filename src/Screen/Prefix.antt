-- ===== src/Screen/Prefix.antt =====
-- The prefix length that `dissect_address_mask_reply` of dissect-mask-reply.c counts.
use aping.Base.{
  ℕ, zero, suc, ◌+◌, ◌-◌, ◌*◌, ◌/◌, ◌%◌, ◌^◌, ◌<◌, false, some, ◌==◌, if◌then◌else◌, ◌≡◌, refl, sym,
  ap, ◌∙◌, arith, Bool-cases, inl, inr,
}
use native.Mathlib.Nat.{
  pow-suc, one-le-pow, add-mul-mod_self_right, mod-eq_of_lt, mod-lt, mod-one, mod-add-div,
  mul-lt-mul_of_pos_left,
}
use aping.Screen.Dissect.{class_loop, class_of}

regroup : (d a e b : ℕ) → d * (a + e * b) * 2 ≡ d * 2 * a + b * (d * 2 * e)
regroup d a e b = omega arith

-- One shift of `d * q`, where the word has `d * 2 * e` values.
shifted : (d q e : ℕ) → 0 < e → 0 < d → d * q * 2 % (d * 2 * e) ≡ d * 2 * (q % e)
shifted d q e he hd =
    let a = q % e in
    let b = q / e in
    let small : a < e = mod-lt q he in
    let whole : q ≡ a + e * b = sym (mod-add-div q e) in
    let split : d * q * 2 ≡ d * 2 * a + b * (d * 2 * e) =
      ap (λ x. d * x * 2) whole ∙ regroup d a e b in
    let below : d * 2 * a < d * 2 * e = mul-lt-mul_of_pos_left {k = d * 2} small (omega arith) in
    ap (λ x. x % (d * 2 * e)) split
    ∙ add-mul-mod_self_right (d * 2 * a) b (d * 2 * e)
    ∙ mod-eq_of_lt below

-- `i` more shifts are left after one: the odd part stays odd, or is shifted out.
class_loop_step :
    (i f d q c : ℕ)
    → d * 2 ^ suc i ≡ 2 ^ 32
    → 0 < d
    → class_loop (suc f) (d * q) c ≡ (
        if d * 2 * (q % 2 ^ i) == 0
        then some (c + 1)
        else class_loop f (d * 2 * (q % 2 ^ i)) (c + 1))
unfolding class_loop
class_loop_step i f d q c e hd =
    let e' : d * 2 * 2 ^ i ≡ 2 ^ 32 = omega (arith, ap (λ p. d * p) (pow-suc 2 i), e) in
    let s : d * q * 2 % 2 ^ 32 ≡ d * 2 * (q % 2 ^ i) =
      ap (λ n. d * q * 2 % n) (sym e') ∙ shifted d q (2 ^ i) (one-le-pow i 2 (omega arith)) hd in
    rw s refl

none_left : (d q : ℕ) → d * 2 * (q % 1) ≡ 0
none_left d q = ap (λ x. d * 2 * x) (mod-one q) ∙ omega arith

odd_left : (i q : ℕ) → q % 2 ≡ 1 → q % 2 ^ suc i % 2 ≡ 1
odd_left i q odd =
    omega (arith, mod-add-div q (2 ^ suc i), ap (λ p. p * (q / 2 ^ suc i)) (pow-suc 2 i))

some_left : (d r : ℕ) → 0 < d → r % 2 ≡ 1 → (d * 2 * r == 0) ≡ false
some_left d r hd odd =
    let more = mul-lt-mul_of_pos_left {m = 0} {n = r} {k = d * 2} (omega arith) (omega arith) in
    ground arith

-- The count goes on until the lowest bit that is set has been shifted out.
class_loop-odd :
    (i f d q c : ℕ)
    → d * 2 ^ suc i ≡ 2 ^ 32
    → 0 < d
    → i < f
    → q % 2 ≡ 1
    → class_loop f (d * q) c ≡ some (c + suc i)
class_loop-odd i zero d q c e hd h odd = elim h [ ]
class_loop-odd zero (suc f) d q c e hd h odd =
    class_loop_step zero f d q c e hd ∙ rw (none_left d q) refl
class_loop-odd (suc i) (suc f) d q c e hd h odd =
    let r = q % 2 ^ suc i in
    let odd' = odd_left i q odd in
    let rest =
      class_loop-odd i f (d * 2) r (c + 1) (omega (arith, e, ap (λ p. d * p) (pow-suc 2 (suc i))))
        (omega arith) (omega arith) odd' in
    class_loop_step (suc i) f d q c e hd ∙ rw (some_left d r hd odd') (rest ∙ ap some (omega arith))

class_loop_ends :
    (i f d q c : ℕ)
    → d * 2 ^ suc i ≡ 2 ^ 32
    → 0 < d
    → i < f
    → (n : ℕ) × (class_loop f (d * q) c ≡ some n)
class_loop_ends i zero d q c e hd h = elim h [ ]
class_loop_ends zero (suc f) d q c e hd h =
    (c + 1, class_loop_step zero f d q c e hd ∙ rw (none_left d q) refl)
class_loop_ends (suc i) (suc f) d q c e hd h =
    let r = q % 2 ^ suc i in
    let (n, rest) =
      class_loop_ends i f (d * 2) r (c + 1) (omega (arith, e, ap (λ p. d * p) (pow-suc 2 (suc i))))
        (omega arith) (omega arith) in
    elim (Bool-cases (d * 2 * r == 0)) [
      | inl t ↦ (c + 1, class_loop_step (suc i) f d q c e hd ∙ rw t refl)
      | inr t ↦ (n, class_loop_step (suc i) f d q c e hd ∙ rw t rest)
    ]

pow_split : (k i : ℕ) → 2 ^ k * 2 ^ i ≡ 2 ^ (i + k)
pow_split k zero = omega (arith, ap (λ n. 2 ^ n) zero_plus)
  where
    zero_plus : 0 + k ≡ k
    zero_plus = omega arith
pow_split k (suc i) = omega (
  arith,
  ap (λ p. 2 ^ k * p) (pow-suc 2 i),
  pow_split k i,
  pow-suc 2 (i + k),
  ap (λ n. 2 ^ n) plus,
)
  where
    plus : suc i + k ≡ suc (i + k)
    plus = omega arith

-- For a mask whose lowest bit that is set is bit `k`, with `k` below 32, the loop of
-- `dissect_address_mask_reply` ends with the class `32 - k`.
pub class_of-odd : (k q : ℕ) → k < 32 → q % 2 ≡ 1 → class_of (2 ^ k * q) ≡ some (32 - k)
unfolding class_of
class_of-odd k q h odd =
    let full : suc (31 - k) + k ≡ 32 = omega arith in
    let e : 2 ^ k * 2 ^ suc (31 - k) ≡ 2 ^ 32 = pow_split k (suc (31 - k)) ∙ ap (λ n. 2 ^ n) full in
    class_loop-odd (31 - k) 32 (2 ^ k) q 0 e (one-le-pow k 2 (omega arith)) (omega arith) odd
    ∙ ap some (omega arith)

-- The loop ends for every mask.
class_of_ends : (m : ℕ) → (n : ℕ) × (class_of m ≡ some n)
unfolding class_of
class_of_ends m =
    let (n, e) = class_loop_ends 31 32 1 m 0 refl (omega arith) (omega arith) in
    (n, ap (λ x. class_loop 32 x 0) (omega arith) ∙ e)
