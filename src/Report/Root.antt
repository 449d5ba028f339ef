-- ===== src/Report/Root.antt =====
-- `ISQRT` is the integer square root.
use aping.Base.{
  ℕ, zero, suc, ◌+◌, ◌*◌, ◌%◌, ◌^◌, ◌≤◌, ◌<◌, ◌≡◌, arith, bit_xor, ltb, true, false, ap, ap₂, ◌∙◌,
  Bool-cases, inl, inr,
}
use mathlib.Core.Path.{subst}
use native.Mathlib.Nat.{pow-suc, one-le-pow}
use aping.Base.Bits.{mul-two-pow-suc, bit_xor_shifted, bit_xor_set, bit_xor_clear}
use aping.Report.{root_bits, isqrt}

abbrev pub IsRoot : ℕ → ℕ → Type 0
IsRoot v r = (r * r ≤ v) × (v < (r + 1) * (r + 1))

mod-lt : (a : ℕ) → a < 2 ^ 32 → a % 2 ^ 32 ≡ a
mod-lt a h = omega arith

lt_of_ltb : (a b : ℕ) → ltb a b ≡ true → a < b
lt_of_ltb a b h = ground arith

le_of_ltb : (a b : ℕ) → ltb a b ≡ false → b ≤ a
le_of_ltb a b h = ground arith

square-lt : (b : ℕ) → b < 65536 → b * b < 2 ^ 32
square-lt b h = grind arith

double : (m k : ℕ) → m * 2 ^ suc k ≡ 2 * m * 2 ^ k
double m k = mul-two-pow-suc m k ∙ omega arith

set_bit : (m k : ℕ) → bit_xor (m * 2 ^ suc k) (2 ^ k) ≡ (2 * m + 1) * 2 ^ k
set_bit m k =
    ap₂ bit_xor {x = m * 2 ^ suc k} {y = 2 * m * 2 ^ k} {u = 2 ^ k} {v = 1 * 2 ^ k} (double m k)
      (omega arith)
    ∙ bit_xor_shifted k (2 * m) 1
    ∙ ap (λ t. t * 2 ^ k) (bit_xor_set m)

clear_bit : (m k : ℕ) → bit_xor ((2 * m + 1) * 2 ^ k) (2 ^ k) ≡ 2 * m * 2 ^ k
clear_bit m k =
    ap (bit_xor ((2 * m + 1) * 2 ^ k)) {x = 2 ^ k} {y = 1 * 2 ^ k} (omega arith)
    ∙ bit_xor_shifted k (2 * m + 1) 1
    ∙ ap (λ t. t * 2 ^ k) (bit_xor_clear m)

root_bits-IsRoot :
    (k v m : ℕ)
    → m * 2 ^ k * (m * 2 ^ k) ≤ v
    → v < (m * 2 ^ k + 2 ^ k) * (m * 2 ^ k + 2 ^ k)
    → m * 2 ^ k + 2 ^ k ≤ 65536
    → IsRoot v (root_bits k v (m * 2 ^ k))
unfolding root_bits
root_bits-IsRoot zero v m low high small = (ground (arith, low), ground (arith, high))
root_bits-IsRoot (suc k) v m low high small =
    let P = 2 ^ k in
    let Y = 2 * m * P in
    let b = (2 * m + 1) * P in
    let split : b ≡ Y + P = omega arith in
    let low' : Y * Y ≤ v = subst (λ t. t * t ≤ v) (double m k) low in
    let top : m * 2 ^ suc k + 2 ^ suc k ≡ b + P = omega (arith, double m k, pow-suc 2 k, split) in
    let high' : v < (b + P) * (b + P) = subst (λ t. v < t * t) top high in
    let small' : b + P ≤ 65536 = subst (λ t. t ≤ 65536) top small in
    let whole : b * b % 2 ^ 32 ≡ b * b =
      mod-lt (b * b) (square-lt b (omega (arith, small', one-le-pow k 2))) in
    elim (Bool-cases (ltb v (b * b))) [
      | inl e ↦
          rw (set_bit m k, whole, e, clear_bit m k)
            (root_bits-IsRoot k v (2 * m) low'
              (subst (λ t. v < t * t) split (lt_of_ltb v (b * b) e)) (omega (arith, small', split)))
      | inr e ↦
          rw (set_bit m k, whole, e)
            (root_bits-IsRoot k v (2 * m + 1) (le_of_ltb v (b * b) e) high' small')
    ]

-- Below 2 ^ 32 the square of the result of `ISQRT` is at most the argument, and the square of the
-- next number is above it.
pub isqrt-IsRoot : (v : ℕ) → v < 2 ^ 32 → IsRoot v (isqrt v)
unfolding isqrt
isqrt-IsRoot v h = root_bits-IsRoot 16 v 0 (omega arith) h (omega arith)
