-- ===== src/Base/Bits.antt =====
-- `&`, `|`, `^` and `~` at variables: one equation for the lowest digit, then masks and fields.
mod Step
pub use Step.{lt_wf}
use Step.{halving, bit_and_step, bit_or_step, bit_xor_step, differ-zero}
use mathlib.Core.Path.{◌≡◌, refl, ap, ap₂, ◌∙◌}
use native.Mathlib.Nat.{pow-suc, one-le-pow}
use native.Mathlib.Omega.{arith}
use Prim.Native.Nat.{ℕ, zero, suc, ◌+◌, ◌-◌, ◌*◌, ◌/◌, ◌%◌, ◌^◌, ◌<◌}
use Prim.Native.Nat.{bit_and, bit_or, bit_xor, differ}

bit_xor-zero : (x : ℕ) → bit_xor x 0 ≡ x
bit_xor-zero =
    halving (λ x. bit_xor x 0) (λ x. x) (λ x. x % 2) refl
      (λ x. bit_xor_step x 0 ∙ ap (λ d. bit_xor (x / 2) 0 * 2 + d) (differ-zero (x % 2)))
      (λ x. omega arith)

bit_and-zero : (x : ℕ) → bit_and x 0 ≡ 0
bit_and-zero =
    halving (λ x. bit_and x 0) (λ x. 0) (λ x. 0) refl (λ x. omega (arith, bit_and_step x 0))
      (λ x. refl)

bit_or-zero : (x : ℕ) → bit_or x 0 ≡ x
bit_or-zero =
    halving (λ x. bit_or x 0) (λ x. x) (λ x. x % 2) refl (λ x. omega (arith, bit_or_step x 0))
      (λ x. omega arith)

pub mul-two-pow-suc : (x width : ℕ) → x * 2 ^ suc width ≡ 2 * (x * 2 ^ width)
mul-two-pow-suc x width = ap (λ p. x * p) (pow-suc 2 width) ∙ omega arith

-- Two fields, the lower of `width` bits, joined by `|`.
pub bit_or_fields :
    (width high low : ℕ) → low < 2 ^ width → bit_or (high * 2 ^ width) low ≡ high * 2 ^ width + low
bit_or_fields zero high low h = ground (arith, bit_or-zero high)
bit_or_fields (suc width) high low h =
    let shift = mul-two-pow-suc high width in
    let upper = bit_or_fields width high (low / 2) (omega arith) in
    bit_or_step (high * 2 ^ suc width) low ∙ ground (arith, shift, upper)

-- The mask of the lower field selects it.
bit_and_fields :
    (width high low : ℕ) → low < 2 ^ width → bit_and (high * 2 ^ width + low) (2 ^ width - 1) ≡ low
bit_and_fields zero high low h = rw bit_and-zero (omega arith)
bit_and_fields (suc width) high low h =
    let shift = mul-two-pow-suc high width in
    let power = pow-suc 2 width in
    let upper = bit_and_fields width high (low / 2) (omega arith) in
    bit_and_step (high * 2 ^ suc width + low) (2 ^ suc width - 1)
    ∙ ground (arith, shift, power, upper)

-- So `& (2 ^ width - 1)` is `% 2 ^ width`.
pub bit_and_mask : (width x : ℕ) → bit_and x (2 ^ width - 1) ≡ x % 2 ^ width
bit_and_mask width x =
    let positive = one-le-pow width 2 in
    let split = bit_and_fields width (x / 2 ^ width) (x % 2 ^ width) in
    ground (arith, positive, split)

-- A mask whose `k` low bits are clear acts on the bits above.
pub bit_and_shifted :
    (k q r m : ℕ) → r < 2 ^ k → bit_and (q * 2 ^ k + r) (m * 2 ^ k) ≡ bit_and q m * 2 ^ k
bit_and_shifted zero q r m fits =
    ground (arith, ap (λ (t : ℕ). bit_and t m) {x = q + 0} {y = q} (omega arith))
bit_and_shifted (suc k) q r m fits = ground (
  arith,
  bit_and_step (q * 2 ^ suc k + r) (m * 2 ^ suc k),
  mul-two-pow-suc q k,
  mul-two-pow-suc m k,
  mul-two-pow-suc (bit_and q m) k,
  bit_and_shifted k q (r / 2) m (omega arith),
)

bit_xor-double : (a b : ℕ) → bit_xor (2 * a) (2 * b) ≡ bit_xor a b * 2
bit_xor-double a b =
    bit_xor_step (2 * a) (2 * b)
    ∙ ap₂ (λ x y. x * 2 + y)
        (ap₂ bit_xor {x = 2 * a / 2} {y = a} {u = 2 * b / 2} {v = b} (omega arith) (omega arith))
        (ap₂ differ {x = 2 * a % 2} {y = 0} {u = 2 * b % 2} {v = 0} (omega arith) (omega arith))
    ∙ omega arith

-- Exclusive or of two multiples of `2 ^ k`.
pub bit_xor_shifted : (k a b : ℕ) → bit_xor (a * 2 ^ k) (b * 2 ^ k) ≡ bit_xor a b * 2 ^ k
bit_xor_shifted zero a b =
    ap₂ bit_xor {x = a * 1} {y = a} {u = b * 1} {v = b} (omega arith) (omega arith) ∙ omega arith
bit_xor_shifted (suc k) a b =
    let ea : a * 2 ^ suc k ≡ 2 * (a * 2 ^ k) = mul-two-pow-suc a k in
    let eb : b * 2 ^ suc k ≡ 2 * (b * 2 ^ k) = mul-two-pow-suc b k in
    ap₂ bit_xor ea eb
    ∙ bit_xor-double (a * 2 ^ k) (b * 2 ^ k)
    ∙ omega (arith, bit_xor_shifted k a b, mul-two-pow-suc (bit_xor a b) k)

pub bit_xor_set : (q : ℕ) → bit_xor (2 * q) 1 ≡ 2 * q + 1
bit_xor_set q =
    bit_xor_step (2 * q) 1
    ∙ ap₂ (λ x y. x * 2 + differ y 1) {u = 2 * q % 2} {v = 0}
        (ap (λ t. bit_xor t 0) {x = 2 * q / 2} {y = q} (omega arith) ∙ bit_xor-zero q) (omega arith)
    ∙ omega arith

pub bit_xor_clear : (q : ℕ) → bit_xor (2 * q + 1) 1 ≡ 2 * q
bit_xor_clear q =
    bit_xor_step (2 * q + 1) 1
    ∙ ap₂ (λ x y. x * 2 + differ y 1) {u = (2 * q + 1) % 2} {v = 1}
        (ap (λ t. bit_xor t 0) {x = (2 * q + 1) / 2} {y = q} (omega arith) ∙ bit_xor-zero q)
        (omega arith)
    ∙ omega arith

differ-lt_two : (a b : ℕ) → a < 2 → b < 2 → differ a b < 2
differ-lt_two zero b h k = k
differ-lt_two (suc a) zero h k = h
differ-lt_two (suc a) (suc b) h k = differ-lt_two a b (omega arith) (omega arith)

bit_xor-zero_zero : bit_xor 0 0 < 1
bit_xor-zero_zero = omega arith

-- Words stay words.
pub bit_xor-lt : (k x y : ℕ) → x < 2 ^ k → y < 2 ^ k → bit_xor x y < 2 ^ k
bit_xor-lt zero x y h l =
    let a : x ≡ 0 = omega arith in let b : y ≡ 0 = omega arith in rw (a, b) bit_xor-zero_zero
bit_xor-lt (suc k) x y h l =
    let i = bit_xor-lt k (x / 2) (y / 2) (omega arith) (omega arith) in
    rw (bit_xor_step x y)
      (omega (arith, i, differ-lt_two (x % 2) (y % 2) (omega arith) (omega arith)))
