-- ===== src/Base/Bits/Step.antt =====
-- `bit_and`, `bit_or` and `bit_xor` of the host run a recursion on digits with fuel. A well-founded
-- induction on the first argument shows that the fuel is not seen, which leaves one equation each.
use Prim.Native.Nat.{ℕ, zero, suc, ◌+◌, ◌*◌, ◌/◌, ◌%◌, ◌≤◌, ◌<◌, min, max, digits, bitwise, differ}
use Prim.Native.Nat.{bit_and, bit_or, bit_xor, bit_and-bitwise, bit_or-bitwise, bit_xor-bitwise}
use mathlib.Core.WellFounded.{Acc, WellFounded, induction}
use native.Mathlib.Omega.{arith}
use mathlib.Core.Path.{◌≡◌, refl, sym, ap, ◌∙◌}

Acc-below : (bound : ℕ) {x : ℕ} → x < bound → Acc ◌<◌ x
Acc-below zero h = absurd (omega arith)
Acc-below (suc bound) h = Acc.intro _ (λ y below. Acc-below bound (omega arith))

pub lt_wf : WellFounded ◌<◌
lt_wf = record { apply = λ x. Acc-below (suc x) (omega arith) }

-- Two functions that are alike at 0 and add the same digit to their value at the half.
pub halving :
    (f g digit : ℕ → ℕ)
    → f 0 ≡ g 0
    → ((x : ℕ) → f x ≡ f (x / 2) * 2 + digit x)
    → ((x : ℕ) → g x ≡ g (x / 2) * 2 + digit x)
    → (x : ℕ) → f x ≡ g x
halving f g digit origin df dg x = induction lt_wf x next
  where
    next : (y : ℕ) → ((h : ℕ) → h < y → f h ≡ g h) → f y ≡ g y
    next zero below = origin
    next (suc y) below =
        df (suc y)
        ∙ ap (λ t. t * 2 + digit (suc y)) (below (suc y / 2) (omega arith))
        ∙ sym (dg (suc y))

-- The recursion, for what it does at 0 and with two digits.
module _ (base : ℕ → ℕ) (op : ℕ → ℕ → ℕ) where
  at_zero : (fuel y : ℕ) → digits base op fuel 0 y ≡ base y
  at_zero zero y = refl
  at_zero (suc fuel) y = refl

  abbrev FuelFree : ℕ → Type 0
  FuelFree x = (k l y : ℕ) → x ≤ k → x ≤ l → digits base op k x y ≡ digits base op l x y

  fuel_step : (x : ℕ) → ((w : ℕ) → w < x → FuelFree w) → FuelFree x
  fuel_step zero below k l y hk hl = at_zero k y ∙ sym (at_zero l y)
  fuel_step (suc x) below zero l y hk hl = absurd (omega arith)
  fuel_step (suc x) below (suc k) zero y hk hl = absurd (omega arith)
  fuel_step (suc x) below (suc k) (suc l) y hk hl =
      ap (λ t. t * 2 + op (suc x % 2) (y % 2))
        (below (suc x / 2) (omega arith) k l (y / 2) (omega arith) (omega arith))

  lowest :
      (x y : ℕ)
      → bitwise base op (suc x) y ≡ bitwise base op (suc x / 2) (y / 2) * 2 + op (suc x % 2) (y % 2)
  lowest x y =
      ap (λ t. t * 2 + op (suc x % 2) (y % 2))
        (induction lt_wf (suc x / 2) fuel_step x (suc x / 2) (y / 2) (omega arith) (omega arith))

pub bit_xor_step : (x y : ℕ) → bit_xor x y ≡ bit_xor (x / 2) (y / 2) * 2 + differ (x % 2) (y % 2)
bit_xor_step zero y = simp bit_xor-bitwise (omega arith)
bit_xor_step (suc x) y = simp bit_xor-bitwise (lowest (λ t. t) differ x y)

pub bit_and_step : (x y : ℕ) → bit_and x y ≡ bit_and (x / 2) (y / 2) * 2 + min (x % 2) (y % 2)
bit_and_step zero y = simp bit_and-bitwise (omega arith)
bit_and_step (suc x) y = simp bit_and-bitwise (lowest (λ t. 0) min x y)

pub bit_or_step : (x y : ℕ) → bit_or x y ≡ bit_or (x / 2) (y / 2) * 2 + max (x % 2) (y % 2)
bit_or_step zero y = simp bit_or-bitwise (omega arith)
bit_or_step (suc x) y = simp bit_or-bitwise (lowest (λ t. t) max x y)

pub differ-zero : (d : ℕ) → differ d 0 ≡ d
differ-zero zero = refl
differ-zero (suc d) = refl
