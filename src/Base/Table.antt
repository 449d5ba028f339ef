-- ===== src/Base/Table.antt =====
-- Checks over a small range, by evaluation.
use Prim.Native.Nat.{ℕ, zero, suc, ◌<◌}
use aping.Base.Tests.{if◌then◌else◌}
use mathlib.Core.Bool.{Bool, true, false}
use mathlib.Core.Path.{◌≡◌, refl}
use native.Mathlib.Omega.{arith}

unfoldable pub all_below : ℕ → (ℕ → Bool) → Bool
all_below zero test = true
all_below (suc bound) test = if all_below bound test then test bound else false

pub all_below_sound :
    (bound : ℕ) (test : ℕ → Bool) (v : ℕ) → all_below bound test ≡ true → v < bound → test v ≡ true
unfolding all_below
all_below_sound zero test v passed h = absurd (omega arith)
all_below_sound (suc bound) test v passed h =
    let smaller = all_below_sound bound test v in ground (arith, smaller)

abbrev pub same : Bool → Bool → Bool
same true b = b
same false true = false
same false false = true

pub eq_of_same : (a b : Bool) → same a b ≡ true → a ≡ b
eq_of_same true true h = refl
eq_of_same true false h = cc
eq_of_same false true h = cc
eq_of_same false false h = refl
