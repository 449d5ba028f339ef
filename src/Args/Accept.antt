-- ===== src/Args/Accept.antt =====
-- What it means that `checkargs` of argscheck.c returns.
use aping.Base.{
  ℕ, zero, suc, ◌<◌, List, [], ◌∷◌, not, some, length, get_elem?, ltb, ◌≡◌, refl, sym, ◌∙◌, arith,
}
use aping.Base.Text.{Text}
use aping.Base.Outcome.{Run, ok, fatal, Fault, ◌>>◌, require}
use aping.Args.{Format, check_arg, check_each, checkargs}

-- Argument `i` is there, its format is given, and its check has the result `r`.
pub record Checked (after : Text) (argv : List Text) (formats : List Format) (i : ℕ)
    (r : Run (Unit {0})) : Type 0 where
  pub argument : Text
  pub format : Format
  pub found : get_elem? argv i ≡ some argument
  pub given : get_elem? formats i ≡ some format
  pub result : check_arg after format argument ≡ r

then_ok : (m k : Run (Unit {0})) → m >> k ≡ ok tt → (m ≡ ok tt) × (k ≡ ok tt)
then_ok (ok tt) k h = (refl, h)
then_ok (fatal e) k h = cc

check_each-cons :
    (after : Text) (n : ℕ) (t : Text) (argv : List Text) (f : Format) (formats : List Format)
    → check_each after (suc n) (t ∷ argv) (f ∷ formats)
      ≡ check_arg after f t >> check_each after n argv formats
unfolding check_each
check_each-cons after n t argv f formats = refl

check_each-accepted :
    (after : Text) (n : ℕ) (argv : List Text) (formats : List Format)
    → check_each after n argv formats ≡ ok tt
    → (i : ℕ) → i < n
    → Checked after argv formats i (ok tt)
unfolding check_each
check_each-accepted after zero argv formats h i l = absurd (omega arith)
check_each-accepted after (suc n) [] formats h i l = cc
check_each-accepted after (suc n) (t ∷ argv) [] h i l = cc
check_each-accepted after (suc n) (t ∷ argv) (f ∷ formats) h zero l =
    let p = then_ok (check_arg after f t) (check_each after n argv formats) h in
    record { argument = t; format = f; found = refl; given = refl; result = p.0 }
check_each-accepted after (suc n) (t ∷ argv) (f ∷ formats) h (suc i) l =
    let p = then_ok (check_arg after f t) (check_each after n argv formats) h in
    let c = check_each-accepted after n argv formats p.1 i (omega arith) in
    record {
      argument = c.argument;
      format = c.format;
      found = c.found;
      given = c.given;
      result = c.result;
    }

checkargs-eq :
    (after : Text) (argv : List Text) (min : ℕ) (formats : List Format)
    → checkargs after argv min formats
      ≡ require (not (ltb (length argv) min)) Fault.parameters_requested
        >> check_each after min argv formats
unfolding checkargs
checkargs-eq after argv min formats = refl

pub checkargs_accepted :
    (after : Text) (argv : List Text) (min : ℕ) (formats : List Format)
    → checkargs after argv min formats ≡ ok tt
    → (i : ℕ) → i < min
    → Checked after argv formats i (ok tt)
checkargs_accepted after argv min formats h i l =
    check_each-accepted after min argv formats
      (then_ok (require (not (ltb (length argv) min)) Fault.parameters_requested)
        (check_each after min argv formats) (sym (checkargs-eq after argv min formats) ∙ h)).1
      i l
