-- ===== src/Args.antt =====
-- argscheck.c: the checks of the arguments of a loader. An argument is a text, and `argv` ends with
-- its last one.
pub mod Numeral
pub mod Dotted
pub mod Accept
pub mod EchoReply
use aping.Base.{
  ℕ, zero, suc, ◌+◌, ◌-◌, ◌≤◌, ◌<◌, List, [], ◌∷◌, ◌++◌, Bool, true, false, not, ◌&&◌, ◌||◌, Option,
  none, some, length, ◌==◌, leb, ltb, if◌then◌else◌,
}
use aping.Base.Int.{ℤ, pos, ltb_ℤ}
use aping.Base.Text.{Text}
use aping.Base.Ctype.{isdigit, isalpha, strtol}
use aping.Base.Outcome.{Run, ok, fatal, Fault, ◌>>=◌, ◌>>◌, require}

-- `ARG_NUM` and so on; `arg_any` stands for the values that the switch does not name, too.
pub data Format : Type 0 where
  arg_any arg_num arg_ip arg_ip_range arg_port arg_port_range : Format

unfoldable pub checknum : Text → Bool
checknum [] = true
checknum (c ∷ cs) = isdigit c && checknum cs

-- The digits that the loop of `TEST_OCTET` reads, and what follows them.
unfoldable pub span_digits : Text → Text × Text
span_digits [] = ([], [])
span_digits (c ∷ cs) =
    let (ds, rest) = span_digits cs in if isdigit c then (c ∷ ds, rest) else ([], c ∷ cs)

abbrev pub skip_dot : Text → Text
skip_dot [] = []
skip_dot (c ∷ cs) = if c == b'.' then cs else c ∷ cs

-- `TEST_OCTET`: `none` where it returns 0, and else where `smt` points afterwards. The four characters
-- of `octet` have no end of their own when all are digits: then `after`, what follows them in
-- memory, is read on.
unfoldable pub test_octet : Text → Text → Option Text
unfolding span_digits
test_octet after smt =
    let (ds, rest) = span_digits (skip_dot smt) in
    let octet = if length ds == 4 then ds ++ after else ds in
    if ltb 4 (length ds)
    then none
    else if ltb_ℤ (pos 255) (strtol 10 octet) || ltb_ℤ (strtol 10 octet) (pos 0)
    then none
    else some rest

abbrev pub starts_alpha : Text → Bool
starts_alpha [] = false
starts_alpha (c ∷ cs) = isalpha c

unfoldable pub count_dots : Text → ℕ
count_dots [] = 0
count_dots (c ∷ cs) = let n = count_dots cs in if c == b'.' then suc n else n

abbrev pub is_some_and : Option Text → (Text → Bool) → Bool
is_some_and none test = false
is_some_and (some t) test = test t

unfoldable pub octets : ℕ → Text → Text → Bool
unfolding test_octet
octets zero after smt = true
octets (suc n) after smt = is_some_and (test_octet after smt) (octets n after)

unfoldable pub checkip : Text → Text → Bool
unfolding count_dots octets
checkip after smt =
    if starts_alpha smt
    then true
    else if ltb 15 (length smt)
    then false
    else if ltb (length smt) 7
    then false
    else if not (count_dots smt == 3)
    then false
    else octets 4 after smt

abbrev in_ports : ℤ → Bool
in_ports a = not (ltb_ℤ a (pos 1) || ltb_ℤ (pos 65535) a)

unfoldable checkport : Text → Bool
checkport smt = in_ports (strtol 10 smt)

-- The text before the first `-`, and the text after it.
unfoldable split_dash : Text → Option (Text × Text)
split_dash [] = none
split_dash (c ∷ cs) =
    let rest = split_dash cs in
    if c == b'-' then some ([], cs) else elim rest [ none ↦ none | some p ↦ some (c ∷ p.0, p.1) ]

unfoldable checkportrange : Text → Bool
unfolding split_dash
checkportrange smt = elim (split_dash smt) [
  | none ↦ false
  | some p ↦ in_ports (strtol 10 p.0) && in_ports (strtol 10 p.1)
]

-- The results of the two calls of `checkip` are not used.
unfoldable checkiprange : Text → Bool
unfolding split_dash
checkiprange smt = elim (split_dash smt) [ none ↦ false | some p ↦ true ]

unfoldable pub check_arg : Text → Format → Text → Run (Unit {0})
unfolding checknum checkip checkiprange checkport checkportrange
check_arg after arg_num t = require (checknum t) Fault.bad_number
check_arg after arg_ip t = require (checkip after t) Fault.bad_ip
check_arg after arg_ip_range t = require (checkiprange t) Fault.bad_range
check_arg after arg_port t = require (checkport t) Fault.bad_port
check_arg after arg_port_range t = require (checkportrange t) Fault.bad_port_range
check_arg after arg_any t = ok tt

-- The loop over the first `n` arguments; a format that is not given is a read past the list.
unfoldable pub check_each : Text → ℕ → List Text → List Format → Run (Unit {0})
unfolding check_arg
check_each after zero argv formats = ok tt
check_each after (suc n) (t ∷ argv) (f ∷ formats) =
    check_arg after f t >> check_each after n argv formats
check_each after (suc n) argv formats = fatal Fault.bad_index

unfoldable pub checkargs : Text → List Text → ℕ → List Format → Run (Unit {0})
unfolding check_each
checkargs after argv min formats = do
  require (not (ltb (length argv) min)) Fault.parameters_requested
  check_each after min argv formats
