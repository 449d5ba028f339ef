-- ===== src/Args/EchoReply.antt =====
-- `checkargs` of argscheck.c on the formats of an echo reply: an address, an id and a sequence number.
use aping.Base.{
  ℕ, suc, ◌≤◌, ◌<◌, List, [], ◌∷◌, Bool, true, false, ◌&&◌, ltb, length, ◌≡◌, ◌↔◌, refl, sym, ◌∙◌,
  arith,
}
use aping.Base.Text.{Text}
use aping.Base.Outcome.{Run, ok, Fault, ◌>>◌, require}
use aping.Args.{Format, checknum, check_arg, check_each, checkip, checkargs}
use aping.Args.Numeral.{dotted}
use aping.Args.Dotted.{checkip-dotted}

-- All characters are decimal digits.
abbrev pub AllDigits : Text → Type 0
AllDigits [] = Unit
AllDigits (c ∷ cs) = (48 ≤ c) × (c ≤ 57) × AllDigits cs

checknum-AllDigits : (t : Text) → checknum t ≡ true ↔ AllDigits t
unfolding checknum
checknum-AllDigits [] = (λ h. tt, λ h. refl)
checknum-AllDigits (c ∷ cs) =
    let rest = checknum-AllDigits cs in
    (
      (λ h.
          let later : checknum cs ≡ true = ground (arith, h) in
          (ground (arith, h), ground (arith, h), rest.0 later)),
      (λ d. ground (arith, d.0, d.1, rest.1 d.2)),
    )

below_256 :
    (a b c d : ℕ)
    → (ltb a 256 && (ltb b 256 && (ltb c 256 && ltb d 256))) ≡ true
      ↔ ((a < 256) × (b < 256) × (c < 256) × (d < 256))
below_256 a b c d = (
  λ h. (ground (arith, h), ground (arith, h), ground (arith, h), ground (arith, h)),
  λ h. ground (arith, h),
)

-- All of three tests pass.
three_tests :
    (x y z : Bool) (e e' e'' : Fault)
    → ◌≡◌ {A = Run (Unit {0})} (require x e >> (require y e' >> (require z e'' >> ok tt))) (ok tt)
      ↔ ((x ≡ true) × (y ≡ true) × (z ≡ true))
three_tests true true true e e' e'' = (λ h. (refl, refl, refl), λ h. refl)
three_tests true true false e e' e'' = (λ h. cc, λ h. cc)
three_tests true false z e e' e'' = (λ h. cc, λ h. cc)
three_tests false y z e e' e'' = (λ h. cc, λ h. cc)

checkargs-eq :
    (after ip id seq : Text) (rest : List Text)
    → checkargs after
        (ip ∷ id ∷ seq ∷ rest)
        3
        (Format.arg_ip ∷ Format.arg_num ∷ Format.arg_num ∷ [])
      ≡ require (checkip after ip) Fault.bad_ip
        >> (require (checknum id) Fault.bad_number
            >> (require (checknum seq) Fault.bad_number >> ok tt))
unfolding checkargs check_each check_arg
checkargs-eq after ip id seq rest =
    let enough : ltb (suc (suc (suc (length rest)))) 3 ≡ false = ground arith in rw enough refl

-- For the formats of an echo reply, a dotted address of four numbers below 1000 and two texts,
-- whatever follows: `checkargs` accepts them if and only if the four numbers are below 256 and
-- all characters of both texts are decimal digits.
pub checkargs_echo_reply :
    (after : Text) (a b c d : ℕ) (id seq : Text) (rest : List Text)
    → a < 1000
    → b < 1000
    → c < 1000
    → d < 1000
    → (checkargs after
          (dotted a b c d ∷ id ∷ seq ∷ rest)
          3
          (Format.arg_ip ∷ Format.arg_num ∷ Format.arg_num ∷ [])
        ≡ ok tt)
      ↔ (((a < 256) × (b < 256) × (c < 256) × (d < 256)) × AllDigits id × AllDigits seq)
checkargs_echo_reply after a b c d id seq rest ha hb hc hd =
    let e = checkargs-eq after (dotted a b c d) id seq rest in
    let tests =
      three_tests (checkip after (dotted a b c d)) (checknum id) (checknum seq) Fault.bad_ip
        Fault.bad_number Fault.bad_number in
    let ip = checkip-dotted after a b c d ha hb hc hd in
    let octets = below_256 a b c d in
    (
      (λ h.
          let (x, y, z) = tests.0 (sym e ∙ h) in
          (octets.0 (sym ip ∙ x), (checknum-AllDigits id).0 y, (checknum-AllDigits seq).0 z)),
      (λ (small, y, z).
          e
          ∙ tests.1
              (ip ∙ octets.1 small, (checknum-AllDigits id).1 y, (checknum-AllDigits seq).1 z)),
    )
