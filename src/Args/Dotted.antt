-- ===== src/Args/Dotted.antt =====
-- checkip of argscheck.c on addresses that are printed in decimal.
use mathlib.Core.List.{append-nil}
use aping.Base.{
  ℕ, suc, ◌≤◌, ◌<◌, [], ◌++◌, Bool, true, false, ◌&&◌, none, some, length, length-append, ltb,
  if◌then◌else◌, inl, inr, ◌≡◌, refl, ap, sym, ◌∙◌, Bool-cases, arith,
}
use aping.Base.Text.{Text}
use aping.Args.{skip_dot, test_octet, starts_alpha, count_dots, is_some_and, octets, checkip}
use aping.Args.Numeral.{
  decimal, last_one, last_two, last_three, dotted, numeral_facts, stops, small, span_digits-append,
  count_dots-append, skip_dot-append, starts_alpha-append,
}

-- One octet, where `skip_dot` leaves the numeral.
test_octet-decimal :
    (after smt rest : Text) (n : ℕ)
    → n < 1000
    → stops rest ≡ true
    → skip_dot smt ≡ decimal n ++ rest
    → test_octet after smt ≡ (if ltb n 256 then some rest else none)
unfolding test_octet
test_octet-decimal after smt rest n h k e =
    let f = numeral_facts n h in
    let s = span_digits-append (decimal n) rest f.0 k in
    let b = small (length (decimal n)) f.2 in rw (e, s, b.0, b.1, f.3) (ground arith)

octets-suc :
    (k : ℕ) (after smt : Text)
    → octets (suc k) after smt ≡ is_some_and (test_octet after smt) (octets k after)
unfolding octets
octets-suc k after smt = refl

-- The dot that stands before a numeral is skipped.
octets-decimal :
    (k : ℕ) (after smt rest : Text) (n : ℕ)
    → n < 1000
    → stops rest ≡ true
    → skip_dot smt ≡ decimal n ++ rest
    → octets (suc k) after smt ≡ (ltb n 256 && octets k after rest)
octets-decimal k after smt rest n h s e =
    rw (octets-suc k after smt, test_octet-decimal after smt rest n h s e)
      elim (Bool-cases (ltb n 256)) [ inl t ↦ rw t refl | inr f ↦ rw f refl ]

not_lt : (x y : ℕ) → x ≤ y → ltb y x ≡ false
not_lt x y h = ground arith

octets-zero : (after smt : Text) → octets 0 after smt ≡ true
unfolding octets
octets-zero after smt = refl

and_true : (b : Bool) → (b && true) ≡ b
and_true b = ground arith

octets-dotted :
    (after : Text) (a b c d : ℕ)
    → a < 1000
    → b < 1000
    → c < 1000
    → d < 1000
    → octets 4 after (dotted a b c d) ≡ (ltb a 256 && (ltb b 256 && (ltb c 256 && ltb d 256)))
octets-dotted after a b c d ha hb hc hd =
    let f = numeral_facts a ha in
    rw
      (
        octets-decimal 3 after (dotted a b c d) (last_three b c d) a ha refl
            (skip_dot-append (decimal a) (last_three b c d) f.0 f.1),
        octets-decimal 2 after (last_three b c d) (last_two c d) b hb refl refl,
        octets-decimal 1 after (last_two c d) (last_one d) c hc refl refl,
        octets-decimal 0 after (last_one d) [] d hd refl (sym (append-nil (decimal d))),
        octets-zero after [],
        and_true (ltb d 256),
      )
      refl

-- The length of the text, and its three dots.
length-dotted :
    (a b c d : ℕ)
    → a < 1000
    → b < 1000
    → c < 1000
    → d < 1000
    → (7 ≤ length (dotted a b c d)) × (length (dotted a b c d) ≤ 15)
length-dotted a b c d ha hb hc hd =
    let fa = numeral_facts a ha in
    let fb = numeral_facts b hb in
    let fc = numeral_facts c hc in
    let fd = numeral_facts d hd in
    rw
      (
        length-append (decimal a) (last_three b c d),
        length-append (decimal b) (last_two c d),
        length-append (decimal c) (last_one d),
      )
      (omega (arith, fa.1, fb.1, fc.1, fd.1), omega (arith, fa.2, fb.2, fc.2, fd.2))

count_dots-dotted :
    (a b c d : ℕ) → a < 1000 → b < 1000 → c < 1000 → d < 1000 → count_dots (dotted a b c d) ≡ 3
unfolding count_dots
count_dots-dotted a b c d ha hb hc hd =
    count_dots-append (decimal a) (last_three b c d) (numeral_facts a ha).0
    ∙ ap suc (
        count_dots-append (decimal b) (last_two c d) (numeral_facts b hb).0
        ∙ ap suc (
            count_dots-append (decimal c) (last_one d) (numeral_facts c hc).0
            ∙ ap suc (
                ap count_dots (sym (append-nil (decimal d)))
                ∙ count_dots-append (decimal d) [] (numeral_facts d hd).0)))

checkip-octets :
    (after smt : Text)
    → starts_alpha smt ≡ false
    → 7 ≤ length smt
    → length smt ≤ 15
    → count_dots smt ≡ 3
    → checkip after smt ≡ octets 4 after smt
unfolding checkip
checkip-octets after smt alpha least most dots =
    rw (alpha, not_lt (length smt) 15 most, not_lt 7 (length smt) least, dots) refl

-- For four numbers below 1000, `checkip` accepts their dotted text if and only if all are below
-- 256, whatever follows in memory.
pub checkip-dotted :
    (after : Text) (a b c d : ℕ)
    → a < 1000
    → b < 1000
    → c < 1000
    → d < 1000
    → checkip after (dotted a b c d) ≡ (ltb a 256 && (ltb b 256 && (ltb c 256 && ltb d 256)))
checkip-dotted after a b c d ha hb hc hd =
    let f = numeral_facts a ha in
    let l = length-dotted a b c d ha hb hc hd in
    checkip-octets after (dotted a b c d)
      (starts_alpha-append (decimal a) (last_three b c d) f.0 f.1) l.0 l.1
      (count_dots-dotted a b c d ha hb hc hd)
    ∙ octets-dotted after a b c d ha hb hc hd
