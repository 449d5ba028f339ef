-- ===== src/Args/Numeral.antt =====
-- A number in decimal, as `checkip` of argscheck.c reads it.
use aping.Base.{
  ℕ, ◌+◌, ◌/◌, ◌%◌, ◌≤◌, ◌<◌, [], ◌∷◌, ◌++◌, Bool, true, false, ◌&&◌, length, ◌==◌, leb, ltb,
  if◌then◌else◌, ◌≡◌, refl, arith,
}
use aping.Base.Int.{ℤ, pos, ◌==ℤ◌}
use aping.Base.Text.{Text}
use aping.Base.Table.{all_below, all_below_sound}
use aping.Base.Ctype.{strtol}
use aping.Args.{checknum, span_digits, skip_dot, starts_alpha, count_dots}

-- A number below 1000 in decimal.
unfoldable pub decimal : ℕ → Text
decimal n =
    if ltb n 10
    then (b'0' + n) ∷ []
    else if ltb n 100
    then (b'0' + n / 10) ∷ (b'0' + n % 10) ∷ []
    else (b'0' + n / 100) ∷ (b'0' + n / 10 % 10) ∷ (b'0' + n % 10) ∷ []

-- The last number, the last two, and the last three, each with its dot.
abbrev pub last_one : ℕ → Text
last_one d = b'.' ∷ decimal d

abbrev pub last_two : ℕ → ℕ → Text
last_two c d = b'.' ∷ (decimal c ++ last_one d)

abbrev pub last_three : ℕ → ℕ → ℕ → Text
last_three b c d = b'.' ∷ (decimal b ++ last_two c d)

abbrev pub dotted : ℕ → ℕ → ℕ → ℕ → Text
dotted a b c d = decimal a ++ last_three b c d

abbrev pub is_numeral : ℕ → Bool
is_numeral n =
    checknum (decimal n)
    && (leb 1 (length (decimal n))
        && (leb (length (decimal n)) 3 && (strtol 10 (decimal n) ==ℤ pos n)))

table : all_below 1000 is_numeral ≡ true
unfolding all_below checknum strtol decimal
table = refl

facts_of_tests :
    (t : Text) (z : ℤ) (n : ℕ) (c : Bool)
    → (c && (leb 1 (length t) && (leb (length t) 3 && (z ==ℤ pos n)))) ≡ true
    → (c ≡ true) × (1 ≤ length t) × (length t ≤ 3) × (z ≡ pos n)
facts_of_tests t z n c h = ground arith

-- What the table says of one number.
pub numeral_facts :
    (n : ℕ)
    → n < 1000
    → (checknum (decimal n) ≡ true)
      × (1 ≤ length (decimal n))
      × (length (decimal n) ≤ 3)
      × (strtol 10 (decimal n) ≡ pos n)
numeral_facts n h =
    facts_of_tests (decimal n) (strtol 10 (decimal n)) n (checknum (decimal n))
      (all_below_sound 1000 is_numeral n table h)

-- What may follow a numeral: nothing, or a dot.
abbrev pub stops : Text → Bool
stops [] = true
stops (c ∷ cs) = c == b'.'

pub span_digits-append :
    (ds rest : Text)
    → checknum ds ≡ true
    → stops rest ≡ true
    → span_digits (ds ++ rest) ≡ (ds, rest)
unfolding checknum span_digits
span_digits-append [] [] h k = refl
span_digits-append [] (c ∷ cs) h k = ground arith
span_digits-append (d ∷ ds) rest h k =
    let shorter = span_digits-append ds rest in ground (arith, shorter)

pub count_dots-append :
    (ds rest : Text) → checknum ds ≡ true → count_dots (ds ++ rest) ≡ count_dots rest
unfolding checknum count_dots
count_dots-append [] rest h = refl
count_dots-append (d ∷ ds) rest h =
    let shorter = count_dots-append ds rest in ground (arith, shorter)

pub skip_dot-append :
    (ds rest : Text) → checknum ds ≡ true → 1 ≤ length ds → skip_dot (ds ++ rest) ≡ ds ++ rest
unfolding checknum
skip_dot-append [] rest h k = absurd (omega arith)
skip_dot-append (d ∷ ds) rest h k = ground arith

pub starts_alpha-append :
    (ds rest : Text) → checknum ds ≡ true → 1 ≤ length ds → starts_alpha (ds ++ rest) ≡ false
unfolding checknum
starts_alpha-append [] rest h k = absurd (omega arith)
starts_alpha-append (d ∷ ds) rest h k = ground arith

pub small : (l : ℕ) → l ≤ 3 → ((l == 4) ≡ false) × (ltb 4 l ≡ false)
small l h = (ground arith, ground arith)
