-- ===== src/Base/Ctype.antt =====
-- `isdigit`, `isalpha` and `strtol` of the C library, in the C locale, on texts of bytes.
use Prim.Native.Nat.{ℕ, ◌+◌, ◌-◌, ◌*◌, ◌^◌, min}
use mathlib.Core.List.{[], ◌∷◌}
use mathlib.Core.Bool.{Bool, not, ◌&&◌, ◌||◌}
use aping.Base.Tests.{◌==◌, leb, ltb, if◌then◌else◌}
use aping.Base.Int.{ℤ, pos, sub_ℕ}
use aping.Base.Text.{Text}

abbrev pub isdigit : ℕ → Bool
isdigit c = leb b'0' c && leb c b'9'

abbrev pub isalpha : ℕ → Bool
isalpha c = (leb b'A' c && leb c b'Z') || (leb b'a' c && leb c b'z')

abbrev isspace : ℕ → Bool
isspace c = (c == 32) || (leb 9 c && leb c 13)

-- The value of a digit of base 36; 36 for other characters.
abbrev digit_value : ℕ → ℕ
digit_value c =
    if isdigit c
    then c - b'0'
    else if leb b'a' c && leb c b'z'
    then c - b'a' + 10
    else if leb b'A' c && leb c b'Z'
    then c - b'A' + 10
    else 36

-- The digits of a base, up to the first other character, after the digits that have the value `v`.
unfoldable pub numeral : ℕ → ℕ → Text → ℕ
numeral base v [] = v
numeral base v (c ∷ cs) =
    let rest = numeral base (v * base + digit_value c) cs in
    if ltb (digit_value c) base then rest else v

-- Base 0 takes the base from the prefix: `0x` is 16, and `0` is 8.
unfoldable prefixed : ℕ → Text → ℕ
unfolding numeral
prefixed base (z ∷ x ∷ cs) =
    if not (z == b'0')
    then numeral (if base == 0 then 10 else base) 0 (z ∷ x ∷ cs)
    else if not ((x == b'x') || (x == b'X'))
    then numeral (if base == 0 then 8 else base) 0 (x ∷ cs)
    else if (base == 0) || (base == 16)
    then numeral 16 0 cs
    else 0
prefixed base cs = numeral (if base == 0 then 10 else base) 0 cs

-- The value is cut to the range of a `long` of 32 bits.
unfoldable pub signed : ℕ → ℕ → Text → ℤ
unfolding prefixed
signed base c cs =
    if c == b'-'
    then sub_ℕ 0 (min (prefixed base cs) (2 ^ 31))
    else if c == b'+'
    then pos (min (prefixed base cs) (2 ^ 31 - 1))
    else pos (min (prefixed base (c ∷ cs)) (2 ^ 31 - 1))

unfoldable pub strtol : ℕ → Text → ℤ
unfolding signed
strtol base [] = pos 0
strtol base (c ∷ cs) = let rest = strtol base cs in if isspace c then rest else signed base c cs
