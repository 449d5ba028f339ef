-- ===== src/Hardware.antt =====
-- hardware.c: the text of a hardware address in a frame.
use aping.Base.{
  ℕ, ◌+◌, ◌*◌, ◌/◌, ◌%◌, ◌<◌, List, [], ◌∷◌, ◌≡◌, true, refl, ap, ap₂, arith, ◌==◌, ◌||◌,
  if◌then◌else◌, get_or, ltb, ◌-◌, Option, some, none,
}
use aping.Base.Table.{all_below, all_below_sound}
use aping.Chksum.Sum.{Bytes}
use aping.Memory.{Memory, bytes}

-- `hex`, by the codes of the characters.
abbrev hex : List ℕ
hex = 48 ∷ 49 ∷ 50 ∷ 51 ∷ 52 ∷ 53 ∷ 54 ∷ 55 ∷ 56 ∷ 57 ∷ 97 ∷ 98 ∷ 99 ∷ 100 ∷ 101 ∷ 102 ∷ []

abbrev hex_char : ℕ → ℕ
hex_char d = get_or hex d 0

-- Two digits and a colon for each byte; the last colon becomes the end of the text.
unfoldable pub getmacfrom6b : List ℕ → List ℕ
getmacfrom6b [] = []
getmacfrom6b (b ∷ []) = hex_char (b / 16 % 16) ∷ hex_char (b % 16) ∷ []
getmacfrom6b (b ∷ c ∷ bs) = hex_char (b / 16 % 16) ∷ hex_char (b % 16) ∷ 58 ∷ getmacfrom6b (c ∷ bs)

-- Where the address lies in a frame; `MAC_DST` or `MAC_SRC`.
pub data MacSide : Type 0 where
  mac_dst mac_src : MacSide

abbrev mac_offset : MacSide → ℕ → Option ℕ
mac_offset side link =
    if (link == 1) || (link == 2)
    then some (place 0 6 side)
    else if (link == 6) || (link == 10)
    then some (place 2 8 side)
    else none
  where
    place : ℕ → ℕ → MacSide → ℕ
    place dst src mac_dst = dst
    place dst src mac_src = src

unfoldable pub getmacfromdatalink : Memory → ℕ → ℕ → MacSide → Option (List ℕ)
unfolding getmacfrom6b
getmacfromdatalink m dl link side = elim (mac_offset side link) [
  | none ↦ none
  | some i ↦ some (getmacfrom6b (bytes m (dl + i) 6))
]

-- The value of a digit, and of a text of addresses.
unfoldable pub digit : ℕ → ℕ
digit c = if ltb c 58 then c - 48 else c - 87

unfoldable pub read_mac : List ℕ → List ℕ
unfolding digit
read_mac (a ∷ b ∷ c ∷ cs) = (digit a * 16 + digit b) ∷ read_mac cs
read_mac (a ∷ b ∷ []) = (digit a * 16 + digit b) ∷ []
read_mac (a ∷ []) = []
read_mac [] = []

digit_hex : (d : ℕ) → d < 16 → digit (hex_char d) ≡ d
unfolding digit all_below
digit_hex d h =
    eq_of_test (digit (hex_char d)) d (all_below_sound 16 (λ d. digit (hex_char d) == d) d refl h)
  where
    eq_of_test : (a b : ℕ) → (a == b) ≡ true → a ≡ b
    eq_of_test a b e = ground arith

one_byte : (b : ℕ) → b < 256 → digit (hex_char (b / 16 % 16)) * 16 + digit (hex_char (b % 16)) ≡ b
one_byte b h =
    omega (arith, digit_hex (b / 16 % 16) (omega arith), digit_hex (b % 16) (omega arith))

-- The text that `getmacfrom6b` makes of bytes reads back, digit by digit, as these bytes.
pub read_mac-getmacfrom6b : (bs : List ℕ) → Bytes bs → read_mac (getmacfrom6b bs) ≡ bs
unfolding read_mac getmacfrom6b
read_mac-getmacfrom6b [] h = refl
read_mac-getmacfrom6b (b ∷ []) h = ap (λ t. t ∷ []) (one_byte b h.0)
read_mac-getmacfrom6b (b ∷ c ∷ bs) h = ap₂ ◌∷◌ (one_byte b h.0) (read_mac-getmacfrom6b (c ∷ bs) h.1)
