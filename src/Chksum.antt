-- ===== src/Chksum.antt =====
-- chksum.c: the Internet checksum. The list is the buffer `addr[0 .. len)` as bytes; words are read
-- in the order of a little-endian host, and `int` has 32 bits, kept as a bit pattern.
pub mod Sum
pub mod Rfc
pub mod Verify
use aping.Base.{ℕ, ◌+◌, ◌-◌, ◌*◌, ◌/◌, ◌%◌, ◌^◌, List, [], ◌∷◌, ltb, if◌then◌else◌}

-- `sum >> 16` of an `int`: the sign is copied in.
abbrev sar16 : ℕ → ℕ
sar16 w = if ltb w (2 ^ 31) then w / 2 ^ 16 else w / 2 ^ 16 + 0xffff0000

-- The loop over the words, and the odd byte at the end.
unfoldable pub accumulate : ℕ → List ℕ → ℕ
accumulate s [] = s
accumulate s (b ∷ []) = (s + b) % 2 ^ 32
accumulate s (lo ∷ hi ∷ rest) = accumulate ((s + (lo + 256 * hi)) % 2 ^ 32) rest

-- The two folds of the carries, and the complement cut to 16 bits.
unfoldable pub fold_carries : ℕ → ℕ
fold_carries s =
    let s1 = (sar16 s + s % 2 ^ 16) % 2 ^ 32 in
    let s2 = (s1 + sar16 s1) % 2 ^ 32 in 65535 - s2 % 2 ^ 16

unfoldable pub chksum : List ℕ → ℕ
unfolding accumulate fold_carries
chksum bytes = fold_carries (accumulate 0 bytes)
