-- ===== src/Watermark/Crc.antt =====
-- The values of `eth_crc` of wmdata.c, which neuralnetwork.c has, too.
use aping.Base.{
  ℕ, zero, suc, ◌-◌, ◌*◌, ◌/◌, ◌%◌, ◌^◌, ◌<◌, List, [], ◌∷◌, Bool, true, false, leb, ◌==◌,
  if◌then◌else◌, arith,
}
use aping.Base.Bits.{bit_xor-lt}
use aping.Watermark.{poly, differ, crc_bit, crc_octet, crc_from, eth_crc}

mask-lt : (b : Bool) → (if b then poly else 0) < 2 ^ 32
mask-lt true = omega arith
mask-lt false = omega arith

crc_bit-lt : (crc : ℕ) (bit : Bool) → crc_bit crc bit < 2 ^ 32
crc_bit-lt crc bit =
    bit_xor-lt 32 (crc * 2 % 2 ^ 32) _ (omega arith) (mask-lt (differ (leb (2 ^ 31) crc) bit))

crc_octet-lt : (n crc octet : ℕ) → crc < 2 ^ 32 → crc_octet n crc octet < 2 ^ 32
unfolding crc_octet
crc_octet-lt zero crc octet h = h
crc_octet-lt (suc n) crc octet h =
    crc_octet-lt n (crc_bit crc (octet % 2 == 1)) (octet / 2) (crc_bit-lt crc (octet % 2 == 1))

crc_from-lt : (crc : ℕ) (bs : List ℕ) → crc < 2 ^ 32 → crc_from crc bs < 2 ^ 32
unfolding crc_from
crc_from-lt crc [] h = h
crc_from-lt crc (c ∷ cs) h = crc_from-lt (crc_octet 8 crc c) cs (crc_octet-lt 8 crc c h)

pub eth_crc-lt : (bs : List ℕ) → eth_crc bs < 2 ^ 32
unfolding eth_crc
eth_crc-lt bs = crc_from-lt (2 ^ 32 - 1) bs (omega arith)
