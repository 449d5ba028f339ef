-- ===== src/Memory.antt =====
-- Bytes of memory from a base address on, as the code reads and writes them: `u_short` and `long` in
-- the order of a little-endian host, and `htons` for the order of the network.
pub mod Field
use aping.Base.{ℕ, zero, suc, ◌+◌, ◌*◌, ◌/◌, ◌%◌, ◌^◌, List, [], ◌∷◌, ◌==◌, if◌then◌else◌}
use aping.Base.{ltb, ◌-◌}
use aping.Base.Int.{ℤ, pos, negsuc}

abbrev pub Memory : Type 0
Memory = ℕ → ℕ

unfoldable pub put8 : Memory → ℕ → ℕ → Memory
put8 m at v i = if i == at then v % 256 else m i

unfoldable pub put16 : Memory → ℕ → ℕ → Memory
unfolding put8
put16 m at v = put8 (put8 m at v) (at + 1) (v / 256)

unfoldable pub put32 : Memory → ℕ → ℕ → Memory
unfolding put16
put32 m at v = put16 (put16 m at v) (at + 2) (v / 2 ^ 16)

abbrev pub get16 : Memory → ℕ → ℕ
get16 m at = m at + 256 * m (at + 1)

abbrev pub get32 : Memory → ℕ → ℕ
get32 m at = get16 m at + 2 ^ 16 * get16 m (at + 2)

-- A `long` in memory.
abbrev pub get_long : Memory → ℕ → ℤ
get_long m at = let w = get32 m at in if ltb w (2 ^ 31) then pos w else negsuc (2 ^ 32 - w - 1)

-- `htons` and `ntohs`, `htonl` and `ntohl`.
abbrev pub swap16 : ℕ → ℕ
swap16 w = w / 256 % 256 + 256 * (w % 256)

abbrev pub swap32 : ℕ → ℕ
swap32 w = swap16 (w / 2 ^ 16) + 2 ^ 16 * swap16 (w % 2 ^ 16)

-- The `n` bytes from `at` on.
abbrev pub bytes : Memory → ℕ → ℕ → List ℕ
bytes m at zero = []
bytes m at (suc n) = m at ∷ bytes m (at + 1) n

-- `memcpy` of a text into memory.
unfoldable pub put_bytes : Memory → ℕ → List ℕ → Memory
unfolding put8
put_bytes m at [] = m
put_bytes m at (b ∷ bs) = put_bytes (put8 m at b) (at + 1) bs

-- The assignments of a loader, in order.
pub data Store : Type 0 where
  store8 : ℕ → ℕ → Store
  store16 : ℕ → ℕ → Store
  store32 : ℕ → ℕ → Store
  store_bytes : ℕ → List ℕ → Store

unfoldable pub write : Memory → List Store → Memory
unfolding put_bytes put32
write m [] = m
write m (store8 at v ∷ ss) = write (put8 m at v) ss
write m (store16 at v ∷ ss) = write (put16 m at v) ss
write m (store32 at v ∷ ss) = write (put32 m at v) ss
write m (store_bytes at bs ∷ ss) = write (put_bytes m at bs) ss
