-- ===== src/Agent/Ident.antt =====
-- The ids of `agent_dyn_id` and the machine of `agent_ipid`.
use aping.Base.{ℕ, zero, suc, ◌+◌, ◌-◌, ◌%◌, ◌<◌, ◌≡◌, refl, arith, leb, if◌then◌else◌, bit_and}
use aping.Base.Int.{pos, ◌+ℤ◌, ◌-ℤ◌, ltb_ℤ}
use aping.State.{Globals}
use aping.Memory.{swap16}
use aping.Memory.Field.{IsByteMemory}
use aping.Packet.{Packet, ip_id}
use aping.Agent.{ntohss, agent_dyn_id, switch}

-- The switch moves bit 0, and `ntohss` reads bit 1.
pub ntohss-eq-swap16 : (g : Globals) (s : ℕ) → g.endian_bug < 2 → ntohss g s ≡ swap16 s
unfolding ntohss
ntohss-eq-swap16 g s h = rw (mask g.endian_bug h)
  where
    mask : (e : ℕ) → e < 2 → bit_and e 2 ≡ 0
    mask zero h = refl
    mask (suc zero) h = refl
    mask (suc (suc e)) h = absurd (omega arith)

pub switch-lt : (v : ℕ) → v < 2 → switch v < 2
switch-lt zero h = omega arith
switch-lt (suc zero) h = omega arith
switch-lt (suc (suc v)) h = absurd (omega arith)

swap16-lt : (p : Packet) → IsByteMemory p.mem → swap16 (ip_id p) < 65536
swap16-lt p m = omega (arith, m (p.ip + 4), m (p.ip + 4 + 1))

step :
    (c l : ℕ)
    → c < 65536
    → l < 65536
    → (if ltb_ℤ (pos c -ℤ pos l) (pos 0) then pos c -ℤ pos l +ℤ pos 65535 else pos c -ℤ pos l)
      ≡ pos (if leb l c then (c + 65536 - l) % 65536 else (c + 65536 - l) % 65536 - 1)
unfolding ◌-ℤ◌ ◌+ℤ◌
step c l h k = ground arith

-- On a memory of bytes, with `endian_bug` below 2, no slow start and a last id below 65536: the
-- current id is that of the packet with its bytes swapped, and the step is the difference modulo
-- 65536, or 1 less than that where the ids wrapped.
pub agent_dyn_id-diff :
    (p : Packet) (g : Globals) (l : ℕ)
    → IsByteMemory p.mem
    → g.endian_bug < 2
    → g.slow_start ≡ 0
    → g.last_id ≡ pos l
    → l < 65536
    → let c = swap16 (ip_id p) in
      ((agent_dyn_id p g).curr_id ≡ pos c)
      × ((agent_dyn_id p g).diff_id
          ≡ pos (if leb l c then (c + 65536 - l) % 65536 else (c + 65536 - l) % 65536 - 1))
unfolding agent_dyn_id
agent_dyn_id-diff p g l m e z h k =
    rw (z, h, ntohss-eq-swap16 g (ip_id p) e) (refl, step (swap16 (ip_id p)) l (swap16-lt p m) k)
