-- ===== src/Report.antt =====
-- `ISQRT` of macro.h, and the figures of `report` in aping.c. Arithmetic on `long` keeps 32 bits.
pub mod Root
use aping.Base.{ℕ, zero, suc, ◌+◌, ◌*◌, ◌/◌, ◌%◌, ◌^◌, Bool, bit_xor, ltb, ◌==◌, if◌then◌else◌}
use aping.Base.Int.{ℤ, pos, negsuc, ◌+ℤ◌, ◌-ℤ◌, ◌*ℤ◌, ◌==ℤ◌, ltb_ℤ, tdiv, i32, residue}
use aping.State.{Globals}

-- The turns with the bits from `2 ^ (k - 1)` down to 1.
unfoldable pub root_bits : ℕ → ℕ → ℕ → ℕ
root_bits zero v g = g
root_bits (suc k) v g =
    let set = bit_xor g (2 ^ k) in
    root_bits k v (if ltb v (set * set % 2 ^ 32) then bit_xor set (2 ^ k) else set)

unfoldable pub isqrt : ℕ → ℕ
unfolding root_bits
isqrt v = root_bits 16 v 0

-- `rtt_sqre - rtt_mean * rtt_mean`, compared without its sign.
abbrev variance : Globals → ℕ
variance g = residue (2 ^ 32) (g.rtt_sqre -ℤ g.rtt_mean *ℤ g.rtt_mean)

-- The time that `report` sleeps, in ms; its last argument is `ISQRT` of the variance.
abbrev sleep_time : Globals → ℕ → ℤ
sleep_time g root =
    if g.n_tome ==ℤ pos 0 then pos 2000 else i32 (pos 100 +ℤ g.rtt_mean +ℤ pos (2 * root))

-- `PER_CENT`.
abbrev per_cent : ℤ → ℤ → ℤ
per_cent a b = if b ==ℤ pos 0 then pos 0 else i32 (tdiv (i32 (pos 100 *ℤ a)) b)

abbrev loss : Globals → ℤ
loss g = i32 (pos 100 -ℤ per_cent g.n_tome g.n_sent)

-- The figures of `report`, with the root of the variance.
pub record Figures : Type 0 where
  pub sleep : ℤ
  pub lost : ℤ
  pub forked : Bool
  pub deviation : ℕ

unfoldable pub report : Globals → Figures
unfolding isqrt
report g =
    let root = isqrt (variance g) in
    record {
      sleep = sleep_time g root;
      lost = loss g;
      forked = ltb_ℤ (loss g) (pos 0);
      deviation = root;
    }
