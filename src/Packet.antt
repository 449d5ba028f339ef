-- ===== src/Packet.antt =====
-- `packet` and the accessors of filter.h, on the memory from the start of a captured frame: what lies
-- behind the captured bytes is whatever memory holds there.
use aping.Base.{ℕ, ◌+◌, ◌-◌, ◌*◌, ◌%◌, ◌^◌, Bool, ◌||◌, ◌==◌, ltb, if◌then◌else◌}
use aping.Base.Int.{ℤ, pos, negsuc}
use aping.Memory.{Memory, get16, get32, get_long}
use aping.State.{Time}

pub record Packet : Type 0 where
  pub mem : Memory
  pub dl : ℕ
  pub ip : ℕ
  pub icmp : ℕ
  pub payload : ℕ
  pub tstamp_tval : ℕ
  pub tstamp_data : ℕ

-- `ip_hl`, the low half of the first byte.
abbrev pub words_at : Memory → ℕ → ℕ
words_at m at = m at % 16

unfoldable pub lineup_layers : ℕ → Memory → Packet
lineup_layers offset_dl m =
    let body = offset_dl + words_at m offset_dl * 2 ^ 2 in
    record {
      mem = m;
      dl = 0;
      ip = offset_dl;
      icmp = body;
      payload = body + 8;
      tstamp_tval = body + 8;
      tstamp_data = body + 8 + 8;
    }

abbrev pub ip_hl : Packet → ℕ
ip_hl p = words_at p.mem p.ip

abbrev pub ip_len : Packet → ℕ
ip_len p = get16 p.mem (p.ip + 2)

abbrev pub ip_id : Packet → ℕ
ip_id p = get16 p.mem (p.ip + 4)

abbrev pub ip_ttl : Packet → ℕ
ip_ttl p = p.mem (p.ip + 8)

abbrev pub ip_src : Packet → ℕ
ip_src p = get32 p.mem (p.ip + 12)

abbrev pub ip_dst : Packet → ℕ
ip_dst p = get32 p.mem (p.ip + 16)

abbrev pub ip_opt : Packet → ℕ
ip_opt p = p.ip + 20

abbrev pub icmp_type : Packet → ℕ
icmp_type p = p.mem p.icmp

abbrev pub icmp_code : Packet → ℕ
icmp_code p = p.mem (p.icmp + 1)

abbrev pub icmp_gwaddr : Packet → ℕ
icmp_gwaddr p = get32 p.mem (p.icmp + 4)

abbrev pub icmp_id : Packet → ℕ
icmp_id p = get16 p.mem (p.icmp + 4)

abbrev pub icmp_seq : Packet → ℕ
icmp_seq p = get16 p.mem (p.icmp + 6)

abbrev pub icmp_otime : Packet → ℕ
icmp_otime p = get32 p.mem (p.icmp + 8)

abbrev pub icmp_rtime : Packet → ℕ
icmp_rtime p = get32 p.mem (p.icmp + 12)

abbrev pub icmp_mask : Packet → ℕ
icmp_mask p = get32 p.mem (p.icmp + 8)

-- The header that an error message quotes.
abbrev pub icmp_ip : Packet → ℕ
icmp_ip p = p.icmp + 8

abbrev pub icmp_ip_p : Packet → ℕ
icmp_ip_p p = p.mem (icmp_ip p + 9)

abbrev pub icmp_ip_src : Packet → ℕ
icmp_ip_src p = get32 p.mem (icmp_ip p + 12)

abbrev pub icmp_ip_dst : Packet → ℕ
icmp_ip_dst p = get32 p.mem (icmp_ip p + 16)

-- The quoted message behind the quoted header.
abbrev icmp_icmp : Packet → ℕ
icmp_icmp p = p.payload + words_at p.mem (icmp_ip p) * 4

abbrev pub icmp_icmp_type : Packet → ℕ
icmp_icmp_type p = p.mem (icmp_icmp p)

abbrev pub icmp_icmp_code : Packet → ℕ
icmp_icmp_code p = p.mem (icmp_icmp p + 1)

-- `*(short *)`, with its sign.
abbrev pub icmp_icmp_id : Packet → ℤ
icmp_icmp_id p =
    let w = get16 p.mem (icmp_icmp p + 4) in
    if ltb w (2 ^ 15) then pos w else negsuc (2 ^ 16 - w - 1)

abbrev pub tval : Packet → Time
tval p = record { whole = get_long p.mem p.tstamp_tval; part = get_long p.mem (p.tstamp_tval + 4) }

abbrev pub icmp_has_seq : Packet → Bool
icmp_has_seq p =
    let t = icmp_type p in (t == 0) || (t == 8) || (t == 13) || (t == 14) || (t == 15) || (t == 16)
