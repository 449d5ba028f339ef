-- ===== src/Agent.antt =====
-- The agents of receiver.c, which follow the round trip time and the ids of the remote host.
pub mod Elapsed
pub mod Ident
use aping.Base.{
  ℕ, ◌+◌, ◌-◌, ◌*◌, ◌/◌, ◌%◌, ◌^◌, Bool, true, false, not, ◌&&◌, ◌||◌, bit_and, bit_xor,
}
use aping.Base.{◌==◌, if◌then◌else◌}
use aping.Base.Int.{
  ℤ, pos, negsuc, ◌+ℤ◌, ◌-ℤ◌, ◌*ℤ◌, ◌==ℤ◌, abs, max_ℤ, min_ℤ, ltb_ℤ, tdiv, tmod, i32, residue,
}
use aping.Base.Outcome.{Run, ok, fatal, ◌>>=◌, ◌>>◌}
use aping.State.{Globals, Time}
use aping.Memory.{swap16, swap32}
use aping.Packet.{Packet, icmp_type, icmp_otime, icmp_rtime, ip_id, tval}
use aping.Statistic.Expectation.{Tables, expectation}

-- The globals, and the tables of `E`.
pub record State : Type 0 where
  pub g : Globals
  pub tables : Tables

-- Where the variables that `E` keeps lie in memory.
pub record Places : Type 0 where
  pub rtt_mean : ℕ
  pub rtt_sqre : ℕ
  pub mean_burst : ℕ

-- `DIFFTIME_int` and `DIFFTIME_frc`.
unfoldable pub difftime_int : Time → Time → ℤ
difftime_int a b =
    i32 (i32 (i32 (a.whole -ℤ b.whole) *ℤ pos 1000) +ℤ tdiv (i32 (a.part -ℤ b.part)) (pos 1000))

unfoldable pub difftime_frc : Time → Time → ℤ
difftime_frc a b = tmod (i32 (a.part -ℤ b.part)) 1000

-- `TIME_ADJUST`.
unfoldable pub time_adjust : Time → Time
time_adjust t =
    if ltb_ℤ t.part (pos 0)
    then record { whole = i32 (t.whole +ℤ pos 1); part = i32 (t.part +ℤ pos 1000) }
    else t

-- The milliseconds of the day, as a timestamp reply counts them.
unfoldable pub day_ms : Time → ℤ
day_ms t = i32 (tmod t.whole 86400 *ℤ pos 1000 +ℤ tdiv t.part (pos 1000))

unfoldable raw_rtt : Globals → Packet → Time → Time
unfolding difftime_int difftime_frc day_ms
raw_rtt g p now =
    if icmp_type p == 0
    then record { whole = difftime_int now (tval p); part = difftime_frc now (tval p) }
    else if icmp_type p == 14
    then record { whole = i32 (day_ms now -ℤ pos (swap32 (icmp_otime p))); part = pos 0 }
    else record { whole = difftime_int now g.last_sent; part = difftime_frc now g.last_sent }

-- The round trip time is stored before the means are taken.
unfoldable pub stamp : Globals → Packet → Time → Globals
unfolding raw_rtt time_adjust
stamp g p now =
    let t = time_adjust (raw_rtt g p now) in
    let ms = i32 (abs t.whole) in
    record g {
      rtt = record { whole = ms; part = t.part };
      curr_tstamp = if icmp_type p == 14 then i32 (pos (swap32 (icmp_rtime p))) else g.curr_tstamp;
      rtt_max = max_ℤ g.rtt_max (i32 (ms +ℤ pos 1));
      rtt_min = min_ℤ g.rtt_min ms;
    }

module _ (at : Places) where
  unfoldable pub agent_timestamp : Packet → Time → State → Run State
  unfolding stamp
  agent_timestamp p now s = do
    let g = stamp s.g p now
    mean ← expectation s.tables at.rtt_mean g.rtt.whole (pos 1)
    sqre ← expectation mean.tables at.rtt_sqre g.rtt.whole (pos 2)
    ok (record {
      g = record g {
        rtt_mean = mean.value;
        rtt_sqre = sqre.value;
        jitter = i32 (g.rtt.whole -ℤ g.last_rtt.whole);
      };
      tables = sqre.tables;
    })

  unfoldable pub reset_stat : State → Run State
  reset_stat s = do
    r ← expectation s.tables at.mean_burst (pos 0) (negsuc 0)
    ok (record {
      g = record s.g {
        out_burst = pos 0;
        max_burst = pos 0;
        rand_ipid = pos 0;
        ipid_failure = 0;
        slow_start = 1;
        mean_burst = r.value;
      };
      tables = r.tables;
    })

-- `SWITCH`.
abbrev pub switch : ℕ → ℕ
switch v = bit_xor v 1

unfoldable pub reset_ipid : Globals → Globals
reset_ipid g = record g { rand_ipid = pos 0; ipid_failure = 0; slow_start = 1 }

unfoldable pub ntohss : Globals → ℕ → ℕ
ntohss g s = if bit_and g.endian_bug 2 == 0 then swap16 s else s

unfoldable pub agent_dyn_id : Packet → Globals → Globals
unfolding ntohss
agent_dyn_id p g =
    let curr = pos (ntohss g (ip_id p)) in
    let raw = if g.slow_start == 0 then curr -ℤ g.last_id else pos 0 in
    let diff = if ltb_ℤ raw (pos 0) then raw +ℤ pos (2 ^ 16 - 1) else raw in
    record g {
      curr_id = curr;
      slow_start = 0;
      diff_id = diff;
      rand_ipid = if ltb_ℤ (pos (2 ^ 15)) diff then diff else g.rand_ipid;
    }

-- `diff_id && !(diff_id & 0xff)`: the step is in the high byte alone.
abbrev pub is_suspicious : ℤ → Bool
is_suspicious d = not (d ==ℤ pos 0) && (residue 256 d == 0)

module _ (at : Places) where
  -- The result is false where the code returns -1.
  unfoldable pub agent_ipid : State → Run (Bool × State)
  unfolding reset_stat
  agent_ipid s =
      let n = s.g.ipid_failure + 1 in
      let counted : State = record s { g = record s.g { ipid_failure = n } } in
      if is_suspicious s.g.diff_id
      then if (n == 2) || (n == 3)
        then ok (false, counted)
        else if n == 4
        then (do
          s' ← reset_stat at counted
          ok (false, record s' { g = record s'.g { endian_bug = switch s'.g.endian_bug } }))
        else ok (true, counted)
      else ok (true, record s { g = record s.g { ipid_failure = 0 } })
