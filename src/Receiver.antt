-- ===== src/Receiver.antt =====
-- receiver.c: what a captured packet does to the globals. What is printed, and the calls of the name
-- cache, which serve the printed lines alone, are in Screen.
pub mod Inv
use aping.Base.{
  ℕ, ◌+◌, ◌-◌, ◌*◌, ◌/◌, ◌%◌, ◌^◌, List, [], ◌∷◌, Bool, true, false, not, ◌&&◌, ◌||◌, bit_xor,
}
use aping.Base.{◌==◌, ltb, leb, if◌then◌else◌}
use aping.Base.Int.{ℤ, pos, negsuc, ◌+ℤ◌, ◌-ℤ◌, i32}
use aping.Base.Outcome.{Run, ok, fatal, ◌>>=◌}
use aping.State.{Globals, Time}
use aping.Memory.{Memory, swap16, bytes}
use aping.Packet.{
  Packet, lineup_layers, icmp_type, icmp_seq, icmp_has_seq, ip_hl, ip_len, ip_opt, tval,
}
use aping.Filter.{generic_filter, rule_3}
use aping.Agent.{State, Places, difftime_int, agent_timestamp, agent_dyn_id, agent_ipid}
use aping.Bandwidth.{bandwidth_predictor}

-- A `char` as an `unsigned long`: it has a sign.
abbrev char_word : ℕ → ℕ
char_word b = if ltb b 128 then b else 2 ^ 32 - 256 + b

-- `hash` of fnv.c.
unfoldable hash_from : ℕ → List ℕ → ℕ
hash_from h [] = h
hash_from h (b ∷ bs) = hash_from (bit_xor (h * 16777619 % 2 ^ 32) (char_word b)) bs

unfoldable pub hash : List ℕ → ℕ
unfolding hash_from
hash bs = hash_from 0 bs

-- The route that an option records, as its hash.
unfoldable pub print_rr : Packet → Globals → Globals
unfolding hash
print_rr p g =
    let rr = hash (bytes p.mem (ip_opt p) 36) in
    if g.last_route == rr then g else record g { last_route = rr }

-- The sizes and the route that `process_pack` keeps.
unfoldable pub measure : Packet → Globals → Globals
unfolding print_rr
measure p g =
    let size = swap16 (ip_len p) in
    let g' = record g { ip_size = pos size; icmp_size = pos size -ℤ pos (ip_hl p * 4) } in
    if g.options.rroute && (ip_hl p == 15) then print_rr p g' else g'

-- What a packet that passes the filter changes before the agents run.
unfoldable pub arrive : Packet → Time → Globals → Globals
unfolding difftime_int
arrive p now g = record g {
  waiting_time =
      if icmp_type p == 0
      then difftime_int (tval p) g.last_ack
      else difftime_int g.last_sent g.last_ack;
  last_ack = now;
}

-- What the next packet is compared with.
unfoldable pub remember : Packet → Globals → Globals
remember p g = record g {
  last_seq = if icmp_has_seq p then pos (icmp_seq p) else g.last_seq;
  last_id = g.curr_id;
  last_rtt = record g.last_rtt { whole = g.rtt.whole };
  last_tstamp = g.curr_tstamp;
}

module _ (at : Places) (fuel : ℕ) where
  -- `icmp_dissect_vector`: the three functions that estimate the bandwidth. The others only print.
  unfoldable pub dissect : Packet → State → Run State
  unfolding bandwidth_predictor
  dissect p s =
      let kind = icmp_type p % 64 in
      if kind == 0
      then bandwidth_predictor at fuel s
      else if (kind == 3) || (kind == 14)
      then (if ltb s.g.detail 3 then ok s else bandwidth_predictor at fuel s)
      else ok s

  unfoldable pub process_pack : Packet → State → Run State
  unfolding measure dissect
  process_pack p s =
      let s' : State = record s { g = measure p s.g } in
      if ltb s.g.detail 3 then ok s' else dissect p s'

  -- The agents. A packet that `agent_ipid` refuses is not processed, and neither is one at detail 0.
  unfoldable pub watch : Packet → Time → State → Run State
  unfolding process_pack agent_timestamp agent_dyn_id agent_ipid
  watch p now s = do
    timed ← agent_timestamp at p now s
    (kept, judged) ← agent_ipid at (record timed { g = agent_dyn_id p timed.g })
    if kept && not (judged.g.detail == 0) then process_pack p judged else ok judged

  unfoldable pub follow : Packet → Time → State → Run State
  unfolding process_pack watch
  follow p now s =
      if not s.g.options.sniff
      then watch p now s
      else if not (s.g.detail == 0)
      then process_pack p s
      else ok s

  -- What a packet that passes the filter does, with `n_recv` counted.
  unfoldable pub accept : (ℕ → ℤ) → Packet → Time → State → Run State
  unfolding rule_3 follow arrive remember
  accept beyond p now s =
      let g =
        if rule_3 beyond s.g p then record s.g { n_tome = i32 (s.g.n_tome +ℤ pos 1) } else s.g in
      do s' ← follow p now (record s { g = arrive p now g }); ok (record s' { g = remember p s'.g })

  -- One turn of the inner loop of `receiver`, for a frame in memory that was captured at `now`.
  unfoldable pub receive : (ℕ → ℤ) → Memory → Time → State → Run State
  unfolding generic_filter accept
  receive beyond m now s =
      let p = lineup_layers s.g.offset_dl m in
      let counted : State = record s { g = record s.g { n_recv = i32 (s.g.n_recv +ℤ pos 1) } } in
      if generic_filter beyond counted.g p then accept beyond p now counted else ok counted
