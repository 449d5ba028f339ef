-- ===== src/Receiver/Inv.antt =====
-- What every captured packet keeps.
use aping.Base.{
  ℕ, ◌+◌, ◌%◌, ◌<◌, Bool, true, false, not, ◌&&◌, ◌||◌, Option, some, none, ◌≡◌, ltb, ◌==◌,
  if◌then◌else◌, arith, Bool-cases, inl, inr,
}
use mathlib.Core.Path.{subst}
use aping.Base.Int.{ℤ, pos, negsuc, i32, ◌+ℤ◌, ◌==ℤ◌}
use aping.Base.Outcome.{ok, All, All-if, Run-cases}
use aping.State.{Globals, Time}
use aping.Memory.{Memory}
use aping.Packet.{Packet, lineup_layers, icmp_type}
use aping.Statistic.Expectation.{expectation, Tables}
use aping.Filter.{generic_filter, rule_3}
use aping.Agent.{
  State, Places, switch, reset_stat, stamp, agent_timestamp, agent_dyn_id, agent_ipid,
  is_suspicious,
}
use aping.Agent.Ident.{switch-lt}
use aping.Bandwidth.{
  bandwidth_predictor, spread, pending, estimate, lenght_of, quotient, burst_bits,
}
use aping.Statistic.Round.{magic_round}
use aping.Receiver.{
  dissect, process_pack, watch, accept, follow, arrive, remember, receive, measure, print_rr,
}

-- The flags are bits, the table of sizes has the index, and the counter of suspicious ids is below 4.
abbrev HasBits : Globals → Type 0
HasBits g =
    (g.endian_bug < 2)
    × (g.diff_ipid < 2)
    × (g.mac_inspection < 2)
    × (g.n_pause < 2)
    × (g.traffic_tos < 16)

abbrev pub IsSound : Globals → Type 0
IsSound g =
    (g.endian_bug < 2)
    × (g.diff_ipid < 2)
    × (g.mac_inspection < 2)
    × (g.n_pause < 2)
    × (g.traffic_tos < 16)
    × (g.ipid_failure < 4)

flip_endian : (g : Globals) → IsSound g → IsSound (record g { endian_bug = switch g.endian_bug })
flip_endian g (a, b, c, d, e, f) = (switch-lt g.endian_bug a, b, c, d, e, f)

abbrev pub Sound : State → Type 0
Sound s = IsSound s.g

module _ (at : Places) (fuel : ℕ) where
  agent_timestamp-Sound :
      (p : Packet) (now : Time) (s : State) → Sound s → All Sound (agent_timestamp at p now s)
  unfolding agent_timestamp
  agent_timestamp-Sound p now s h =
      let ms = (stamp s.g p now).rtt.whole in
      elim (Run-cases (expectation s.tables at.rtt_mean ms (pos 1))) [
        | inl (mean, e) ↦ rw e (elim (Run-cases (expectation mean.tables at.rtt_sqre ms (pos 2))) [
          | inl (sqre, k) ↦ rw k h
          | inr (f, k) ↦ rw k tt
        ])
        | inr (f, e) ↦ rw e tt
      ]

  -- Whatever the counter was.
  pub reset_stat-Sound : (s : State) → HasBits s.g → All Sound (reset_stat at s)
  unfolding reset_stat
  reset_stat-Sound s (a, b, c, d, e) =
      elim (Run-cases (expectation s.tables at.mean_burst (pos 0) (negsuc 0))) [
        | inl (r, k) ↦ rw k (a, b, c, d, e, omega arith)
        | inr (f, k) ↦ rw k tt
      ]

  spread-Sound : (t : Tables) (g : Globals) → IsSound g → All Sound (spread at fuel t g)
  unfolding spread
  spread-Sound t g h = elim (Run-cases (lenght_of g.traffic_tos)) [
    | inr (f, e) ↦ rw e tt
    | inl (size, e) ↦ rw e (elim (Run-cases (quotient (burst_bits g size) g.pending_time)) [
      | inr (f, i) ↦ rw i tt
      | inl (out, i) ↦ rw i (elim (Run-cases (expectation t at.mean_burst out (pos 1))) [
        | inr (f, k) ↦ rw k tt
        | inl (mean, k) ↦ rw k h
      ])
    ])
  ]

  estimate-Sound : (g : Globals) (r : Option ℤ) → IsSound g → All IsSound (estimate g r)
  unfolding estimate
  estimate-Sound g none h = tt
  estimate-Sound g (some r) h = h

  pending-Sound : (g : Globals) → IsSound g → All IsSound (pending fuel g)
  unfolding pending
  pending-Sound g h = elim (Bool-cases (g.curr_tstamp ==ℤ pos 0)) [
    | inl e ↦
        rw e
          (estimate-Sound g (magic_round fuel g.tau (i32 (g.last_rtt.whole +ℤ g.waiting_time))) h)
    | inr e ↦ rw e h
  ]

  bandwidth_predictor-Sound : (s : State) → Sound s → All Sound (bandwidth_predictor at fuel s)
  unfolding bandwidth_predictor
  bandwidth_predictor-Sound s h = elim (Bool-cases (s.g.options.sniff || (s.g.diff_ipid == 0))) [
    | inl e ↦ rw e h
    | inr e ↦ rw e (elim (Bool-cases (s.g.rand_ipid ==ℤ pos 0)) [
      | inr k ↦ rw k h
      | inl k ↦ rw k (elim (Run-cases (pending fuel s.g)) [
        | inl (g, z) ↦ rw z (spread-Sound s.tables g (subst (All IsSound) z (pending-Sound s.g h)))
        | inr (f, z) ↦ rw z tt
      ])
    ])
  ]

  abbrev twice : ℕ → Bool
  twice n = (n + 1 == 2) || (n + 1 == 3)

  low : (n : ℕ) → twice n ≡ true → n + 1 < 4
  low n h = ground arith

  rest : (n : ℕ) → twice n ≡ false → (n + 1 == 4) ≡ false → n < 4 → n + 1 < 4
  rest n h k l = ground arith

  abbrev counted : State → State
  counted s = record s { g = record s.g { ipid_failure = s.g.ipid_failure + 1 } }

  -- The fourth suspicious id in a row resets the counter and toggles the bit.
  agent_ipid-Sound : (s : State) → Sound s → All (λ r. Sound r.1) (agent_ipid at s)
  unfolding agent_ipid
  agent_ipid-Sound s (a, b, c, d, e, f) = elim (Bool-cases (is_suspicious s.g.diff_id)) [
    | inr k ↦ rw k (a, b, c, d, e, omega arith)
    | inl k ↦ rw k (elim (Bool-cases (twice s.g.ipid_failure)) [
      | inl t ↦ rw t (a, b, c, d, e, low s.g.ipid_failure t)
      | inr t ↦ rw t (elim (Bool-cases (s.g.ipid_failure + 1 == 4)) [
        | inr z ↦ rw z (a, b, c, d, e, rest s.g.ipid_failure t z f)
        | inl z ↦ rw z (elim (Run-cases (reset_stat at (counted s))) [
          | inr (x, y) ↦ rw y tt
          | inl (s', y) ↦ rw y (
              flip_endian s'.g (subst (All Sound) y (reset_stat-Sound (counted s) (a, b, c, d, e))))
        ])
      ])
    ])
  ]

  measure-Sound : (p : Packet) (g : Globals) → IsSound g → IsSound (measure p g)
  unfolding measure print_rr
  measure-Sound p g h = ground (arith, h)

  dissect-Sound : (p : Packet) (s : State) → Sound s → All Sound (dissect at fuel p s)
  unfolding dissect
  dissect-Sound p s h =
      let k = bandwidth_predictor-Sound s h in
      let run = bandwidth_predictor at fuel s in
      let late = if ltb s.g.detail 3 then ok s else run in
      let t = icmp_type p % 64 in
      All-if Sound (t == 0) run (if (t == 3) || (t == 14) then late else ok s) k (
        All-if Sound ((t == 3) || (t == 14)) late (ok s)
          (All-if Sound (ltb s.g.detail 3) (ok s) run h k) h)

  process_pack-Sound : (p : Packet) (s : State) → Sound s → All Sound (process_pack at fuel p s)
  unfolding process_pack
  process_pack-Sound p s h =
      let k = measure-Sound p s.g h in
      elim (Bool-cases (ltb s.g.detail 3)) [
        | inl e ↦ rw e k
        | inr e ↦ rw e (dissect-Sound p (record s { g = measure p s.g }) k)
      ]

  watch-Sound : (p : Packet) (now : Time) (s : State) → Sound s → All Sound (watch at fuel p now s)
  unfolding watch agent_dyn_id
  watch-Sound p now s h = elim (Run-cases (agent_timestamp at p now s)) [
    | inr (f, k) ↦ rw k tt
    | inl (timed, k) ↦
        let h' : Sound timed = subst (All Sound) k (agent_timestamp-Sound p now s h) in
        let s' : State = record timed { g = agent_dyn_id p timed.g } in
        rw k (elim (Run-cases (agent_ipid at s')) [
          | inr (f, z) ↦ rw z tt
          | inl ((kept, judged), z) ↦
              let j = subst (All (λ r. Sound r.1)) z (agent_ipid-Sound s' h') in
              rw z (
                All-if Sound (kept && not (judged.g.detail == 0)) (process_pack at fuel p judged)
                  (ok judged) (process_pack-Sound p judged j) j)
        ])
  ]

  follow-Sound :
      (p : Packet) (now : Time) (s : State) → Sound s → All Sound (follow at fuel p now s)
  unfolding follow
  follow-Sound p now s h =
      let run = process_pack at fuel p s in
      let rest = if not (s.g.detail == 0) then run else ok s in
      All-if Sound (not s.g.options.sniff) (watch at fuel p now s) rest (watch-Sound p now s h)
        (All-if Sound (not (s.g.detail == 0)) run (ok s) (process_pack-Sound p s h) h)

  tome-Sound :
      (b : Bool) (g : Globals) (n : ℤ)
      → IsSound g
      → IsSound (if b then record g { n_tome = n } else g)
  tome-Sound true g n h = h
  tome-Sound false g n h = h

  accept-Sound :
      (beyond : ℕ → ℤ) (p : Packet) (now : Time) (s : State)
      → Sound s
      → All Sound (accept at fuel beyond p now s)
  unfolding accept arrive remember
  accept-Sound beyond p now s h =
      let g =
        if rule_3 beyond s.g p then record s.g { n_tome = i32 (s.g.n_tome +ℤ pos 1) } else s.g in
      let a : State = record s { g = arrive p now g } in
      elim (Run-cases (follow at fuel p now a)) [
        | inr (f, k) ↦ rw k tt
        | inl (s', k) ↦
            rw k (
              subst (All Sound) k (follow-Sound p now a (tome-Sound (rule_3 beyond s.g p) s.g _ h)))
      ]

  -- A turn of the receiver that ends with no fault keeps `endian_bug`, `diff_ipid`,
  -- `mac_inspection` and `n_pause` below 2, `traffic_tos` below 16 and `ipid_failure` below 4.
  pub receive-Sound :
      (beyond : ℕ → ℤ) (m : Memory) (now : Time) (s : State)
      → Sound s
      → All Sound (receive at fuel beyond m now s)
  unfolding receive
  receive-Sound beyond m now s h =
      let p = lineup_layers s.g.offset_dl m in
      let counted : State = record s { g = record s.g { n_recv = i32 (s.g.n_recv +ℤ pos 1) } } in
      All-if Sound (generic_filter beyond counted.g p) (accept at fuel beyond p now counted)
        (ok counted) (accept-Sound beyond p now counted h) h
