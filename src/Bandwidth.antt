-- ===== src/Bandwidth.antt =====
-- `bandwidth_predictor` of statistic.c: the traffic of the remote host, from the step of its ids and
-- the time that the step took. What it prints is in Screen/Dissect.
pub mod Pending
use aping.Base.{
  ℕ, ◌+◌, ◌-◌, ◌*◌, ◌^◌, List, [], ◌∷◌, Option, none, some, Bool, true, false, not, ◌&&◌, ◌||◌,
  get_elem?,
}
use aping.Base.{◌==◌, if◌then◌else◌}
use aping.Base.Int.{ℤ, pos, negsuc, ◌+ℤ◌, ◌-ℤ◌, ◌*ℤ◌, ◌==ℤ◌, max_ℤ, tdiv, i32}
use aping.Base.Outcome.{Run, ok, fatal, Fault, ◌>>=◌}
use aping.State.{Globals}
use aping.Statistic.Expectation.{expectation, Tables}
use aping.Statistic.Round.{magic_round}
use aping.Agent.{State, Places}

-- The mean sizes of packets of `tcpip_lenght`, in bytes.
abbrev pub tcpip_lenght : List ℕ
tcpip_lenght =
    600 ∷ 40 ∷ 1500 ∷ 710 ∷ 505 ∷ 994 ∷ 852 ∷ 893 ∷ 683 ∷ 998 ∷ 862 ∷ 438 ∷ 816 ∷ 303 ∷ 837 ∷ 670
    ∷ []

-- `a / b` on a `long`: 0 and the quotient out of range raise a signal.
unfoldable pub quotient : ℤ → ℤ → Run ℤ
quotient a b =
    if (b ==ℤ pos 0) || ((b ==ℤ negsuc 0) && (a ==ℤ negsuc (2 ^ 31 - 1)))
    then fatal Fault.divide_error
    else ok (tdiv a b)

-- The size of a packet; an index past the table is no index of it.
abbrev pub lenght_of : ℕ → Run ℕ
lenght_of i = elim (get_elem? tcpip_lenght i) [ none ↦ fatal Fault.bad_index | some n ↦ ok n ]

-- What follows `magic_round`.
unfoldable pub estimate : Globals → Option ℤ → Run Globals
estimate g none = fatal Fault.endless_loop
estimate g (some r) = ok (record g {
  real_tau = r;
  pending_time = max_ℤ (tdiv g.tau (pos 2)) (i32 (r +ℤ tdiv g.jitter (pos 2)));
})

-- The time that the step of the ids took. A timestamp reply tells it; else it is estimated.
unfoldable pub pending : ℕ → Globals → Run Globals
unfolding estimate
pending fuel g =
    if not (g.curr_tstamp ==ℤ pos 0)
    then ok (record g { pending_time = max_ℤ (pos 0) (i32 (g.curr_tstamp -ℤ g.last_tstamp)) })
    else estimate g (magic_round fuel g.tau (i32 (g.last_rtt.whole +ℤ g.waiting_time)))

-- The bits that were sent: a packet of the mean size for each id between, and the reply.
abbrev pub burst_bits : Globals → ℕ → ℤ
burst_bits g size =
    let other = i32 (i32 (max_ℤ (pos 0) (i32 (g.diff_id -ℤ pos 1)) *ℤ pos size) *ℤ pos 8) in
    i32 (other +ℤ i32 (g.ip_size *ℤ pos 8))

module _ (at : Places) (fuel : ℕ) where
  -- What follows the time.
  unfoldable pub spread : Tables → Globals → Run State
  unfolding quotient
  spread tables g = do
    size ← lenght_of g.traffic_tos
    out ← quotient (burst_bits g size) g.pending_time
    mean ← expectation tables at.mean_burst out (pos 1)
    ok (record {
      g = record g { out_burst = out; max_burst = max_ℤ g.max_burst out; mean_burst = mean.value };
      tables = mean.tables;
    })

  unfoldable pub bandwidth_predictor : State → Run State
  unfolding pending spread
  bandwidth_predictor s =
      if s.g.options.sniff || (s.g.diff_ipid == 0)
      then ok s
      else if not (s.g.rand_ipid ==ℤ pos 0)
      then ok s
      else pending fuel s.g >>= spread s.tables
