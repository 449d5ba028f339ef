-- ===== src/Bandwidth/Pending.antt =====
-- When `bandwidth_predictor` has a divisor, and when it divides by 0.
use aping.Base.{
  ℕ, ◌+◌, ◌<◌, ◌≤◌, ◌^◌, ◌≡◌, ◌≢◌, refl, ap, ◌∙◌, arith, not, true, false, get_elem?_found,
  get_elem?, some, ◌==◌, ◌||◌, Bool,
}
use aping.Base.Int.{
  ℤ, pos, negsuc, pos_part, neg_part, ◌+ℤ◌, ◌-ℤ◌, ◌==ℤ◌, ◌≤ℤ◌, max_ℤ, tdiv, i32, i32-eq,
}
use aping.Base.Outcome.{ok, fatal, Fault}
use aping.State.{Globals}
use aping.Statistic.Round.{magic_round, IsNearest, magic_round-IsNearest}
use aping.Agent.{State, Places}
use aping.Bandwidth.{
  estimate, spread, pending, quotient, burst_bits, bandwidth_predictor, tcpip_lenght, lenght_of,
}

-- What the estimate looks at: the last round trip time and the waiting time since.
abbrev pub observed : Globals → ℤ
observed g = i32 (g.last_rtt.whole +ℤ g.waiting_time)

pub record IsEstimate (g g' : Globals) (period : ℕ) : Type 0 where
  pub nearest : IsNearest period (observed g) g'.real_tau
  pub half : tdiv g.tau (pos 2) ≤ℤ g'.pending_time
  pub positive : 0 < pos_part g'.pending_time

half_positive :
    (z : ℤ) (T : ℕ) (x : ℤ)
    → z ≡ pos T
    → 2 ≤ T
    → (tdiv z (pos 2) ≤ℤ max_ℤ (tdiv z (pos 2)) x) × (0 < pos_part (max_ℤ (tdiv z (pos 2)) x))
unfolding tdiv
half_positive (pos n) T x e h = ground (arith, ap pos_part e)
half_positive (negsuc n) T x e h = ground (arith, ap pos_part e)

-- For a sending period of 2 ms or more that with the absolute value of the observed time stays
-- below 2 ^ 31, enough fuel, and no timestamp, the estimate of the pending time ends: `real_tau`
-- is the multiple of the period nearest to what was observed, and the pending time is above 0 and
-- at least half the period.
pub pending-IsEstimate :
    (fuel T : ℕ) (g : Globals)
    → g.tau ≡ pos T
    → 2 ≤ T
    → T + (pos_part (observed g) + neg_part (observed g)) < 2 ^ 31
    → 0 < fuel
    → pos_part (observed g) + 1 < fuel + T
    → g.curr_tstamp ≡ pos 0
    → (g' : Globals) × (pending fuel g ≡ ok g') × IsEstimate g g' T
unfolding pending estimate
pending-IsEstimate fuel T g t two range f enough now =
    let (r, e, near) = magic_round-IsNearest fuel T (observed g) (omega arith) range f enough in
    let found : magic_round fuel g.tau (observed g) ≡ some r =
      ap (λ z. magic_round fuel z (observed g)) t ∙ e in
    let test : not (g.curr_tstamp ==ℤ pos 0) ≡ false = ap (λ z. not (z ==ℤ pos 0)) now in
    let (half, positive) = half_positive g.tau T (i32 (r +ℤ tdiv g.jitter (pos 2))) t two in
    (
      record g {
        real_tau = r;
        pending_time = max_ℤ (tdiv g.tau (pos 2)) (i32 (r +ℤ tdiv g.jitter (pos 2)));
      },
      rw test (ap (estimate g) found),
      record { nearest = near; half = half; positive = positive },
    )

-- A divisor above 0 raises no signal.
quotient_positive : (a b : ℤ) → 0 < pos_part b → quotient a b ≡ ok (tdiv a b)
unfolding quotient
quotient_positive a (pos n) h = ground arith
quotient_positive a (negsuc n) h = absurd (omega arith)

quotient_zero : (a b : ℤ) → b ≡ pos 0 → quotient a b ≡ fatal Fault.divide_error
unfolding quotient
quotient_zero a b h = rw h refl

no_step : (x y : ℤ) → y ≡ x → max_ℤ (pos 0) (i32 (x -ℤ y)) ≡ pos 0
unfolding ◌-ℤ◌
no_step x y h =
    ap (λ d. max_ℤ (pos 0) (i32 d)) {x = x -ℤ y} {y = pos 0} (ground arith)
    ∙ ap (max_ℤ (pos 0)) (i32-eq (pos 0) (omega arith) (omega arith))

-- Where a run does not sniff, `diff_ipid` is set, no random id was seen, `traffic_tos` is below
-- 16, and the current timestamp is not 0 and equals the last one, `bandwidth_predictor` divides
-- by 0.
bandwidth_predictor_same_tstamp :
    (at : Places) (fuel : ℕ) (s : State)
    → s.g.options.sniff ≡ false
    → s.g.diff_ipid ≢ 0
    → s.g.rand_ipid ≡ pos 0
    → s.g.traffic_tos < 16
    → s.g.curr_tstamp ≢ pos 0
    → s.g.last_tstamp ≡ s.g.curr_tstamp
    → bandwidth_predictor at fuel s ≡ fatal Fault.divide_error
unfolding bandwidth_predictor pending spread
bandwidth_predictor_same_tstamp at fuel s sniff on known tos now same =
    let (n, e) = get_elem?_found tcpip_lenght s.g.traffic_tos tos in
    rw
      (
        guard s.g.options.sniff s.g.diff_ipid sniff on,
        ap (λ z. not (z ==ℤ pos 0)) known,
        test s.g.curr_tstamp now,
        size e,
      )
      (rw
        (quotient_zero (burst_bits timed n) timed.pending_time
          (no_step s.g.curr_tstamp s.g.last_tstamp same))
        refl)
  where
    timed : Globals
    timed = record s.g { pending_time = max_ℤ (pos 0) (i32 (s.g.curr_tstamp -ℤ s.g.last_tstamp)) }

    guard : (b : Bool) (n : ℕ) → b ≡ false → n ≢ 0 → (b || (n == 0)) ≡ false
    guard b n e h = ground arith

    test : (z : ℤ) → z ≢ pos 0 → not (z ==ℤ pos 0) ≡ true
    test z h = ground arith

    size :
        {n : ℕ} → get_elem? tcpip_lenght s.g.traffic_tos ≡ some n → lenght_of s.g.traffic_tos ≡ ok n
    size e = rw e refl
