-- ===== src/Tests/Stats.antt =====
-- Means, guesses, rounding, times, ids and bandwidth.
use aping.Base.{
  ◌+◌, ◌-◌, ◌*◌, ◌%◌, List, [], ◌∷◌, some, ◌≡◌, refl, arith, not, ◌&&◌, ◌==◌, ltb, leb,
  if◌then◌else◌,
}
use aping.Base.Int.{ℤ, pos, wrap, ◌+ℤ◌, ◌-ℤ◌}
use aping.Base.Outcome.{ok}
use aping.State.{Globals, initial}
use aping.Memory.{swap16}
use aping.Statistic.Expectation.{Tables, empty_tables, clear, index}
use aping.Statistic.Mean.{feed, mean_reply, feed-mean}
use aping.Statistic.Ttl.{ttl_predictor, first_at_least, initial_ttls, ttl_predictor-eq}
use aping.Statistic.Round.{magic_round, IsNearest, magic_round-IsNearest}
use aping.Packet.{Packet, ip_id, lineup_layers}
use aping.Agent.{State, Places, time_adjust, agent_dyn_id}
use aping.Agent.Elapsed.{micros, at_time, elapsed, agent_rtt}
use aping.Agent.Ident.{agent_dyn_id-diff}
use aping.Bandwidth.{pending}
use aping.Bandwidth.Pending.{IsEstimate, pending-IsEstimate}

abbrev rtts : List ℤ
rtts = pos 30 ∷ pos 20 ∷ []

feed-mean_example :
    (t' : Tables) × (feed (clear empty_tables 0 (index 134520832)) 134520832 0 (pos 10 ∷ rtts)
      ≡ ok (mean_reply t' 134520832 0 (pos 10 ∷ rtts)))
feed-mean_example =
    feed-mean empty_tables 134520832 0 (pos 10) rtts (omega arith)
      ((omega arith, omega arith), ((omega arith, omega arith), ((omega arith, omega arith), tt)))
      (omega arith)

ttl_predictor-eq_example : ttl_predictor 57 ≡ first_at_least 57 initial_ttls
ttl_predictor-eq_example = ttl_predictor-eq 57 (omega arith) (omega arith)

magic_round-IsNearest_example :
    (r : ℤ) × (magic_round 2000 (pos 1000) (pos 1400) ≡ some r) × IsNearest 1000 (pos 1400) r
magic_round-IsNearest_example =
    magic_round-IsNearest 2000 1000 (pos 1400) (omega arith) (omega arith) (omega arith)
      (omega arith)

agent_rtt_example :
    micros (time_adjust (elapsed (at_time (100 + 1) 1500) (at_time 100 999000)))
    ≡ pos (1 * 1000000 + 1500)
      -ℤ pos 999000
      +ℤ pos (if ltb 1500 999000 && not ((999000 - 1500) % 1000 == 0) then 2000 else 0)
agent_rtt_example =
    agent_rtt 100 1 1500 999000 (omega arith) (omega arith) (omega arith) (omega arith)

abbrev capture : Packet
capture = lineup_layers 14 (λ i. 0)

abbrev following : Globals
following = record initial { slow_start = 0; last_id = pos 65530 }

agent_dyn_id-diff_example :
    ((agent_dyn_id capture following).curr_id ≡ pos (swap16 (ip_id capture)))
    × ((agent_dyn_id capture following).diff_id
        ≡ pos (
            if leb 65530 (swap16 (ip_id capture))
            then (swap16 (ip_id capture) + 65536 - 65530) % 65536
            else (swap16 (ip_id capture) + 65536 - 65530) % 65536 - 1))
unfolding lineup_layers
agent_dyn_id-diff_example =
    agent_dyn_id-diff capture following 65530 (λ i. omega arith) (omega arith) refl refl
      (omega arith)

abbrev late : Globals
late = record initial {
  last_rtt = record { whole = pos 400; part = pos 0 };
  waiting_time = pos 1000;
}

pending-IsEstimate_example : (g' : Globals) × (pending 2000 late ≡ ok g') × IsEstimate late g' 1000
unfolding wrap ◌+ℤ◌
pending-IsEstimate_example =
    pending-IsEstimate 2000 1000 late refl (omega arith) (omega arith) (omega arith) (omega arith)
      refl

abbrev places : Places
places = record { rtt_mean = 134520832; rtt_sqre = 134520836; mean_burst = 134520840 }

abbrev twice : State
twice = record {
  g = record initial { diff_ipid = 1; curr_tstamp = pos 5000; last_tstamp = pos 5000 };
  tables = empty_tables;
}
