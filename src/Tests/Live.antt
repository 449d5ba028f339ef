-- ===== src/Tests/Live.antt =====
-- A captured echo reply, keys, and a run of the sender.
use aping.Base.{
  ◌*◌, ℕ, List, length, inl, none, true, [], ◌∷◌, ◌≡◌, refl, arith, ◌==◌, ◌&&◌, ◌||◌, if◌then◌else◌,
}
use aping.Base.Int.{ℤ, pos}
use aping.Base.Outcome.{ok, All}
use aping.State.{Globals, Time, initial}
use aping.Memory.{Memory, swap16}
use aping.Packet.{lineup_layers, icmp_type}
use aping.Filter.{generic_filter, tome, is_orphan, is_related, is_my_id}
use aping.Filter.Echo.{generic_filter-echo}
use aping.Agent.{State, Places, ntohss}
use aping.Receiver.{receive}
use aping.Sender.{sizeof_icmp, header_words}
use aping.Sending.{Turn}
use aping.Sending.Wire.{Moment, Datagram, Wire, wire_loop}
use aping.Sending.Wire.Verified.{Sends, AllVerify}
use aping.Usage.{set_levels, load_maturity}
use aping.Usage.Marked.{IsMarked-AllVerify}
use aping.Sending.Start.{Opening, Notice, sender, sender-count}
use aping.Tests.Names.{one_host, empty}
use aping.Receiver.Inv.{Sound, receive-Sound}
use aping.Keystroke.{keystroke}
use aping.Keystroke.Reach.{Step, here, later, key, start, ntohss-Reach}

-- A header of 5 words, and an echo reply behind it.
abbrev reply : Memory
reply i = if i == 14 then 69 else 0

abbrev past : ℕ → ℤ
past i = pos 0

generic_filter-echo_example :
    generic_filter past initial (lineup_layers 14 reply)
    ≡ tome initial (lineup_layers 14 reply)
      && ((is_orphan past (lineup_layers 14 reply) && is_related initial (lineup_layers 14 reply))
          || ((icmp_type (lineup_layers 14 reply) == 0)
              && is_my_id initial (lineup_layers 14 reply)))
unfolding lineup_layers
generic_filter-echo_example =
    generic_filter-echo past initial (lineup_layers 14 reply) refl refl (omega arith)

abbrev places : Places
places = record { rtt_mean = 134520832; rtt_sqre = 134520836; mean_burst = 134520840 }

abbrev noon : Time
noon = record { whole = pos 43200; part = pos 250000 }

start-Sound : Sound start
start-Sound = (omega arith, omega arith, omega arith, omega arith, omega arith, omega arith)

receive-Sound_example : All Sound (receive places 2000 past reply noon start)
receive-Sound_example = receive-Sound places 2000 past reply noon start start-Sound

-- The key `m`.
abbrev inspecting : State
inspecting = record start { g = record start.g { mac_inspection = 1 } }

one_key : Step places start inspecting
unfolding keystroke
one_key = key 109 start inspecting refl

ntohss-Reach_example : ntohss inspecting.g 4660 ≡ swap16 4660
ntohss-Reach_example =
    ntohss-Reach places inspecting 4660
      (later start inspecting inspecting one_key (here inspecting))

abbrev turn : Turn
turn = record { now = noon; result = pos 84; random = pos 7 }

abbrev twice : Globals
twice = record initial { count = pos 2 }

-- Echo requests, of which `-c` wants two.
abbrev moment : Moment
moment = record { turn = turn; loaded = noon; random_id = 7; random_port = 9 }

abbrev idle : Wire
idle = record { g = twice; cache = empty; buffer = λ i. 0 }

idle-Sends : Sends 20 16 8 idle
unfolding sizeof_icmp
idle-Sends = record { type = refl; words = refl; length_of = refl; byte = λ i. omega arith }

abbrev opening : Opening
opening = record {
  now = noon;
  opened = true;
  header_included = true;
  random = pos 70000;
  localnet = 0;
  netmask = 0;
  ifname = [];
  host_dst = none;
}

sender-count_example :
    (w : Wire) × (ls : List Notice) × (ds : List Datagram) × (sender one_host 100 [] [] opening
        (moment ∷ moment ∷ moment ∷ [])
        twice
        empty
      ≡ ok (w, ls, ds))
    × (w.g.n_sent ≡ pos 2)
    × (length ds ≡ 2)
    × AllVerify (header_words twice * 4) (sizeof_icmp twice 8) ds
unfolding sizeof_icmp
sender-count_example =
    sender-count one_host 100 [] [] 8 0 (inl refl) (omega arith) opening
      (moment ∷ moment ∷ moment ∷ []) twice empty 2 refl refl refl refl (omega arith) refl refl
      (omega arith) (omega arith) (refl, (refl, (refl, tt))) (omega arith)

IsMarked-AllVerify_example :
    All (λ x. AllVerify 20 16 x.1) (wire_loop one_host 100 [] [] (moment ∷ moment ∷ []) idle)
unfolding load_maturity set_levels
IsMarked-AllVerify_example =
    IsMarked-AllVerify one_host 100 [] [] 20 16 8 (moment ∷ moment ∷ []) idle (inl refl) idle-Sends
