-- ===== src/Tests/Wire.antt =====
-- Checksums, headers, requests and the call that sends them.
use aping.Base.{◌+◌, ◌*◌, ◌≤◌, ◌<◌, ◌⊎◌, length, ℕ, ◌-◌, List, [], ◌∷◌, ◌≡◌, ◌≢◌, refl, arith, true}
use aping.Base.Int.{pos}
use aping.Memory.{Memory, bytes}
use aping.Memory.Field.{IsByteMemory}
use aping.State.{Globals, Time, initial, no_options}
use aping.Chksum.{chksum, accumulate, fold_carries}
use aping.Chksum.Sum.{Bytes}
use aping.Chksum.Rfc.{ones_sum, chksum-eq-ones_sum}
use aping.Base.Outcome.{ok, fatal, Fault}
use aping.Sender.{max_pacsize, header_words, load_ip, load_layers, sizeof_icmp}
use aping.Chksum.Verify.{with_field, chksum_detects}
use aping.Sender.Header.{HasFields, load_ip-verifies, load_ip-HasFields}
use aping.Loader.{load_echo}
use aping.Loader.Sums.{message_sum, load_echo-verifies}
use aping.Loader.Quoting.{
  load_source_quench, load_redirect, load_destination_unreachable, quench_formats, redirect_formats,
  unreachable_formats,
}
use aping.Loader.Quoted.{Loads, quoting_loaders-Loads}
use aping.Base.Text.{Text, dotted_zero}
use aping.Args.{checkargs}
use aping.Tests.Names.{one_host, empty}
use aping.Socket.{Sent, sent, failed_with, Ends, atomic_sendto, atomic_sendto-Ends}

-- The first words of an IP header.
abbrev start : List ℕ
start = 69 ∷ 0 ∷ 0 ∷ 84 ∷ []

start-Bytes : Bytes start
start-Bytes = (omega arith, (omega arith, (omega arith, (omega arith, tt))))

chksum-eq-ones_sum_example : chksum start ≡ 65535 - ones_sum start
chksum-eq-ones_sum_example = chksum-eq-ones_sum start start-Bytes (omega arith)

chksum_detects_example : chksum (with_field [] 2 (254 ∷ 255 ∷ [])) ≢ 0
unfolding chksum accumulate fold_carries
chksum_detects_example =
    chksum_detects [] (254 ∷ 255 ∷ []) refl tt (omega arith, (omega arith, tt)) (omega arith) 1 2
      (omega arith) (omega arith) (omega arith) refl

-- A route is recorded.
abbrev routed : Globals
routed = record initial {
  options = record no_options { rroute = true; ip_ttl = true };
  ip_src = 16777343;
  ip_dst = 134744072;
  ip_id = pos 4660;
  myid = 777;
  n_sent = pos 3;
  pattern = 97 ∷ 98 ∷ 99 ∷ [];
}

abbrev blank : Memory
blank = λ i. 0

blank-IsByteMemory : IsByteMemory blank
blank-IsByteMemory i = omega arith

abbrev noon : Time
noon = record { whole = pos 43200; part = pos 250000 }

load_ip-verifies_example : chksum (bytes (load_ip routed blank) 0 60) ≡ 0
load_ip-verifies_example = load_ip-verifies routed blank blank-IsByteMemory

load_ip-HasFields_example : HasFields routed (load_ip routed blank)
load_ip-HasFields_example = load_ip-HasFields routed blank

load_echo-verifies_example :
    ((header_words routed * 4 + (16 + length routed.pattern) ≤ max_pacsize)
      × (m' : Memory) × (load_echo routed noon blank ≡ ok m')
      × (message_sum m' (load_layers routed).icmp (sizeof_icmp routed 8) ≡ 0))
    ⊎ ((max_pacsize < header_words routed * 4 + (16 + length routed.pattern))
        × (load_echo routed noon blank ≡ fatal Fault.bad_index))
load_echo-verifies_example = load_echo-verifies routed noon blank blank-IsByteMemory

-- The destination, the type of service, and two addresses.
abbrev quench_arguments : List Text
quench_arguments = dotted_zero ∷ (b'0' ∷ []) ∷ dotted_zero ∷ dotted_zero ∷ []

quoting_loaders-Loads_example :
    Loads
      (load_layers routed).icmp
      (sizeof_icmp routed 4)
      0
      quench_arguments
      (checkargs [] quench_arguments 4 quench_formats)
      (load_source_quench one_host 100 [] quench_arguments 7 9 routed empty blank)
    × Loads
        (load_layers routed).icmp
        (sizeof_icmp routed 5)
        0
        quench_arguments
        (checkargs [] quench_arguments 5 redirect_formats)
        (load_redirect one_host 100 [] quench_arguments 7 9 routed empty blank)
    × Loads
        (load_layers routed).icmp
        (sizeof_icmp routed 3)
        7
        quench_arguments
        (checkargs [] quench_arguments 5 unreachable_formats)
        (load_destination_unreachable one_host 100 [] quench_arguments 7 9 routed empty blank)
quoting_loaders-Loads_example =
    quoting_loaders-Loads one_host 100 [] quench_arguments 7 9 routed empty blank blank-IsByteMemory

-- A part, an interrupted call, and the rest.
abbrev parts : List Sent
parts = sent 1 ∷ failed_with true ∷ sent 3 ∷ []

atomic_sendto-Ends_example : Ends 0 start parts (atomic_sendto start parts)
atomic_sendto-Ends_example = atomic_sendto-Ends start parts (omega arith, (omega arith, tt))
