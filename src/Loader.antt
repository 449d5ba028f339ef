-- ===== src/Loader.antt =====
-- The loaders of the requests: dissect-echo.c, dissect-timestamp.c, dissect-information.c and
-- dissect-mask.c. Memory starts at `buffer`.
pub mod Sums
pub mod Quoting
pub mod Quoted
use aping.Base.{ℕ, ◌+◌, ◌*◌, ◌/◌, ◌%◌, ◌^◌, List, [], ◌∷◌, ◌++◌, take, map, leb, if◌then◌else◌}
use aping.Base.Outcome.{Run, ok, fatal, Fault}
use aping.Base.Int.{ℤ, pos, ◌+ℤ◌, residue}
use aping.Memory.{Memory, Store, store8, store16, store32, store_bytes, write, swap32}
use aping.Memory.Field.{store_sum}
use aping.State.{Globals, Time}
use aping.Sender.{max_pacsize, Packet, load_layers, sizeof_icmp}
use aping.Agent.{day_ms}

-- `iptime`: the milliseconds of the day, in the order of the network.
unfoldable pub iptime : Time → ℕ
unfolding day_ms
iptime now = swap32 (residue (2 ^ 32) (day_ms now))

-- The type, a code of 0, the id of this process, and the number of the packet.
abbrev pub request_stores : Globals → ℕ → ℕ → List Store
request_stores g icmp kind =
    store8 icmp kind
    ∷ store8 (icmp + 1) 0
    ∷ store16 (icmp + 4) g.myid
    ∷ store16 (icmp + 6) (residue 65536 g.n_sent)
    ∷ []

-- At most `MAX_PATTERN` characters of the pattern, and then the time, a `timeval` of two `long`.
abbrev pub echo_stores : Globals → Packet → Time → List Store
echo_stores g p now =
    store_bytes p.tstamp_data (take 1024 g.pattern)
    ∷ store32 p.tstamp_tval (residue (2 ^ 32) now.whole)
    ∷ store32 (p.tstamp_tval + 4) (residue (2 ^ 32) now.part)
    ∷ []

-- `ICMP_sum (p) = 0; ICMP_sum (p) = chksum (p->icmp, n);`
abbrev pub load_sum : ℕ → ℕ → Memory → Memory
load_sum icmp n m = store_sum m icmp 2 n

-- The same over a message with the pattern, whose length is not bounded: a sum past the end of
-- `buffer` is a fault.
unfoldable pub load_sum_within : ℕ → ℕ → Memory → Run Memory
load_sum_within icmp n m =
    if leb (icmp + n) max_pacsize then ok (load_sum icmp n m) else fatal Fault.bad_index

unfoldable pub load_echo : Globals → Time → Memory → Run Memory
unfolding load_sum_within
load_echo g now m =
    let p = load_layers g in
    load_sum_within p.icmp (sizeof_icmp g 8)
      (write m (request_stores g p.icmp 8 ++ echo_stores g p now))

unfoldable pub load_timestamp : Globals → Time → Memory → Memory
unfolding iptime
load_timestamp g now m =
    let p = load_layers g in
    load_sum p.icmp (sizeof_icmp g 13)
      (write m (request_stores g p.icmp 13 ++ (store32 (p.icmp + 8) (iptime now) ∷ [])))

unfoldable pub load_information_request : Globals → Memory → Memory
load_information_request g m =
    let p = load_layers g in
    load_sum p.icmp (sizeof_icmp g 15) (write m (request_stores g p.icmp 15))

unfoldable pub load_address_mask_request : Globals → Memory → Memory
load_address_mask_request g m =
    let p = load_layers g in
    load_sum p.icmp (sizeof_icmp g 17) (write m (request_stores g p.icmp 17))
