-- ===== src/Loader/Quoting.antt =====
-- The loaders that take arguments: dissect-echo-reply.c, dissect-source-quench.c, dissect-redirect.c
-- and dissect-destination.c. All but the first quote an IP header and two ports. `random_id` and
-- `random_port` are the two values of `1 + (int) (65535.0 * rand () / (RAND_MAX + 1.0))`.
use aping.Base.{ℕ, ◌+◌, ◌%◌, List, [], ◌∷◌, ◌++◌, some, none, get_elem?}
use aping.Base.Int.{residue, tmod}
use aping.Base.Text.{Text}
use aping.Base.Ctype.{strtol}
use aping.Base.Outcome.{Run, ok, fatal, Fault, ◌>>=◌, ◌>>◌}
use aping.Memory.{Memory, Store, store8, store16, store32, write, swap16}
use aping.Memory.Field.{store_sum}
use aping.State.{Globals, Time}
use aping.Sender.{load_layers, sizeof_icmp}
use aping.NsCache.{Resolver, Cache, gethostbyname_cache}
use aping.Args.{Format, checkargs}
use aping.Loader.{echo_stores, load_sum, load_sum_within}

-- `argv[i]`; a read past the list is a fault of the model.
abbrev pub arg : List Text → ℕ → Run Text
arg argv i = elim (get_elem? argv i) [ none ↦ fatal Fault.bad_index | some t ↦ ok t ]

-- `(int) strtol (t, NULL, 10)`, stored in a word of `m` values.
abbrev pub number : ℕ → Text → ℕ
number m t = residue m (strtol 10 t)

-- The quoted header but its checksum; `ip_len` is `htons (sizeof (struct ip) + 64 + 20)`.
abbrev pub quoted_stores : ℕ → ℕ → ℕ → ℕ → ℕ → List Store
quoted_stores icmp tos id src dst =
    store8 (icmp + 8) 0x45
    ∷ store8 (icmp + 9) tos
    ∷ store16 (icmp + 10) (swap16 (20 + 64 + 20))
    ∷ store16 (icmp + 12) (swap16 id)
    ∷ store16 (icmp + 14) 0
    ∷ store8 (icmp + 16) 255
    ∷ store8 (icmp + 17) 6
    ∷ store32 (icmp + 20) src
    ∷ store32 (icmp + 24) dst
    ∷ []

-- The fields `head` of the message, the quoted header, and its checksum.
abbrev pub load_quoted : ℕ → List Store → List Store → Memory → Memory
load_quoted icmp head quoted m = store_sum (write m (head ++ quoted)) (icmp + 8) 10 20

-- The two ports, as they stand in memory, and the checksum of the message.
abbrev pub load_ports : ℕ → ℕ → ℕ → ℕ → Memory → Memory
load_ports icmp n sport dport m =
    load_sum icmp n (write m (store16 (icmp + 28) sport ∷ store16 (icmp + 30) dport ∷ []))

unfoldable pub load_message : ℕ → ℕ → List Store → List Store → ℕ → ℕ → Memory → Memory
load_message icmp n head quoted sport dport m =
    load_ports icmp n sport dport (load_quoted icmp head quoted m)

-- `htons ((short) (sport + 0xfaded))`, where `sport` is read back from memory.
abbrev pub second_port : ℕ → ℕ
second_port sport = swap16 ((sport + 0xfaded) % 65536)

abbrev pub quench_formats : List Format
quench_formats = Format.arg_ip ∷ Format.arg_num ∷ Format.arg_ip ∷ Format.arg_ip ∷ []

abbrev pub redirect_formats : List Format
redirect_formats =
    Format.arg_ip ∷ Format.arg_num ∷ Format.arg_ip ∷ Format.arg_ip ∷ Format.arg_ip ∷ []

abbrev pub unreachable_formats : List Format
unreachable_formats =
    Format.arg_ip ∷ Format.arg_num ∷ Format.arg_num ∷ Format.arg_ip ∷ Format.arg_ip
    ∷ Format.arg_port ∷ Format.arg_port ∷ []

module _ (after : Text) (argv : List Text) where
  unfoldable pub load_echo_reply : Globals → Time → Memory → Run Memory
  unfolding load_sum_within
  load_echo_reply g now m = do
    checkargs after argv 3 (Format.arg_ip ∷ Format.arg_num ∷ Format.arg_num ∷ [])
    id ← arg argv 1
    seq ← arg argv 2
    let p = load_layers g
    let stores =
        store8 p.icmp 0
        ∷ store8 (p.icmp + 1) 0
        ∷ store16 (p.icmp + 4) (swap16 (number 65536 id))
        ∷ store16 (p.icmp + 6) (swap16 (number 65536 seq))
        ∷ echo_stores g p now
    load_sum_within p.icmp (sizeof_icmp g 8) (write m stores)

module _ (r : Resolver) (today : ℕ) (after : Text) (argv : List Text)
    (random_id random_port : ℕ) where
  unfoldable pub load_source_quench : Globals → Cache → Memory → Run (Cache × Memory)
  load_source_quench g c m = do
    checkargs after argv 4 quench_formats
    tos ← arg argv 1
    from ← arg argv 2
    to ← arg argv 3
    let i = (load_layers g).icmp
    let (src, c1) = gethostbyname_cache r today (some from) c
    let (dst, c2) = gethostbyname_cache r today (some to) c1
    let head = store8 i 4 ∷ store8 (i + 1) (residue 256 g.icmp_code) ∷ []
    let sport = swap16 (random_port % 65536)
    let quoted = quoted_stores i (number 256 tos) random_id src dst
    ok (c2, load_message i (sizeof_icmp g 4) head quoted sport (second_port sport) m)

  unfoldable pub load_redirect : Globals → Cache → Memory → Run (Cache × Memory)
  load_redirect g c m = do
    checkargs after argv 5 redirect_formats
    gateway ← arg argv 2
    tos ← arg argv 1
    from ← arg argv 3
    to ← arg argv 4
    let i = (load_layers g).icmp
    let (gwaddr, c1) = gethostbyname_cache r today (some gateway) c
    let (src, c2) = gethostbyname_cache r today (some from) c1
    let (dst, c3) = gethostbyname_cache r today (some to) c2
    let head = store8 i 5 ∷ store8 (i + 1) (residue 256 g.icmp_code) ∷ store32 (i + 4) gwaddr ∷ []
    let sport = swap16 (random_port % 65536)
    let quoted = quoted_stores i (number 256 tos) random_id src dst
    ok (c3, load_message i (sizeof_icmp g 5) head quoted sport (second_port sport) m)

  -- Seven formats are given, and a count of five: the ports are not checked.
  unfoldable pub load_destination_unreachable : Globals → Cache → Memory → Run (Cache × Memory)
  load_destination_unreachable g c m = do
    checkargs after argv 5 unreachable_formats
    kind ← arg argv 1
    tos ← arg argv 2
    from ← arg argv 3
    to ← arg argv 4
    sport ← arg argv 5
    dport ← arg argv 6
    let i = (load_layers g).icmp
    let (src, c1) = gethostbyname_cache r today (some from) c
    let (dst, c2) = gethostbyname_cache r today (some to) c1
    let head = store8 i 3 ∷ store8 (i + 1) (residue 256 (tmod (strtol 10 kind) 4)) ∷ []
    let quoted = quoted_stores i (number 256 tos) random_id src dst
    ok (
      c2,
      load_message i (sizeof_icmp g 3) head quoted (swap16 (number 65536 sport))
          (swap16 (number 65536 dport)) m,
    )
