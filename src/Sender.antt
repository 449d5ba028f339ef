-- ===== src/Sender.antt =====
-- sender.c: the layout of a packet in `buffer`, and the IP header. Memory starts at `buffer`. `FIX`
-- is `htons`, as everywhere but on FreeBSD.
pub mod Header
use aping.Base.{ℕ, ◌+◌, ◌*◌, ◌/◌, ◌%◌, ◌^◌, List, [], ◌∷◌, ◌++◌, bit_or, length, get_or}
use aping.Base.{◌==◌, if◌then◌else◌}
use aping.Base.Int.{ℤ, residue}
use aping.Memory.{Memory, Store, store8, store16, store32, write, swap16}
use aping.Memory.Field.{store_sum}
use aping.State.{Options, Globals}

-- `LEN`.
abbrev len_of : ℕ → ℕ → ℕ
len_of base kind = bit_or base (kind * 2 ^ 8)

abbrev icmphdr_vector : List ℕ
icmphdr_vector =
    len_of 8 1
    ∷ 0
    ∷ 0
    ∷ len_of 8 2
    ∷ len_of 8 2
    ∷ len_of 8 2
    ∷ 0
    ∷ 0
    ∷ len_of 8 1
    ∷ len_of 8 4
    ∷ 8
    ∷ len_of 8 2
    ∷ len_of 8 2
    ∷ 20
    ∷ 20
    ∷ 8
    ∷ 8
    ∷ 12
    ∷ 12
    ∷ []

-- The length of the header and the data of a type. A `timeval` takes 8 bytes, and `strlen (pattern)`
-- is the length of the list.
unfoldable pub sizeof_icmp : Globals → ℕ → ℕ
sizeof_icmp g t =
    let tmp = get_or icmphdr_vector (t % 32) 0 in
    let ret = tmp % 256 in
    if tmp / 2 ^ 8 == 1
    then ret + 8 + length g.pattern
    else if tmp / 2 ^ 8 == 2
    then ret + ((if g.options.rroute then 60 else 20) + 64 / 2 ^ 3)
    else ret

-- The size of `buffer`, `MAX_PACSIZE`.
abbrev pub max_pacsize : ℕ
max_pacsize = 20 + 40 + 16 + 8 + 1024

-- `packet`, as distances from the start of the buffer.
pub record Packet : Type 0 where
  pub ip : ℕ
  pub icmp : ℕ
  pub payload : ℕ
  pub tstamp_tval : ℕ
  pub tstamp_data : ℕ

-- `ip_hl`: 15 words with the option of the recorded route.
abbrev pub header_words : Globals → ℕ
header_words g = if g.options.rroute then 15 else 5

unfoldable pub load_layers : Globals → Packet
load_layers g =
    let off_ip = header_words g * 2 ^ 2 in
    record {
      ip = 0;
      icmp = off_ip;
      payload = off_ip + 8;
      tstamp_tval = off_ip + 8;
      tstamp_data = off_ip + 8 + 8;
    }

-- The bytes of the recorded-route option: kind 7, length 3 + 4 * NROUTES, first slot at 4.
abbrev pub route_stores : Globals → List Store
route_stores g =
    if g.options.rroute then store8 20 7 ∷ store8 21 (3 + 4 * 9) ∷ store8 22 4 ∷ [] else []

-- The fields of the header but the checksum.
abbrev pub header_stores : Globals → List Store
header_stores g =
    let hl = header_words g in
    store8 0 (4 * 16 + hl)
    ∷ store8 1 (if g.options.ip_tos then residue 256 g.ip_tos else 0)
    ∷ store16 2 (swap16 ((hl * 2 ^ 2 + sizeof_icmp g (residue 32 g.icmp_type)) % 65536))
    ∷ store16 4 (swap16 (residue 65536 g.ip_id))
    ∷ store16 6 (swap16 (if g.options.dfrag then 0x4000 else 0))
    ∷ store8 8 (if g.options.ip_ttl then residue 256 g.ip_ttl else 255)
    ∷ store8 9 1
    ∷ store32 12 g.ip_src
    ∷ store32 16 g.ip_dst
    ∷ []

abbrev pub ip_stores : Globals → List Store
ip_stores g = header_stores g ++ route_stores g

unfoldable pub load_ip : Globals → Memory → Memory
load_ip g m = store_sum (write m (ip_stores g)) 0 10 (header_words g * 2 ^ 2)
