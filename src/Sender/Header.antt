-- ===== src/Sender/Header.antt =====
-- What `load_ip` leaves in the buffer.
use aping.Base.{ℕ, ◌+◌, ◌*◌, ◌/◌, ◌%◌, ◌^◌, ◌<◌, ◌⊎◌}
use aping.Base.{◌≡◌, refl, ap, ◌∙◌, arith, if◌then◌else◌, Bool-cases, inl, inr}
use aping.Base.Int.{residue, residue-lt}
use aping.Memory.{Memory, get16, get32, swap16, bytes, write}
use aping.Memory.Field.{
  IsByteMemory, write-IsByteMemory, store_sum, store_sum-IsByteMemory, store_sum-verifies,
  StoresFrom, store_sum_outside, write-append, write_below,
}
use aping.Chksum.{chksum}
use aping.State.{Globals}
use aping.Sender.{header_words, header_stores, route_stores, ip_stores, load_ip, sizeof_icmp}

pub load_ip-IsByteMemory : (g : Globals) (m : Memory) → IsByteMemory m → IsByteMemory (load_ip g m)
unfolding load_ip
load_ip-IsByteMemory g m h =
    store_sum-IsByteMemory (write m (ip_stores g)) 0 10 (header_words g * 2 ^ 2)
      (write-IsByteMemory m (ip_stores g) h)

-- On a memory of bytes, the IP header that `load_ip` writes, with or without the option of the
-- recorded route, sums to a checksum of 0 as a receiver computes it.
pub load_ip-verifies :
    (g : Globals) (m : Memory)
    → IsByteMemory m
    → chksum (bytes (load_ip g m) 0 (header_words g * 2 ^ 2)) ≡ 0
unfolding load_ip
load_ip-verifies g m h =
    let m' = write m (ip_stores g) in
    let ok : IsByteMemory m' = write-IsByteMemory m (ip_stores g) h in
    elim (Bool-cases g.options.rroute) [
      | inl e ↦
          ap
            (λ b. chksum (
              bytes (store_sum m' 0 10 ((if b then 15 else 5) * 2 ^ 2)) 0
                ((if b then 15 else 5) * 2 ^ 2)))
            e
          ∙ store_sum-verifies m' 0 10 48 ok refl (omega arith)
      | inr e ↦
          ap
            (λ b. chksum (
              bytes (store_sum m' 0 10 ((if b then 15 else 5) * 2 ^ 2)) 0
                ((if b then 15 else 5) * 2 ^ 2)))
            e
          ∙ store_sum-verifies m' 0 10 8 ok refl (omega arith)
    ]

-- A receiver reads the fields as they were meant: version and length of the header, length of the
-- datagram, id, time to live, protocol and addresses.
pub record HasFields (g : Globals) (m : Memory) : Type 0 where
  pub version : m 0 / 16 ≡ 4
  pub words : m 0 % 16 ≡ header_words g
  pub total :
      swap16 (get16 m 2) ≡ (header_words g * 4 + sizeof_icmp g (residue 32 g.icmp_type)) % 65536
  pub id : swap16 (get16 m 4) ≡ residue 65536 g.ip_id
  pub ttl : m 8 ≡ (if g.options.ip_ttl then residue 256 g.ip_ttl else 255)
  pub protocol : m 9 ≡ 1
  pub source : get32 m 12 ≡ g.ip_src % 2 ^ 32
  pub destination : get32 m 16 ≡ g.ip_dst % 2 ^ 32

route-StoresFrom : (g : Globals) → StoresFrom 20 (route_stores g)
route-StoresFrom g = elim (Bool-cases g.options.rroute) [
  | inl e ↦ rw e (omega arith)
  | inr e ↦ rw e tt
]

-- Neither the option nor the checksum touches the other fields.
header_byte :
    (g : Globals) (m : Memory) (i : ℕ)
    → i < 20
    → (i < 10) ⊎ (11 < i)
    → load_ip g m i ≡ write m (header_stores g) i
unfolding load_ip
header_byte g m i h k =
    store_sum_outside (write m (ip_stores g)) 0 10 (header_words g * 2 ^ 2) i (omega arith)
    ∙ ap (λ w. w i) (write-append m (header_stores g) (route_stores g))
    ∙ write_below (write m (header_stores g)) (route_stores g) 20 i (route-StoresFrom g) h

words-lt : (g : Globals) → header_words g < 16
words-lt g = ground arith

-- The header that `load_ip` leaves in the buffer reads back as it was meant: version, length of
-- the header, length of the datagram, id, time to live, protocol and addresses.
pub load_ip-HasFields : (g : Globals) (m : Memory) → HasFields g (load_ip g m)
unfolding write
load_ip-HasFields g m =
    let b : (i : ℕ) → i < 20 → (i < 10) ⊎ (11 < i) → load_ip g m i ≡ write m (header_stores g) i =
      header_byte g m in
    record {
      version = omega (arith, b 0 (omega arith) (omega arith), words-lt g);
      words = omega (arith, b 0 (omega arith) (omega arith), words-lt g);
      total = omega (arith, b 2 (omega arith) (omega arith), b 3 (omega arith) (omega arith));
      id = omega (
        arith,
        b 4 (omega arith) (omega arith),
        b 5 (omega arith) (omega arith),
        residue-lt 65536 g.ip_id (omega arith),
      );
      ttl = b 8 (omega arith) (omega arith) ∙ small_ttl;
      protocol = b 9 (omega arith) (omega arith);
      source = omega (
        arith,
        b 12 (omega arith) (omega arith),
        b 13 (omega arith) (omega arith),
        b 14 (omega arith) (omega arith),
        b 15 (omega arith) (omega arith),
      );
      destination = omega (
        arith,
        b 16 (omega arith) (omega arith),
        b 17 (omega arith) (omega arith),
        b 18 (omega arith) (omega arith),
        b 19 (omega arith) (omega arith),
      );
    }
  where
    small_ttl :
        (if g.options.ip_ttl then residue 256 g.ip_ttl else 255) % 256
        ≡ (if g.options.ip_ttl then residue 256 g.ip_ttl else 255)
    small_ttl = ground (arith, residue-lt 256 g.ip_ttl (omega arith))
