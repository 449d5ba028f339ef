-- ===== src/Sending/Wire/Loaded.antt =====
-- What the loaders of `icmp_loader_vector` leave of the buffer: nothing before the message is changed, and
-- the message sums to a checksum of 0.
use aping.Base.{
  ℕ, ◌+◌, ◌%◌, ◌≤◌, ◌<◌, List, [], ◌∷◌, ◌++◌, length, ◌≡◌, refl, ◌∙◌, inl, inr, leb, Bool-cases,
  arith,
}
use aping.Base.Int.{residue, tmod}
use aping.Base.Text.{Text}
use aping.Base.Ctype.{strtol}
use aping.Base.Outcome.{Run, ok, fatal, ◌>>=◌, All}
use aping.Memory.{Memory, Store, store8, store16, store32, write, swap16}
use aping.Memory.Field.{
  IsByteMemory, StoresFrom, write_below, store_sum_outside, write-IsByteMemory,
  store_sum-IsByteMemory,
}
use aping.State.{Globals, Time}
use aping.NsCache.{Resolver, Cache}
use aping.Sender.{max_pacsize, header_words, load_layers, sizeof_icmp}
use aping.Loader.{
  load_sum, load_sum_within, load_echo, load_timestamp, load_information_request,
  load_address_mask_request, request_stores, echo_stores, iptime,
}
use aping.Loader.Sums.{message_sum, load_sum-verifies}
use aping.Loader.Quoting.{
  number, quoted_stores, second_port, load_quoted, load_message, load_echo_reply,
  load_source_quench, load_redirect, load_destination_unreachable,
}

pub record Loaded (icmp n : ℕ) (m m' : Memory) : Type 0 where
  pub below : (i : ℕ) → i < icmp → m' i ≡ m i
  pub sums : message_sum m' icmp n ≡ 0
  pub byte : IsByteMemory m'
  pub fits : icmp + n < 65536

load_sum-Loaded :
    (icmp n : ℕ) (ss : List Store) (m : Memory)
    → IsByteMemory m
    → StoresFrom icmp ss
    → 4 ≤ n
    → icmp + n < 65536
    → Loaded icmp n m (load_sum icmp n (write m ss))
load_sum-Loaded icmp n ss m byte from low high =
    let byte' = write-IsByteMemory m ss byte in
    record {
      below = λ i h.
          store_sum_outside (write m ss) icmp 2 n i (inl (omega arith))
          ∙ write_below m ss icmp i from h;
      sums = load_sum-verifies (write m ss) icmp n byte' low (omega (arith, high));
      byte = store_sum-IsByteMemory (write m ss) icmp 2 n byte';
      fits = high;
    }

load_sum_within-Loaded :
    (icmp n : ℕ) (ss : List Store) (m : Memory)
    → IsByteMemory m
    → StoresFrom icmp ss
    → 4 ≤ n
    → All (Loaded icmp n m) (load_sum_within icmp n (write m ss))
unfolding load_sum_within
load_sum_within-Loaded icmp n ss m byte from low = elim (Bool-cases (leb (icmp + n) max_pacsize)) [
  | inr past ↦ rw past tt
  | inl fits ↦
      let high : icmp + n ≤ max_pacsize = ground (arith, fits) in
      rw fits (load_sum-Loaded icmp n ss m byte from low (omega (arith, high)))
]

load_message-Loaded :
    (icmp n : ℕ) (head quoted : List Store) (sport dport : ℕ) (m : Memory)
    → IsByteMemory m
    → StoresFrom icmp (head ++ quoted)
    → 4 ≤ n
    → icmp + n < 65536
    → Loaded icmp n m (load_message icmp n head quoted sport dport m)
unfolding load_message
load_message-Loaded icmp n head quoted sport dport m byte from low high =
    let m1 = write m (head ++ quoted) in
    let m2 = load_quoted icmp head quoted m in
    let byte2 =
      store_sum-IsByteMemory m1 (icmp + 8) 10 20 (write-IsByteMemory m (head ++ quoted) byte) in
    let ports = store16 (icmp + 28) sport ∷ store16 (icmp + 30) dport ∷ [] in
    let rest = load_sum-Loaded icmp n ports m2 byte2 (omega arith, (omega arith, tt)) low high in
    record {
      below = λ i h.
          rest.below i h
          ∙ store_sum_outside m1 (icmp + 8) 10 20 i (inl (omega arith))
          ∙ write_below m (head ++ quoted) icmp i from h;
      sums = rest.sums;
      byte = rest.byte;
      fits = high;
    }

-- Results of a chain.
All-bind :
    {A B : Type 0} (P : B → Type 0) (m : Run A) (f : A → Run B)
    → ((a : A) → All P (f a))
    → All P (m >>= f)
All-bind P (ok a) f h = h a
All-bind P (fatal e) f h = tt

quoting_size :
    (g : Globals) → (4 ≤ sizeof_icmp g 3) × ((load_layers g).icmp + sizeof_icmp g 3 < 65536)
unfolding sizeof_icmp load_layers
quoting_size g = ground arith

sizeof_echo : (g : Globals) → sizeof_icmp g 8 ≡ 16 + length g.pattern
unfolding sizeof_icmp
sizeof_echo g = refl

module _ (g : Globals) (now : Time) (m : Memory) (byte : IsByteMemory m) where
  pub load_echo-Loaded : All (Loaded (load_layers g).icmp (sizeof_icmp g 8) m) (load_echo g now m)
  unfolding load_echo load_layers
  load_echo-Loaded =
      let p = load_layers g in
      load_sum_within-Loaded p.icmp (sizeof_icmp g 8)
        (request_stores g p.icmp 8 ++ echo_stores g p now) m byte (omega arith)
        (omega (arith, sizeof_echo g))

  pub load_requests-Loaded :
      Loaded (load_layers g).icmp (sizeof_icmp g 13) m (load_timestamp g now m)
      × Loaded (load_layers g).icmp (sizeof_icmp g 15) m (load_information_request g m)
      × Loaded (load_layers g).icmp (sizeof_icmp g 17) m (load_address_mask_request g m)
  unfolding load_timestamp load_information_request load_address_mask_request sizeof_icmp
      load_layers
  load_requests-Loaded =
      let i = (load_layers g).icmp in
      let words : header_words g ≤ 15 = ground arith in
      (
        load_sum-Loaded i 20 (request_stores g i 13 ++ (store32 (i + 8) (iptime now) ∷ [])) m byte
            (omega arith) (omega arith) (omega (arith, words)),
        load_sum-Loaded i 8 (request_stores g i 15) m byte (omega arith) (omega arith)
            (omega (arith, words)),
        load_sum-Loaded i 12 (request_stores g i 17) m byte (omega arith) (omega arith)
            (omega (arith, words)),
      )

  module _ (after : Text) (argv : List Text) where
    pub load_echo_reply-Loaded :
        All (Loaded (load_layers g).icmp (sizeof_icmp g 8) m) (load_echo_reply after argv g now m)
    unfolding load_echo_reply load_layers
    load_echo_reply-Loaded =
        let i = (load_layers g).icmp in
        let stores : Text → Text → List Store = λ id seq.
          store8 i 0
          ∷ store8 (i + 1) 0
          ∷ store16 (i + 4) (swap16 (number 65536 id))
          ∷ store16 (i + 6) (swap16 (number 65536 seq))
          ∷ echo_stores g (load_layers g) now in
        let last : (id seq : Text)
            → All (Loaded i (sizeof_icmp g 8) m)
                (load_sum_within i (sizeof_icmp g 8) (write m (stores id seq))) =
          λ id seq.
            load_sum_within-Loaded i (sizeof_icmp g 8) (stores id seq) m byte (omega arith)
              (omega (arith, sizeof_echo g)) in
        search (All-bind, last)

module _ (r : Resolver) (today : ℕ) (after : Text) (argv : List Text) (random_id random_port : ℕ)
    (g : Globals) (c : Cache) (m : Memory) (byte : IsByteMemory m) where
  abbrev LoadsQuoted : ℕ → Run (Cache × Memory) → Type 0
  LoadsQuoted kind = All (λ x. Loaded (load_layers g).icmp (sizeof_icmp g kind) m x.1)

  pub load_source_quench-Loaded :
      LoadsQuoted 4 (load_source_quench r today after argv random_id random_port g c m)
  unfolding load_source_quench load_layers sizeof_icmp
  load_source_quench-Loaded =
      let i = (load_layers g).icmp in
      let head = store8 i 4 ∷ store8 (i + 1) (residue 256 g.icmp_code) ∷ [] in
      let sport = swap16 (random_port % 65536) in
      let size = quoting_size g in
      let last : (tos : Text) (src dst : ℕ)
          → Loaded i (sizeof_icmp g 4) m (
              load_message i (sizeof_icmp g 4) head
                (quoted_stores i (number 256 tos) random_id src dst) sport (second_port sport) m) =
        λ tos src dst.
          load_message-Loaded i (sizeof_icmp g 4) head
            (quoted_stores i (number 256 tos) random_id src dst) sport (second_port sport) m byte
            (omega arith) size.0 size.1 in
      search (All-bind, last)

  pub load_redirect-Loaded :
      LoadsQuoted 5 (load_redirect r today after argv random_id random_port g c m)
  unfolding load_redirect load_layers sizeof_icmp
  load_redirect-Loaded =
      let i = (load_layers g).icmp in
      let head : ℕ → List Store =
        λ gw. store8 i 5 ∷ store8 (i + 1) (residue 256 g.icmp_code) ∷ store32 (i + 4) gw ∷ [] in
      let sport = swap16 (random_port % 65536) in
      let size = quoting_size g in
      let last : (tos : Text) (gw src dst : ℕ)
          → Loaded i (sizeof_icmp g 5) m (
              load_message i (sizeof_icmp g 5) (head gw)
                (quoted_stores i (number 256 tos) random_id src dst) sport (second_port sport) m) =
        λ tos gw src dst.
          load_message-Loaded i (sizeof_icmp g 5) (head gw)
            (quoted_stores i (number 256 tos) random_id src dst) sport (second_port sport) m byte
            (omega arith) size.0 size.1 in
      search (All-bind, last) depth 12

  pub load_destination_unreachable-Loaded :
      LoadsQuoted 3 (load_destination_unreachable r today after argv random_id random_port g c m)
  unfolding load_destination_unreachable load_layers
  load_destination_unreachable-Loaded =
      let i = (load_layers g).icmp in
      let head : Text → List Store =
        λ kind. store8 i 3 ∷ store8 (i + 1) (residue 256 (tmod (strtol 10 kind) 4)) ∷ [] in
      let size = quoting_size g in
      let last : (kind tos : Text) (src dst sport dport : ℕ)
          → Loaded i (sizeof_icmp g 3) m (
              load_message i (sizeof_icmp g 3) (head kind)
                (quoted_stores i (number 256 tos) random_id src dst) sport dport m) =
        λ kind tos src dst sport dport.
          load_message-Loaded i (sizeof_icmp g 3) (head kind)
            (quoted_stores i (number 256 tos) random_id src dst) sport dport m byte (omega arith)
            size.0 size.1 in
      search (All-bind, last) depth 12
