-- ===== src/Loader/Sums.antt =====
-- The checksums of the requests that the loaders write.
use aping.Base.{
  ℕ, ◌+◌, ◌<◌, ◌≤◌, ◌-◌, ◌∷◌, ◌≡◌, arith, length, refl, ◌++◌, [], ◌*◌, ◌⊎◌, inl, inr, leb,
  Bool-cases,
}
use mathlib.Core.Path.{subst}
use aping.Memory.{Memory, bytes, store32, write}
use aping.Memory.Field.{IsByteMemory, store_sum-verifies, write-IsByteMemory}
use aping.Chksum.{chksum}
use aping.State.{Globals, Time}
use aping.Base.Outcome.{ok, fatal, Fault}
use aping.Sender.{max_pacsize, header_words, load_layers, sizeof_icmp}
use aping.Loader.{
  load_sum, load_sum_within, load_echo, load_timestamp, load_information_request,
  load_address_mask_request, request_stores, echo_stores, iptime,
}

-- The sum of a message of `n` bytes from `at` on.
abbrev pub message_sum : Memory → ℕ → ℕ → ℕ
message_sum m at n = chksum (bytes m at n)

pub load_sum-verifies :
    (m : Memory) (icmp n : ℕ)
    → IsByteMemory m
    → 4 ≤ n
    → n < 65536
    → message_sum (load_sum icmp n m) icmp n ≡ 0
load_sum-verifies m icmp n h low high =
    let e : 2 + (2 + (n - 4)) ≡ n = omega arith in
    subst (λ k. message_sum (load_sum icmp k m) icmp k ≡ 0) e
      (store_sum-verifies m icmp 2 (n - 4) h refl (omega arith))

module _ (g : Globals) (now : Time) (m : Memory) (byte : IsByteMemory m) where
  -- On a memory of bytes: where the echo request with the header before it fits the
  -- `MAX_PACSIZE` bytes of `buffer`, `load_echo` writes a message that sums to a checksum of 0;
  -- where the pattern is longer, its checksum reads past `buffer`, which is a fault.
  pub load_echo-verifies :
      ((header_words g * 4 + (16 + length g.pattern) ≤ max_pacsize)
        × (m' : Memory) × (load_echo g now m ≡ ok m')
        × (message_sum m' (load_layers g).icmp (sizeof_icmp g 8) ≡ 0))
      ⊎ ((max_pacsize < header_words g * 4 + (16 + length g.pattern))
          × (load_echo g now m ≡ fatal Fault.bad_index))
  unfolding load_echo load_sum_within load_layers sizeof_icmp
  load_echo-verifies =
      let p = load_layers g in
      let m1 = write m (request_stores g p.icmp 8 ++ echo_stores g p now) in
      let n = sizeof_icmp g 8 in
      elim (Bool-cases (leb (p.icmp + n) max_pacsize)) [
        | inl fits ↦
            let fits' : p.icmp + n ≤ max_pacsize = ground (arith, fits) in
            inl (
              omega (arith, fits'),
              load_sum p.icmp n m1,
              rw fits refl,
              load_sum-verifies m1 p.icmp n
                  (write-IsByteMemory m (request_stores g p.icmp 8 ++ echo_stores g p now) byte)
                  (omega arith) (omega (arith, fits')),
            )
        | inr past ↦
            let past' : max_pacsize < p.icmp + n = ground (arith, past) in
            inr (omega (arith, past'), rw past refl)
      ]

  -- On a memory of bytes, the timestamp, information and mask requests that the loaders write
  -- sum to a checksum of 0.
  load_requests-verify :
      (message_sum (load_timestamp g now m) (load_layers g).icmp (sizeof_icmp g 13) ≡ 0)
      × (message_sum (load_information_request g m) (load_layers g).icmp (sizeof_icmp g 15) ≡ 0)
      × (message_sum (load_address_mask_request g m) (load_layers g).icmp (sizeof_icmp g 17) ≡ 0)
  unfolding load_timestamp load_information_request load_address_mask_request sizeof_icmp
  load_requests-verify =
      let i = (load_layers g).icmp in
      (
        load_sum-verifies _ i 20
            (write-IsByteMemory m (request_stores g i 13 ++ (store32 (i + 8) (iptime now) ∷ []))
              byte)
            (omega arith) (omega arith),
        load_sum-verifies _ i 8 (write-IsByteMemory m (request_stores g i 15) byte) (omega arith)
            (omega arith),
        load_sum-verifies _ i 12 (write-IsByteMemory m (request_stores g i 17) byte) (omega arith)
            (omega arith),
      )
