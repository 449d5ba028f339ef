-- ===== src/Loader/Quoted.antt =====
-- What the loaders with arguments leave in the buffer: both checksums hold.
use aping.Base.{
  ℕ, zero, suc, Option-cases, ◌+◌, ◌<◌, ◌≤◌, List, [], ◌∷◌, ◌++◌, some, none, length, get_elem?,
  ◌≡◌, refl, ap, ◌∙◌, inl, inr, arith,
}
use aping.Base.Text.{Text}
use aping.Base.Outcome.{Run, ok, fatal, Fault, Run-cases}
use aping.Memory.{Memory, Store, store16, write, bytes}
use aping.Memory.Field.{
  IsByteMemory, store_sum_outside, store_sum-verifies, store_sum-IsByteMemory, write-IsByteMemory,
  write_below, bytes_ext,
}
use aping.Chksum.{chksum}
use aping.State.{Globals}
use aping.Sender.{load_layers, sizeof_icmp}
use aping.NsCache.{Resolver, Cache}
use aping.Args.{Format, checkargs}
use aping.Args.Accept.{checkargs_accepted}
use aping.Loader.Sums.{message_sum, load_sum-verifies}
use aping.Loader.Quoting.{
  arg, load_quoted, load_ports, load_message, quench_formats, redirect_formats, unreachable_formats,
  load_source_quench, load_redirect, load_destination_unreachable,
}

-- The quoted header and the whole message of `n` bytes sum to a checksum of 0.
abbrev BothSums : Memory → ℕ → ℕ → Type 0
BothSums m icmp n = (message_sum m (icmp + 8) 20 ≡ 0) × (message_sum m icmp n ≡ 0)

-- The loader ends the process as the check of its arguments does, or leaves a message that verifies;
-- only with fewer than `need` arguments, it may read past them.
abbrev pub Loads : ℕ → ℕ → ℕ → List Text → Run (Unit {0}) → Run (Cache × Memory) → Type 0
Loads icmp n need argv (ok _) (ok p) = BothSums p.1 icmp n
Loads icmp n need argv (ok _) (fatal e) = (e ≡ Fault.bad_index) × (length argv < need)
Loads icmp n need argv (fatal e) (ok p) = ⊥
Loads icmp n need argv (fatal e) (fatal d) = d ≡ e

-- The ports and the checksum of the message stand outside of the quoted header.
ports-keep :
    (icmp n sport dport : ℕ) (m : Memory)
    → bytes (load_ports icmp n sport dport m) (icmp + 8) 20 ≡ bytes m (icmp + 8) 20
ports-keep icmp n sport dport m =
    let ss = store16 (icmp + 28) sport ∷ store16 (icmp + 30) dport ∷ [] in
    bytes_ext (load_ports icmp n sport dport m) m (icmp + 8) 20 (λ i low high.
      store_sum_outside (write m ss) icmp 2 n i (inr (omega arith))
      ∙ write_below m ss (icmp + 28) i (omega arith, (omega arith, tt)) (omega arith))

load_message-BothSums :
    (icmp n : ℕ) (head quoted : List Store) (sport dport : ℕ) (m : Memory)
    → IsByteMemory m
    → 4 ≤ n
    → n < 65536
    → BothSums (load_message icmp n head quoted sport dport m) icmp n
unfolding load_message
load_message-BothSums icmp n head quoted sport dport m byte low high =
    let m1 = write m (head ++ quoted) in
    let byte1 = write-IsByteMemory m (head ++ quoted) byte in
    let m2 = load_quoted icmp head quoted m in
    let byte2 = store_sum-IsByteMemory m1 (icmp + 8) 10 20 byte1 in
    let ss = store16 (icmp + 28) sport ∷ store16 (icmp + 30) dport ∷ [] in
    (
      ap chksum (ports-keep icmp n sport dport m2)
          ∙ store_sum-verifies m1 (icmp + 8) 10 8 byte1 refl (omega arith),
      load_sum-verifies (write m2 ss) icmp n (write-IsByteMemory m2 ss byte2) low high,
    )

arg_found : (argv : List Text) (i : ℕ) (t : Text) → get_elem? argv i ≡ some t → arg argv i ≡ ok t
arg_found argv i t h = rw (arg, h) refl

-- An argument that was checked is read.
arg_checked :
    (after : Text) (argv : List Text) (n : ℕ) (formats : List Format)
    → checkargs after argv n formats ≡ ok tt
    → (i : ℕ) → i < n
    → (t : Text) × (arg argv i ≡ ok t)
arg_checked after argv n formats h i l =
    let c = checkargs_accepted after argv n formats h i l in
    (c.argument, arg_found argv i c.argument c.found)

arg_missing :
    (argv : List Text) (i : ℕ) → get_elem? argv i ≡ none → arg argv i ≡ fatal Fault.bad_index
arg_missing argv i h = rw (arg, h) refl

-- What is not found is past the end.
length_of_none : (argv : List Text) (i : ℕ) → get_elem? argv i ≡ none → length argv ≤ i
length_of_none [] i h = omega arith
length_of_none (x ∷ xs) zero h = cc
length_of_none (x ∷ xs) (suc i) h = omega (arith, length_of_none xs i h)

quoting_size : (g : Globals) → (4 ≤ sizeof_icmp g 3) × (sizeof_icmp g 3 < 65536)
unfolding sizeof_icmp
quoting_size g = ground arith

module _ (r : Resolver) (today : ℕ) (after : Text) (argv : List Text) (random_id random_port : ℕ)
    (g : Globals) (c : Cache) (m : Memory) (byte : IsByteMemory m) where
  load_source_quench-Loads :
      Loads
        (load_layers g).icmp
        (sizeof_icmp g 4)
        0
        argv
        (checkargs after argv 4 quench_formats)
        (load_source_quench r today after argv random_id random_port g c m)
  unfolding load_source_quench sizeof_icmp
  load_source_quench-Loads = elim (Run-cases (checkargs after argv 4 quench_formats)) [
    | inl (u, e) ↦
        let a1 = arg_checked after argv 4 quench_formats e 1 (omega arith) in
        let a2 = arg_checked after argv 4 quench_formats e 2 (omega arith) in
        let a3 = arg_checked after argv 4 quench_formats e 3 (omega arith) in
        let s = quoting_size g in
        rw (e, a1.1, a2.1, a3.1)
          (load_message-BothSums (load_layers g).icmp (sizeof_icmp g 4) _ _ _ _ m byte s.0 s.1)
    | inr (f, e) ↦ rw e refl
  ]

  load_redirect-Loads :
      Loads
        (load_layers g).icmp
        (sizeof_icmp g 5)
        0
        argv
        (checkargs after argv 5 redirect_formats)
        (load_redirect r today after argv random_id random_port g c m)
  unfolding load_redirect sizeof_icmp
  load_redirect-Loads = elim (Run-cases (checkargs after argv 5 redirect_formats)) [
    | inl (u, e) ↦
        let a1 = arg_checked after argv 5 redirect_formats e 1 (omega arith) in
        let a2 = arg_checked after argv 5 redirect_formats e 2 (omega arith) in
        let a3 = arg_checked after argv 5 redirect_formats e 3 (omega arith) in
        let a4 = arg_checked after argv 5 redirect_formats e 4 (omega arith) in
        let s = quoting_size g in
        rw (e, a2.1, a1.1, a3.1, a4.1)
          (load_message-BothSums (load_layers g).icmp (sizeof_icmp g 5) _ _ _ _ m byte s.0 s.1)
    | inr (f, e) ↦ rw e refl
  ]

  load_destination_unreachable-Loads :
      Loads
        (load_layers g).icmp
        (sizeof_icmp g 3)
        7
        argv
        (checkargs after argv 5 unreachable_formats)
        (load_destination_unreachable r today after argv random_id random_port g c m)
  unfolding load_destination_unreachable
  load_destination_unreachable-Loads =
      elim (Run-cases (checkargs after argv 5 unreachable_formats)) [
        | inl (u, e) ↦
            let a1 = arg_checked after argv 5 unreachable_formats e 1 (omega arith) in
            let a2 = arg_checked after argv 5 unreachable_formats e 2 (omega arith) in
            let a3 = arg_checked after argv 5 unreachable_formats e 3 (omega arith) in
            let a4 = arg_checked after argv 5 unreachable_formats e 4 (omega arith) in
            rw (e, a1.1, a2.1, a3.1, a4.1)
              elim (Option-cases (get_elem? argv 5)) [
                | inl gone ↦
                    rw (arg_missing argv 5 gone) (refl, omega (arith, length_of_none argv 5 gone))
                | inr (sport, e5) ↦
                    rw (arg_found argv 5 sport e5) elim (Option-cases (get_elem? argv 6)) [
                      | inl gone ↦
                          rw (arg_missing argv 6 gone)
                            (refl, omega (arith, length_of_none argv 6 gone))
                      | inr (dport, e6) ↦
                          let s = quoting_size g in
                          rw (arg_found argv 6 dport e6) (
                            load_message-BothSums (load_layers g).icmp (sizeof_icmp g 3) _ _ _ _ m
                              byte s.0 s.1)
                    ]
              ]
        | inr (f, e) ↦ rw e refl
      ]

  -- On a memory of bytes, `load_source_quench`, `load_redirect` and
  -- `load_destination_unreachable` end the process as the check of their arguments does, or
  -- leave a message whose quoted header and whole length sum to a checksum of 0; only the last
  -- can read past its arguments, with fewer than 7.
  pub quoting_loaders-Loads :
      Loads
        (load_layers g).icmp
        (sizeof_icmp g 4)
        0
        argv
        (checkargs after argv 4 quench_formats)
        (load_source_quench r today after argv random_id random_port g c m)
      × Loads
          (load_layers g).icmp
          (sizeof_icmp g 5)
          0
          argv
          (checkargs after argv 5 redirect_formats)
          (load_redirect r today after argv random_id random_port g c m)
      × Loads
          (load_layers g).icmp
          (sizeof_icmp g 3)
          7
          argv
          (checkargs after argv 5 unreachable_formats)
          (load_destination_unreachable r today after argv random_id random_port g c m)
  quoting_loaders-Loads =
      (load_source_quench-Loads, load_redirect-Loads, load_destination_unreachable-Loads)
