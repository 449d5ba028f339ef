-- ===== src/Sending/Wire/Kinds.antt =====
-- What the loader of each type leaves, and the sums of such a datagram.
use mathlib.Core.Path.{subst}
use aping.Base.{
  ℕ, ◌+◌, ◌-◌, ◌*◌, ◌%◌, ◌≤◌, ◌<◌, List, inl, inr, ◌⊎◌, ◌≡◌, refl, sym, ap, ◌∙◌, arith,
}
use aping.Base.Int.{pos, residue}
use aping.Base.Text.{Text}
use aping.Base.Outcome.{Run, ok, fatal, All}
use aping.Memory.{Memory, bytes, get16, swap16}
use aping.Memory.Field.{IsByteMemory, bytes_ext}
use aping.Chksum.{chksum}
use aping.State.{Globals}
use aping.NsCache.{Resolver, Cache}
use aping.Sender.{load_layers, sizeof_icmp, header_words, load_ip}
use aping.Sender.Header.{load_ip-verifies, load_ip-HasFields}
use native.Mathlib.Nat.{mod-eq_of_lt}
use aping.Loader.{load_echo}
use aping.Loader.Quoting.{load_echo_reply}
use aping.Sending.Wire.{Moment, Datagram, keep_cache, load_kind}
use aping.Sending.Wire.Loaded.{
  Loaded, load_echo-Loaded, load_requests-Loaded, load_echo_reply-Loaded, load_source_quench-Loaded,
  load_redirect-Loaded, load_destination_unreachable-Loaded,
}

-- The types of messages whose loader writes a message.
abbrev pub IsLoaded : ℕ → Type 0
IsLoaded kind =
    (kind ≡ 0)
    ⊎ (kind ≡ 3)
    ⊎ (kind ≡ 4)
    ⊎ (kind ≡ 5)
    ⊎ (kind ≡ 8)
    ⊎ (kind ≡ 13)
    ⊎ (kind ≡ 15)
    ⊎ (kind ≡ 17)

-- As a receiver checks it: the header of `n` bytes sums to 0, the rest of the datagram too, and its length is
-- that of the header and the message.
pub record Verifies (n size : ℕ) (d : Datagram) : Type 0 where
  pub header : chksum (bytes d.buffer 0 n) ≡ 0
  pub message : chksum (bytes d.buffer n (d.size - n)) ≡ 0
  pub whole : d.size ≡ n + size

All-keep_cache :
    (P : Memory → Type 0) (c : Cache) (m : Run Memory) → All P m → All (λ x. P x.1) (keep_cache c m)
All-keep_cache P c (ok m) h = h
All-keep_cache P c (fatal e) h = tt

same_size : (g : Globals) → sizeof_icmp g 8 ≡ sizeof_icmp g 0
unfolding sizeof_icmp
same_size g = refl

-- What is behind `load_ip` and a loader verifies.
pub loaded-Verifies :
    (g : Globals) (kind : ℕ) (m m' : Memory)
    → g.icmp_type ≡ pos kind
    → kind < 32
    → IsByteMemory m
    → Loaded (load_layers g).icmp (sizeof_icmp g kind) (load_ip g m) m'
    → Verifies
        (header_words g * 4)
        (sizeof_icmp g kind)
        (record { buffer = m'; size = swap16 (get16 m' 2) })
unfolding load_layers
loaded-Verifies g kind m m' e small byte l =
    let n = header_words g * 4 in
    let low : 20 ≤ n = ground arith in
    let same : get16 m' 2 ≡ get16 (load_ip g m) 2 =
      omega (arith, l.below 2 (omega arith), l.below 3 (omega arith)) in
    let kind' : kind % 32 ≡ kind = omega arith in
    let fits : (n + sizeof_icmp g kind) % 65536 ≡ n + sizeof_icmp g kind =
      mod-eq_of_lt (omega (arith, l.fits)) in
    let total : swap16 (get16 m' 2) ≡ n + sizeof_icmp g kind =
      ap swap16 same
      ∙ (load_ip-HasFields g m).total
      ∙ ap (λ z. (n + sizeof_icmp g (residue 32 z)) % 65536) e
      ∙ ap (λ k. (n + sizeof_icmp g k) % 65536) kind'
      ∙ fits in
    let rest : n + sizeof_icmp g kind - n ≡ sizeof_icmp g kind = omega arith in
    record {
      header =
          ap chksum (bytes_ext m' (load_ip g m) 0 n (λ i a b. l.below i (omega arith)))
          ∙ load_ip-verifies g m byte;
      message =
          ap (λ k. chksum (bytes m' n (k - n))) total
          ∙ ap (λ k. chksum (bytes m' n k)) rest
          ∙ l.sums;
      whole = total;
    }

module _ (r : Resolver) (today : ℕ) (after : Text) (argv : List Text) where
  -- What a loader leaves, for the type's own size.
  abbrev LoadsKind : Moment → Globals → Cache → Memory → ℕ → Type 0
  LoadsKind t g c m kind =
      All (λ x. Loaded (load_layers g).icmp (sizeof_icmp g kind) m x.1)
        (load_kind r today after argv kind t g c m)

  pub load_kind-Loaded :
      (kind : ℕ) (t : Moment) (g : Globals) (c : Cache) (m : Memory)
      → IsLoaded kind
      → IsByteMemory m
      → LoadsKind t g c m kind
  unfolding load_kind
  load_kind-Loaded kind t g c m k byte =
      let at : (n : ℕ) → kind ≡ n → LoadsKind t g c m n → LoadsKind t g c m kind =
        λ n e h. subst (LoadsKind t g c m) (sym e) h in
      let now = t.loaded in
      let requests = load_requests-Loaded g now m byte in
      elim k [
        | inl e ↦ at 0 e (
            subst
              (λ n.
                All (λ x. Loaded (load_layers g).icmp n m x.1)
                  (keep_cache c (load_echo_reply after argv g now m)))
              (same_size g)
              (All-keep_cache (Loaded (load_layers g).icmp (sizeof_icmp g 8) m) c
                (load_echo_reply after argv g now m)
                (load_echo_reply-Loaded g now m byte after argv)))
        | inr (inl e) ↦ at 3 e (
            load_destination_unreachable-Loaded r today after argv t.random_id t.random_port g c m
              byte)
        | inr (inr (inl e)) ↦
            at 4 e
              (load_source_quench-Loaded r today after argv t.random_id t.random_port g c m byte)
        | inr (inr (inr (inl e))) ↦
            at 5 e (load_redirect-Loaded r today after argv t.random_id t.random_port g c m byte)
        | inr (inr (inr (inr (inl e)))) ↦ at 8 e (
            All-keep_cache (Loaded (load_layers g).icmp (sizeof_icmp g 8) m) c (load_echo g now m)
              (load_echo-Loaded g now m byte))
        | inr (inr (inr (inr (inr (inl e))))) ↦ at 13 e requests.0
        | inr (inr (inr (inr (inr (inr (inl e)))))) ↦ at 15 e requests.1
        | inr (inr (inr (inr (inr (inr (inr e)))))) ↦ at 17 e requests.2
      ]
