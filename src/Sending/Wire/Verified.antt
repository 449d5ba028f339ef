-- ===== src/Sending/Wire/Verified.antt =====
-- The datagrams that the loop of `sender` hands to `atomic_sendto`, with both their checksums.
use mathlib.Core.Path.{subst}
use aping.Base.{
  ℕ, ◌*◌, ◌<◌, List, [], ◌∷◌, true, Bool-cases, inl, inr, ◌≡◌, sym, arith, ltb, leb, Bool, false,
  if◌then◌else◌,
}
use aping.Base.Int.{pos, negsuc, ◌==ℤ◌}
use aping.Base.Text.{Text}
use aping.Base.Outcome.{Run, Fault, ok, fatal, ◌>>=◌, ◌>>◌, require, All, Run-cases}
use aping.Memory.{Memory, get16, swap16}
use aping.Memory.Field.{IsByteMemory}
use aping.State.{Globals}
use aping.NsCache.{Resolver, Cache}
use aping.Sender.{max_pacsize, load_layers, sizeof_icmp, header_words, load_ip}
use aping.Sender.Header.{load_ip-IsByteMemory}
use aping.Sending.{Turn, goes_on, send_turn}
use aping.Sending.Wire.{Moment, Datagram, Wire, load_kind, load_icmp, transmit, wire_loop}
use aping.Sending.Wire.Loaded.{Loaded}
use aping.Sending.Wire.Kinds.{IsLoaded, Verifies, loaded-Verifies, load_kind-Loaded}

-- What a turn keeps of the state: the type, the lengths of the header and the message, and bytes.
pub record Sends (n size kind : ℕ) (w : Wire) : Type 0 where
  pub type : w.g.icmp_type ≡ pos kind
  pub words : header_words w.g * 4 ≡ n
  pub length_of : sizeof_icmp w.g kind ≡ size
  pub byte : IsByteMemory w.buffer

abbrev pub AllVerify : ℕ → ℕ → List Datagram → Type 0
AllVerify n size [] = Unit
AllVerify n size (d ∷ ds) = Verifies n size d × AllVerify n size ds

pub small_kind : (kind : ℕ) → IsLoaded kind → kind < 32
small_kind kind k = omega arith

module _ (r : Resolver) (today : ℕ) (after : Text) (argv : List Text) (n size kind : ℕ)
    (k : IsLoaded kind) where
  pub load_icmp-Loaded :
      (t : Moment) (w : Wire)
      → Sends n size kind w
      → All
          (λ x. Loaded (load_layers w.g).icmp (sizeof_icmp w.g kind) (load_ip w.g w.buffer) x.1)
          (load_icmp r today after argv w.g.icmp_type t w.g w.cache (load_ip w.g w.buffer))
  unfolding load_icmp
  load_icmp-Loaded t w s =
      let fits : ltb kind 64 ≡ true = ground (arith, small_kind kind k) in
      let P : Cache × Memory → Type 0 =
        λ x. Loaded (load_layers w.g).icmp (sizeof_icmp w.g kind) (load_ip w.g w.buffer) x.1 in
      let found =
        load_kind-Loaded r today after argv kind t w.g w.cache (load_ip w.g w.buffer) k
          (load_ip-IsByteMemory w.g w.buffer s.byte) in
      subst (λ z. All P (load_icmp r today after argv z t w.g w.cache (load_ip w.g w.buffer)))
        (sym s.type)
        (subst
          (λ b. All P (
            if b
            then load_kind r today after argv kind t w.g w.cache (load_ip w.g w.buffer)
            else fatal Fault.bad_index))
          (sym fits) found)

  -- The next turn finds what this one did.
  send_turn-Sends :
      (t : Turn) (w : Wire) (c : Cache) (m : Memory)
      → Sends n size kind w
      → IsByteMemory m
      → All (λ g. Sends n size kind (record { g = g; cache = c; buffer = m })) (send_turn t w.g)
  unfolding send_turn sizeof_icmp
  send_turn-Sends t w c m s byte = elim (Bool-cases (t.result ==ℤ negsuc 0)) [
    | inl e ↦ rw e tt
    | inr e ↦ rw e (record { type = s.type; words = s.words; length_of = s.length_of; byte = byte })
  ]

  All-require :
      {A : Type 0} (P : A → Type 0) (b : Bool) (e : Fault) (run : Run A)
      → All P run
      → All P (require b e >> run)
  All-require P true e run h = h
  All-require P false e run h = tt

  paired :
      (c : Cache) (m : Memory) (d : Datagram) (run : Run Globals)
      → All (λ g. Sends n size kind (record { g = g; cache = c; buffer = m })) run
      → Verifies n size d
      → All
          (λ (x : Wire × Datagram). Sends n size kind x.0 × Verifies n size x.1)
          (run >>= λ g. ok (record { g = g; cache = c; buffer = m }, d))
  paired c m d (ok g) h v = (h, v)
  paired c m d (fatal e) h v = tt

  pub transmit-Verifies :
      (t : Moment) (w : Wire)
      → Sends n size kind w
      → All (λ x. Sends n size kind x.0 × Verifies n size x.1) (transmit r today after argv t w)
  unfolding transmit
  transmit-Verifies t w s =
      let m = load_icmp r today after argv w.g.icmp_type t w.g w.cache (load_ip w.g w.buffer) in
      elim (Run-cases m) [
        | inr (f, e) ↦ rw e tt
        | inl (x, e) ↦
            let l : Loaded (load_layers w.g).icmp (sizeof_icmp w.g kind) (load_ip w.g w.buffer)
                x.1 =
              subst
                (All (λ y.
                  Loaded (load_layers w.g).icmp (sizeof_icmp w.g kind) (load_ip w.g w.buffer) y.1))
                e (load_icmp-Loaded t w s) in
            let v = loaded-Verifies w.g kind w.buffer x.1 s.type (small_kind kind k) s.byte l in
            let d : Datagram = record { buffer = x.1; size = swap16 (get16 x.1 2) } in
            let v' : Verifies n size d =
              subst (λ a. Verifies a size d) s.words
                (subst (λ b. Verifies (header_words w.g * 4) b d) s.length_of v) in
            let next = send_turn-Sends t.turn w x.0 x.1 s l.byte in
            rw e (
              All-require _ (leb d.size max_pacsize) Fault.bad_index _
                (paired x.0 x.1 d (send_turn t.turn w.g) next v'))
      ]

  -- For the types of messages whose loader writes one (0, 3, 4, 5, 8, 13, 15 and 17), a memory
  -- of bytes and a pattern shorter than 65000 characters: where the loop of `sender` ends with
  -- no fault, each datagram that it hands over has the length of its header and its message,
  -- and both sum to a checksum of 0.
  pub wire_loop-AllVerify :
      (ts : List Moment) (w : Wire)
      → Sends n size kind w
      → All (λ x. AllVerify n size x.1) (wire_loop r today after argv ts w)
  unfolding wire_loop
  wire_loop-AllVerify [] w s = tt
  wire_loop-AllVerify (t ∷ ts) w s = elim (Bool-cases (goes_on w.g)) [
    | inr e ↦ rw e tt
    | inl e ↦ rw e (elim (Run-cases (transmit r today after argv t w)) [
      | inr (f, q) ↦ rw q tt
      | inl (x, q) ↦
          let h : Sends n size kind x.0 × Verifies n size x.1 =
            subst (All (λ y. Sends n size kind y.0 × Verifies n size y.1)) q
              (transmit-Verifies t w s) in
          let rest = wire_loop-AllVerify ts x.0 h.0 in
          rw q (extended (wire_loop r today after argv ts x.0) rest h.1)
    ])
  ]
    where
      extended :
          {d : Datagram} (m : Run (Wire × List Datagram))
          → All (λ x. AllVerify n size x.1) m
          → Verifies n size d
          → All (λ (x : Wire × List Datagram). AllVerify n size x.1) (m >>= λ y. ok (y.0, d ∷ y.1))
      extended (ok y) h v = (v, h)
      extended (fatal e) h v = tt
