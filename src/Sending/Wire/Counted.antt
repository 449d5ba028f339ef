-- ===== src/Sending/Wire/Counted.antt =====
-- The datagrams of requests, which need no arguments: the loop of `sender` hands over as many as `-c` says.
use mathlib.Core.Path.{subst}
use aping.Base.{
  ℕ, ◌+◌, ◌-◌, ◌^◌, ◌≤◌, ◌<◌, List, [], ◌∷◌, map, Bool, length, length-map, true, false, Bool-cases,
  inl, inr, ◌⊎◌, ◌≡◌, ◌*◌, leb, refl, sym, ap, ◌∙◌, arith, ltb, if◌then◌else◌,
}
use aping.Base.Int.{pos, negsuc, ◌+ℤ◌, ◌==ℤ◌, i32}
use aping.Base.Text.{Text}
use aping.Base.Outcome.{Run, ok, fatal, Fault, All}
use aping.Memory.{Memory, get16, swap16}
use aping.State.{Globals, Time}
use aping.Memory.{get16, swap16}
use aping.NsCache.{Resolver, Cache}
use aping.Sender.{max_pacsize, header_words, sizeof_icmp, load_layers, load_ip}
use aping.Loader.{load_echo, load_sum_within}
use aping.Sending.Wire.Loaded.{Loaded}
use aping.Sending.{Turn, goes_on, next_id, send_turn, sender_loop, AllSent, sender_loop-count}
use aping.Sending.Wire.{Moment, Datagram, Wire, load_kind, load_icmp, transmit, wire_loop}
use aping.Sending.Wire.Kinds.{IsLoaded, Verifies, loaded-Verifies}
use aping.Sending.Wire.Verified.{
  small_kind, load_icmp-Loaded, Sends, AllVerify, transmit-Verifies, wire_loop-AllVerify,
}

-- Echo, timestamp, information and mask requests.
abbrev pub IsRequest : ℕ → Type 0
IsRequest kind = (kind ≡ 8) ⊎ (kind ≡ 13) ⊎ (kind ≡ 15) ⊎ (kind ≡ 17)

IsRequest-IsLoaded : (kind : ℕ) → IsRequest kind → IsLoaded kind
IsRequest-IsLoaded kind (inl e) = inr (inr (inr (inr (inl e))))
IsRequest-IsLoaded kind (inr (inl e)) = inr (inr (inr (inr (inr (inl e)))))
IsRequest-IsLoaded kind (inr (inr (inl e))) = inr (inr (inr (inr (inr (inr (inl e))))))
IsRequest-IsLoaded kind (inr (inr (inr e))) = inr (inr (inr (inr (inr (inr (inr e))))))

abbrev pub turns : List Moment → List Turn
turns ts = map (λ t. t.turn) ts

passed :
    (b : Bool) (g : Globals)
    → b ≡ false
    → (g' : Globals) × ((if b then fatal Fault.sendto_failed else ok g) ≡ ok g')
passed true g e = cc
passed false g e = (g, refl)

ok_if :
    (b : Bool) (m : Memory) (f : Fault)
    → b ≡ true
    → (m' : Memory) × ((if b then ok m else fatal f) ≡ ok m')
ok_if true m f e = (m, refl)
ok_if false m f e = cc

load_echo_ok :
    (g : Globals) (now : Time) (m : Memory)
    → header_words g * 4 + sizeof_icmp g 8 ≤ max_pacsize
    → (m' : Memory) × (load_echo g now m ≡ ok m')
unfolding load_echo load_sum_within load_layers
load_echo_ok g now m h =
    let fits : leb (header_words g * 2 ^ 2 + sizeof_icmp g 8) max_pacsize ≡ true =
      ground (arith, h) in
    ok_if (leb (header_words g * 2 ^ 2 + sizeof_icmp g 8) max_pacsize) _ Fault.bad_index fits

module _ (r : Resolver) (today : ℕ) (after : Text) (argv : List Text) (n size kind : ℕ)
    (request : IsRequest kind) (within : n + size ≤ max_pacsize) where
  load_kind_ok :
      (t : Moment) (g : Globals) (c : Cache) (m : Memory)
      → header_words g * 4 + sizeof_icmp g kind ≤ max_pacsize
      → (x : Cache × Memory) × (load_kind r today after argv kind t g c m ≡ ok x)
  unfolding load_kind
  load_kind_ok t g c m fits =
      let Goes : ℕ → Type 0 =
        λ z. (x : Cache × Memory) × (load_kind r today after argv z t g c m ≡ ok x) in
      elim request [
        | inl e ↦
            let (m', q) =
              load_echo_ok g t.loaded m
                (subst (λ z. header_words g * 4 + sizeof_icmp g z ≤ max_pacsize) e fits) in
            subst Goes (sym e) ((c, m'), rw q refl)
        | inr (inl e) ↦ subst Goes (sym e) (_, refl)
        | inr (inr (inl e)) ↦ subst Goes (sym e) (_, refl)
        | inr (inr (inr e)) ↦ subst Goes (sym e) (_, refl)
      ]

  load_icmp_ok :
      (t : Moment) (g : Globals) (c : Cache) (m : Memory)
      → g.icmp_type ≡ pos kind
      → header_words g * 4 + sizeof_icmp g kind ≤ max_pacsize
      → (x : Cache × Memory) × (load_icmp r today after argv g.icmp_type t g c m ≡ ok x)
  unfolding load_icmp
  load_icmp_ok t g c m e within =
      let (x, q) = load_kind_ok t g c m within in
      let fits : ltb kind 64 ≡ true = ground arith in
      (x, ap (λ z. load_icmp r today after argv z t g c m) e ∙ rw fits q)

  send_turn_ok :
      (t : Turn) (g : Globals)
      → (t.result ==ℤ negsuc 0) ≡ false
      → (g' : Globals) × (send_turn t g ≡ ok g')
  unfolding send_turn
  send_turn_ok t g e =
      passed (t.result ==ℤ negsuc 0)
        (record g {
          last_sent = t.now;
          n_sent = i32 (g.n_sent +ℤ pos 1);
          ip_ttl = if g.options.ip_ramp then i32 (g.ip_ttl +ℤ pos 1) else g.ip_ttl;
          ip_id = next_id g t.random;
        })
        e

  -- A turn goes through, and its globals are those of the counting loop.
  transmit_ok :
      (t : Moment) (w : Wire)
      → Sends n size kind w
      → (t.turn.result ==ℤ negsuc 0) ≡ false
      → (x : Wire × Datagram) × (transmit r today after argv t w ≡ ok x)
        × (send_turn t.turn w.g ≡ ok x.0.g)
  unfolding transmit
  transmit_ok t w s e =
      let (x, p) =
        load_icmp_ok t w.g w.cache (load_ip w.g w.buffer) s.type
          (omega (arith, within, s.words, s.length_of)) in
      let loaded = IsRequest-IsLoaded kind request in
      let l : Loaded (load_layers w.g).icmp (sizeof_icmp w.g kind) (load_ip w.g w.buffer) x.1 =
        subst
          (All
            (λ y. Loaded (load_layers w.g).icmp (sizeof_icmp w.g kind) (load_ip w.g w.buffer) y.1))
          p (load_icmp-Loaded r today after argv n size kind loaded t w s) in
      let whole =
        (loaded-Verifies w.g kind w.buffer x.1 s.type (small_kind kind loaded) s.byte l).whole in
      let short : leb (swap16 (get16 x.1 2)) max_pacsize ≡ true =
        ground (arith, whole, within, s.words, s.length_of) in
      let (g', q) = send_turn_ok t.turn w.g e in
      (
        (
          record { g = g'; cache = x.0; buffer = x.1 },
          record { buffer = x.1; size = swap16 (get16 x.1 2) },
        ),
        rw (p, short, q) refl,
        q,
      )

  -- The loop goes through, with the turns of the counting loop.
  wire_loop-turns :
      (ts : List Moment) (w : Wire) (made : ℕ)
      → Sends n size kind w
      → AllSent (turns ts)
      → (x : Wire × List Datagram) × (wire_loop r today after argv ts w ≡ ok x)
        × (sender_loop (turns ts) made w.g ≡ ok (made + length x.1, x.0.g))
  unfolding wire_loop sender_loop
  wire_loop-turns [] w made s all = ((w, []), refl, ap (λ m. ok (m, w.g)) (omega arith))
  wire_loop-turns (t ∷ ts) w made s all = elim (Bool-cases (goes_on w.g)) [
    | inr e ↦ ((w, []), rw e refl, rw e (ap (λ m. ok (m, w.g)) (omega arith)))
    | inl e ↦
        let (x, p, q) = transmit_ok t w s all.0 in
        let h =
          subst (All (λ (y : Wire × Datagram). Sends n size kind y.0 × Verifies n size y.1)) p (
            transmit-Verifies r today after argv n size kind (IsRequest-IsLoaded kind request) t w
              s) in
        let (y, p', q') = wire_loop-turns ts x.0 (made + 1) h.0 all.1 in
        (
          (y.0, x.1 ∷ y.1),
          rw (e, p, p') refl,
          rw (e, q) (q' ∙ ap (λ m. ok (m, y.0.g)) (omega arith)),
        )
  ]

  -- For echo, timestamp, information or mask requests, a count `c` above 0 and below 2 ^ 31,
  -- `k` packets sent, `k` at most `c`, no result of `atomic_sendto` that is -1, at least `c -
  -- k` turns, a memory of bytes and a pattern shorter than 65000 characters: the loop of
  -- `sender` ends with `c` packets sent and hands over `c - k` datagrams, each of the length of
  -- its header and its message, with a header and a message that sum to a checksum of 0.
  pub wire_loop-count :
      (ts : List Moment) (w : Wire) (c k : ℕ)
      → Sends n size kind w
      → AllSent (turns ts)
      → w.g.count ≡ pos c
      → w.g.n_sent ≡ pos k
      → 0 < c
      → k ≤ c
      → c < 2 ^ 31
      → c - k ≤ length ts
      → (w' : Wire) × (ds : List Datagram) × (wire_loop r today after argv ts w ≡ ok (w', ds))
        × (w'.g.n_sent ≡ pos c)
        × (length ds ≡ c - k)
        × AllVerify n size ds
  wire_loop-count ts w c k s all count n_sent p le small enough =
      let (x, go, same) = wire_loop-turns ts w 0 s all in
      let (g', ends, sent') =
        sender_loop-count (turns ts) 0 c k w.g all count n_sent p le small
          (omega (arith, length-map ts (λ t. t.turn))) in
      let (number, globals) = both (sym same ∙ ends) in
      let v = subst (All (λ (y : Wire × List Datagram). AllVerify n size y.1)) go (
        wire_loop-AllVerify r today after argv n size kind (IsRequest-IsLoaded kind request) ts w
          s) in
      (x.0, x.1, go, ap (λ g. g.n_sent) globals ∙ sent', omega (arith, number), v)
    where
      both :
          {a b : ℕ} {g g' : Globals}
          → ◌≡◌ {A = Run (ℕ × Globals)} (ok (a, g)) (ok (b, g'))
          → (a ≡ b) × (g ≡ g')
      both e = (cc, cc)
