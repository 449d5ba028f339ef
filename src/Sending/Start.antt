-- ===== src/Sending/Start.antt =====
-- `sender` of sender.c as a whole: what it does before its loop, with the lines that it prints, and the
-- loop. The options of the socket that are set without a test are their lines alone.
use Prim.Native.String.{String}
use aping.Base.{
  ℕ, ◌+◌, ◌*◌, ◌^◌, ◌≤◌, ◌<◌, List, [], ◌∷◌, ◌++◌, length, Bool, true, ◌||◌, Option, none, some,
  bit_or, ◌==◌, ltb, if◌then◌else◌, ◌≡◌, refl, ap, ◌∙◌, arith,
}
use aping.Base.Int.{ℤ, pos, negsuc, ◌+ℤ◌, ◌-ℤ◌, ◌*ℤ◌, ◌==ℤ◌, residue, i32, i32-eq, +ℤ_pos}
use aping.Base.Text.{Text}
use aping.Base.Outcome.{Run, ok, fatal, Fault, ◌>>=◌, ◌>>◌, require}
use aping.State.{Globals, Time}
use aping.NsCache.{Resolver, Cache, safe_inet_ntoa}
use aping.Sender.{max_pacsize, sizeof_icmp, header_words}
use aping.Screen.Names.{icmp_type_str, icmp_code_str, entry}
use aping.Screen.Dissect.{complement}
use aping.Sending.Wire.{Moment, Datagram, Wire, wire_loop}
use aping.Sending.Wire.Verified.{AllVerify, Sends}
use aping.Sending.Wire.Counted.{IsRequest, turns, wire_loop-count}
use aping.Sending.{AllSent}

-- What `sender` meets: the time, whether `socket` and the option IP_HDRINCL succeed, the value of `rand`, and
-- the variables that `main` has set for it.
pub record Opening : Type 0 where
  pub now : Time
  pub opened : Bool
  pub header_included : Bool
  pub random : ℤ
  pub localnet : ℕ
  pub netmask : ℕ
  pub ifname : Text
  pub host_dst : Option Text

-- The calls of `PUTS`.
pub data Notice : Type 0 where
  broadcast dont_route dont_fragment socket_debug : Text → Notice
  ping : Option Text → Option Text → ℤ → Option String → Notice
  ping_code : Option Text → Option Text → ℤ → Option String → ℤ → String → Notice

abbrev notice_if : Bool → Notice → List Notice
notice_if b n = if b then n ∷ [] else []

-- The lines on the options of the socket.
unfoldable option_notices : Opening → Globals → List Notice
option_notices at g =
    notice_if ((g.ip_dst == bit_or at.localnet (complement at.netmask)) || g.options.bcast)
      (broadcast at.ifname)
    ++ notice_if g.options.droute (dont_route at.ifname)
    ++ notice_if g.options.dfrag (dont_fragment at.ifname)
    ++ notice_if g.options.so_debug (socket_debug at.ifname)

-- The time of the last packet is put a period back, and an id of 0 is drawn.
unfoldable opening_globals : Opening → Globals → Globals
opening_globals at g = record g {
  last_sent = record { whole = at.now.whole; part = i32 (at.now.part -ℤ g.tau *ℤ pos 1000) };
  ip_id = if g.ip_id ==ℤ pos 0 then pos (residue (2 ^ 16) at.random) else g.ip_id;
}

-- An index of a table of `n` entries.
abbrev index_in : ℕ → ℤ → Run ℕ
index_in n (pos i) = if ltb i n then ok i else fatal Fault.bad_index
index_in n (negsuc i) = fatal Fault.bad_index

-- The line `PING`, where the code has a name and where it has none.
abbrev ping_line : Opening → Globals → Option Text → Option String → Option String → Notice
ping_line at g dotted type_name (some s) =
    ping_code at.host_dst dotted g.icmp_type type_name g.icmp_code s
ping_line at g dotted type_name none = ping at.host_dst dotted g.icmp_type type_name

module _ (r : Resolver) (today : ℕ) where
  unfoldable print_ping : Opening → Globals → Cache → Run (Cache × Notice)
  unfolding entry
  print_ping at g c = do
    code ← index_in (64 * 64) (i32 (g.icmp_type *ℤ pos 64 +ℤ g.icmp_code))
    kind ← index_in 64 g.icmp_type
    let (b, c') = safe_inet_ntoa r today g.ip_dst c in
        ok (c', ping_line at g (c'.buffers b) (entry icmp_type_str kind) (entry icmp_code_str code))

  module _ (after : Text) (argv : List Text) where
    unfoldable pub sender :
        Opening → List Moment → Globals → Cache → Run (Wire × List Notice × List Datagram)
    unfolding option_notices opening_globals print_ping wire_loop
    sender at ts g c = do
      require at.opened Fault.socket_failed
      require at.header_included Fault.socket_failed
      (c', line) ← print_ping at (opening_globals at g) c
      (w, ds) ←
          wire_loop r today after argv ts
            (record { g = opening_globals at g; cache = c'; buffer = λ i. 0 })
      ok (w, option_notices at g ++ line ∷ [], ds)

ping_index :
    (kind code : ℕ)
    → kind < 64
    → code < 64
    → index_in (64 * 64) (i32 (pos kind *ℤ pos 64 +ℤ pos code)) ≡ ok (kind * 64 + code)
unfolding ◌*ℤ◌
ping_index kind code h h' =
    let whole : pos kind *ℤ pos 64 +ℤ pos code ≡ pos (kind * 64 + code) =
      ap (λ z. z +ℤ pos code) (ground arith) ∙ +ℤ_pos (kind * 64) code in
    let fits : ltb (kind * 64 + code) (64 * 64) ≡ true = ground arith in
    ap (λ z. index_in (64 * 64) (i32 z)) whole
    ∙ ap (index_in (64 * 64)) (i32-eq (pos (kind * 64 + code)) (omega arith) (omega arith))
    ∙ rw fits refl

module _ (r : Resolver) (today : ℕ) (after : Text) (argv : List Text) (kind code : ℕ)
    (request : IsRequest kind) (small : code < 64) where
  print_ping_ok :
      (at : Opening) (g : Globals) (c : Cache)
      → g.icmp_type ≡ pos kind
      → g.icmp_code ≡ pos code
      → (x : Cache × Notice) × (print_ping r today at g c ≡ ok x)
  unfolding print_ping
  print_ping_ok at g c e e' =
      let below : kind < 64 = omega arith in
      let fits : index_in 64 g.icmp_type ≡ ok kind =
        let inside : ltb kind 64 ≡ true = ground arith in ap (index_in 64) e ∙ rw inside refl in
      let found : index_in (64 * 64) (i32 (g.icmp_type *ℤ pos 64 +ℤ g.icmp_code))
          ≡ ok (kind * 64 + code) =
        ap (λ z. index_in (64 * 64) (i32 (z *ℤ pos 64 +ℤ g.icmp_code))) e
        ∙ ap (λ z. index_in (64 * 64) (i32 (pos kind *ℤ pos 64 +ℤ z))) e'
        ∙ ping_index kind code below small in
      let (b, c') = safe_inet_ntoa r today g.ip_dst c in
      (
        (
          c',
          ping_line at g (c'.buffers b) (entry icmp_type_str kind)
              (entry icmp_code_str (kind * 64 + code)),
        ),
        rw (found, fits) refl,
      )

  sender_ok :
      (at : Opening) (ts : List Moment) (g : Globals) (c c' : Cache) (line : Notice) (w : Wire)
      (ds : List Datagram)
      → at.opened ≡ true
      → at.header_included ≡ true
      → print_ping r today at (opening_globals at g) c ≡ ok (c', line)
      → wire_loop r today after argv ts
          (record { g = opening_globals at g; cache = c'; buffer = λ i. 0 })
        ≡ ok (w, ds)
      → sender r today after argv at ts g c ≡ ok (w, option_notices at g ++ line ∷ [], ds)
  unfolding sender
  sender_ok at ts g c c' line w ds opened included p go = rw (opened, included, p, go) refl

  -- For echo, timestamp, information or mask requests with a code below 64, where the socket is
  -- opened with its option, for a count `c` above 0 and below 2 ^ 31, no packet sent before, no
  -- result of `atomic_sendto` that is -1, at least `c` turns, and a header and a message that
  -- fit the `MAX_PACSIZE` bytes of `buffer`: `sender` ends with no fault and with `c` packets
  -- sent, and hands over `c` datagrams, each of the length of its header and its message, with
  -- a header and a message that sum to a checksum of 0.
  pub sender-count :
      (at : Opening) (ts : List Moment) (g : Globals) (c : Cache) (wanted : ℕ)
      → at.opened ≡ true
      → at.header_included ≡ true
      → g.icmp_type ≡ pos kind
      → g.icmp_code ≡ pos code
      → header_words g * 4 + sizeof_icmp g kind ≤ max_pacsize
      → g.count ≡ pos wanted
      → g.n_sent ≡ pos 0
      → 0 < wanted
      → wanted < 2 ^ 31
      → AllSent (turns ts)
      → wanted ≤ length ts
      → (w : Wire) × (ls : List Notice) × (ds : List Datagram) × (sender r today after argv at ts g
            c
          ≡ ok (w, ls, ds))
        × (w.g.n_sent ≡ pos wanted)
        × (length ds ≡ wanted)
        × AllVerify (header_words g * 4) (sizeof_icmp g kind) ds
  unfolding opening_globals sizeof_icmp
  sender-count at ts g c wanted opened included type code' short count none_sent above few all
        enough =
      let g' = opening_globals at g in
      let (x, p) = print_ping_ok at g' c type code' in
      let w : Wire = record { g = g'; cache = x.0; buffer = λ i. 0 } in
      let s : Sends (header_words g * 4) (sizeof_icmp g kind) kind w = record {
        type = type;
        words = refl;
        length_of = refl;
        byte = λ i. omega arith;
      } in
      let (w', ds, go, sent, number, verify) =
        wire_loop-count r today after argv (header_words g * 4) (sizeof_icmp g kind) kind request
          short ts w wanted 0 s all count none_sent above (omega arith) few
          (omega (arith, enough)) in
      (
        w',
        option_notices at g ++ x.1 ∷ [],
        ds,
        sender_ok at ts g c x.0 x.1 w' ds opened included p go,
        sent,
        omega (arith, number),
        verify,
      )
