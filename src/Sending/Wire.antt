-- ===== src/Sending/Wire.antt =====
-- sender.c: what each turn of the loop of `sender` puts into `buffer` and hands to `atomic_sendto`, by
-- `load_ip` and the loaders of `icmp_loader_vector`.

pub mod Loaded
pub mod Kinds
pub mod Verified
pub mod Counted
use aping.Base.{ℕ, ◌+◌, ◌*◌, ◌^◌, List, [], ◌∷◌, Bool, true, ◌&&◌, ◌==◌, ltb, leb, if◌then◌else◌}
use aping.Base.Int.{ℤ, pos, negsuc}
use aping.Base.Text.{Text}
use aping.Base.Outcome.{Run, ok, fatal, Fault, ◌>>=◌, ◌>>◌, require}
use aping.Memory.{Memory, get16, swap16}
use aping.State.{Globals, Time}
use aping.NsCache.{Resolver, Cache}
use aping.Sender.{max_pacsize, load_layers, sizeof_icmp, load_ip}
use aping.Loader.{
  load_sum_within, load_echo, load_timestamp, load_information_request, load_address_mask_request,
}
use aping.Loader.Quoting.{
  load_echo_reply, load_source_quench, load_redirect, load_destination_unreachable,
}
use aping.Sending.{Turn, goes_on, send_turn}

-- What a turn meets: besides the times and the result, two random numbers of a loader.
pub record Moment : Type 0 where
  pub turn : Turn
  pub loaded : Time
  pub random_id : ℕ
  pub random_port : ℕ

-- What is handed to `sendto`: `size` bytes from the start of the buffer.
pub record Datagram : Type 0 where
  pub buffer : Memory
  pub size : ℕ

pub record Wire : Type 0 where
  pub g : Globals
  pub cache : Cache
  pub buffer : Memory

-- `load_security`, which sets no field but the checksum.
unfoldable load_security : Globals → Memory → Run Memory
unfolding load_sum_within
load_security g m = load_sum_within (load_layers g).icmp (sizeof_icmp g 8) m

abbrev pub keep_cache : Cache → Run Memory → Run (Cache × Memory)
keep_cache c r = r >>= λ m. ok (c, m)

module _ (r : Resolver) (today : ℕ) (after : Text) (argv : List Text) where
  -- `icmp_loader_vector` by the type; the other entries load nothing, or are NULL.
  unfoldable pub load_kind : ℕ → Moment → Globals → Cache → Memory → Run (Cache × Memory)
  unfolding load_security
  load_kind kind t g c m =
      if kind == 0
      then keep_cache c (load_echo_reply after argv g t.loaded m)
      else if kind == 3
      then load_destination_unreachable r today after argv t.random_id t.random_port g c m
      else if kind == 4
      then load_source_quench r today after argv t.random_id t.random_port g c m
      else if kind == 5
      then load_redirect r today after argv t.random_id t.random_port g c m
      else if kind == 8
      then keep_cache c (load_echo g t.loaded m)
      else if kind == 13
      then ok (c, load_timestamp g t.loaded m)
      else if kind == 15
      then ok (c, load_information_request g m)
      else if kind == 17
      then ok (c, load_address_mask_request g m)
      else if kind == 40
      then keep_cache c (load_security g m)
      else ok (c, m)

  -- A type past the vector is a fault.
  unfoldable pub load_icmp : ℤ → Moment → Globals → Cache → Memory → Run (Cache × Memory)
  unfolding load_kind
  load_icmp (pos kind) t g c m =
      if ltb kind 64 then load_kind kind t g c m else fatal Fault.bad_index
  load_icmp (negsuc n) t g c m = fatal Fault.bad_index

  -- A datagram past the end of `buffer` is a fault.
  unfoldable pub transmit : Moment → Wire → Run (Wire × Datagram)
  unfolding load_icmp
  transmit t w = do
    (c, m) ← load_icmp w.g.icmp_type t w.g w.cache (load_ip w.g w.buffer)
    let size = swap16 (get16 m 2)
    require (leb size max_pacsize) Fault.bad_index
    g ← send_turn t.turn w.g
    ok (record { g = g; cache = c; buffer = m }, record { buffer = m; size = size })

  -- The loop, and what was sent.
  unfoldable pub wire_loop : List Moment → Wire → Run (Wire × List Datagram)
  unfolding transmit
  wire_loop [] w = ok (w, [])
  wire_loop (t ∷ ts) w =
      if goes_on w.g
      then (do (w', d) ← transmit t w; (w'', ds) ← wire_loop ts w'; ok (w'', d ∷ ds))
      else ok (w, [])
