-- ===== src/Screen.antt =====
-- What the receiver prints, with the lookups that serve it: each call of `PUTS` or `printf` is a line with
-- the values that it is given, and a text is read from its buffer when it is printed.
pub mod Names
pub mod Dissect
pub mod Prefix
pub mod Kept
pub mod Lines
pub mod Hosts
use Prim.Native.String.{String}
use aping.Base.{
  ℕ, zero, suc, ◌+◌, ◌-◌, ◌*◌, ◌/◌, ◌%◌, ◌^◌, List, [], ◌∷◌, ◌++◌, Bool, true, false, not, ◌&&◌,
  ◌||◌, Option, none, some, get_or, min, ◌==◌, ltb, if◌then◌else◌,
}
use aping.Base.Int.{ℤ, pos, negsuc, ◌-ℤ◌, ◌==ℤ◌, ltb_ℤ, residue}
use aping.Base.Outcome.{Run, ok, fatal, Fault, ◌>>=◌}
use aping.Base.Text.{Text}
use aping.State.{Globals}
use aping.Memory.{get32, bytes, swap16}
use aping.Packet.{
  Packet, ip_hl, ip_src, ip_dst, ip_opt, ip_ttl, icmp_type, icmp_code, icmp_id, icmp_seq,
  icmp_has_seq,
}
use aping.Statistic.Ttl.{hop_distance}
use aping.Hardware.{MacSide, mac_src, mac_dst, getmacfromdatalink}
use aping.NsCache.{Cache, Resolver, gethostbyaddr_cache, safe_inet_ntoa}
use aping.Receiver.{hash}
use aping.Screen.Names.{icmp_type_str, icmp_code_str, icon_set, entry, index_of}

-- The calls that print, in the order of the source. NULL and a buffer that was not filled are none.
pub data Line : Type 0 where
  route : Option Text → Option Text → Line
  icon : ℕ → Line
  from : ℤ → Option Text → Line
  mac : Option (List ℕ) → Line
  to : Option Text → Line
  icmp : ℕ → Option String → Line
  code_named : ℕ → String → Line
  code_unknown : ℕ → Line
  seq : ℕ → Line
  rtt_ms : ℤ → ℤ → Line
  id_step : ℤ → Line
  id : ℤ → Line
  hops : ℕ → ℤ → Line
  icmp_ident : ℕ → Line
  delays : ℤ → ℤ → Line
  quoted_ports : Option String → Option Text → ℕ → Option Text → ℕ → Line
  quoted : Option String → Option Text → Option Text → Line
  new_line : Line
  gateway : Option Text → Line
  origin_ttl : ℕ → Line
  fprint : ℕ → String → Line
  clock : ℤ → ℤ → ℤ → Line
  idle : ℤ → ℤ → ℤ → ℤ → Line
  ident_request ident_reply : ℕ → ℕ → Line
  mask : Option Text → Option Text → ℕ → Option Text → Line
  random_burst : Line
  burst : ℤ → ℤ → ℤ → Line
  link : Option (Option String) → Line

-- The name cache, the lines, and `fp_buffer` of dissect-echo.c.
pub record Output : Type 0 where
  pub cache : Cache
  pub lines : List Line
  pub fp_buffer : List ℕ

abbrev pub puts : Line → Output → Output
puts l o = record o { lines = o.lines ++ l ∷ [] }

abbrev pub puts_if : Bool → Line → Output → Output
puts_if b l o = if b then puts l o else o

-- What is printed for the address of a buffer.
abbrev pub text_in : ℕ → Output → Option Text
text_in b o = o.cache.buffers b

-- `MIN (9, opt[IPOPT_OFFSET] >> 2)` hops less one; the octet is a `char`.
abbrev pub hop_count : ℕ → ℕ
hop_count offset = if ltb offset 128 then min 9 (offset / 2 ^ 2) - 1 else 0

abbrev icon_ok : ℕ
icon_ok = 5

-- `print_icon`.
abbrev pub print_icon : ℕ → Globals → Line
print_icon t g = icon (get_or icon_set ((if t == 0 then residue 2 g.n_sent else 0) + t) 0)

-- Which icon: a reply without a sequence number, a duplicate, a late one, or another.
abbrev pub icon_for : Packet → Globals → ℕ
icon_for p g =
    if not (icmp_has_seq p)
    then icon_ok
    else if pos (icmp_seq p) ==ℤ g.last_seq
    then 2
    else if ltb_ℤ (pos (icmp_seq p) -ℤ g.n_sent) (negsuc 0)
    then 3
    else icon_ok

abbrev pub mac_line : Packet → ℕ → MacSide → Line
mac_line p datalink side = mac (getmacfromdatalink p.mem p.dl datalink side)

-- The line that the code has, if any.
abbrev pub code_line : ℕ → Option String → Output → Output
code_line c (some s) o = puts (code_named c s) o
code_line c none o = puts_if (not (c == 0)) (code_unknown c) o

-- A read past the table is a fault.
abbrev pub print_code : Packet → Output → Run Output
print_code p o =
    if ltb (index_of (icmp_type p) (icmp_code p)) (64 * 64)
    then ok (code_line (icmp_code p) (entry icmp_code_str (index_of (icmp_type p) (icmp_code p))) o)
    else fatal Fault.bad_index

abbrev pub print_rest : Packet → Globals → Output → Output
print_rest p g o =
    let o1 = puts_if (icmp_has_seq p) (seq (icmp_seq p)) o in
    let timed = not g.options.sniff && ((icmp_type p == 0) || (icmp_type p == 14)) in
    let o2 = puts_if timed (rtt_ms g.rtt.whole g.rtt.part) o1 in
    puts (if g.diff_ipid == 0 then id g.curr_id else id_step g.diff_id) o2

-- The lines at detail 2.
abbrev pub print_detail : Packet → Globals → Output → Output
print_detail p g o =
    let o1 = puts (hops (ip_ttl p) (hop_distance (ip_ttl p))) o in
    puts (delays g.jitter g.waiting_time) (puts_if (icmp_has_seq p) (icmp_ident (icmp_id p)) o1)

module _ (r : Resolver) (today : ℕ) where
  abbrev pub name_of : ℕ → Output → ℕ × Output
  name_of a o = let (b, c) = gethostbyaddr_cache r today a o.cache in (b, record o { cache = c })

  abbrev pub dotted_of : ℕ → Output → ℕ × Output
  dotted_of a o = let (b, c) = safe_inet_ntoa r today a o.cache in (b, record o { cache = c })

  -- The hops of a route from the place `at` on, of which each is looked up and printed.
  unfoldable pub print_hops : Packet → ℕ → ℕ → Output → Output
  print_hops p zero at o = o
  print_hops p (suc n) at o =
      let a = get32 p.mem at in
      let (b, o1) = name_of a o in
      let (d, o2) = dotted_of a o1 in
      print_hops p n (at + 4) (puts (route (text_in b o2) (text_in d o2)) o2)

  -- The lines of `print_RR`, for the globals before it.
  unfoldable pub print_route : Packet → Globals → Output → Output
  unfolding print_hops
  print_route p g o =
      if g.last_route == hash (bytes p.mem (ip_opt p) 36)
      then o
      else print_hops p (hop_count (p.mem (ip_opt p + 2))) (ip_opt p + 3) o

  -- The destination, for a sniffer.
  abbrev pub print_to : Packet → ℕ → Globals → Output → Output
  print_to p datalink g o =
      let (b, o') = name_of (ip_dst p) o in
      puts_if (not (g.mac_inspection == 0)) (mac_line p datalink mac_dst)
        (puts (to (text_in b o')) o')

  -- The first line of a packet, from the sender's name in the buffer `b` to the type.
  abbrev pub print_sender : ℕ → Packet → ℕ → Globals → Output → Output
  print_sender b p datalink g o =
      let o1 = puts (print_icon (icon_for p g) g) o in
      let o2 = puts (from g.icmp_size (text_in b o1)) o1 in
      let o3 = puts_if (not (g.mac_inspection == 0)) (mac_line p datalink mac_src) o2 in
      let o4 = if g.options.sniff then print_to p datalink g o3 else o3 in
      puts (icmp (icmp_type p) (entry icmp_type_str (icmp_type p % 64))) o4

  -- `process_pack` before its return at a detail below 3, where `g` are the globals before it and `g'`
  -- those with the sizes.
  unfoldable pub print_pack : Packet → ℕ → Globals → Globals → Output → Run Output
  unfolding print_route entry
  print_pack p datalink g g' o =
      let (b, o1) = name_of (ip_src p) o in
      let o2 = if g.options.rroute && (ip_hl p == 15) then print_route p g o1 else o1 in
      print_code p (print_sender b p datalink g' o2) >>= λ o3.
      let o4 = print_rest p g' o3 in ok (if ltb g.detail 2 then o4 else print_detail p g' o4)
