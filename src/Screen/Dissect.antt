-- ===== src/Screen/Dissect.antt =====
-- The functions of `icmp_dissect_vector` in the dissect-*.c, with the lines that they and
-- `bandwidth_predictor` of statistic.c print, and the whole of `process_pack`.
use aping.Base.{
  ℕ, zero, suc, ◌+◌, ◌-◌, ◌*◌, ◌/◌, ◌%◌, ◌^◌, List, [], ◌∷◌, ◌++◌, take, drop, not, ◌||◌, Option,
  none, some, bit_and, bit_or, ◌==◌, ltb, if◌then◌else◌,
}
use aping.Base.Int.{ℤ, pos, negsuc, ◌-ℤ◌, ◌==ℤ◌, tdiv, tmod, i32}
use aping.Base.Outcome.{Run, ok, fatal, Fault, ◌>>=◌}
use aping.Memory.{get16, get32, bytes, swap16, swap32}
use aping.Packet.{
  Packet, ip_hl, ip_len, ip_src, ip_ttl, icmp_type, icmp_code, icmp_gwaddr, icmp_id, icmp_seq,
  icmp_otime, icmp_rtime, icmp_mask, icmp_ip, icmp_ip_p, icmp_ip_src, icmp_ip_dst, words_at,
}
use aping.Agent.{State, Places}
use aping.Bandwidth.{bandwidth_predictor}
use aping.Statistic.Ttl.{ttl_predictor}
use aping.Statistic.Link.{link_type}
use aping.NsCache.{Resolver}
use aping.Receiver.{hash, measure}
use aping.Screen.Names.{protocols, entry, get_fprint}
use aping.Screen.{
  Line, quoted_ports, quoted, new_line, gateway, origin_ttl, fprint, clock, idle, ident_request,
  ident_reply, mask, random_burst, burst, link, Output, puts, text_in, dotted_of, print_pack,
}

-- A word of 32 bits as a `long`.
abbrev as_long : ℕ → ℤ
as_long w = if ltb w (2 ^ 31) then pos w else negsuc (2 ^ 32 - w - 1)

-- `(t / (1000 * 60 * 60)) % 24` and the like.
abbrev hour_of : ℤ → ℤ
hour_of t = tmod (tdiv t (pos 3600000)) 24

abbrev min_of : ℤ → ℤ
min_of t = tmod (tdiv t (pos 60000)) 60

abbrev sec_of : ℤ → ℤ
sec_of t = tmod (tdiv t (pos 1000)) 60

-- The line of `dissect_timestamp`.
unfoldable clock_line : ℤ → Line
clock_line t = clock (hour_of t) (min_of t) (sec_of t)

abbrev icmp_ttime : Packet → ℕ
icmp_ttime p = get32 p.mem (p.icmp + 16)

-- The line of `dissect_timestamp_reply`.
unfoldable pub reply_line : Packet → Output → Output
reply_line p o =
    let t = as_long (swap32 (icmp_rtime p)) in
    let idle_time = i32 (as_long (swap32 (icmp_ttime p)) -ℤ t) in
    puts (idle idle_time (hour_of t) (min_of t) (sec_of t)) o

abbrev icmp_tcp_sport : Packet → ℕ
icmp_tcp_sport p = get16 p.mem (p.payload + words_at p.mem (icmp_ip p) * 4)

abbrev icmp_tcp_dport : Packet → ℕ
icmp_tcp_dport p = get16 p.mem (p.payload + 2 + words_at p.mem (icmp_ip p) * 4)

-- `do { class++; } while (mask <<= 1);` on 32 bits; none means that the fuel ran out.
unfoldable pub class_loop : ℕ → ℕ → ℕ → Option ℕ
class_loop zero m class = none
class_loop (suc fuel) m class =
    let m' = m * 2 % 2 ^ 32 in
    let rest = class_loop fuel m' (class + 1) in if m' == 0 then some (class + 1) else rest

-- The mask of an address mask reply, in the order of the host, as the length of a prefix.
unfoldable pub class_of : ℕ → Option ℕ
class_of m = class_loop 32 m 0

-- `~` on 32 bits.
abbrev pub complement : ℕ → ℕ
complement w = 2 ^ 32 - 1 - w

-- `icmp_len` plus 2 ^ 16, which has the same low octets and is no negative number.
abbrev pub finger_length : Packet → ℕ
finger_length p = swap16 (ip_len p) + 2 ^ 16 - ip_hl p * 4

abbrev finger_head : Packet → List ℕ
finger_head p =
    p.mem (p.ip + 1)
    ∷ finger_length p % 256
    ∷ finger_length p / 2 % 256
    ∷ p.mem (p.ip + 6)
    ∷ ttl_predictor (ip_ttl p)
    ∷ icmp_code p
    ∷ []

abbrev finger_data : Packet → List ℕ
finger_data p = bytes p.mem p.tstamp_data (finger_length p - 2 ^ 16 - 16)

-- What `fp_buffer`, of 1024 octets, holds then: a longer message is written past its end.
unfoldable pub finger_buffer : Packet → List ℕ → Run (List ℕ)
finger_buffer p old =
    if ltb (2 ^ 16 + 16) (finger_length p)
    then if ltb (2 ^ 16 + 1034) (finger_length p)
      then fatal Fault.bad_index
      else ok (finger_head p ++ (finger_data p ++ drop (finger_length p - 2 ^ 16 - 10) old))
    else ok (finger_head p ++ drop 6 old)

-- How much of it the hash takes.
abbrev finger_size : Packet → ℕ
finger_size p = if ltb (2 ^ 16 + 16) (finger_length p) then finger_length p - 2 ^ 16 - 10 else 8

unfoldable pub finger_print : Packet → Output → Run Output
unfolding finger_buffer hash get_fprint
finger_print p o = finger_buffer p o.fp_buffer >>= λ buf.
    let h = hash (take (finger_size p) buf) in
    ok (
      puts (fprint h (get_fprint h))
        (puts (origin_ttl (ttl_predictor (ip_ttl p))) (record o { fp_buffer = buf })))

-- The lines of `bandwidth_predictor`, which are printed when it ends, from the globals afterwards.
unfoldable pub print_bandwidth : State → Output → Output
unfolding link_type
print_bandwidth s o =
    if s.g.options.sniff || (s.g.diff_ipid == 0)
    then o
    else if not (s.g.rand_ipid ==ℤ pos 0)
    then puts random_burst o
    else puts (link (link_type s.g.mean_burst))
        (puts (burst s.g.out_burst s.g.mean_burst s.g.max_burst) o)

module _ (r : Resolver) (today : ℕ) where
  -- `PRINT_IPH_64bit`.
  unfoldable pub print_iph_64bit : Packet → Output → Output
  unfolding entry
  print_iph_64bit p o =
      let (s, o1) = dotted_of r today (icmp_ip_src p) o in
      let (d, o2) = dotted_of r today (icmp_ip_dst p) o1 in
      let name = entry protocols (icmp_ip_p p) in
      puts
        (if (icmp_ip_p p == 6) || (icmp_ip_p p == 17)
          then quoted_ports name (text_in s o2) (swap16 (icmp_tcp_sport p)) (text_in d o2)
              (swap16 (icmp_tcp_dport p))
          else quoted name (text_in s o2) (text_in d o2))
        o2

  unfoldable print_gateway : Packet → Output → Output
  print_gateway p o =
      let (b, o') = dotted_of r today (icmp_gwaddr p) o in puts (gateway (text_in b o')) o'

  -- `dissect_address_mask_reply`.
  unfoldable pub print_mask : Packet → Output → Run Output
  unfolding class_of
  print_mask p o =
      let m = icmp_mask p in
      let network = bit_and (ip_src p) m in
      let (a, o1) = dotted_of r today m o in
      let (b, o2) = dotted_of r today network o1 in
      let (c, o3) = dotted_of r today (bit_or network (complement m)) o2 in
      elim (class_of (swap32 m)) [
        | none ↦ fatal Fault.endless_loop
        | some n ↦ ok (puts (mask (text_in a o3) (text_in b o3) n (text_in c o3)) o3)
      ]

  module _ (at : Places) (fuel : ℕ) where
    -- `bandwidth_predictor` with its lines.
    unfoldable pub predict : State → Output → Run (State × Output)
    unfolding print_bandwidth
    predict s o = bandwidth_predictor at fuel s >>= λ s'. ok (s', print_bandwidth s' o)

    abbrev pub printed : State → Output → Run (State × Output)
    printed s o = ok (s, o)

    -- The functions of `icmp_dissect_vector`, by the type; a type without one prints nothing.
    unfoldable pub dissect_message : ℕ → Packet → State → Output → Run (State × Output)
    unfolding predict print_iph_64bit print_gateway print_mask clock_line reply_line finger_print
    dissect_message kind p s o =
        if kind == 0
        then predict s o
        else if kind == 3
        then (let o' = puts new_line (print_iph_64bit p o) in
            if ltb s.g.detail 3 then printed s o' else predict s o')
        else if kind == 5
        then printed s (print_gateway p (print_iph_64bit p o))
        else if kind == 8
        then (finger_print p o >>= λ o'. printed s o')
        else if (kind == 4) || (kind == 11) || (kind == 12)
        then printed s (puts new_line (print_iph_64bit p o))
        else if kind == 13
        then printed s (puts (clock_line (as_long (swap32 (icmp_otime p)))) o)
        else if kind == 14
        then (let o' = reply_line p o in if ltb s.g.detail 3 then printed s o' else predict s o')
        else if kind == 15
        then printed s (puts (ident_request (icmp_id p) (icmp_seq p)) o)
        else if kind == 16
        then printed s (puts (ident_reply (icmp_id p) (icmp_seq p)) o)
        else if kind == 18
        then (print_mask p o >>= λ o'. printed s o')
        else if kind == 40
        then printed s (print_iph_64bit p o)
        else printed s o

    -- `process_pack` with what it prints.
    unfoldable pub show_pack : Packet → ℕ → State → Output → Run (State × Output)
    unfolding print_pack measure dissect_message
    show_pack p datalink s o = print_pack r today p datalink s.g (measure p s.g) o >>= λ o'.
        let s' : State = record s { g = measure p s.g } in
        if ltb s.g.detail 3 then printed s' o' else dissect_message (icmp_type p % 64) p s' o'
