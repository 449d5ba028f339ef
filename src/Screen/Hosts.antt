-- ===== src/Screen/Hosts.antt =====
-- The names of hosts in the lines of `process_pack`.
use aping.Base.{
  arith, ℕ, ◌*◌, ◌%◌, ◌<◌, [], ◌∷◌, ◌++◌, Bool, true, false, not, ◌&&◌, ◌||◌, some, ltb, ◌==◌,
  if◌then◌else◌, ◌≡◌, refl, sym, ap, ◌∙◌,
}
use aping.Base.Text.{Text}
use aping.Base.Outcome.{ok, bind_ok, result_of_IsOk, IsOk}
use mathlib.Core.Path.{subst}
use aping.State.{Globals}
use aping.Packet.{
  Packet, ip_hl, ip_src, ip_dst, icmp_type, icmp_code, icmp_has_seq, icmp_seq, icmp_id, ip_ttl,
}
use aping.Statistic.Ttl.{hop_distance}
use aping.NsCache.{Resolver}
use aping.NsCache.Transparent.{AddressesAgree, reverse, gethostbyaddr_cache-transparent}
use aping.Screen.Names.{entry, icmp_type_str, index_of}
use aping.Hardware.{mac_src}
use aping.Screen.{
  Line, from, to, icmp, seq, rtt_ms, id_step, id, hops, icmp_ident, delays, mac_line, print_icon,
  icon_for, Output, puts, puts_if, text_in, name_of, print_route, print_to, print_code, print_rest,
  print_detail, print_sender, print_pack,
}
use aping.Screen.Kept.{IsSteady, gethostbyaddr_cache_fresh}
use aping.Screen.Lines.{
  Prints, Prints-puts, Prints-puts_if, code_line-Prints, puts_if-cache, code_line-cache,
  print_code_ok, print_route-IsSteady,
}

module _ (r : Resolver) (today : ℕ) where
  print_to-Prints :
      (l : Line) (p : Packet) (datalink : ℕ) (g : Globals) (o : Output)
      → Prints l o
      → Prints l (print_to r today p datalink g o)
  print_to-Prints l p datalink g o h =
      let (d, o1) = name_of r today (ip_dst p) o in
      Prints-puts_if (puts (to (text_in d o1)) o1) (not (g.mac_inspection == 0)) _
        (Prints-puts o1 (to (text_in d o1)) h)

  -- The destination is printed with its name.
  print_to_named :
      (p : Packet) (datalink : ℕ) (g : Globals) (o : Output)
      → AddressesAgree r o.cache
      → Prints
          (to (some (reverse r o.cache.allow_reverse (ip_dst p))))
          (print_to r today p datalink g o)
  print_to_named p datalink g o ok' =
      let (d, o1) = name_of r today (ip_dst p) o in
      let e = (gethostbyaddr_cache-transparent r today (ip_dst p) o.cache ok').0 in
      Prints-puts_if (puts (to (text_in d o1)) o1) (not (g.mac_inspection == 0)) _
        (o1.lines, [], ap (λ u. o1.lines ++ to u ∷ []) e)

  print_to_agree :
      (p : Packet) (datalink : ℕ) (g : Globals) (o : Output)
      → AddressesAgree r o.cache
      → AddressesAgree r (print_to r today p datalink g o).cache
  print_to_agree p datalink g o ok' =
      let (d, o1) = name_of r today (ip_dst p) o in
      subst (AddressesAgree r)
        (sym (puts_if-cache (not (g.mac_inspection == 0)) _ (puts (to (text_in d o1)) o1)))
        (gethostbyaddr_cache-transparent r today (ip_dst p) o.cache ok').1

  -- What the lines hold of the hosts, for the globals with which they are printed.
  abbrev pub NamesHosts : Bool → Packet → Globals → Output → Type 0
  NamesHosts allow p g o =
      Prints (from g.icmp_size (some (reverse r allow (ip_src p)))) o
      × (g.options.sniff ≡ true → Prints (to (some (reverse r allow (ip_dst p)))) o)
      × AddressesAgree r o.cache

  puts-NamesHosts :
      (allow : Bool) (p : Packet) (g : Globals) (o : Output) (m : Line)
      → NamesHosts allow p g o
      → NamesHosts allow p g (puts m o)
  puts-NamesHosts allow p g o m (h, d, a) = (Prints-puts o m h, (λ sn. Prints-puts o m (d sn)), a)

  puts_if-NamesHosts :
      (allow : Bool) (p : Packet) (g : Globals) (o : Output) (b : Bool) (m : Line)
      → NamesHosts allow p g o
      → NamesHosts allow p g (puts_if b m o)
  puts_if-NamesHosts allow p g o true m h = puts-NamesHosts allow p g o m h
  puts_if-NamesHosts allow p g o false m h = h

  sniffed :
      (z : Bool) (allow : Bool) (p : Packet) (datalink : ℕ) (g : Globals) (o : Output)
      → g.options.sniff ≡ z
      → Prints (from g.icmp_size (some (reverse r allow (ip_src p)))) o
      → AddressesAgree r o.cache
      → o.cache.allow_reverse ≡ allow
      → NamesHosts allow p g (if z then print_to r today p datalink g o else o)
  sniffed true allow p datalink g o z h agree e = (
    print_to-Prints _ p datalink g o h,
    (λ _.
        subst (λ a. Prints (to (some (reverse r a (ip_dst p)))) (print_to r today p datalink g o)) e
          (print_to_named p datalink g o agree)),
    print_to_agree p datalink g o agree,
  )
  sniffed false allow p datalink g o z h agree e = (h, (λ sn. cc), agree)

  print_sender-NamesHosts :
      (b k : ℕ) (allow : Bool) (p : Packet) (datalink : ℕ) (g : Globals) (o : Output)
      → IsSteady r b (reverse r allow (ip_src p)) k allow o.cache
      → NamesHosts allow p g (print_sender r today b p datalink g o)
  print_sender-NamesHosts b k allow p datalink g o s =
      let o1 = puts (print_icon (icon_for p g) g) o in
      let o2 = puts (from g.icmp_size (text_in b o1)) o1 in
      let m = mac_line p datalink mac_src in
      let inspects = not (g.mac_inspection == 0) in
      let named : Prints (from g.icmp_size (some (reverse r allow (ip_src p)))) o2 =
        (o1.lines, [], ap (λ u. o1.lines ++ from g.icmp_size u ∷ []) s.kept.text) in
      let same = puts_if-cache inspects m o2 in
      let o3 = puts_if inspects m o2 in
      let o4 = if g.options.sniff then print_to r today p datalink g o3 else o3 in
      puts-NamesHosts allow p g o4 (icmp (icmp_type p) (entry icmp_type_str (icmp_type p % 64))) (
        sniffed g.options.sniff allow p datalink g (puts_if inspects m o2) refl
          (Prints-puts_if o2 inspects m named) (subst (AddressesAgree r) (sym same) s.agree)
          (ap (λ c. c.allow_reverse) same ∙ s.kept.allows))

  after_code :
      (allow : Bool) (p : Packet) (g : Globals) (o o' : Output)
      → print_code p o ≡ ok o'
      → NamesHosts allow p g o
      → NamesHosts allow p g o'
  after_code allow p g o o' e (h, d, a) =
      let (s, q) = print_code_ok p o o' e in
      subst (NamesHosts allow p g) (sym q) (
        code_line-Prints _ (icmp_code p) s o h,
        (λ sn. code_line-Prints _ (icmp_code p) s o (d sn)),
        subst (AddressesAgree r) (sym (code_line-cache (icmp_code p) s o)) a,
      )

  after_rest :
      (allow : Bool) (p : Packet) (g : Globals) (o : Output)
      → NamesHosts allow p g o
      → NamesHosts allow p g (print_rest p g o)
  after_rest allow p g o h =
      let timed = not g.options.sniff && ((icmp_type p == 0) || (icmp_type p == 14)) in
      let o1 = puts_if (icmp_has_seq p) (seq (icmp_seq p)) o in
      let o2 = puts_if timed (rtt_ms g.rtt.whole g.rtt.part) o1 in
      puts-NamesHosts allow p g o2 (if g.diff_ipid == 0 then id g.curr_id else id_step g.diff_id) (
        puts_if-NamesHosts allow p g o1 timed (rtt_ms g.rtt.whole g.rtt.part)
          (puts_if-NamesHosts allow p g o (icmp_has_seq p) (seq (icmp_seq p)) h))

  after_detail :
      (allow : Bool) (p : Packet) (g : Globals) (o : Output)
      → NamesHosts allow p g o
      → NamesHosts allow p g (print_detail p g o)
  after_detail allow p g o h =
      let first = hops (ip_ttl p) (hop_distance (ip_ttl p)) in
      let ident = icmp_ident (icmp_id p) in
      puts-NamesHosts allow p g (puts_if (icmp_has_seq p) ident (puts first o))
        (delays g.jitter g.waiting_time)
        (puts_if-NamesHosts allow p g (puts first o) (icmp_has_seq p) ident
          (puts-NamesHosts allow p g o first h))

  detailed :
      (z : Bool) (allow : Bool) (p : Packet) (g : Globals) (o : Output)
      → NamesHosts allow p g o
      → NamesHosts allow p g (if z then o else print_detail p g o)
  detailed true allow p g o h = h
  detailed false allow p g o h = after_detail allow p g o h

  routed :
      {b : ℕ} {t : Text} {allow : Bool} (z : Bool) (p : Packet) (g : Globals) (o : Output)
      → IsSteady r b t 0 allow o.cache
      → (k : ℕ) × IsSteady r b t k allow (if z then print_route r today p g o else o).cache
  routed true p g o s = let (k, few, s') = print_route-IsSteady r today p g o s in (k, s')
  routed false p g o s = (0, s)

  print_pack-NamesHosts :
      (p : Packet) (datalink : ℕ) (g g' : Globals) (o o' : Output)
      → AddressesAgree r o.cache
      → print_pack r today p datalink g g' o ≡ ok o'
      → NamesHosts o.cache.allow_reverse p g' o'
  unfolding print_pack
  print_pack-NamesHosts p datalink g g' o o' agree e =
      let (b, o1) = name_of r today (ip_src p) o in
      let allow = o.cache.allow_reverse in
      let s1 = gethostbyaddr_cache_fresh r today (ip_src p) o.cache agree in
      let (k, s2) = routed (g.options.rroute && (ip_hl p == 15)) p g o1 s1 in
      let named = print_sender-NamesHosts b k allow p datalink g' _ s2 in
      let (o3, q, done) = bind_ok _ _ o' e in
      let h4 = after_rest allow p g' o3 (after_code allow p g' _ o3 q named) in
      subst (NamesHosts allow p g') (ok_inj done) (detailed (ltb g.detail 2) allow p g' _ h4)
    where
      ok_inj : {x y : Output} → ok x ≡ ok y → x ≡ y
      ok_inj q = cc

  print_pack-IsOk :
      (p : Packet) (datalink : ℕ) (g g' : Globals) (o : Output)
      → index_of (icmp_type p) (icmp_code p) < 64 * 64
      → IsOk (print_pack r today p datalink g g' o)
  unfolding print_pack
  print_pack-IsOk p datalink g g' o h =
      let e : ltb (index_of (icmp_type p) (icmp_code p)) (64 * 64) ≡ true = ground arith in rw e tt

  -- For a packet whose code is in the table of the codes, and a name cache in which every
  -- address has beside it the text that the resolver gives: `process_pack` prints, up to detail
  -- 2, with no fault, a line with the size and the text of the resolver for the source, also
  -- where the lines of a recorded route used the buffers between, for a sniffer a line with the
  -- text for the destination, and the cache still has the property.
  pub print_pack_names :
      (p : Packet) (datalink : ℕ) (g g' : Globals) (o : Output)
      → AddressesAgree r o.cache
      → index_of (icmp_type p) (icmp_code p) < 64 * 64
      → (o' : Output) × (print_pack r today p datalink g g' o ≡ ok o')
        × NamesHosts o.cache.allow_reverse p g' o'
  print_pack_names p datalink g g' o agree fits =
      let (o', e) = result_of_IsOk _ (print_pack-IsOk p datalink g g' o fits) in
      (o', e, print_pack-NamesHosts p datalink g g' o o' agree e)
