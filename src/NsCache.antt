-- ===== src/NsCache.antt =====
-- ns-cache.c: two direct-mapped tables of names and addresses, the ring of returned texts, and the
-- mutex around each call. `nbo` is an unsigned word of 32 bits, and a text is its bytes without
-- the final 0. `strdup` is taken to succeed. The system's resolver and the day are parameters.
pub mod Lookup
pub mod Transparent
pub mod Lock
pub mod Ring
use aping.Base.Text.{Text, text_eq, dotted_zero}
use aping.Base.{
  ℕ, ◌+◌, ◌-◌, ◌*◌, ◌/◌, ◌%◌, ◌^◌, Bool, true, false, Option, none, some, List, [], ◌∷◌,
}
use aping.Base.{bit_and, bit_xor, ◌==◌, ltb, leb, if◌then◌else◌}
use aping.Base.Int.{ℤ, pos, ◌+ℤ◌, ◌-ℤ◌}

pub record Entry : Type 0 where
  pub addr : ℕ
  pub host : Option Text
  pub yday : ℕ

-- The statics of the file. `held` counts the locks of `safe_mutex` less its unlocks.
pub record Cache : Type 0 where
  pub hostbyname : ℕ → Entry
  pub hostbyaddr : ℕ → Entry
  pub held : ℤ
  pub index : ℕ
  pub buffers : ℕ → Option Text
  pub allow_reverse : Bool

abbrev pub no_entry : Entry
no_entry = record { addr = 0; host = none; yday = 0 }

-- A byte of a `char`, as `h ^ p[i]` extends it to a word.
abbrev sign_extend : ℕ → ℕ
sign_extend b = if ltb b 128 then b else b + 0xffffff00

fnv_from : ℕ → Text → ℕ
fnv_from h [] = h
fnv_from h (c ∷ cs) = fnv_from (bit_xor (h * 16777619 % 2 ^ 32) (sign_extend c)) cs

unfoldable pub fnv : Text → ℕ
unfolding fnv_from
fnv p = fnv_from 2166136261 p

-- `& HASH_MASK`.
unfoldable pub name_slot : Text → ℕ
name_slot h = bit_and (fnv h) (2 ^ 12 - 1)

-- The four bytes of the word at `&address`.
unfoldable pub addr_slot : ℕ → ℕ
addr_slot a =
    bit_and (fnv (a % 256 ∷ a / 256 % 256 ∷ a / 65536 % 256 ∷ a / 16777216 % 256 ∷ [])) (2 ^ 12 - 1)

-- `(nbo) -1`.
abbrev pub failed : ℕ
failed = 2 ^ 32 - 1

abbrev expired : Entry → ℕ → Bool
expired e today = leb (e.yday + 2) today

unfoldable name_hit : Entry → Text → Option Text → ℕ
name_hit e h none = failed
name_hit e h (some t) = if text_eq h t then e.addr else failed

unfoldable pub cache_hostbyname : Cache → ℕ → Option Text → ℕ
unfolding name_hit
cache_hostbyname c today none = failed
cache_hostbyname c today (some h) =
    let e = c.hostbyname (name_slot h) in if expired e today then failed else name_hit e h e.host

unfoldable pub cache_hostbyaddr : Cache → ℕ → ℕ → Option Text
cache_hostbyaddr c today a =
    let e = c.hostbyaddr (addr_slot a) in
    if a == 0 then none else if expired e today then none else if e.addr == a then e.host else none

abbrev fresh_entry : Text → ℕ → ℕ → Entry
fresh_entry h a today = record { addr = a; host = some h; yday = today }

abbrev replace : (ℕ → Entry) → ℕ → Entry → ℕ → Entry
replace f i e j = if i == j then e else f j

unfoldable pub insert_hostbyname : Text → ℕ → ℕ → Cache → Cache
insert_hostbyname h a today c = record c {
  hostbyname = replace c.hostbyname (name_slot h) (fresh_entry h a today);
}

unfoldable pub insert_hostbyaddr : Text → ℕ → ℕ → Cache → Cache
insert_hostbyaddr h a today c = record c {
  hostbyaddr = replace c.hostbyaddr (addr_slot a) (fresh_entry h a today);
}

abbrev pub prolog : Cache → Cache
prolog c = record c { held = c.held +ℤ pos 1 }

abbrev epilog : Cache → Cache
epilog c = record c { held = c.held -ℤ pos 1 }

abbrev set_buffer : (ℕ → Option Text) → ℕ → Text → ℕ → Option Text
set_buffer f i t j = if i == j then some t else f j

-- The number of the buffer that a counter selects, `index & SAFE_MASK`.
abbrev pub buffer_of : ℕ → ℕ
buffer_of i = bit_and i (2 ^ 8 - 1)

-- The result is the number of the buffer whose address is returned. `index` is the bit pattern of
-- its `int`, and the mutex is unlocked here.
unfoldable pub safe_buffer : Text → Cache → ℕ × Cache
safe_buffer t c =
    let i = (c.index + 1) % 2 ^ 32 in
    (buffer_of i, epilog (record c { index = i; buffers = set_buffer c.buffers (buffer_of i) t }))

-- `inet_addr`, `gethostbyname` and `gethostbyaddr` of the system, and `inet_ntoa`.
pub record Resolver : Type 0 where
  pub inet_addr : Text → ℕ
  pub host_address : Text → Option ℕ
  pub host_name : ℕ → Option Text
  pub inet_ntoa : ℕ → Text

-- The name that is inserted and returned after a miss.
unfoldable pub reverse_name : Resolver → Bool → ℕ → Text
reverse_name r allow a =
    if allow then elim (r.host_name a) [ none ↦ r.inet_ntoa a | some t ↦ t ] else r.inet_ntoa a

module _ (r : Resolver) (today : ℕ) where
  unfoldable pub name_miss : Text → Cache → ℕ × Cache
  name_miss h c =
      if r.inet_addr h == failed
      then elim (r.host_address h) [
        | none ↦ (failed, epilog c)
        | some a ↦ (a, epilog (insert_hostbyname h a today c))
      ]
      else (r.inet_addr h, epilog (insert_hostbyname h (r.inet_addr h) today c))

  unfoldable pub gethostbyname_cache : Option Text → Cache → ℕ × Cache
  unfolding name_miss cache_hostbyname insert_hostbyname
  gethostbyname_cache none c = (failed, epilog (prolog c))
  gethostbyname_cache (some h) c =
      let c' = prolog c in
      let ret = cache_hostbyname c' today (some h) in
      if ret == failed then name_miss h c' else (ret, epilog c')

  unfoldable pub addr_miss : ℕ → Cache → ℕ × Cache
  addr_miss a c =
      let t = reverse_name r c.allow_reverse a in safe_buffer t (insert_hostbyaddr t a today c)

  -- A hit counts only where `allow_reverse` is set.
  unfoldable pub known_or_miss : Bool → Option Text → ℕ → Cache → ℕ × Cache
  known_or_miss true (some t) a c = safe_buffer t c
  known_or_miss true none a c = addr_miss a c
  known_or_miss false hit a c = addr_miss a c

  unfoldable pub gethostbyaddr_cache : ℕ → Cache → ℕ × Cache
  unfolding known_or_miss addr_miss reverse_name cache_hostbyaddr insert_hostbyaddr safe_buffer
  gethostbyaddr_cache a c =
      let c' = prolog c in
      if a == 0
      then safe_buffer dotted_zero c'
      else known_or_miss c.allow_reverse (cache_hostbyaddr c' today a) a c'

  unfoldable pub safe_inet_ntoa : ℕ → Cache → ℕ × Cache
  unfolding safe_buffer
  safe_inet_ntoa a c = safe_buffer (r.inet_ntoa a) (prolog c)
