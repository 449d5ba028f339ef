-- ===== src/Tests/Names.antt =====
-- The name cache.
use aping.Base.{leb, ◌+◌, [], ◌∷◌, some, none, ◌≡◌, refl, arith, true, ◌==◌, if◌then◌else◌}
use aping.Base.Int.{pos}
use aping.Base.Text.{Text, text_eq}
use aping.NsCache.{
  Cache, Resolver, no_entry, failed, name_slot, cache_hostbyname, insert_hostbyname,
  gethostbyname_cache, gethostbyaddr_cache, safe_inet_ntoa, safe_buffer,
}
use aping.NsCache.Lookup.{cache_hostbyname-insert, year_end_never_expires}
use aping.NsCache.Transparent.{
  resolve, NamesAgree, AddressesAgree, reverse, Answers, gethostbyname_cache-transparent,
  gethostbyaddr_cache-transparent,
}
use aping.NsCache.Lock.{calls-held}
use aping.NsCache.Ring.{safe_buffers, safe_buffer_survives}

abbrev here : Text
here = 97 ∷ 98 ∷ []

abbrev there : Text
there = 99 ∷ []

abbrev pub empty : Cache
empty = record {
  hostbyname = λ i. no_entry;
  hostbyaddr = λ i. no_entry;
  held = pos 0;
  index = 0;
  buffers = λ i. none;
  allow_reverse = true;
}

-- One host, with one name.
abbrev pub one_host : Resolver
one_host = record {
  inet_addr = λ t. failed;
  host_address = λ t. if text_eq t here then some 16777343 else none;
  host_name = λ a. if a == 16777343 then some here else none;
  inet_ntoa = λ a. there;
}

cache_hostbyname-insert_example :
    cache_hostbyname (insert_hostbyname here 16777343 100 empty) 101 (some there) ≡ (
      if name_slot here == name_slot there
      then (if leb (100 + 2) 101 then failed else if text_eq there here then 16777343 else failed)
      else cache_hostbyname empty 101 (some there))
cache_hostbyname-insert_example = cache_hostbyname-insert empty here there 16777343 100 101

year_end_never_expires_example :
    cache_hostbyname (insert_hostbyname here 16777343 364 empty) 200 (some here) ≡ 16777343
year_end_never_expires_example =
    year_end_never_expires empty here 16777343 364 200 (omega arith) (omega arith)

empty-NamesAgree : NamesAgree one_host empty
empty-NamesAgree i t e = cc

pub empty-AddressesAgree : AddressesAgree one_host empty
empty-AddressesAgree = record { named = λ i t e. cc; blank = λ i e. refl }

gethostbyname_cache-transparent_example :
    ((gethostbyname_cache one_host 100 (some here) empty).0 ≡ resolve one_host here)
    × NamesAgree one_host (gethostbyname_cache one_host 100 (some here) empty).1
gethostbyname_cache-transparent_example =
    gethostbyname_cache-transparent one_host 100 here empty empty-NamesAgree

gethostbyaddr_cache-transparent_example :
    Answers one_host 100
      (reverse one_host true 16777343)
      (gethostbyaddr_cache one_host 100 16777343 empty)
gethostbyaddr_cache-transparent_example =
    gethostbyaddr_cache-transparent one_host 100 16777343 empty empty-AddressesAgree

calls-held_example :
    ((gethostbyname_cache one_host 100 none empty).1.held ≡ empty.held)
    × ((gethostbyaddr_cache one_host 100 7 empty).1.held ≡ empty.held)
    × ((safe_inet_ntoa one_host 100 7 empty).1.held ≡ empty.held)
calls-held_example = calls-held one_host 100 none 7 empty

safe_buffer_survives_example :
    let (b, c') = safe_buffer here empty in
    (safe_buffers (there ∷ there ∷ []) c').buffers b ≡ some here
safe_buffer_survives_example = safe_buffer_survives here (there ∷ there ∷ []) empty (omega arith)
