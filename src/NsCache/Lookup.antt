-- ===== src/NsCache/Lookup.antt =====
-- What a lookup finds after an insertion, and when an entry expires.
use aping.Base.{ℕ, ◌+◌, ◌≤◌, none, some, ◌≡◌, ◌≢◌, arith}
use aping.Base.{◌==◌, leb, if◌then◌else◌}
use aping.Base.Text.{Text, text_eq, text_eq_self}
use aping.NsCache.{Cache, failed}
use aping.NsCache.{cache_hostbyname, cache_hostbyaddr, insert_hostbyname, insert_hostbyaddr}
use aping.NsCache.{name_slot, addr_slot}

-- After an insertion of `h` on day `y`, a lookup of `j` on day `d`: in the slot of `h` it finds
-- the new address, only for the text `h` and only before day `y + 2`, and else -1; in other slots
-- it finds what was there.
pub cache_hostbyname-insert :
    (c : Cache) (h j : Text) (a y d : ℕ)
    → cache_hostbyname (insert_hostbyname h a y c) d (some j) ≡ (
        if name_slot h == name_slot j
        then (if leb (y + 2) d then failed else if text_eq j h then a else failed)
        else cache_hostbyname c d (some j))
unfolding cache_hostbyname insert_hostbyname
cache_hostbyname-insert c h j a y d = ground arith

-- After an insertion of `a` on day `y`, a lookup of an address `b` that is not 0 on day `d`: in
-- the slot of `a` it finds the new text, only for the address `a` and only before day `y + 2`,
-- and else nothing; in other slots it finds what was there.
cache_hostbyaddr-insert :
    (c : Cache) (t : Text) (a b y d : ℕ)
    → b ≢ 0
    → cache_hostbyaddr (insert_hostbyaddr t a y c) d b ≡ (
        if addr_slot a == addr_slot b
        then (if leb (y + 2) d then none else if a == b then some t else none)
        else cache_hostbyaddr c d b)
unfolding cache_hostbyaddr insert_hostbyaddr
cache_hostbyaddr-insert c t a b y d h = ground arith

-- What is inserted on day 364 or later of a year is returned on every day from 0 to 365, so on
-- every day of the next year.
pub year_end_never_expires :
    (c : Cache) (h : Text) (a y d : ℕ)
    → 364 ≤ y
    → d ≤ 365
    → cache_hostbyname (insert_hostbyname h a y c) d (some h) ≡ a
unfolding cache_hostbyname insert_hostbyname
year_end_never_expires c h a y d late day = ground (arith, text_eq_self h)
