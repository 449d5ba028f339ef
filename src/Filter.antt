-- ===== src/Filter.antt =====
-- filter.h and user-filter.h: which captured packets the receiver keeps. `beyond` gives the `int`
-- that lies `i` places into memory from the start of `icmp_parent`, past its end.
pub mod Echo
use aping.Base.{ℕ, ◌%◌, List, [], ◌∷◌, Bool, not, ◌&&◌, ◌||◌, Option, none, some, ◌==◌, get_elem?}
use aping.Base.Int.{ℤ, pos, negsuc, ◌==ℤ◌}
use aping.State.{Globals}
use aping.Packet.{Packet, ip_src, ip_dst, icmp_type, icmp_id, icmp_ip_src, icmp_ip_dst, icmp_ip_p}
use aping.Packet.{icmp_icmp_type, icmp_icmp_code, icmp_icmp_id}

abbrev m1 : ℤ
m1 = negsuc 0

-- The types for which a message is a reply; the last eleven entries are not written in the source.
abbrev pub icmp_parent : List ℤ
icmp_parent =
    pos 8
    ∷ m1
    ∷ m1
    ∷ m1
    ∷ m1
    ∷ m1
    ∷ m1
    ∷ m1
    ∷ pos 0
    ∷ m1
    ∷ m1
    ∷ m1
    ∷ m1
    ∷ pos 0
    ∷ pos 13
    ∷ pos 0
    ∷ pos 15
    ∷ pos 0
    ∷ pos 17
    ∷ m1
    ∷ m1
    ∷ pos 0
    ∷ pos 0
    ∷ pos 0
    ∷ pos 0
    ∷ pos 0
    ∷ pos 0
    ∷ pos 0
    ∷ pos 0
    ∷ pos 0
    ∷ pos 0
    ∷ pos 0
    ∷ []

unfoldable pub is_related : Globals → Packet → Bool
is_related g p =
    (icmp_ip_src p == g.ip_src)
    && (icmp_ip_dst p == g.ip_dst)
    && (icmp_ip_p p == 1)
    && (pos (icmp_icmp_type p) ==ℤ g.icmp_type)
    && (pos (icmp_icmp_code p) ==ℤ g.icmp_code)
    && not ((icmp_icmp_type p == 0) && not (icmp_icmp_id p ==ℤ pos g.myid))

abbrev pub tome : Globals → Packet → Bool
tome g p = ip_dst p == g.ip_src

abbrev frme : Globals → Packet → Bool
frme g p = ip_src p == g.ip_src

abbrev pub is_my_id : Globals → Packet → Bool
is_my_id g p = icmp_id p == g.myid

module _ (beyond : ℕ → ℤ) where
  unfoldable pub parent_of : ℕ → ℤ
  parent_of i = elim (get_elem? icmp_parent i) [ none ↦ beyond i | some z ↦ z ]

  -- The index is masked by 0x1f here, and by 0xff in `is_parent`.
  unfoldable pub is_orphan : Packet → Bool
  unfolding parent_of
  is_orphan p = parent_of (icmp_type p % 32) ==ℤ negsuc 0

  unfoldable pub is_parent : Globals → Packet → Bool
  unfolding parent_of
  is_parent g p = parent_of (icmp_type p % 256) ==ℤ g.icmp_type

  -- `REPLY_FILTER`.
  unfoldable pub rule_3 : Globals → Packet → Bool
  unfolding is_parent
  rule_3 g p =
      not g.options.sniff
      && tome g p
      && is_parent g p
      && not ((icmp_type p == 0) && not (is_my_id g p))

  unfoldable pub rule_2 : Globals → Packet → Bool
  unfolding is_orphan is_related
  rule_2 g p = not g.options.sniff && tome g p && is_orphan p && is_related g p

  unfoldable pub generic_filter : Globals → Packet → Bool
  unfolding rule_2 rule_3
  generic_filter g p =
      (g.options.sniff && g.options.promisc)
      || (g.options.sniff && not g.options.promisc && not (frme g p))
      || rule_2 g p
      || rule_3 g p
