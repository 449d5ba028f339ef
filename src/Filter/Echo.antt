-- ===== src/Filter/Echo.antt =====
-- The filters of a run that sends echo requests.
use aping.Base.{ℕ, ◌<◌, ◌%◌, true, false, ◌&&◌, ◌||◌, ◌≡◌, refl, ap, arith, ◌==◌}
use aping.Base.Int.{ℤ, pos, ◌==ℤ◌}
use aping.State.{Globals}
use aping.Packet.{Packet, icmp_type}
use aping.Filter.{
  parent_of, is_parent, is_orphan, is_related, rule_2, rule_3, generic_filter, tome, is_my_id,
}
use aping.Base.Table.{all_below, all_below_sound, same, eq_of_same}

module _ (beyond : ℕ → ℤ) where
  parent_table : all_below 32 (λ t. same (parent_of beyond t ==ℤ pos 8) (t == 0)) ≡ true
  unfolding parent_of all_below
  parent_table = refl

  -- Of the types in the table, only the echo reply has the echo request for its parent.
  parent_of_eight : (t : ℕ) → t < 32 → (parent_of beyond t ==ℤ pos 8) ≡ (t == 0)
  parent_of_eight t h = eq_of_same _ _ (all_below_sound 32 _ t parent_table h)

  -- In a run that does not sniff and sends echo requests, a packet of a type below 32 passes
  -- the filter if and only if it is for this host, and is either an orphan that quotes a
  -- request of this host or an echo reply with the id of this process.
  pub generic_filter-echo :
      (g : Globals) (p : Packet)
      → g.options.sniff ≡ false
      → g.icmp_type ≡ pos 8
      → icmp_type p < 32
      → generic_filter beyond g p
        ≡ tome g p
          && ((is_orphan beyond p && is_related g p) || ((icmp_type p == 0) && is_my_id g p))
  unfolding generic_filter is_parent rule_2 rule_3
  generic_filter-echo g p e k h =
      let t : icmp_type p % 256 ≡ icmp_type p = omega arith in
      ground (arith, parent_of_eight (icmp_type p) h, ap (parent_of beyond) t)
