-- ===== src/Main/Consistent.antt =====
-- The tests of the options in `main` of aping.c.
use aping.Base.{Bool, true, false, not, ◌&&◌, ◌≡◌, refl, ◌∙◌}
use aping.Base.Outcome.{ok, ◌>>◌, bind_ok}
use aping.State.{Options}
use aping.Main.Setup.{check_options, atomic_test, depend_test}

-- No two options exclude each other, and none lacks the option that it requires.
pub record Consistent (o : Options) : Type 0 where
  pub sniff_src : o.sniff && o.ip_src ≡ false
  pub rand_incr : o.ip_id_rand && o.ip_id_incr ≡ false
  pub sniff_ifname : o.sniff && not o.ifname ≡ false
  pub src_ifname : o.ip_src && not o.ifname ≡ false

atomic_test_ok : (a b : Bool) → atomic_test a b ≡ ok tt → a && b ≡ false
unfolding atomic_test
atomic_test_ok true true h = cc
atomic_test_ok true false h = refl
atomic_test_ok false b h = refl

depend_test_ok : (a b : Bool) → depend_test a b ≡ ok tt → a && not b ≡ false
unfolding depend_test
depend_test_ok true true h = refl
depend_test_ok true false h = cc
depend_test_ok false b h = refl

check_options-eq :
    (o : Options)
    → (atomic_test o.sniff o.ip_src
        >> (atomic_test o.sniff o.ip_dst
            >> (atomic_test o.ip_id_rand o.ip_id_incr
                >> (depend_test o.sniff o.ifname >> depend_test o.ip_src o.ifname))))
      ≡ check_options o
unfolding check_options
check_options-eq o = refl

pub check_options-Consistent : (o : Options) → check_options o ≡ ok tt → Consistent o
check_options-Consistent o h =
    let (u1, e1, h1) = bind_ok (atomic_test o.sniff o.ip_src) _ tt (check_options-eq o ∙ h) in
    let (u2, e2, h2) = bind_ok (atomic_test o.sniff o.ip_dst) _ tt h1 in
    let (u3, e3, h3) = bind_ok (atomic_test o.ip_id_rand o.ip_id_incr) _ tt h2 in
    let (u4, e4, h4) = bind_ok (depend_test o.sniff o.ifname) _ tt h3 in
    record {
      sniff_src = atomic_test_ok o.sniff o.ip_src e1;
      rand_incr = atomic_test_ok o.ip_id_rand o.ip_id_incr e3;
      sniff_ifname = depend_test_ok o.sniff o.ifname e4;
      src_ifname = depend_test_ok o.ip_src o.ifname h4;
    }
