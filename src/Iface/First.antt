-- ===== src/Iface/First.antt =====
-- The interface that the loops of iface.c find.
use mathlib.Core.Path.{subst}
use aping.Base.{
  ℕ, List, [], ◌∷◌, Bool, true, false, Option, none, some, take, ◌==◌, if◌then◌else◌, ◌≡◌, ◌↔◌, ◌⊎◌,
  inl, inr, refl, sym, ◌∙◌, Bool-cases, Option-cases,
}
use aping.Base.Text.{Text}
use aping.Base.Outcome.{ok, fatal, Fault, bind_ok}
use aping.Iface.{
  Interface, System, scan, before_colon, get_or_fatal, has_address, no_skip, get_first_hop,
}

-- What the loop goes past.
abbrev Passed : (Interface → Bool) → (Interface → Bool) → Interface → Type 0
Passed skip want i =
    (skip i ≡ true) ⊎ ((i.up ≡ some false) ⊎ ((i.up ≡ some true) × (want i ≡ false)))

-- The first interface that is up and wanted, all before it having been passed.
pub data FirstOf (skip want : Interface → Bool) : List Interface → Interface → Type 0 where
  here :
      {i : Interface} {is : List Interface}
      → skip i ≡ false
      → i.up ≡ some true
      → want i ≡ true
      → FirstOf skip want (i ∷ is) i
  later :
      {i j : Interface} {is : List Interface}
      → Passed skip want i
      → FirstOf skip want is j
      → FirstOf skip want (i ∷ is) j

module _ (skip want : Interface → Bool) where
  scan_skipped :
      (i : Interface) (is : List Interface)
      → skip i ≡ true
      → scan skip want (i ∷ is) ≡ scan skip want is
  unfolding scan
  scan_skipped i is s = rw s refl

  scan_down :
      (i : Interface) (is : List Interface)
      → skip i ≡ false
      → i.up ≡ some false
      → scan skip want (i ∷ is) ≡ scan skip want is
  unfolding scan
  scan_down i is s u = rw (s, u) refl

  scan_unwanted :
      (i : Interface) (is : List Interface)
      → skip i ≡ false
      → i.up ≡ some true
      → want i ≡ false
      → scan skip want (i ∷ is) ≡ scan skip want is
  unfolding scan
  scan_unwanted i is s u w = rw (s, u, w) refl

  scan_wanted :
      (i : Interface) (is : List Interface)
      → skip i ≡ false
      → i.up ≡ some true
      → want i ≡ true
      → scan skip want (i ∷ is) ≡ ok i
  unfolding scan
  scan_wanted i is s u w = simp (s, u, w)

  scan_failed :
      (i : Interface) (is : List Interface)
      → skip i ≡ false
      → i.up ≡ none
      → scan skip want (i ∷ is) ≡ fatal Fault.ioctl_failed
  unfolding scan
  scan_failed i is s u = rw (s, u) refl

  scan-Passed :
      (i : Interface) (is : List Interface)
      → Passed skip want i
      → scan skip want (i ∷ is) ≡ scan skip want is
  scan-Passed i is p = elim (Bool-cases (skip i)) [
    | inl s ↦ scan_skipped i is s
    | inr s ↦ elim p [
      | inl t ↦ cc
      | inr (inl u) ↦ scan_down i is s u
      | inr (inr (u, w)) ↦ scan_unwanted i is s u w
    ]
  ]

  FirstOf-scan :
      {is : List Interface} {j : Interface} → FirstOf skip want is j → scan skip want is ≡ ok j
  FirstOf-scan (here s u w) = scan_wanted _ _ s u w
  FirstOf-scan (later p f) = scan-Passed _ _ p ∙ FirstOf-scan f

  ok_inj : {i j : Interface} → ok i ≡ ok j → i ≡ j
  ok_inj e = cc

  scan-FirstOf :
      (is : List Interface) (j : Interface) → scan skip want is ≡ ok j → FirstOf skip want is j
  unfolding scan
  scan-FirstOf [] j h = cc
  scan-FirstOf (i ∷ is) j h = elim (Bool-cases (skip i)) [
    | inl s ↦ later (inl s) (scan-FirstOf is j (sym (scan_skipped i is s) ∙ h))
    | inr s ↦ elim (Option-cases i.up) [
      | inl u ↦ let e = sym (scan_failed i is s u) ∙ h in cc
      | inr (true, u) ↦ elim (Bool-cases (want i)) [
        | inl w ↦
            subst (FirstOf skip want (i ∷ is)) (ok_inj (sym (scan_wanted i is s u w) ∙ h))
              (here s u w)
        | inr w ↦ later (inr (inr (u, w))) (scan-FirstOf is j (sym (scan_unwanted i is s u w) ∙ h))
      ]
      | inr (false, u) ↦ later (inr (inl u)) (scan-FirstOf is j (sym (scan_down i is s u) ∙ h))
    ]
  ]

-- What `get_first_hop` has found: the address `source` for the target, and the name of the first
-- interface that is up and has it, or that has the address of the loopback where the source is the
-- target itself.
pub record FirstHop (s : System) (target source : ℕ) (ifname : Text) : Type 0 where
  pub ifs : List Interface
  pub found : Interface
  pub local : s.local_name target ≡ some source
  pub conf : s.ifconf ≡ some ifs
  pub first :
      FirstOf no_skip (has_address (if source == target then s.loopback else source)) ifs found
  pub name : ifname ≡ before_colon (take 16 found.name)

found_some {ℓ} :
    {A : Type ℓ} (o : Option A) (e : Fault) (a : A) → get_or_fatal o e ≡ ok a → o ≡ some a
found_some none e a h = cc
found_some (some x) e a h = cc

pair_inj : {p q : ℕ × Text} → ok p ≡ ok q → (p.0 ≡ q.0) × (p.1 ≡ q.1)
pair_inj e = (cc, cc)

-- `get_first_hop` gives an address and a name if and only if the address is the local one for the
-- target, and the name, less its alias, that of the first interface that is up and has this
-- address, or the one of the loopback where the target is local, the flags of all before it being
-- known.
pub get_first_hop_iff :
    (s : System) (target source : ℕ) (ifname : Text)
    → (get_first_hop s target ≡ ok (source, ifname)) ↔ FirstHop s target source ifname
unfolding get_first_hop
get_first_hop_iff s target source ifname = (forth, back)
  where
    forth : get_first_hop s target ≡ ok (source, ifname) → FirstHop s target source ifname
    forth h =
        let (src, e1, h1) =
          bind_ok (get_or_fatal (s.local_name target) Fault.connect_failed) _ _ h in
        let (ifs, e2, h2) = bind_ok (get_or_fatal s.ifconf Fault.ioctl_failed) _ _ h1 in
        let (i, e3, h3) = bind_ok _ _ _ h2 in
        let (a, b) = pair_inj h3 in
        subst (λ x. FirstHop s target x ifname) a
          record {
            ifs = ifs;
            found = i;
            local = found_some (s.local_name target) Fault.connect_failed src e1;
            conf = found_some s.ifconf Fault.ioctl_failed ifs e2;
            first = scan-FirstOf no_skip _ ifs i e3;
            name = sym b;
          }

    back : FirstHop s target source ifname → get_first_hop s target ≡ ok (source, ifname)
    back f = rw (f.local, f.conf, FirstOf-scan no_skip _ f.first, f.name) refl
