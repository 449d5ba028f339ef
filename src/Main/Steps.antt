-- ===== src/Main/Steps.antt =====
-- What each step of `main` of aping.c leaves alone and ensures, from the tests of the options on.
use mathlib.Core.Path.{subst}
use aping.Base.{
  ℕ, List, [], ◌∷◌, Bool, true, false, not, ◌&&◌, Option, none, some, ◌==◌, if◌then◌else◌, ◌≡◌,
  refl, sym, ap, ◌∙◌, ◌⊎◌, inl, inr, Bool-cases, arith,
}
use aping.Base.Text.{Text}
use aping.Base.Outcome.{ok, fatal, Fault, ◌>>=◌, bind_ok}
use aping.NsCache.{Cache, Resolver, gethostbyname_cache, failed}
use aping.NsCache.Transparent.{NamesAgree, resolve, gethostbyname_cache-transparent}
use aping.Iface.{get_first_hop, gethostbyif}
use aping.Main.{Setting, set_globals}
use aping.Main.Setup.{World, host_of, resolve_source, resolve_destination, choose_source}

-- The resolver leaves `allow_reverse` alone.
gethostbyname_cache-allow_reverse :
    (r : Resolver) (today : ℕ) (h : Option Text) (c : Cache)
    → (gethostbyname_cache r today h c).1.allow_reverse ≡ c.allow_reverse
unfolding gethostbyname_cache
gethostbyname_cache-allow_reverse r today none c = refl
gethostbyname_cache-allow_reverse r today (some h) c = ground arith

-- What the resolver gives for a host.
abbrev pub address_of : Resolver → Option Text → ℕ
address_of r none = failed
address_of r (some h) = resolve r h

gethostbyname_cache-address_of :
    (r : Resolver) (today : ℕ) (h : Option Text) (c : Cache)
    → NamesAgree r c
    → ((gethostbyname_cache r today h c).0 ≡ address_of r h)
      × NamesAgree r (gethostbyname_cache r today h c).1
unfolding gethostbyname_cache
gethostbyname_cache-address_of r today none c agree = (refl, agree)
gethostbyname_cache-address_of r today (some h) c agree =
    gethostbyname_cache-transparent r today h c agree

-- What `host_of` returns with a result.
record Hosted (w : World) (host : Option Text) (s : Setting) (p : ℕ × Setting) : Type 0 where
  good : (p.0 == failed) ≡ false
  answer : gethostbyname_cache w.resolver w.today host s.cache ≡ (p.0, p.1.cache)
  kept : p.1 ≡ record s { cache = p.1.cache }

passed {ℓ} :
    {A : Type ℓ} (b : Bool) (e : Fault) (x y : A)
    → (if b then fatal e else ok x) ≡ ok y
    → (b ≡ false) × (x ≡ y)
passed true e x y h = cc
passed false e x y h = (refl, cc)

host_of-Hosted :
    (w : World) (host : Option Text) (e : Fault) (s : Setting) (p : ℕ × Setting)
    → host_of w host e s ≡ ok p
    → Hosted w host s p
unfolding host_of
host_of-Hosted w host e s p h =
    let q = gethostbyname_cache w.resolver w.today host s.cache in
    let (f, e) = passed (q.0 == failed) e (q.0, record s { cache = q.1 }) p h in
    subst (Hosted w host s) e (record { good = f; answer = refl; kept = refl })

-- The fields that a step leaves alone.
pub record Kept (s s' : Setting) : Type 0 where
  pub options : s'.globals.options ≡ s.globals.options
  pub reverse : s'.cache.allow_reverse ≡ s.cache.allow_reverse
  pub source_name : s'.host_src ≡ s.host_src

Kept-refl : (s : Setting) → Kept s s
Kept-refl s = record { options = refl; reverse = refl; source_name = refl }

pub Kept-trans : (a b c : Setting) → Kept a b → Kept b c → Kept a c
Kept-trans a b c h k = record {
  options = k.options ∙ h.options;
  reverse = k.reverse ∙ h.reverse;
  source_name = k.source_name ∙ h.source_name;
}

Hosted-reverse :
    (w : World) (host : Option Text) (s : Setting) (p : ℕ × Setting)
    → Hosted w host s p
    → p.1.cache.allow_reverse ≡ s.cache.allow_reverse
Hosted-reverse w host s p h =
    sym (ap (λ q. q.1.allow_reverse) h.answer)
    ∙ gethostbyname_cache-allow_reverse w.resolver w.today host s.cache

Hosted-address_of :
    (w : World) (host : Option Text) (s : Setting) (p : ℕ × Setting)
    → Hosted w host s p
    → NamesAgree w.resolver s.cache
    → (p.0 ≡ address_of w.resolver host) × NamesAgree w.resolver p.1.cache
Hosted-address_of w host s p h agree =
    let (e, agree') = gethostbyname_cache-address_of w.resolver w.today host s.cache agree in
    (sym (ap (λ q. q.0) h.answer) ∙ e, subst (λ q. NamesAgree w.resolver q.1) h.answer agree')

ok_eq {ℓ} : {A : Type ℓ} {a b : A} → ok a ≡ ok b → a ≡ b
ok_eq h = cc

and_false : (b : Bool) → b && false ≡ false
and_false true = refl
and_false false = refl

module _ (w : World) where
  source_given :
      (s : Setting)
      → s.globals.options.ip_src ≡ true
      → resolve_source w s ≡ (
          host_of w s.host_src Fault.bad_source s >>= λ p.
          ok (set_globals (λ g. record g { ip_src = p.0 }) p.1))
  unfolding resolve_source
  source_given s h = rw h refl

  source_absent : (s : Setting) → s.globals.options.ip_src ≡ false → resolve_source w s ≡ ok s
  unfolding resolve_source
  source_absent s h = rw h refl

  -- After the source: where it was given, it is the address of its host.
  abbrev Sourced : Setting → Setting → Type 0
  Sourced s x =
      Kept s x
      × (x.globals.options.ip_src && (x.globals.ip_src == failed) ≡ false)
      × NamesAgree w.resolver x.cache
      × ((s.globals.options.ip_src ≡ false) ⊎ (x.globals.ip_src ≡ address_of w.resolver s.host_src))

  pub resolve_source-ok :
      (s s1 : Setting) → NamesAgree w.resolver s.cache → resolve_source w s ≡ ok s1 → Sourced s s1
  resolve_source-ok s s1 agree h = elim (Bool-cases s.globals.options.ip_src) [
    | inl t ↦
        let (p, e, h1) =
          bind_ok (host_of w s.host_src Fault.bad_source s) _ s1 (sym (source_given s t) ∙ h) in
        let q = host_of-Hosted w s.host_src Fault.bad_source s p e in
        let (address, agree') = Hosted-address_of w s.host_src s p q agree in
        subst (Sourced s) (ok_eq h1) (
          record {
            options = ap (λ x. x.globals.options) q.kept;
            reverse = Hosted-reverse w s.host_src s p q;
            source_name = ap (λ x. x.host_src) q.kept;
          },
          rw q.good (and_false p.1.globals.options.ip_src),
          agree',
          inr address,
        )
    | inr f ↦
        subst (Sourced s) (ok_eq (sym (source_absent s f) ∙ h))
          (Kept-refl s, rw f refl, agree, inl f)
  ]

  -- The destination is the address of the first argument, if there is one.
  abbrev pub IsTarget : List Text → ℕ → Type 0
  IsTarget [] a = Unit
  IsTarget (host ∷ argv) a = a ≡ address_of w.resolver (some host)

  -- After the destination: it is an address, unless the run sniffs; the source stays.
  abbrev Reaches : List Text → Setting → Setting → Type 0
  Reaches argv s x =
      Kept s x
      × (x.globals.ip_src ≡ s.globals.ip_src)
      × (not x.globals.options.sniff && (x.globals.ip_dst == failed) ≡ false)
      × IsTarget argv x.globals.ip_dst

  no_host : (s : Setting) → s.globals.options.sniff ≡ true → resolve_destination w [] s ≡ ok s
  unfolding resolve_destination
  no_host s h = rw h refl

  no_host_no_sniff :
      (s : Setting)
      → s.globals.options.sniff ≡ false
      → resolve_destination w [] s ≡ fatal Fault.no_destination
  unfolding resolve_destination
  no_host_no_sniff s h = rw h refl

  host_given :
      (host : Text) (argv : List Text) (s : Setting)
      → resolve_destination w (host ∷ argv) s ≡ (
          host_of w (some host) Fault.bad_host s >>= λ p.
          ok (set_globals (λ g. record g { ip_dst = p.0 }) p.1))
  unfolding resolve_destination
  host_given host argv s = refl

  pub resolve_destination-ok :
      (argv : List Text) (s s1 : Setting)
      → NamesAgree w.resolver s.cache
      → resolve_destination w argv s ≡ ok s1
      → Reaches argv s s1
  resolve_destination-ok [] s s1 agree h = elim (Bool-cases s.globals.options.sniff) [
    | inl t ↦
        subst (Reaches [] s) (ok_eq (sym (no_host s t) ∙ h)) (Kept-refl s, refl, rw t refl, tt)
    | inr f ↦ let e = sym (no_host_no_sniff s f) ∙ h in cc
  ]
  resolve_destination-ok (host ∷ argv) s s1 agree h =
      let (p, e, h1) =
        bind_ok (host_of w (some host) Fault.bad_host s) _ s1 (sym (host_given host argv s) ∙ h) in
      let q = host_of-Hosted w (some host) Fault.bad_host s p e in
      subst (Reaches (host ∷ argv) s) (ok_eq h1) (
        record {
          options = ap (λ x. x.globals.options) q.kept;
          reverse = Hosted-reverse w (some host) s p q;
          source_name = ap (λ x. x.host_src) q.kept;
        },
        ap (λ x. x.globals.ip_src) q.kept,
        rw q.good (and_false (not p.1.globals.options.sniff)),
        (Hosted-address_of w (some host) s p q agree).0,
      )

  -- The source that `choose_source` takes: the address of the host of `-S`, that of the interface of `-e`,
  -- or that of the first hop, with its interface.
  abbrev pub Chosen : Setting → Type 0
  Chosen x =
      ((x.globals.options.ip_src ≡ true) × (x.globals.ip_src ≡ address_of w.resolver x.host_src))
      ⊎ (((x.globals.options.ifname ≡ true) × (gethostbyif w.system x.ifname ≡ ok x.globals.ip_src))
          ⊎ (get_first_hop w.system x.globals.ip_dst ≡ ok (x.globals.ip_src, x.ifname)))

  abbrev Chooses : Setting → Setting → Type 0
  Chooses s x =
      Kept s x
      × (x.globals.ip_dst ≡ s.globals.ip_dst)
      × Chosen x
      × ((s.globals.options.ip_src ≡ false) ⊎ (x.globals.ip_src ≡ s.globals.ip_src))

  chosen_given : (s : Setting) → s.globals.options.ip_src ≡ true → choose_source w s ≡ ok s
  unfolding choose_source
  chosen_given s h = rw h refl

  chosen_device :
      (s : Setting)
      → s.globals.options.ip_src ≡ false
      → s.globals.options.ifname ≡ true
      → choose_source w s
        ≡ (gethostbyif w.system s.ifname >>= λ a. ok (set_globals (λ g. record g { ip_src = a }) s))
  unfolding choose_source
  chosen_device s h k = rw (h, k) refl

  chosen_hop :
      (s : Setting)
      → s.globals.options.ip_src ≡ false
      → s.globals.options.ifname ≡ false
      → choose_source w s ≡ (
          get_first_hop w.system s.globals.ip_dst >>= λ p.
          ok (record (set_globals (λ g. record g { ip_src = p.0 }) s) { ifname = p.1 }))
  unfolding choose_source
  chosen_hop s h k = rw (h, k) refl

  pub choose_source-ok :
      (s s1 : Setting)
      → (s.globals.options.ip_src ≡ false) ⊎ (s.globals.ip_src ≡ address_of w.resolver s.host_src)
      → choose_source w s ≡ ok s1
      → Chooses s s1
  choose_source-ok s s1 from h = elim (Bool-cases s.globals.options.ip_src) [
    | inl t ↦
        subst (Chooses s) (ok_eq (sym (chosen_given s t) ∙ h))
          (Kept-refl s, refl, inl (t, given t from), inr refl)
    | inr f ↦ elim (Bool-cases s.globals.options.ifname) [
      | inl t ↦
          let (a, e, h1) =
            bind_ok (gethostbyif w.system s.ifname) _ s1 (sym (chosen_device s f t) ∙ h) in
          subst (Chooses s) (ok_eq h1) (
            record { options = refl; reverse = refl; source_name = refl },
            refl,
            inr (inl (t, e)),
            inl f,
          )
      | inr t ↦
          let (p, e, h1) =
            bind_ok (get_first_hop w.system s.globals.ip_dst) _ s1 (sym (chosen_hop s f t) ∙ h) in
          subst (Chooses s) (ok_eq h1) (
            record { options = refl; reverse = refl; source_name = refl },
            refl,
            inr (inr e),
            inl f,
          )
    ]
  ]
    where
      given : {b : Bool} {A : Type 0} → b ≡ true → (b ≡ false) ⊎ A → A
      given t (inl f) = absurd (different (sym t ∙ f))
        where
          different : ◌≡◌ {A = Bool} true false → ⊥
          different e = cc
      given t (inr a) = a
