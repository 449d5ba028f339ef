-- ===== src/NsCache/Transparent.antt =====
-- While the system's resolver answers alike, the cache changes no answer.
use aping.Base.{ℕ, Bool, true, false, Option, none, some, ◌≡◌, ◌⊎◌, inl, inr, refl, arith}
use aping.Base.{◌==◌, if◌then◌else◌, Bool-cases, Option-cases}
use aping.Base.Text.{Text, eq_of_text_eq, dotted_zero}
use aping.NsCache.{Cache, Resolver, failed, prolog}
use aping.NsCache.{
  cache_hostbyname, cache_hostbyaddr, insert_hostbyname, insert_hostbyaddr, name_miss,
}
use aping.NsCache.{
  name_slot, addr_slot, gethostbyname_cache, gethostbyaddr_cache, reverse_name, addr_miss,
  known_or_miss, safe_buffer,
}

module _ (r : Resolver) where
  -- The address of a name with no cache: the dotted form, or the host's, or -1.
  unfoldable pub resolve : Text → ℕ
  resolve h =
      if r.inet_addr h == failed
      then elim (r.host_address h) [ none ↦ failed | some a ↦ a ]
      else r.inet_addr h

  -- Every name in the table has its answer beside it.
  abbrev pub NamesAgree : Cache → Type 0
  NamesAgree c =
      (i : ℕ) (t : Text) → (c.hostbyname i).host ≡ some t → (c.hostbyname i).addr ≡ resolve t

  -- A hit returns the answer, and a miss is -1.
  hit-agrees :
      (c : Cache) (today : ℕ) (h : Text)
      → NamesAgree c
      → (cache_hostbyname c today (some h) ≡ failed)
        ⊎ (cache_hostbyname c today (some h) ≡ resolve h)
  unfolding cache_hostbyname
  hit-agrees c today h ok =
      let e = c.hostbyname (name_slot h) in
      elim (Option-cases e.host) [
        | inl n ↦ ground arith
        | inr (t, s) ↦ ground (arith, ok (name_slot h) t s, eq_of_text_eq h t)
      ]

  insert-NamesAgree :
      (c : Cache) (today : ℕ) (h : Text) (a : ℕ)
      → a ≡ resolve h
      → NamesAgree c
      → NamesAgree (insert_hostbyname h a today c)
  unfolding insert_hostbyname
  insert-NamesAgree c today h a e ok i t s = ground (arith, ok i t)

  name_miss-transparent :
      (today : ℕ) (h : Text) (c : Cache)
      → NamesAgree c
      → ((name_miss r today h c).0 ≡ resolve h) × NamesAgree (name_miss r today h c).1
  unfolding name_miss
  name_miss-transparent today h c ok = elim (Bool-cases (r.inet_addr h == failed)) [
    | inl e ↦ rw e (elim (Option-cases (r.host_address h)) [
      | inl n ↦ rw n (unfold resolve in ground arith, ok)
      | inr (a, s) ↦
          let eq : a ≡ resolve h = unfold resolve in ground arith in
          rw s (eq, insert-NamesAgree c today h a eq ok)
    ])
    | inr e ↦
        let eq : r.inet_addr h ≡ resolve h = unfold resolve in ground arith in
        rw e (eq, insert-NamesAgree c today h (r.inet_addr h) eq ok)
  ]

  -- If every name in the table has beside it the address that the resolver gives, then
  -- `gethostbyname_cache` returns what the resolver gives for the name, and the table still has
  -- that property.
  pub gethostbyname_cache-transparent :
      (today : ℕ) (h : Text) (c : Cache)
      → NamesAgree c
      → ((gethostbyname_cache r today (some h) c).0 ≡ resolve h)
        × NamesAgree (gethostbyname_cache r today (some h) c).1
  unfolding gethostbyname_cache
  gethostbyname_cache-transparent today h c ok =
      elim (Bool-cases (cache_hostbyname (prolog c) today (some h) == failed)) [
        | inl miss ↦ rw miss (name_miss-transparent today h (prolog c) ok)
        | inr hit ↦ rw hit (ground (arith, hit-agrees (prolog c) today h ok), ok)
      ]

-- The text for an address with no cache.
abbrev pub reverse : Resolver → Bool → ℕ → Text
reverse r allow a = if a == 0 then dotted_zero else reverse_name r allow a

-- Every address in the table has its name beside it; 0 stands in the entries without a name.
pub record AddressesAgree (r : Resolver) (c : Cache) : Type 0 where
  pub named :
      (i : ℕ) (t : Text)
      → (c.hostbyaddr i).host ≡ some t
      → t ≡ reverse_name r c.allow_reverse (c.hostbyaddr i).addr
  pub blank : (i : ℕ) → (c.hostbyaddr i).host ≡ none → (c.hostbyaddr i).addr ≡ 0

module _ (r : Resolver) (today : ℕ) where
  cache_hostbyaddr-named :
      (c : Cache) (a : ℕ) (t : Text)
      → AddressesAgree r c
      → cache_hostbyaddr c today a ≡ some t
      → t ≡ reverse_name r c.allow_reverse a
  unfolding cache_hostbyaddr
  cache_hostbyaddr-named c a t ok e = ground (arith, ok.named (addr_slot a) t)

  insert-AddressesAgree :
      (c : Cache) (a : ℕ)
      → AddressesAgree r c
      → AddressesAgree r (insert_hostbyaddr (reverse_name r c.allow_reverse a) a today c)
  unfolding insert_hostbyaddr
  insert-AddressesAgree c a ok = record {
    named = λ i t e. ground (arith, ok.named i t);
    blank = λ i e. ground (arith, ok.blank i);
  }

  -- What a call must do: the returned buffer holds the text, and the table stays right.
  abbrev pub Answers : Text → ℕ × Cache → Type 0
  Answers t x = (x.1.buffers x.0 ≡ some t) × AddressesAgree r x.1

  safe_buffer-Answers : (t : Text) (c : Cache) → AddressesAgree r c → Answers t (safe_buffer t c)
  unfolding safe_buffer
  safe_buffer-Answers t c ok = (ground arith, record { named = ok.named; blank = ok.blank })

  addr_miss-Answers :
      (a : ℕ) (c : Cache)
      → AddressesAgree r c
      → Answers (reverse_name r c.allow_reverse a) (addr_miss r today a c)
  unfolding addr_miss
  addr_miss-Answers a c ok =
      safe_buffer-Answers (reverse_name r c.allow_reverse a)
        (insert_hostbyaddr (reverse_name r c.allow_reverse a) a today c)
        (insert-AddressesAgree c a ok)

  known_or_miss-Answers :
      (allow : Bool) (hit : Option Text) (a : ℕ) (c : Cache)
      → AddressesAgree r c
      → ((t : Text) → hit ≡ some t → t ≡ reverse_name r c.allow_reverse a)
      → Answers (reverse_name r c.allow_reverse a) (known_or_miss r today allow hit a c)
  unfolding known_or_miss
  known_or_miss-Answers true (some t) a c ok h = rw (← h t refl) (safe_buffer-Answers t c ok)
  known_or_miss-Answers true none a c ok h = addr_miss-Answers a c ok
  known_or_miss-Answers false hit a c ok h = addr_miss-Answers a c ok

  -- If every address in the table has beside it the text that the resolver gives under the
  -- current `allow_reverse`, and entries without a name hold the address 0, then the buffer
  -- that `gethostbyaddr_cache` returns holds that text of its argument, and the table still has
  -- the property.
  pub gethostbyaddr_cache-transparent :
      (a : ℕ) (c : Cache)
      → AddressesAgree r c
      → Answers (reverse r c.allow_reverse a) (gethostbyaddr_cache r today a c)
  unfolding gethostbyaddr_cache
  gethostbyaddr_cache-transparent a c ok =
      let ok' : AddressesAgree r (prolog c) = record { named = ok.named; blank = ok.blank } in
      let hit = cache_hostbyaddr (prolog c) today a in
      pick (a == 0) _ _ _ _ (safe_buffer-Answers dotted_zero (prolog c) ok') (
        known_or_miss-Answers c.allow_reverse hit a (prolog c) ok'
          (λ t. cache_hostbyaddr-named (prolog c) a t ok'))
    where
      pick :
          (b : Bool) (s t : Text) (x y : ℕ × Cache)
          → Answers s x
          → Answers t y
          → Answers (if b then s else t) (if b then x else y)
      pick true s t x y h k = h
      pick false s t x y h k = k
