-- ===== src/Screen/Kept.antt =====
-- A text in the ring of ns-cache.c while the receiver looks up others: `k` texts have been returned since
-- buffer `b` was filled with `t`.
use aping.Base.{
  ℕ, ◌+◌, ◌%◌, ◌^◌, ◌<◌, Bool, true, false, Option, none, some, ◌==◌, if◌then◌else◌, ◌≡◌, ◌≢◌, refl,
  arith,
}
use aping.Base.Bits.{bit_and_mask}
use aping.Base.Text.{Text, dotted_zero}
use aping.NsCache.{
  Cache, Resolver, prolog, buffer_of, safe_buffer, cache_hostbyaddr, insert_hostbyaddr, addr_miss,
  known_or_miss, gethostbyaddr_cache, safe_inet_ntoa,
}
use aping.NsCache.Transparent.{AddressesAgree, reverse, gethostbyaddr_cache-transparent}

pub record IsKept (b : ℕ) (t : Text) (k : ℕ) (allow : Bool) (c : Cache) : Type 0 where
  pub place : (b + k) % 256 ≡ c.index % 256
  pub buffer : b < 256
  pub text : c.buffers b ≡ some t
  pub allows : c.allow_reverse ≡ allow

-- The buffer that a call has just filled.
record IsFresh (allow : Bool) (x : ℕ × Cache) : Type 0 where
  pub place : (x.0 + 0) % 256 ≡ x.1.index % 256
  pub buffer : x.0 < 256
  pub allows : x.1.allow_reverse ≡ allow

either : (P : ℕ × Cache → Type 0) (z : Bool) (x y : ℕ × Cache) → P x → P y → P (if z then x else y)
either P true x y p q = p
either P false x y p q = q

module _ {b : ℕ} {t : Text} {k : ℕ} {allow : Bool} where
  safe_buffer-IsKept :
      (u : Text) (c : Cache)
      → k < 255
      → IsKept b t k allow c
      → IsKept b t (k + 1) allow (safe_buffer u c).1
  unfolding safe_buffer
  safe_buffer-IsKept u c h kept =
      let i = (c.index + 1) % 2 ^ 32 in
      let e : buffer_of i ≡ i % 256 = bit_and_mask 8 i in
      let next : (b + (k + 1)) % 256 ≡ i % 256 = omega (arith, kept.place) in
      let other : buffer_of i ≢ b =
        λ q. absurd (omega (arith, e, q, next, kept.place, kept.buffer, h)) in
      record {
        place = next;
        buffer = kept.buffer;
        text = ground (arith, kept.text);
        allows = kept.allows;
      }

  module _ (r : Resolver) (today : ℕ) where
    known_or_miss-IsKept :
        (may : Bool) (hit : Option Text) (a : ℕ) (c : Cache)
        → k < 255
        → IsKept b t k allow c
        → IsKept b t (k + 1) allow (known_or_miss r today may hit a c).1
    unfolding known_or_miss addr_miss insert_hostbyaddr
    known_or_miss-IsKept true (some u) a c h kept = safe_buffer-IsKept u c h kept
    known_or_miss-IsKept true none a c h kept = safe_buffer-IsKept _ _ h (record {
      place = kept.place;
      buffer = kept.buffer;
      text = kept.text;
      allows = kept.allows;
    })
    known_or_miss-IsKept false hit a c h kept = safe_buffer-IsKept _ _ h (record {
      place = kept.place;
      buffer = kept.buffer;
      text = kept.text;
      allows = kept.allows;
    })

    locked : (c : Cache) → IsKept b t k allow c → IsKept b t k allow (prolog c)
    locked c kept = record {
      place = kept.place;
      buffer = kept.buffer;
      text = kept.text;
      allows = kept.allows;
    }

    gethostbyaddr_cache-IsKept :
        (a : ℕ) (c : Cache)
        → k < 255
        → IsKept b t k allow c
        → IsKept b t (k + 1) allow (gethostbyaddr_cache r today a c).1
    unfolding gethostbyaddr_cache
    gethostbyaddr_cache-IsKept a c h kept =
        either (λ x. IsKept b t (k + 1) allow x.1) (a == 0) _ _
          (safe_buffer-IsKept dotted_zero (prolog c) h (locked c kept))
          (known_or_miss-IsKept c.allow_reverse (cache_hostbyaddr (prolog c) today a) a (prolog c) h
            (locked c kept))

    safe_inet_ntoa-IsKept :
        (a : ℕ) (c : Cache)
        → k < 255
        → IsKept b t k allow c
        → IsKept b t (k + 1) allow (safe_inet_ntoa r today a c).1
    unfolding safe_inet_ntoa
    safe_inet_ntoa-IsKept a c h kept =
        safe_buffer-IsKept (r.inet_ntoa a) (prolog c) h (locked c kept)

safe_buffer-IsFresh : (u : Text) (c : Cache) → IsFresh c.allow_reverse (safe_buffer u c)
unfolding safe_buffer
safe_buffer-IsFresh u c =
    let i = (c.index + 1) % 2 ^ 32 in
    let e : buffer_of i ≡ i % 256 = bit_and_mask 8 i in
    record { place = omega (arith, e); buffer = omega (arith, e); allows = refl }

module _ (r : Resolver) (today : ℕ) where
  known_or_miss-IsFresh :
      (may : Bool) (hit : Option Text) (a : ℕ) (c : Cache)
      → IsFresh c.allow_reverse (known_or_miss r today may hit a c)
  unfolding known_or_miss addr_miss insert_hostbyaddr
  known_or_miss-IsFresh true (some u) a c = safe_buffer-IsFresh u c
  known_or_miss-IsFresh true none a c = safe_buffer-IsFresh _ _
  known_or_miss-IsFresh false hit a c = safe_buffer-IsFresh _ _

  gethostbyaddr_cache-IsFresh :
      (a : ℕ) (c : Cache) → IsFresh c.allow_reverse (gethostbyaddr_cache r today a c)
  unfolding gethostbyaddr_cache
  gethostbyaddr_cache-IsFresh a c =
      either (IsFresh c.allow_reverse) (a == 0) _ _ (safe_buffer-IsFresh dotted_zero (prolog c))
        (known_or_miss-IsFresh c.allow_reverse (cache_hostbyaddr (prolog c) today a) a (prolog c))

-- The table is right too.
pub record IsSteady (r : Resolver) (b : ℕ) (t : Text) (k : ℕ) (allow : Bool) (c : Cache)
    : Type 0 where
  pub kept : IsKept b t k allow c
  pub agree : AddressesAgree r c

module _ (r : Resolver) (today : ℕ) {b : ℕ} {t : Text} {k : ℕ} {allow : Bool} where
  pub gethostbyaddr_cache-IsSteady :
      (a : ℕ) (c : Cache)
      → k < 255
      → IsSteady r b t k allow c
      → IsSteady r b t (k + 1) allow (gethostbyaddr_cache r today a c).1
  gethostbyaddr_cache-IsSteady a c h s = record {
    kept = gethostbyaddr_cache-IsKept r today a c h s.kept;
    agree = (gethostbyaddr_cache-transparent r today a c s.agree).1;
  }

  pub safe_inet_ntoa-IsSteady :
      (a : ℕ) (c : Cache)
      → k < 255
      → IsSteady r b t k allow c
      → IsSteady r b t (k + 1) allow (safe_inet_ntoa r today a c).1
  safe_inet_ntoa-IsSteady a c h s = record {
    kept = safe_inet_ntoa-IsKept r today a c h s.kept;
    agree =
        unfold safe_inet_ntoa safe_buffer in
        record { named = s.agree.named; blank = s.agree.blank };
  }

-- The name of an address has just been looked up.
pub gethostbyaddr_cache_fresh :
    (r : Resolver) (today a : ℕ) (c : Cache)
    → AddressesAgree r c
    → let x = gethostbyaddr_cache r today a c in
      IsSteady r x.0 (reverse r c.allow_reverse a) 0 c.allow_reverse x.1
gethostbyaddr_cache_fresh r today a c ok =
    let f = gethostbyaddr_cache-IsFresh r today a c in
    let (text, agree) = gethostbyaddr_cache-transparent r today a c ok in
    record {
      kept = record { place = f.place; buffer = f.buffer; text = text; allows = f.allows };
      agree = agree;
    }
