-- ===== src/NsCache/Lock.antt =====
-- The mutex of ns-cache.c: each public function locks it once and unlocks it once, on each path.
use aping.Base.{ℕ, Option, none, some, ◌≡◌, arith}
use aping.Base.Int.{pos, +ℤ_cancel}
use aping.Base.Text.{Text}
use aping.NsCache.{Cache, Resolver, gethostbyname_cache, gethostbyaddr_cache, safe_inet_ntoa}

module _ (r : Resolver) (today : ℕ) where
  gethostbyname_cache-held :
      (h : Option Text) (c : Cache) → (gethostbyname_cache r today h c).1.held ≡ c.held
  unfolding gethostbyname_cache
  gethostbyname_cache-held none c = +ℤ_cancel c.held (pos 1)
  gethostbyname_cache-held (some h) c = ground (arith, +ℤ_cancel c.held (pos 1))

  gethostbyaddr_cache-held : (a : ℕ) (c : Cache) → (gethostbyaddr_cache r today a c).1.held ≡ c.held
  unfolding gethostbyaddr_cache
  gethostbyaddr_cache-held a c = ground (arith, +ℤ_cancel c.held (pos 1))

  safe_inet_ntoa-held : (a : ℕ) (c : Cache) → (safe_inet_ntoa r today a c).1.held ≡ c.held
  unfolding safe_inet_ntoa
  safe_inet_ntoa-held a c = +ℤ_cancel c.held (pos 1)

  -- `gethostbyname_cache`, `gethostbyaddr_cache` and `safe_inet_ntoa` unlock the mutex as often
  -- as they lock it, on every path.
  pub calls-held :
      (h : Option Text) (a : ℕ) (c : Cache)
      → ((gethostbyname_cache r today h c).1.held ≡ c.held)
        × ((gethostbyaddr_cache r today a c).1.held ≡ c.held)
        × ((safe_inet_ntoa r today a c).1.held ≡ c.held)
  calls-held h a c =
      (gethostbyname_cache-held h c, gethostbyaddr_cache-held a c, safe_inet_ntoa-held a c)
