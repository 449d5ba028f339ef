-- ===== src/NsCache/Ring.antt =====
-- The ring of 256 buffers behind the texts that the functions return.
use aping.Base.{ℕ, ◌+◌, ◌<◌, ◌%◌, ◌^◌, List, [], ◌∷◌, some, ◌≡◌, ◌≢◌, arith, length}
use aping.Base.Bits.{bit_and_mask}
use aping.Base.Text.{Text}
use aping.NsCache.{Cache, safe_buffer, buffer_of}

-- Later calls, in order.
unfoldable pub safe_buffers : List Text → Cache → Cache
safe_buffers [] c = c
safe_buffers (t ∷ ts) c = safe_buffers ts (safe_buffer t c).1

buffer_of-eq : (i : ℕ) → buffer_of i ≡ i % 256
buffer_of-eq i = bit_and_mask 8 i

-- `k` more texts have been returned since buffer `b` was filled.
survives :
    (ts : List Text) (c : Cache) (b : ℕ) (t : Text) (k : ℕ)
    → (b + k) % 256 ≡ c.index % 256
    → b < 256
    → k + length ts < 256
    → c.buffers b ≡ some t
    → (safe_buffers ts c).buffers b ≡ some t
unfolding safe_buffers safe_buffer
survives [] c b t k e h l s = s
survives (u ∷ us) c b t k e h l s =
    let i = (c.index + 1) % 2 ^ 32 in
    let next : (b + (k + 1)) % 256 ≡ i % 256 = omega arith in
    let other : buffer_of i ≢ b = λ q. absurd (omega (arith, buffer_of-eq i, q, next, e)) in
    survives us (safe_buffer u c).1 b t (k + 1) next h (omega arith) (ground arith)

-- A returned text stays in its buffer while fewer than 256 more texts are returned.
pub safe_buffer_survives :
    (t : Text) (ts : List Text) (c : Cache)
    → length ts < 256
    → let (b, c') = safe_buffer t c in (safe_buffers ts c').buffers b ≡ some t
unfolding safe_buffer
safe_buffer_survives t ts c h =
    let i = (c.index + 1) % 2 ^ 32 in
    survives ts (safe_buffer t c).1 (buffer_of i) t 0 (omega (arith, buffer_of-eq i))
      (omega (arith, buffer_of-eq i)) (omega arith) (ground arith)
