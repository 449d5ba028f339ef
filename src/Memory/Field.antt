-- ===== src/Memory/Field.antt =====
-- A word written into a buffer, seen from a list of the buffer's bytes, and what a write leaves alone.
use aping.Base.{ℕ, zero, suc, ◌+◌, ◌/◌, ◌%◌, ◌≤◌, ◌<◌, List, [], ◌∷◌, ◌++◌}
use aping.Base.{◌≡◌, ◌⊎◌, refl, ◌∙◌, ap, ap₂, arith, length}
use aping.Memory.{
  Memory, put8, put16, put32, put_bytes, bytes, write, Store, store8, store16, store32, store_bytes,
}
use aping.Chksum.{chksum}
use aping.Chksum.Sum.{Bytes}
use aping.Chksum.Verify.{with_field, chksum-lt, chksum-verifies}

length-bytes : (m : Memory) (at n : ℕ) → length (bytes m at n) ≡ n
length-bytes m at zero = refl
length-bytes m at (suc n) = ap suc (length-bytes m (at + 1) n)

-- Every cell holds a byte.
abbrev pub IsByteMemory : Memory → Type 0
IsByteMemory m = (i : ℕ) → m i < 256

Bytes-bytes : (m : Memory) (at n : ℕ) → IsByteMemory m → Bytes (bytes m at n)
Bytes-bytes m at zero h = tt
Bytes-bytes m at (suc n) h = (h at, Bytes-bytes m (at + 1) n h)

bytes-add : (m : Memory) (at a b : ℕ) → bytes m at (a + b) ≡ bytes m at a ++ bytes m (at + a) b
bytes-add m at zero b = ap₂ (bytes m) (omega arith) (omega arith)
bytes-add m at (suc a) b =
    let n : suc a + b ≡ suc (a + b) = omega arith in
    let e : at + 1 + a ≡ at + suc a = omega arith in
    ap (bytes m at) n
    ∙ ap (λ t. m at ∷ t) (bytes-add m (at + 1) a b)
    ∙ ap (λ t. m at ∷ bytes m (at + 1) a ++ bytes m t b) e

pub bytes_ext :
    (m m' : Memory) (at n : ℕ)
    → ((i : ℕ) → at ≤ i → i < at + n → m i ≡ m' i)
    → bytes m at n ≡ bytes m' at n
bytes_ext m m' at zero h = refl
bytes_ext m m' at (suc n) h =
    ap₂ ◌∷◌ (h at (omega arith) (omega arith))
      (bytes_ext m m' (at + 1) n (λ i a b. h i (omega arith) (omega arith)))

put16_outside : (m : Memory) (at v i : ℕ) → (i < at) ⊎ (at + 1 < i) → put16 m at v i ≡ m i
unfolding put16
put16_outside m at v i h = ground arith

put8-IsByteMemory : (m : Memory) (at v : ℕ) → IsByteMemory m → IsByteMemory (put8 m at v)
unfolding put8
put8-IsByteMemory m at v h i = ground (arith, h i)

put16-IsByteMemory : (m : Memory) (at v : ℕ) → IsByteMemory m → IsByteMemory (put16 m at v)
unfolding put16
put16-IsByteMemory m at v h i = ground (arith, h i)

put32-IsByteMemory : (m : Memory) (at v : ℕ) → IsByteMemory m → IsByteMemory (put32 m at v)
unfolding put32
put32-IsByteMemory m at v h i = ground (arith, h i)

put_bytes-IsByteMemory :
    (m : Memory) (at : ℕ) (bs : List ℕ) → IsByteMemory m → IsByteMemory (put_bytes m at bs)
unfolding put_bytes
put_bytes-IsByteMemory m at [] h = h
put_bytes-IsByteMemory m at (b ∷ bs) h =
    put_bytes-IsByteMemory (put8 m at b) (at + 1) bs (put8-IsByteMemory m at b h)

put16-low : (m : Memory) (at v : ℕ) → put16 m at v at ≡ v % 256
unfolding put16
put16-low m at v = ground arith

put16-high : (m : Memory) (at v : ℕ) → v < 65536 → put16 m at v (at + 1) ≡ v / 256
unfolding put16
put16-high m at v h = ground arith

pub write-IsByteMemory : (m : Memory) (ss : List Store) → IsByteMemory m → IsByteMemory (write m ss)
unfolding write
write-IsByteMemory m [] h = h
write-IsByteMemory m (store8 at v ∷ ss) h =
    write-IsByteMemory (put8 m at v) ss (put8-IsByteMemory m at v h)
write-IsByteMemory m (store16 at v ∷ ss) h =
    write-IsByteMemory (put16 m at v) ss (put16-IsByteMemory m at v h)
write-IsByteMemory m (store32 at v ∷ ss) h =
    write-IsByteMemory (put32 m at v) ss (put32-IsByteMemory m at v h)
write-IsByteMemory m (store_bytes at bs ∷ ss) h =
    write-IsByteMemory (put_bytes m at bs) ss (put_bytes-IsByteMemory m at bs h)

-- A word written at an even distance `d` into the `d + 2 + r` bytes from `at` on.
bytes-put16 :
    (m : Memory) (at d r v : ℕ)
    → v < 65536
    → bytes (put16 m (at + d) v) at (d + (2 + r))
      ≡ with_field (bytes m at d) v (bytes m (at + d + 2) r)
bytes-put16 m at d r v h =
    let m' = put16 m (at + d) v in
    bytes-add m' at d (2 + r)
    ∙ ap₂ ◌++◌ (bytes_ext m' m at d (λ i a b. put16_outside m (at + d) v i (omega arith))) (
        ap (bytes m' (at + d)) {x = 2 + r} {y = suc (suc r)} (omega arith)
        ∙ ap₂ ◌∷◌ (put16-low m (at + d) v) (
            ap₂ ◌∷◌ (put16-high m (at + d) v h) (
              ap (λ t. bytes m' t r) {x = at + d + 1 + 1} {y = at + d + 2} (omega arith)
              ∙ bytes_ext m' m (at + d + 2) r
                  (λ i a b. put16_outside m (at + d) v i (omega arith)))))

-- `sum = 0; sum = chksum (base, n);` with the field at distance `d` from `base`.
abbrev pub store_sum : Memory → ℕ → ℕ → ℕ → Memory
store_sum m base d n = let z = put16 m (base + d) 0 in put16 z (base + d) (chksum (bytes z base n))

pub store_sum-IsByteMemory :
    (m : Memory) (base d n : ℕ) → IsByteMemory m → IsByteMemory (store_sum m base d n)
store_sum-IsByteMemory m base d n h =
    let z = put16 m (base + d) 0 in
    put16-IsByteMemory z (base + d) (chksum (bytes z base n)) (put16-IsByteMemory m (base + d) 0 h)

pub store_sum-verifies :
    (m : Memory) (base d r : ℕ)
    → IsByteMemory m
    → d % 2 ≡ 0
    → d + (2 + r) < 65536
    → chksum (bytes (store_sum m base d (d + (2 + r))) base (d + (2 + r))) ≡ 0
store_sum-verifies m base d r h even short =
    let z = put16 m (base + d) 0 in
    let c = chksum (bytes z base (d + (2 + r))) in
    let before = bytes m base d in
    let after = bytes m (base + d + 2) r in
    let inner : bytes z base (d + (2 + r)) ≡ with_field before 0 after =
      bytes-put16 m base d r 0 (omega arith) in
    let keep_before : bytes z base d ≡ before =
      bytes_ext z m base d (λ i a b. put16_outside m (base + d) 0 i (omega arith)) in
    let keep_after : bytes z (base + d + 2) r ≡ after =
      bytes_ext z m (base + d + 2) r (λ i a b. put16_outside m (base + d) 0 i (omega arith)) in
    ap chksum (bytes-put16 z base d r c (chksum-lt (bytes z base (d + (2 + r)))))
    ∙ ap₂ (λ b a. chksum (with_field b c a)) keep_before keep_after
    ∙ ap (λ t. chksum (with_field before (chksum t) after)) inner
    ∙ chksum-verifies before after (omega (arith, length-bytes m base d)) (Bytes-bytes m base d h)
        (Bytes-bytes m (base + d + 2) r h)
        (omega (arith, length-bytes m base d, length-bytes m (base + d + 2) r))

-- Every store lies at or above `lo`.
abbrev pub StoresFrom : ℕ → List Store → Type 0
StoresFrom lo [] = Unit
StoresFrom lo (store8 at v ∷ ss) = (lo ≤ at) × StoresFrom lo ss
StoresFrom lo (store16 at v ∷ ss) = (lo ≤ at) × StoresFrom lo ss
StoresFrom lo (store32 at v ∷ ss) = (lo ≤ at) × StoresFrom lo ss
StoresFrom lo (store_bytes at bs ∷ ss) = (lo ≤ at) × StoresFrom lo ss

put_bytes_below : (m : Memory) (at : ℕ) (bs : List ℕ) (i : ℕ) → i < at → put_bytes m at bs i ≡ m i
unfolding put_bytes put8
put_bytes_below m at [] i h = refl
put_bytes_below m at (b ∷ bs) i h =
    ground (arith, put_bytes_below (put8 m at b) (at + 1) bs i (omega arith))

put32_below : (m : Memory) (at v i : ℕ) → i < at → put32 m at v i ≡ m i
unfolding put32
put32_below m at v i h = ground arith

put8_below : (m : Memory) (at v i : ℕ) → i < at → put8 m at v i ≡ m i
unfolding put8
put8_below m at v i h = ground arith

-- Stores from `lo` on leave the bytes below alone.
pub write_below :
    (m : Memory) (ss : List Store) (lo i : ℕ) → StoresFrom lo ss → i < lo → write m ss i ≡ m i
unfolding write
write_below m [] lo i h k = refl
write_below m (store8 at v ∷ ss) lo i h k =
    write_below (put8 m at v) ss lo i h.1 k ∙ put8_below m at v i (omega arith)
write_below m (store16 at v ∷ ss) lo i h k =
    write_below (put16 m at v) ss lo i h.1 k ∙ put16_outside m at v i (omega arith)
write_below m (store32 at v ∷ ss) lo i h k =
    write_below (put32 m at v) ss lo i h.1 k ∙ put32_below m at v i (omega arith)
write_below m (store_bytes at bs ∷ ss) lo i h k =
    write_below (put_bytes m at bs) ss lo i h.1 k ∙ put_bytes_below m at bs i (omega arith)

pub write-append : (m : Memory) (ss ts : List Store) → write m (ss ++ ts) ≡ write (write m ss) ts
unfolding write
write-append m [] ts = refl
write-append m (store8 at v ∷ ss) ts = write-append (put8 m at v) ss ts
write-append m (store16 at v ∷ ss) ts = write-append (put16 m at v) ss ts
write-append m (store32 at v ∷ ss) ts = write-append (put32 m at v) ss ts
write-append m (store_bytes at bs ∷ ss) ts = write-append (put_bytes m at bs) ss ts

pub store_sum_outside :
    (m : Memory) (base d n i : ℕ)
    → (i < base + d) ⊎ (base + d + 1 < i)
    → store_sum m base d n i ≡ m i
store_sum_outside m base d n i h =
    put16_outside (put16 m (base + d) 0) (base + d) (chksum (bytes (put16 m (base + d) 0) base n)) i
      h
    ∙ put16_outside m (base + d) 0 i h
