-- ===== src/Statistic/Mean.antt =====
-- What `E` computes: the mean of the samples since the last reset.
use aping.Base.{ℕ, ◌+◌, ◌-◌, ◌*◌, ◌/◌, ◌%◌, ◌^◌, ◌≤◌, ◌<◌, true, false, List, [], ◌∷◌, length}
use aping.Base.{◌≡◌, ◌≢◌, ◌⊎◌, inl, inr, refl, sym, ap, ap₂, ◌∙◌, arith, bit_and, bit_or, leb}
use aping.Base.Bits.{bit_and_mask, bit_and_shifted, bit_or_fields}
use aping.Base.Int.{
  ℤ, pos, negsuc, pos_part, neg_part, ◌+ℤ◌, ◌*ℤ◌, ◌==ℤ◌, tdiv, i32, i64, i64-eq, wrap,
}
use aping.Base.Outcome.{Run, ok, fatal, Fault, ◌>>=◌}
use aping.Statistic.Expectation.{
  Tables, Reply, index, clear, sample, update, k_size, k_mask, add_sample, collides, commit,
}

-- The key bits of an address, and the count bits.
key-eq : (a : ℕ) → a < 2 ^ 32 → bit_and a k_mask ≡ a / 2 ^ 14 * 2 ^ 14
key-eq a h =
    let e : a ≡ a / 2 ^ 14 * 2 ^ 14 + a % 2 ^ 14 = omega arith in
    ap (λ (t : ℕ). bit_and t k_mask) e
    ∙ bit_and_shifted 14 (a / 2 ^ 14) (a % 2 ^ 14) (2 ^ 18 - 1) (omega arith)
    ∙ omega (arith, bit_and_mask 18 (a / 2 ^ 14))

count-eq : (c : ℕ) → bit_and c (k_size - 1) ≡ c % 2 ^ 14
count-eq c = bit_and_mask 14 c

pack-eq :
    (a n : ℕ)
    → a < 2 ^ 32
    → n < 2 ^ 14
    → bit_or (bit_and a k_mask) (bit_and n (k_size - 1)) ≡ a / 2 ^ 14 * 2 ^ 14 + n
pack-eq a n h k =
    ap₂ bit_or (key-eq a h) (count-eq n ∙ omega arith) ∙ bit_or_fields 14 (a / 2 ^ 14) n k

key-eq_packed :
    (a n : ℕ)
    → a < 2 ^ 32
    → n < 2 ^ 14
    → bit_and (a / 2 ^ 14 * 2 ^ 14 + n) k_mask ≡ a / 2 ^ 14 * 2 ^ 14
key-eq_packed a n h k =
    bit_and_shifted 14 (a / 2 ^ 14) n (2 ^ 18 - 1) k ∙ omega (arith, bit_and_mask 18 (a / 2 ^ 14))

-- The sum of the samples, in table `k`.
unfoldable pub total : ℕ → List ℤ → ℤ
total k [] = pos 0
total k (x ∷ xs) = total k xs +ℤ sample k x

-- The entry of `addr` holds the samples `xs`, the latest first.
pub record Holds (t : Tables) (addr k : ℕ) (xs : List ℤ) : Type 0 where
  pub sums : t.sum k (index addr) ≡ total k xs
  pub counts : t.cnt k (index addr) % 2 ^ 14 ≡ length xs
  pub keyed : (total k xs ≡ pos 0) ⊎ (bit_and (t.cnt k (index addr)) k_mask ≡ bit_and addr k_mask)

-- A `long` takes 32 bits.
abbrev IsLong : ℤ → Type 0
IsLong x = (pos_part x < 2 ^ 31) × (neg_part x ≤ 2 ^ 31)

abbrev AllLong : List ℤ → Type 0
AllLong [] = Unit
AllLong (x ∷ xs) = IsLong x × AllLong xs

i32-IsLong : (x : ℤ) → IsLong (i32 x)
unfolding wrap
i32-IsLong (pos n) = ground arith
i32-IsLong (negsuc n) = ground arith

sample-IsLong : (k : ℕ) (x : ℤ) → IsLong x → IsLong (sample k x)
sample-IsLong k x h = ground (arith, i32-IsLong (x *ℤ x))

total_bound :
    (k : ℕ) (xs : List ℤ)
    → AllLong xs
    → (pos_part (total k xs) ≤ 2 ^ 31 * length xs) × (neg_part (total k xs) ≤ 2 ^ 31 * length xs)
unfolding total ◌+ℤ◌
total_bound k [] h = omega arith
total_bound k (x ∷ xs) h = ground (arith, total_bound k xs h.1, sample-IsLong k x h.0)

total_fits : (k : ℕ) (xs : List ℤ) → AllLong xs → length xs < 2 ^ 14 → i64 (total k xs) ≡ total k xs
total_fits k xs h l =
    i64-eq (total k xs) (omega (arith, total_bound k xs h)) (omega (arith, total_bound k xs h))

-- The tables after a sample.
abbrev pub stored : Tables → ℕ → ℕ → List ℤ → Tables
stored t addr k xs = record {
  sum = update t.sum k (index addr) (total k xs);
  cnt = update t.cnt k (index addr) (addr / 2 ^ 14 * 2 ^ 14 + length xs);
}

update_self {ℓ} : {A : Type ℓ} (f : ℕ → ℕ → A) (k i : ℕ) (v : A) → update f k i v k i ≡ v
update_self f k i v = ground arith

stored-Holds :
    (t : Tables) (addr k : ℕ) (xs : List ℤ)
    → addr < 2 ^ 32
    → length xs < 2 ^ 14
    → Holds (stored t addr k xs) addr k xs
stored-Holds t addr k xs h l =
    let c = addr / 2 ^ 14 * 2 ^ 14 + length xs in
    let e : (stored t addr k xs).cnt k (index addr) ≡ c = update_self t.cnt k (index addr) c in
    record {
      sums = update_self t.sum k (index addr) (total k xs);
      counts = rw e (omega arith);
      keyed = inr (rw e (key-eq_packed addr (length xs) h l ∙ sym (key-eq addr h)));
    }

-- The reply to the latest of the samples `xs`.
abbrev pub mean_reply : Tables → ℕ → ℕ → List ℤ → Reply
mean_reply t addr k xs = record {
  ret = pos 0;
  value = i32 (tdiv (total k xs) (pos (length xs)));
  tables = stored t addr k xs;
}

commit-eq :
    (t : Tables) (addr k : ℕ) (xs : List ℤ)
    → addr < 2 ^ 32
    → length xs < 2 ^ 14
    → commit t addr k (length xs) (total k xs) ≡ ok (mean_reply t addr k xs)
unfolding commit
commit-eq t addr k xs h l =
    let below : leb k_size (length xs) ≡ false = ground arith in
    rw below (
      ap
        (λ c. ok (record {
          ret = pos 0;
          value = i32 (tdiv (total k xs) (pos (length xs)));
          tables = record {
            sum = update t.sum k (index addr) (total k xs);
            cnt = update t.cnt k (index addr) c;
          };
        }))
        (pack-eq addr (length xs) h l))

Holds-not-collides :
    (t : Tables) (addr k : ℕ) (xs : List ℤ) → Holds t addr k xs → collides t addr k ≡ false
unfolding collides
Holds-not-collides t addr k xs v = ground arith

-- One more sample.
add_sample-Holds :
    (t : Tables) (addr k : ℕ) (x : ℤ) (xs : List ℤ)
    → addr < 2 ^ 32
    → AllLong (x ∷ xs)
    → length xs + 1 < 2 ^ 14
    → Holds t addr k xs
    → add_sample t addr x k ≡ ok (mean_reply t addr k (x ∷ xs))
unfolding add_sample ◌+ℤ◌ total
add_sample-Holds t addr k x xs h a l v = rw (Holds-not-collides t addr k xs v) (
    ap₂ (commit t addr k) (omega (arith, count-eq (t.cnt k (index addr)), v.counts))
      (ap (λ s. i64 (s +ℤ sample k x)) v.sums ∙ total_fits k (x ∷ xs) a (omega arith))
    ∙ commit-eq t addr k (x ∷ xs) h (omega arith))

-- The calls that follow a reset, in order, with the last reply.
unfoldable pub feed : Tables → ℕ → ℕ → List ℤ → Run Reply
feed t addr k [] = ok (record { ret = pos 0; value = pos 0; tables = t })
feed t addr k (x ∷ xs) = feed t addr k xs >>= λ r. add_sample r.tables addr x k

feed-Holds :
    (t : Tables) (addr k : ℕ) (x : ℤ) (xs : List ℤ)
    → addr < 2 ^ 32
    → AllLong (x ∷ xs)
    → length xs + 1 < 2 ^ 14
    → Holds t addr k []
    → (t' : Tables) × (feed t addr k (x ∷ xs) ≡ ok (mean_reply t' addr k (x ∷ xs)))
unfolding feed
feed-Holds t addr k x [] h a l v = (t, add_sample-Holds t addr k x [] h a l v)
feed-Holds t addr k x (y ∷ ys) h a l v =
    let (t', e) = feed-Holds t addr k y ys h a.1 (omega arith) v in
    let t'' = stored t' addr k (y ∷ ys) in
    (
      t'',
      ap (λ m. m >>= λ r. add_sample r.tables addr x k) e
          ∙ add_sample-Holds t'' addr k x (y ∷ ys) h a l
              (stored-Holds t' addr k (y ∷ ys) h (omega arith)),
    )

clear-Holds : (t : Tables) (addr k : ℕ) → Holds (clear t k (index addr)) addr k []
unfolding total
clear-Holds t addr k = record {
  sums = update_self t.sum k (index addr) (pos 0);
  counts = ap (λ (c : ℕ). c % 2 ^ 14) (update_self t.cnt k (index addr) 0);
  keyed = inl refl;
}

-- After a reset, the reply to the last of at least one and fewer than 2 ^ 14 samples of an
-- address of 32 bits, each a `long`, is 0, with their sum divided by their number (in table 1 the
-- sum of the squares, each cut to a `long`).
pub feed-mean :
    (t : Tables) (addr k : ℕ) (x : ℤ) (xs : List ℤ)
    → addr < 2 ^ 32
    → AllLong (x ∷ xs)
    → length (x ∷ xs) < 2 ^ 14
    → (t' : Tables) × (feed (clear t k (index addr)) addr k (x ∷ xs)
        ≡ ok (mean_reply t' addr k (x ∷ xs)))
feed-mean t addr k x xs h a l =
    feed-Holds (clear t k (index addr)) addr k x xs h a (omega arith) (clear-Holds t addr k)

-- The 2 ^ 14-th sample is not counted: the entry starts again from nothing, the variable is set to
-- 0 and the call returns -1.
add_sample-overflow :
    (t : Tables) (addr k : ℕ) (x : ℤ) (xs : List ℤ)
    → length xs + 1 ≡ 2 ^ 14
    → Holds t addr k xs
    → add_sample t addr x k
      ≡ ok (record { ret = negsuc 0; value = pos 0; tables = clear t k (index addr) })
unfolding add_sample commit
add_sample-overflow t addr k x xs l v =
    let full : leb k_size (bit_and (t.cnt k (index addr)) (k_size - 1) + 1) ≡ true =
      ground (arith, count-eq (t.cnt k (index addr))) in
    rw (Holds-not-collides t addr k xs v, full)

-- Two variables whose addresses share the index bits but not the key bits, the first with samples
-- whose sum is not 0: a sample of the second ends the program.
add_sample-collision :
    (t : Tables) (addr other k : ℕ) (x : ℤ) (xs : List ℤ)
    → addr < 2 ^ 32
    → other < 2 ^ 32
    → index other ≡ index addr
    → other / 2 ^ 14 ≢ addr / 2 ^ 14
    → total k xs ≢ pos 0
    → Holds t addr k xs
    → add_sample t other x k ≡ fatal Fault.data_collision
unfolding add_sample
add_sample-collision t addr other k x xs h h' same ne nz v =
    let hit : collides t other k ≡ true =
      unfold collides in
      ground (arith, key-eq addr h, key-eq other h', zero-parts (t.sum k (index other))) in
    rw hit
  where
    zero-parts : (z : ℤ) → (z ==ℤ pos 0) ≡ true → z ≡ pos 0
    zero-parts z e = ground arith
