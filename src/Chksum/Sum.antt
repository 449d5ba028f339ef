-- ===== src/Chksum/Sum.antt =====
-- The sum of the words of a buffer without a bound, and `chksum` in terms of it.
use aping.Base.{ℕ, ◌+◌, ◌-◌, ◌*◌, ◌%◌, ◌^◌, ◌≤◌, ◌<◌, List, [], ◌∷◌, ltb, if◌then◌else◌}
use aping.Base.{◌≡◌, ◌↔◌, ◌∙◌, ap, arith, length}
use aping.Chksum.{accumulate, fold_carries, chksum}

abbrev pub word_sum : List ℕ → ℕ
word_sum [] = 0
word_sum (b ∷ []) = b
word_sum (lo ∷ hi ∷ rest) = lo + 256 * hi + word_sum rest

-- Every entry is a byte.
abbrev pub Bytes : List ℕ → Type 0
Bytes [] = Unit
Bytes (b ∷ bs) = (b < 256) × Bytes bs

word_sum_bound : (bs : List ℕ) → Bytes bs → 2 * word_sum bs ≤ 65535 * (length bs + 1)
word_sum_bound [] h = omega arith
word_sum_bound (b ∷ []) h = omega arith
word_sum_bound (lo ∷ hi ∷ rest) h = omega (arith, word_sum_bound rest h.1.1)

-- No buffer that an IP length can describe wraps the accumulator.
accumulate-eq : (s : ℕ) (bs : List ℕ) → s + word_sum bs < 2 ^ 32 → accumulate s bs ≡ s + word_sum bs
unfolding accumulate
accumulate-eq s [] h = omega arith
accumulate-eq s (b ∷ []) h = omega arith
accumulate-eq s (lo ∷ hi ∷ rest) h =
    ap (λ (t : ℕ). accumulate t rest) (omega arith)
    ∙ accumulate-eq (s + (lo + 256 * hi)) rest (omega arith)
    ∙ omega arith

pub chksum-eq : (bs : List ℕ) → word_sum bs < 2 ^ 32 → chksum bs ≡ fold_carries (word_sum bs)
unfolding chksum
chksum-eq bs h = ap fold_carries (accumulate-eq 0 bs (omega arith) ∙ omega arith)

pub word_sum_small : (bs : List ℕ) → Bytes bs → length bs < 65536 → word_sum bs < 2 ^ 31
word_sum_small bs h l = omega (arith, word_sum_bound bs h)

-- 0 only for a sum of 0, else the representative in 1 .. 65535.
abbrev pub ones_rep : ℕ → ℕ
ones_rep s = if ltb 0 s then (s - 1) % 65535 + 1 else 0

pub fold_carries-eq : (s : ℕ) → s < 2 ^ 31 → fold_carries s ≡ 65535 - ones_rep s
unfolding fold_carries
fold_carries-eq s h = ground arith

pub fold_carries-eq_zero_iff :
    (s : ℕ) → s < 2 ^ 31 → (fold_carries s ≡ 0) ↔ ((s % 65535 ≡ 0) × (0 < s))
fold_carries-eq_zero_iff s h = rw (fold_carries-eq s h) (λ z. ground arith, λ z. ground arith)
