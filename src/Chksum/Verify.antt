-- ===== src/Chksum/Verify.antt =====
-- What a receiver does with the checksum: it sums the message with the checksum in its field.
use aping.Base.{ℕ, ◌+◌, ◌/◌, ◌%◌, ◌^◌, ◌<◌, List, [], ◌∷◌, ◌++◌}
use aping.Base.{◌≡◌, ◌≢◌, ◌↔◌, ◌∙◌, ap, arith, length, length-append}
use aping.Chksum.{chksum, fold_carries}
use aping.Chksum.Sum.{word_sum, Bytes, chksum-eq, word_sum_small, fold_carries-eq_zero_iff}

word_sum-append :
    (xs ys : List ℕ) → length xs % 2 ≡ 0 → word_sum (xs ++ ys) ≡ word_sum xs + word_sum ys
word_sum-append [] ys h = omega arith
word_sum-append (b ∷ []) ys h = absurd (omega arith)
word_sum-append (lo ∷ hi ∷ rest) ys h = omega (arith, word_sum-append rest ys (omega arith))

Bytes-append : (xs ys : List ℕ) → Bytes xs → Bytes ys → Bytes (xs ++ ys)
Bytes-append [] ys h k = k
Bytes-append (x ∷ xs) ys h k = (h.0, Bytes-append xs ys h.1 k)

Bytes-split : (xs ys : List ℕ) → Bytes (xs ++ ys) → Bytes xs × Bytes ys
Bytes-split [] ys h = (tt, h)
Bytes-split (x ∷ xs) ys h = let r = Bytes-split xs ys h.1 in ((h.0, r.0), r.1)

-- For fewer than 65536 bytes the checksum is 0 if and only if the sum of the words is a multiple
-- of 65535 above 0.
chksum-eq_zero_iff :
    (bs : List ℕ)
    → Bytes bs
    → length bs < 65536
    → (chksum bs ≡ 0) ↔ ((word_sum bs % 65535 ≡ 0) × (0 < word_sum bs))
chksum-eq_zero_iff bs h l =
    let small : word_sum bs < 2 ^ 31 = word_sum_small bs h l in
    let e : chksum bs ≡ fold_carries (word_sum bs) = chksum-eq bs (omega arith) in
    rw e (fold_carries-eq_zero_iff (word_sum bs) small)

pub chksum-lt : (bs : List ℕ) → chksum bs < 65536
unfolding chksum fold_carries
chksum-lt bs = omega arith

-- The message with the two bytes of a word at the place of its checksum field.
abbrev pub with_field : List ℕ → ℕ → List ℕ → List ℕ
with_field before w after = before ++ (w % 256 ∷ w / 256 ∷ after)

word_sum-with_field :
    (before after : List ℕ) (w : ℕ)
    → length before % 2 ≡ 0
    → word_sum (with_field before w after) ≡ word_sum before + w + word_sum after
word_sum-with_field before after w even =
    omega (arith, word_sum-append before (w % 256 ∷ w / 256 ∷ after) even)

Bytes-with_field :
    (before after : List ℕ) (w : ℕ)
    → w < 65536
    → Bytes before
    → Bytes after
    → Bytes (with_field before w after)
Bytes-with_field before after w h b a =
    Bytes-append before (w % 256 ∷ w / 256 ∷ after) b (omega arith, (omega arith, a))

length-with_field :
    (before after : List ℕ) (w : ℕ)
    → length (with_field before w after) ≡ length before + length after + 2
length-with_field before after w = omega (arith, length-append before (w % 256 ∷ w / 256 ∷ after))

module _ (before after : List ℕ) (even : length before % 2 ≡ 0) (b : Bytes before) (a : Bytes after)
    (short : length before + length after + 2 < 65536) where
  small : (w : ℕ) → w < 65536 → word_sum before + w + word_sum after < 2 ^ 31
  small w h = omega (
    arith,
    word_sum_small (with_field before w after) (Bytes-with_field before after w h b a)
        (omega (arith, length-with_field before after w)),
    word_sum-with_field before after w even,
  )

  chksum-with_field :
      (w : ℕ)
      → w < 65536
      → chksum (with_field before w after) ≡ fold_carries (word_sum before + w + word_sum after)
  chksum-with_field w h =
      chksum-eq (with_field before w after)
        (omega (arith, small w h, word_sum-with_field before after w even))
      ∙ ap fold_carries (word_sum-with_field before after w even)

  complement :
      (s : ℕ) → s < 2 ^ 31 → s + fold_carries s < 2 ^ 31 → fold_carries (s + fold_carries s) ≡ 0
  unfolding fold_carries
  complement s h k = ground arith

  -- For bytes around an aligned word, shorter than 65536 in all: with the checksum of the
  -- buffer with 0 in that word stored there, the checksum is 0.
  pub chksum-verifies : chksum (with_field before (chksum (with_field before 0 after)) after) ≡ 0
  chksum-verifies =
      let z = word_sum before + 0 + word_sum after in
      let c = chksum (with_field before 0 after) in
      let lt : c < 65536 = chksum-lt (with_field before 0 after) in
      let e : c ≡ fold_carries z = chksum-with_field 0 (omega arith) in
      let r : word_sum before + c + word_sum after ≡ z + fold_carries z = omega arith in
      chksum-with_field c lt
      ∙ ap fold_carries r
      ∙ complement z (small 0 (omega arith)) (omega (arith, small c lt))

  -- For bytes around an aligned word, shorter than 65536 in all: if the buffer checks with a
  -- word `v`, it does not check with a word `w` that differs from `v` modulo 65535.
  pub chksum_detects :
      (v w : ℕ)
      → v < 65536
      → w < 65536
      → v % 65535 ≢ w % 65535
      → chksum (with_field before v after) ≡ 0
      → chksum (with_field before w after) ≢ 0
  chksum_detects v w hv hw ne ok_v ok_w =
      let zero_iff : (u : ℕ)
          → u < 65536
          → chksum (with_field before u after) ≡ 0
          → (word_sum before + u + word_sum after) % 65535 ≡ 0 =
        λ u hu z. omega (
          arith,
          word_sum-with_field before after u even,
          (chksum-eq_zero_iff (with_field before u after) (Bytes-with_field before after u hu b a)
                (omega (arith, length-with_field before after u))).0
              z,
        ) in
      ne (omega (arith, zero_iff v hv ok_v, zero_iff w hw ok_w))
