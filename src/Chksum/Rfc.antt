-- ===== src/Chksum/Rfc.antt =====
-- The checksum as RFC 1071 defines it: the complement of the one's complement sum of the words.
use aping.Base.{ℕ, ◌+◌, ◌-◌, ◌*◌, ◌<◌, List, [], ◌∷◌, ltb, if◌then◌else◌}
use aping.Base.{◌≡◌, refl, sym, ◌∙◌, ap, arith, length}
use aping.Chksum.{chksum}
use aping.Chksum.Sum.{word_sum, Bytes, chksum-eq, word_sum_small, ones_rep, fold_carries-eq}

-- One's complement addition of 16-bit words: the carry comes back in at the low end.
abbrev ones_add : ℕ → ℕ → ℕ
ones_add a b = if ltb (a + b) 65536 then a + b else a + b - 65535

unfoldable pub ones_sum : List ℕ → ℕ
ones_sum [] = 0
ones_sum (b ∷ []) = b
ones_sum (lo ∷ hi ∷ rest) = ones_add (lo + 256 * hi) (ones_sum rest)

ones_rep-add : (w s : ℕ) → w < 65536 → ones_add w (ones_rep s) ≡ ones_rep (w + s)
ones_rep-add w s h = ground arith

ones_sum-eq : (bs : List ℕ) → Bytes bs → ones_sum bs ≡ ones_rep (word_sum bs)
unfolding ones_sum
ones_sum-eq [] h = refl
ones_sum-eq (b ∷ []) h = ground arith
ones_sum-eq (lo ∷ hi ∷ rest) h =
    ap (ones_add (lo + 256 * hi)) (ones_sum-eq rest h.1.1)
    ∙ ones_rep-add (lo + 256 * hi) (word_sum rest) (omega arith)

-- For fewer than 65536 bytes, `chksum` is the checksum of RFC 1071: 65535 less the one's
-- complement sum of the 16-bit words, an odd last byte standing for itself.
pub chksum-eq-ones_sum :
    (bs : List ℕ) → Bytes bs → length bs < 65536 → chksum bs ≡ 65535 - ones_sum bs
chksum-eq-ones_sum bs h l =
    chksum-eq bs (omega (arith, word_sum_small bs h l))
    ∙ fold_carries-eq (word_sum bs) (word_sum_small bs h l)
    ∙ ap (λ (t : ℕ). 65535 - t) (sym (ones_sum-eq bs h))
