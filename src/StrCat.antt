-- ===== src/StrCat.antt =====
-- strlcat.c: a text is appended to the text of a buffer. A buffer is the list of the bytes that may
-- be read and written from `dst` on, and `src` is a text without its final 0.
pub mod Appended
use aping.Base.{
  ℕ, zero, suc, ◌+◌, ◌-◌, ◌%◌, ◌^◌, List, [], ◌∷◌, ◌++◌, take, drop, length, ltb, ◌==◌,
  if◌then◌else◌,
}
use aping.Base.Text.{Text}
use aping.Base.Outcome.{Run, ok, fatal, Fault, ◌>>=◌}
use aping.StrCopy.{copy_loop}

-- `while (*d != '\0' && n != 0) d++;` for an `n` that is not 0: nothing in the loop changes `n`.
unfoldable pub find_end : List ℕ → Run ℕ
find_end [] = fatal Fault.bad_index
find_end (c ∷ cs) = let rest = find_end cs in if c == 0 then ok 0 else (rest >>= λ d. ok (suc d))

-- The bytes `bs` are written at `at`.
unfoldable pub overwrite : List ℕ → ℕ → List ℕ → Run (List ℕ)
overwrite buf at bs =
    if ltb (length buf) (at + length bs)
    then fatal Fault.bad_index
    else ok (take at buf ++ bs ++ drop (at + length bs) buf)

-- The buffer afterwards, and the result. `n -= dlen` is done in words of 32 bits.
unfoldable pub strlcat : List ℕ → Text → ℕ → Run (List ℕ × ℕ)
unfolding find_end copy_loop overwrite
strlcat dst src siz = do
  dlen ← if siz == 0 then ok 0 else find_end dst
  let n = (siz + (2 ^ 32 - dlen)) % 2 ^ 32
  if n == 0
      then ok (dst, dlen + length src)
      else (overwrite dst dlen (copy_loop n src) >>= λ dst'. ok (dst', dlen + length src))
