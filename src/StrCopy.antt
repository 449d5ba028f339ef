-- ===== src/StrCopy.antt =====
-- strlcpy.c: the bounded copy of a text. Memory holds characters, a text ends at the first 0.
use mathlib.Core.Path.{subst}
use aping.Base.{
  false, ℕ, zero, suc, ◌-◌, ◌≤◌, List, [], ◌∷◌, ◌++◌, ◌≡◌, refl, ap, sym, arith, length, take, ◌==◌,
  if◌then◌else◌,
}

-- The copy of the characters of `src`, with `n` places left: `some` of what is written from `dst` on.
unfoldable pub copy_loop : ℕ → List ℕ → List ℕ
copy_loop n [] = 0 ∷ []
copy_loop n (c ∷ cs) =
    let rest = copy_loop (n - 1) cs in
    let skip = copy_loop n cs in if n == 1 then skip else c ∷ rest

-- The bytes that are written to `dst`, and the result.
unfoldable pub strlcpy : List ℕ → ℕ → List ℕ × ℕ
unfolding copy_loop
strlcpy src zero = ([], length src)
strlcpy src (suc n) = (copy_loop (suc n) src, length src)

pub copy_loop-take : (n : ℕ) (src : List ℕ) → copy_loop (suc n) src ≡ take n src ++ (0 ∷ [])
unfolding copy_loop
copy_loop-take zero [] = refl
copy_loop-take zero (c ∷ cs) = copy_loop-take zero cs
copy_loop-take (suc n) [] = refl
copy_loop-take (suc n) (c ∷ cs) = rw (more n, less n) (ap (◌∷◌ c) (copy_loop-take n cs))
  where
    more : (n : ℕ) → (suc (suc n) == 1) ≡ false
    more n = ground arith

    less : (n : ℕ) → suc (suc n) - 1 ≡ suc n
    less n = omega arith

-- With room for `n + 1` characters, the first `n` characters of the text and an end are written,
-- which are not more than the room, and the result is the length of the text.
strlcpy-take :
    (src : List ℕ) (n : ℕ)
    → (strlcpy src (suc n) ≡ (take n src ++ (0 ∷ []), length src))
      × (length (strlcpy src (suc n)).0 ≤ suc n)
unfolding strlcpy
strlcpy-take src n = (
  ap (λ t. (t, length src)) (copy_loop-take n src),
  subst (λ t. length t ≤ suc n) (sym (copy_loop-take n src)) (short n src),
)
  where
    short : (n : ℕ) (src : List ℕ) → length (take n src ++ (0 ∷ [])) ≤ suc n
    short zero src = omega arith
    short (suc n) [] = omega arith
    short (suc n) (c ∷ cs) = omega (arith, short n cs)
