-- ===== src/Statistic/Ttl.antt =====
-- `TTL_PREDICTOR` and `HOP_DISTANCE` of statistic.c, over `unsigned char`.
use aping.Base.Table.{all_below, all_below_sound}
use aping.Base.{ℕ, zero, suc, ◌+◌, ◌-◌, ◌*◌, ◌/◌, ◌%◌, ◌≤◌, ◌<◌, true}
use aping.Base.{
  bit_and, ◌==◌, leb, if◌then◌else◌, ◌≡◌, refl, sym, ap, ◌∙◌, arith, ==_iff, List, [], ◌∷◌,
}
use aping.Base.Int.{ℤ, sub_ℕ, pos, ◌≤ℤ◌}

-- The `do` loop: `c += i & 1; j <<= 1` while `i >>= 1` is not 0. The fuel is the number of digits.
ttl_loop : ℕ → ℕ → ℕ → ℕ → ℕ × ℕ
ttl_loop zero i j c = (j, c)
ttl_loop (suc f) i j c =
    let j' = j * 2 % 256 in
    let c' = (c + bit_and i 1) % 256 in
    let rest = ttl_loop f (i / 2) j' c' in if i / 2 == 0 then (j', c') else rest

unfoldable pub ttl_predictor : ℕ → ℕ
unfolding ttl_loop
ttl_predictor x = let (j, c) = ttl_loop 9 x 1 0 in if c == 1 then x else if j == 0 then 255 else j

-- The macro's `TTL_PREDICTOR(x)-x`, an `int`.
unfoldable pub hop_distance : ℕ → ℤ
hop_distance x = sub_ℕ (ttl_predictor x) x

-- The initial values of the time to live that the prediction chooses from.
abbrev pub initial_ttls : List ℕ
initial_ttls = 1 ∷ 2 ∷ 4 ∷ 8 ∷ 16 ∷ 32 ∷ 64 ∷ 128 ∷ 255 ∷ []

unfoldable pub first_at_least : ℕ → List ℕ → ℕ
first_at_least x [] = 255
first_at_least x (y ∷ ys) = if leb x y then y else first_at_least x ys

prediction_table :
    all_below 255 (λ x. ttl_predictor (x + 1) == first_at_least (x + 1) initial_ttls) ≡ true
unfolding all_below ttl_predictor first_at_least
prediction_table = refl

-- For every time to live from 1 to 255 the bit loop finds the least value that is not below it,
-- out of the powers of two up to 128 and 255.
pub ttl_predictor-eq : (x : ℕ) → 0 < x → x < 256 → ttl_predictor x ≡ first_at_least x initial_ttls
ttl_predictor-eq x h k =
    let e : x - 1 + 1 ≡ x = omega arith in
    ap ttl_predictor (sym e)
    ∙ (==_iff _ _).0 (all_below_sound 255 _ (x - 1) prediction_table (omega arith))
    ∙ ap (λ t. first_at_least t initial_ttls) e

first_at_least-ge : (x : ℕ) (ys : List ℕ) → x < 256 → x ≤ first_at_least x ys
unfolding first_at_least
first_at_least-ge x [] h = omega arith
first_at_least-ge x (y ∷ ys) h = ground (arith, first_at_least-ge x ys h)

-- For every time to live from 1 to 255, the predicted value less the received one is not
-- negative.
hop_distance-nonneg : (x : ℕ) → 0 < x → x < 256 → pos 0 ≤ℤ hop_distance x
unfolding hop_distance
hop_distance-nonneg x h k =
    ground (arith, ttl_predictor-eq x h k, first_at_least-ge x initial_ttls k)
