-- ===== src/Neural/Count.antt =====
-- The length of what `save_nn` of neuralnetwork.c writes, and the size that `load_nn` expects.
use native.Mathlib.Nat.{suc-mul}
use aping.Base.{
  ℕ, zero, suc, ◌+◌, ◌*◌, List, [], ◌∷◌, ◌++◌, map, length, length-append, length-map, replicate,
  ◌≡◌, refl, ap, ap₂, ◌∙◌, arith,
}
use aping.Neural.{Double, double, Link, Neuro, Layer}
use aping.Neural.File.{
  bytes64, save_each, save_neuro, save_link, save_neuros, save_forward, save_backward, save_layers,
}
use aping.Neural.Restore.{blank, blank_link, no_values, no_forward, no_backward, on_neurons}

-- The sum of a measure.
unfoldable pub total {ℓ} : {A : Type ℓ} → (A → ℕ) → List A → ℕ
total f [] = 0
total f (x ∷ xs) = f x + total f xs

-- Where each element takes 24 bytes for each unit of its measure.
length-save_each :
    {A : Type 0} (save : A → List ℕ) (f : A → ℕ)
    → ((a : A) → length (save a) ≡ 24 * f a)
    → (xs : List A) → length (save_each save xs) ≡ 24 * total f xs
unfolding save_each total
length-save_each save f law [] = omega arith
length-save_each save f law (x ∷ xs) =
    omega (arith, length-append (save x) (save_each save xs), law x, length-save_each save f law xs)

pub total-map {ℓ} :
    {A : Type ℓ} (f : A → ℕ) (g : A → A)
    → ((a : A) → f (g a) ≡ f a)
    → (xs : List A) → total f (map g xs) ≡ total f xs
unfolding total
total-map f g law [] = refl
total-map f g law (x ∷ xs) = ap₂ ◌+◌ (law x) (total-map f g law xs)

pub total-replicate : {A : Type 0} (f : A → ℕ) (n : ℕ) (a : A) → total f (replicate n a) ≡ n * f a
unfolding total
total-replicate f zero a = omega arith
total-replicate f (suc n) a = omega (arith, total-replicate f n a, suc-mul n (f a))

total-one : {A : Type 0} (xs : List A) → total (λ x. 1) xs ≡ length xs
unfolding total
total-one [] = refl
total-one (x ∷ xs) = omega (arith, total-one xs)

length-bytes64 : (d : Double) → length (bytes64 d) ≡ 8
length-bytes64 (double a b c d e f g h) = refl

length-three : (a b c : Double) → length (bytes64 a ++ (bytes64 b ++ bytes64 c)) ≡ 24
length-three a b c = omega (
  arith,
  length-append (bytes64 a) (bytes64 b ++ bytes64 c),
  length-append (bytes64 b) (bytes64 c),
  length-bytes64 a,
  length-bytes64 b,
  length-bytes64 c,
)

length-links : (ls : List Link) → length (save_each save_link ls) ≡ 24 * length ls
length-links ls =
    length-save_each save_link (λ l. 1) (λ l. length-three l.weight l.weightsave l.deltaweight) ls
    ∙ ap (λ n. 24 * n) (total-one ls)

-- The neurons, and the links forward and back, of all layers.
abbrev pub neurons_of : List Layer → ℕ
neurons_of ls = total (λ l. length l.neurons) ls

abbrev pub forwards_of : List Layer → ℕ
forwards_of ls = total (λ l. total (λ n. length n.fp_np) l.neurons) ls

abbrev pub backwards_of : List Layer → ℕ
backwards_of ls = total (λ l. total (λ n. length n.bp_np) l.neurons) ls

length-neuros : (l : Layer) → length (save_neuros l) ≡ 24 * length l.neurons
length-neuros l =
    length-save_each save_neuro (λ n. 1) (λ n. length-three n.state n.output n.error) l.neurons
    ∙ ap (λ n. 24 * n) (total-one l.neurons)

pub length-save_layers :
    (ls : List Layer)
    → length (save_layers ls) ≡ 24 * neurons_of ls + 24 * forwards_of ls + 24 * backwards_of ls
length-save_layers ls =
    let n = save_each save_neuros ls in
    let f = save_each save_forward ls in
    let b = save_each save_backward ls in
    let en : length n ≡ 24 * neurons_of ls = length-save_each save_neuros _ length-neuros ls in
    let ef : length f ≡ 24 * forwards_of ls =
      length-save_each save_forward _
        (λ l.
          length-save_each (λ n. save_each save_link n.fp_np) _ (λ n. length-links n.fp_np)
            l.neurons)
        ls in
    let eb : length b ≡ 24 * backwards_of ls =
      length-save_each save_backward _
        (λ l.
          length-save_each (λ n. save_each save_link n.bp_np) _ (λ n. length-links n.bp_np)
            l.neurons)
        ls in
    omega (arith, length-append n (f ++ b), length-append f b, en, ef, eb)

-- Three counts that a change of the neurons keeps.
pub record Same (xs ys : List Layer) : Type 0 where
  pub neurons : neurons_of xs ≡ neurons_of ys
  pub forwards : forwards_of xs ≡ forwards_of ys
  pub backwards : backwards_of xs ≡ backwards_of ys

pub Same-trans : (xs ys zs : List Layer) → Same xs ys → Same ys zs → Same xs zs
Same-trans xs ys zs h k = record {
  neurons = h.neurons ∙ k.neurons;
  forwards = h.forwards ∙ k.forwards;
  backwards = h.backwards ∙ k.backwards;
}

on_neurons-Same :
    (f : Neuro → Neuro)
    → ((n : Neuro) → length (f n).fp_np ≡ length n.fp_np)
    → ((n : Neuro) → length (f n).bp_np ≡ length n.bp_np)
    → (ls : List Layer) → Same (map (on_neurons f) ls) ls
on_neurons-Same f hf hb ls = record {
  neurons = total-map _ (on_neurons f) (λ l. length-map l.neurons f) ls;
  forwards = total-map _ (on_neurons f) (λ l. total-map _ f hf l.neurons) ls;
  backwards = total-map _ (on_neurons f) (λ l. total-map _ f hb l.neurons) ls;
}

pub blank-Same : (ls : List Layer) → Same (blank ls) ls
blank-Same ls =
    let back = map (on_neurons no_backward) ls in
    let forth = map (on_neurons no_forward) back in
    Same-trans (blank ls) forth ls (on_neurons-Same no_values (λ n. refl) (λ n. refl) forth) (
      Same-trans forth back ls
        (on_neurons-Same no_forward (λ n. length-map n.fp_np blank_link) (λ n. refl) back)
        (on_neurons-Same no_backward (λ n. refl) (λ n. length-map n.bp_np blank_link) ls))
