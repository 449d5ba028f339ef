-- ===== src/Neural/Shape.antt =====
-- How many neurons and links the layers of `create_nn` of neuralnetwork.c have.
use aping.Base.{
  ℕ, suc, ◌+◌, ◌*◌, List, [], ◌∷◌, map, length, length-map, length-replicate, ◌≡◌, refl, ap, ap₂,
  ◌∙◌, arith,
}
use aping.Neural.{
  Link, Neuro, Layer, zero_neuro, alloc_layer, alloc_layers, link_from, link_forward, link_backward,
  backward_linked, link_layers, next_size,
}
use aping.Neural.File.{neuro_count, link_count}
use aping.Neural.Count.{
  total, total-map, total-replicate, Same, Same-trans, neurons_of, forwards_of, backwards_of,
}

length-link_from : (i : ℕ) (ls : List Link) → length (link_from i ls) ≡ length ls
unfolding link_from
length-link_from i [] = refl
length-link_from i (l ∷ ls) = ap suc (length-link_from (i + 1) ls)

-- The layers of one shape after the first.
cons-Same :
    (f : Neuro → Neuro)
    → ((n : Neuro) → length (f n).fp_np ≡ length n.fp_np)
    → ((n : Neuro) → length (f n).bp_np ≡ length n.bp_np)
    → (l : Layer) (xs ys : List Layer) → Same xs ys
    → Same (record l { neurons = map f l.neurons } ∷ xs) (l ∷ ys)
unfolding total
cons-Same f hf hb l xs ys h = record {
  neurons = ap₂ ◌+◌ (length-map l.neurons f) h.neurons;
  forwards = ap₂ ◌+◌ (total-map (λ n. length n.fp_np) f hf l.neurons) h.forwards;
  backwards = ap₂ ◌+◌ (total-map (λ n. length n.bp_np) f hb l.neurons) h.backwards;
}

Same-refl : (xs : List Layer) → Same xs xs
Same-refl xs = record { neurons = refl; forwards = refl; backwards = refl }

back-Same : (l : Layer) (ls : List Layer) → Same (backward_linked l ∷ ls) (l ∷ ls)
back-Same l ls =
    cons-Same link_backward (λ n. refl) (λ n. length-link_from 0 n.bp_np) l ls ls (Same-refl ls)

pub link_layers-Same : (ls : List Layer) → Same (link_layers ls) ls
unfolding link_layers
link_layers-Same [] = Same-refl []
link_layers-Same (a ∷ []) = Same-refl (a ∷ [])
link_layers-Same (a ∷ b ∷ ls) =
    cons-Same link_forward (λ n. length-link_from 0 n.fp_np) (λ n. refl) a
      (link_layers (backward_linked b ∷ ls)) (b ∷ ls)
      (Same-trans (link_layers (backward_linked b ∷ ls)) (backward_linked b ∷ ls) (b ∷ ls)
        (link_layers-Same (backward_linked b ∷ ls)) (back-Same b ls))

alloc_layer-forwards : (n p m : ℕ) → total (λ x. length x.fp_np) (alloc_layer n p m).neurons ≡ n * m
alloc_layer-forwards n p m =
    total-replicate (λ x. length x.fp_np) n (zero_neuro p m)
    ∙ ap (λ k. n * k) (length-replicate m _)

alloc_layer-backwards :
    (n p m : ℕ) → total (λ x. length x.bp_np) (alloc_layer n p m).neurons ≡ n * p
alloc_layer-backwards n p m =
    total-replicate (λ x. length x.bp_np) n (zero_neuro p m)
    ∙ ap (λ k. n * k) (length-replicate p _)

pub alloc_layers-neurons : (p : ℕ) (ns : List ℕ) → neurons_of (alloc_layers p ns) ≡ neuro_count ns
unfolding alloc_layers total
alloc_layers-neurons p [] = refl
alloc_layers-neurons p (n ∷ ns) = ap₂ ◌+◌ (length-replicate n _) (alloc_layers-neurons n ns)

pub alloc_layers-forwards :
    (p : ℕ) (ns : List ℕ) → 2 * forwards_of (alloc_layers p ns) ≡ link_count ns
unfolding alloc_layers total
alloc_layers-forwards p [] = refl
alloc_layers-forwards p (n ∷ []) = omega (arith, alloc_layer-forwards n p 0)
alloc_layers-forwards p (n ∷ m ∷ ns) =
    omega (arith, alloc_layer-forwards n p m, alloc_layers-forwards n (m ∷ ns))

pub alloc_layers-backwards :
    (p : ℕ) (ns : List ℕ)
    → backwards_of (alloc_layers p ns) ≡ next_size ns * p + forwards_of (alloc_layers p ns)
unfolding alloc_layers total
alloc_layers-backwards p [] = omega arith
alloc_layers-backwards p (n ∷ ns) = omega (
  arith,
  alloc_layer-backwards n p (next_size ns),
  alloc_layer-forwards n p (next_size ns),
  alloc_layers-backwards n ns,
)
