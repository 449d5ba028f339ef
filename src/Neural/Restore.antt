-- ===== src/Neural/Restore.antt =====
-- What `load_nn` of neuralnetwork.c restores of what `save_nn` wrote, array by array.
use mathlib.Core.List.{append_assoc}
use aping.Base.{ℕ, ◌^◌, ◌<◌, List, [], ◌∷◌, ◌++◌, map, length, ◌≡◌, refl, sym, ap, ap₂, ◌∙◌, arith}
use aping.Base.Outcome.{ok}
use aping.Neural.{Double, double, zero_double, Link, Neuro, Layer}
use aping.Neural.File.{
  bytes32, bytes64, save_each, save_neuro, save_link, save_neuros, save_forward, save_backward,
  save_layers, Restored, restore32, restore64, restore_each, restore_layer, restore_neuro,
  restore_link, restore_neuros, forward_of, backward_of, restore_forward, restore_backward,
  restore_sizes, restore_layers,
}

-- The same with the values set to 0, as `calloc` leaves them.
abbrev pub no_values : Neuro → Neuro
no_values n = record n { state = zero_double; output = zero_double; error = zero_double }

abbrev pub blank_link : Link → Link
blank_link l = record l {
  weight = zero_double;
  weightsave = zero_double;
  deltaweight = zero_double;
}

abbrev pub no_forward : Neuro → Neuro
no_forward n = record n { fp_np = map blank_link n.fp_np }

abbrev pub no_backward : Neuro → Neuro
no_backward n = record n { bp_np = map blank_link n.bp_np }

abbrev pub on_neurons : (Neuro → Neuro) → Layer → Layer
on_neurons f l = record l { neurons = map f l.neurons }

-- The layers with all values set to 0.
abbrev pub blank : List Layer → List Layer
blank ls =
    map (on_neurons no_values) (map (on_neurons no_forward) (map (on_neurons no_backward) ls))

restore64-bytes64 : (d : Double) (bs : List ℕ) → restore64 (bytes64 d ++ bs) ≡ ok (d, bs)
unfolding restore64
restore64-bytes64 (double a b c d e f g h) bs = refl

pub restore32-bytes32 :
    (n : ℕ) (bs : List ℕ) → n < 2 ^ 32 → restore32 (bytes32 n ++ bs) ≡ ok (n, bs)
unfolding restore32
restore32-bytes32 n bs h = ap (λ m. ok (m, bs)) (omega arith)

-- Three doubles in sequence.
three :
    (a b c : Double) (bs : List ℕ)
    → (bytes64 a ++ (bytes64 b ++ bytes64 c)) ++ bs ≡ bytes64 a ++ (bytes64 b ++ (bytes64 c ++ bs))
three (double a b c d e f g h) (double i j k l m n o p) z bs = refl

restore_neuro-save :
    (n : Neuro) (bs : List ℕ) → restore_neuro (no_values n) (save_neuro n ++ bs) ≡ ok (n, bs)
unfolding restore_neuro
restore_neuro-save n bs =
    rw
      (
        three n.state n.output n.error bs,
        restore64-bytes64 n.state (bytes64 n.output ++ (bytes64 n.error ++ bs)),
        restore64-bytes64 n.output (bytes64 n.error ++ bs),
        restore64-bytes64 n.error bs,
      )
      refl

restore_link-save :
    (l : Link) (bs : List ℕ) → restore_link (blank_link l) (save_link l ++ bs) ≡ ok (l, bs)
unfolding restore_link
restore_link-save l bs =
    rw
      (
        three l.weight l.weightsave l.deltaweight bs,
        restore64-bytes64 l.weight (bytes64 l.weightsave ++ (bytes64 l.deltaweight ++ bs)),
        restore64-bytes64 l.weightsave (bytes64 l.deltaweight ++ bs),
        restore64-bytes64 l.deltaweight bs,
      )
      refl

-- Where each element is restored, so is a list.
restore_each-save :
    {A : Type 0} (erase : A → A) (restore : A → List ℕ → Restored A) (save : A → List ℕ)
    → ((a : A) (bs : List ℕ) → restore (erase a) (save a ++ bs) ≡ ok (a, bs))
    → (xs : List A) (bs : List ℕ)
    → restore_each restore (map erase xs) (save_each save xs ++ bs) ≡ ok (xs, bs)
unfolding restore_each save_each
restore_each-save erase restore save law [] bs = refl
restore_each-save erase restore save law (x ∷ xs) bs =
    rw
      (
        append_assoc (save x) (save_each save xs) bs,
        law x (save_each save xs ++ bs),
        restore_each-save erase restore save law xs bs,
      )
      refl

save_each-map :
    {A : Type 0} (save : A → List ℕ) (f : A → A)
    → ((a : A) → save (f a) ≡ save a)
    → (xs : List A) → save_each save (map f xs) ≡ save_each save xs
unfolding save_each
save_each-map save f law [] = refl
save_each-map save f law (x ∷ xs) = ap₂ ◌++◌ (law x) (save_each-map save f law xs)

module _ (erase : Neuro → Neuro) (restore : Neuro → List ℕ → Restored Neuro) (save : Neuro → List ℕ)
    (law : (n : Neuro) (bs : List ℕ) → restore (erase n) (save n ++ bs) ≡ ok (n, bs)) where
  -- The neurons of a layer, and those of all layers.
  layer-save :
      (l : Layer) (bs : List ℕ)
      → restore_layer restore (on_neurons erase l) (save_each save l.neurons ++ bs) ≡ ok (l, bs)
  unfolding restore_layer
  layer-save l bs = rw (restore_each-save erase restore save law l.neurons bs) refl

forward_of-save :
    (n : Neuro) (bs : List ℕ)
    → forward_of (no_forward n) (save_each save_link n.fp_np ++ bs) ≡ ok (n, bs)
forward_of-save n bs =
    rw (restore_each-save blank_link restore_link save_link restore_link-save n.fp_np bs) refl

backward_of-save :
    (n : Neuro) (bs : List ℕ)
    → backward_of (no_backward n) (save_each save_link n.bp_np ++ bs) ≡ ok (n, bs)
backward_of-save n bs =
    rw (restore_each-save blank_link restore_link save_link restore_link-save n.bp_np bs) refl

neuros-save :
    (ls : List Layer) (bs : List ℕ)
    → restore_each restore_neuros (map (on_neurons no_values) ls) (save_each save_neuros ls ++ bs)
      ≡ ok (ls, bs)
neuros-save =
    restore_each-save (on_neurons no_values) restore_neuros save_neuros
      (layer-save no_values restore_neuro save_neuro restore_neuro-save)

forwards-save :
    (ls : List Layer) (bs : List ℕ)
    → restore_each restore_forward
        (map (on_neurons no_forward) ls)
        (save_each save_forward ls ++ bs)
      ≡ ok (ls, bs)
forwards-save =
    restore_each-save (on_neurons no_forward) restore_forward save_forward
      (layer-save no_forward forward_of (λ n. save_each save_link n.fp_np) forward_of-save)

backwards-save :
    (ls : List Layer) (bs : List ℕ)
    → restore_each restore_backward
        (map (on_neurons no_backward) ls)
        (save_each save_backward ls ++ bs)
      ≡ ok (ls, bs)
backwards-save =
    restore_each-save (on_neurons no_backward) restore_backward save_backward
      (layer-save no_backward backward_of (λ n. save_each save_link n.bp_np) backward_of-save)

-- What is saved of the neurons does not depend on the links, nor what is saved forward on those back.
neuros-kept :
    (f : Neuro → Neuro)
    → ((n : Neuro) → save_neuro (f n) ≡ save_neuro n)
    → (ls : List Layer) → save_each save_neuros (map (on_neurons f) ls) ≡ save_each save_neuros ls
neuros-kept f law =
    save_each-map save_neuros (on_neurons f) (λ l. save_each-map save_neuro f law l.neurons)

forwards-kept :
    (ls : List Layer)
    → save_each save_forward (map (on_neurons no_backward) ls) ≡ save_each save_forward ls
forwards-kept =
    save_each-map save_forward (on_neurons no_backward)
      (λ l. save_each-map (λ n. save_each save_link n.fp_np) no_backward (λ n. refl) l.neurons)

pub restore_layers-save :
    (ls : List Layer) (bs : List ℕ) → restore_layers (blank ls) (save_layers ls ++ bs) ≡ ok (ls, bs)
unfolding restore_layers
restore_layers-save ls bs =
    let back = map (on_neurons no_backward) ls in
    let forth = map (on_neurons no_forward) back in
    let e1 : save_each save_neuros ls ≡ save_each save_neuros forth =
      sym (neuros-kept no_forward (λ n. refl) back ∙ neuros-kept no_backward (λ n. refl) ls) in
    let f = save_each save_forward ls in
    let b = save_each save_backward ls in
    rw
      (
        append_assoc (save_each save_neuros ls) (f ++ b) bs,
        append_assoc f b bs,
        e1,
        neuros-save forth (f ++ (b ++ bs)),
        sym (forwards-kept ls),
        forwards-save back (b ++ bs),
      )
      (backwards-save ls bs)

-- The sizes of the layers.
abbrev pub sizes_of : List Layer → List ℕ
sizes_of ls = map (λ l. l.size) ls

abbrev pub SmallSizes : List Layer → Type 0
SmallSizes [] = Unit
SmallSizes (l ∷ ls) = (l.size < 2 ^ 32) × SmallSizes ls

pub restore_sizes-save :
    (ls : List Layer) (bs : List ℕ)
    → SmallSizes ls
    → restore_sizes (length ls) (save_each (λ l. bytes32 l.size) ls ++ bs) ≡ ok (sizes_of ls, bs)
unfolding restore_sizes save_each
restore_sizes-save [] bs h = refl
restore_sizes-save (l ∷ ls) bs h =
    rw
      (
        append_assoc (bytes32 l.size) (save_each (λ k. bytes32 k.size) ls) bs,
        restore32-bytes32 l.size (save_each (λ k. bytes32 k.size) ls ++ bs) h.0,
        restore_sizes-save ls bs h.1,
      )
      refl
