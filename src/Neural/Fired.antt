-- ===== src/Neural/Fired.antt =====
-- The outputs of the layers after `fire_nn` of neuralnetwork.c: what goes back changes only the errors.
use aping.Base.{
  ℕ, zero, suc, List, [], ◌∷◌, true, Option, none, some, map, get_elem?, ◌≡◌, refl, sym, ap, ◌∙◌,
}
use aping.Neural.{Double, Neuro, Layer, Nn}
use aping.Neural.Fire.{Arithmetic, fire_layers, last_errors, back_neuro, propagate, fire_nn}
use aping.Neural.Forward.{received}
use aping.Neural.Outputs.{AllNumbered, Fires, some_inj, get_elem?-map, fire_layers-Fires}

module _ (F : Arithmetic) where
  -- A neuron with this output.
  abbrev HasOutput : List Neuro → ℕ → Double → Type 0
  HasOutput ns j o = (m : Neuro) × (get_elem? ns j ≡ some m) × (m.output ≡ o)

  last_errors-HasOutput :
      (gain : Double) (xs : List Double) (total : Double) (ns : List Neuro) (j : ℕ) (o : Double)
      → HasOutput ns j o
      → HasOutput (last_errors F gain xs total ns).0 j o
  unfolding last_errors
  last_errors-HasOutput gain xs total [] j o h = h
  last_errors-HasOutput gain [] total (n ∷ ns) j o h = h
  last_errors-HasOutput gain (x ∷ xs) total (n ∷ ns) zero o (m, e, v) =
      (_, refl, ap (λ y. y.output) (some_inj e) ∙ v)
  last_errors-HasOutput gain (x ∷ xs) total (n ∷ ns) (suc j) o h =
      last_errors-HasOutput gain xs _ ns j o h

  back-HasOutput :
      (gain : Double) (next ns : List Neuro) (j : ℕ) (o : Double)
      → HasOutput ns j o
      → HasOutput (map (back_neuro F gain next) ns) j o
  back-HasOutput gain next ns j o (m, e, v) =
      (back_neuro F gain next m, get_elem?-map (back_neuro F gain next) ns j m e, v)

  in_layer :
      (ls : List Layer) (i j : ℕ) (l : Layer) (o : Double)
      → get_elem? ls i ≡ some l
      → HasOutput l.neurons j o
      → Fires F ls i j o
  in_layer ls i j l o e (m, f, v) = record { layer = l; neuro = m; found = e; there = f; value = v }

  of_layer :
      (ls : List Layer) (i j : ℕ) (l : Layer) (o : Double)
      → get_elem? ls i ≡ some l
      → Fires F ls i j o
      → HasOutput l.neurons j o
  of_layer ls i j l o e f =
      let p : f.layer ≡ l = some_inj (sym f.found ∙ e) in
      (f.neuro, ap (λ x. get_elem? x.neurons j) (sym p) ∙ f.there, f.value)

  later :
      (x y : Layer) (ls ls' : List Layer) (i j : ℕ) (o : Double)
      → Fires F ls' i j o
      → Fires F (y ∷ ls') (suc i) j o
  later x y ls ls' i j o f = record {
    layer = f.layer;
    neuro = f.neuro;
    found = f.found;
    there = f.there;
    value = f.value;
  }

  earlier :
      (x : Layer) (ls : List Layer) (i j : ℕ) (o : Double)
      → Fires F (x ∷ ls) (suc i) j o
      → Fires F ls i j o
  earlier x ls i j o f = record {
    layer = f.layer;
    neuro = f.neuro;
    found = f.found;
    there = f.there;
    value = f.value;
  }

  propagate-Fires :
      (gain : Double) (xs : List Double) (ls : List Layer) (i j : ℕ) (o : Double)
      → Fires F ls i j o
      → Fires F (propagate F gain xs ls).0 i j o
  unfolding propagate
  propagate-Fires gain xs [] i j o f = f
  propagate-Fires gain xs (a ∷ []) zero j o f =
      in_layer _ zero j _ o refl
        (last_errors-HasOutput gain xs _ a.neurons j o (of_layer (a ∷ []) zero j a o refl f))
  propagate-Fires gain xs (a ∷ []) (suc i) j o f = later a _ [] [] i j o (earlier a [] i j o f)
  propagate-Fires gain xs (a ∷ b ∷ ls) zero j o f =
      in_layer _ zero j _ o refl
        (back-HasOutput gain _ a.neurons j o (of_layer (a ∷ b ∷ ls) zero j a o refl f))
  propagate-Fires gain xs (a ∷ b ∷ ls) (suc i) j o f =
      later a _ (b ∷ ls) (propagate F gain xs (b ∷ ls)).0 i j o
        (propagate-Fires gain xs (b ∷ ls) i j o (earlier a (b ∷ ls) i j o f))

  -- Where the links are in order, the output of every neuron after the first layer when
  -- `fire_nn` has ended is the sigmoid of the gain times its state before with what the layer
  -- below gives it, which is the weights times the outputs that that layer had before the call;
  -- neither `input` nor the values that are expected matter.
  pub fire_nn-Fires :
      (input : List Double) (expected : Option (List Double)) (nn : Nn) (k : ℕ) (a b : Layer)
      (j : ℕ) (n : Neuro)
      → AllNumbered nn.layers
      → get_elem? nn.layers k ≡ some a
      → get_elem? nn.layers (suc k) ≡ some b
      → get_elem? b.neurons j ≡ some n
      → Fires F
          (fire_nn F input expected nn).0.layers
          (suc k)
          j
          (F.sigmoid (F.mul nn.gain (received F a.neurons j n.state)))
  unfolding fire_nn
  fire_nn-Fires input none nn k a b j n h ea eb en =
      fire_layers-Fires F true nn.gain nn.layers k a b j n h ea eb en
  fire_nn-Fires input (some xs) nn k a b j n h ea eb en =
      propagate-Fires nn.gain xs (fire_layers F true nn.gain nn.layers) (suc k) j _
        (fire_layers-Fires F true nn.gain nn.layers k a b j n h ea eb en)
