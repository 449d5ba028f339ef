-- ===== src/Neural/Outputs.antt =====
-- The outputs of the layers after the first, when `fire_nn` of neuralnetwork.c has gone forward.
use mathlib.Core.Path.{subst}
use aping.Base.{
  ℕ, zero, suc, List, [], ◌∷◌, Bool, false, some, map, get_elem?, set, ◌≡◌, refl, sym, ap, ◌∙◌, inl,
  inr, Option-cases,
}
use aping.Neural.{Double, Link, Neuro, Layer}
use aping.Neural.Fire.{Arithmetic, add_state, push_links, settle, fire_neurons, fire_layers}
use aping.Neural.Forward.{Numbered, received, fire_neurons-found, fire_neurons-settled}

abbrev pub AllNumbered : List Layer → Type 0
AllNumbered [] = Unit
AllNumbered (l ∷ ls) = Numbered l.neurons × AllNumbered ls

pub some_inj {ℓ} : {A : Type ℓ} {x y : A} → some x ≡ some y → x ≡ y
some_inj e = cc

pub get_elem?-map :
    {A : Type 0} (f : A → A) (xs : List A) (i : ℕ) (x : A)
    → get_elem? xs i ≡ some x
    → get_elem? (map f xs) i ≡ some (f x)
get_elem?-map f [] i x h = cc
get_elem?-map f (y ∷ ys) zero x h = ap (λ z. some (f z)) (some_inj h)
get_elem?-map f (y ∷ ys) (suc i) x h = get_elem?-map f ys i x h

module _ (F : Arithmetic) where
  -- A change of states keeps what the layer gives, and its links.
  record Gives (xs ys : List Neuro) : Type 0 where
    equal : (j : ℕ) (s : Double) → received F xs j s ≡ received F ys j s
    numbered : Numbered ys → Numbered xs

  Gives-refl : (xs : List Neuro) → Gives xs xs
  Gives-refl xs = record { equal = λ j s. refl; numbered = λ h. h }

  Gives-trans : (xs ys zs : List Neuro) → Gives xs ys → Gives ys zs → Gives xs zs
  Gives-trans xs ys zs h k = record {
    equal = λ j s. h.equal j s ∙ k.equal j s;
    numbered = λ n. h.numbered (k.numbered n);
  }

  set-Gives :
      (ns : List Neuro) (i : ℕ) (n : Neuro) (v : Double)
      → get_elem? ns i ≡ some n
      → Gives (set ns i (record n { state = v })) ns
  set-Gives [] i n v h = cc
  set-Gives (x ∷ xs) zero n v h =
      subst (λ y. Gives (record y { state = v } ∷ xs) (x ∷ xs)) (some_inj h)
        (record { equal = λ j s. refl; numbered = λ k. k })
  set-Gives (x ∷ xs) (suc i) n v h =
      let k = set-Gives xs i n v h in
      record { equal = λ j s. k.equal j _; numbered = λ m. (m.0, k.numbered m.1) }

  add_state-Gives :
      (d : Double) (ns : List Neuro) (i : ℕ) → Gives (add_state F d (get_elem? ns i) ns i) ns
  add_state-Gives d ns i = elim (Option-cases (get_elem? ns i)) [
    | inl e ↦ subst (λ o. Gives (add_state F d o ns i) ns) (sym e) (Gives-refl ns)
    | inr (n, e) ↦ subst (λ o. Gives (add_state F d o ns i) ns) (sym e) (set-Gives ns i n _ e)
  ]

  push_links-Gives :
      (output : Double) (ls : List Link) (next : List Neuro)
      → Gives (push_links F output ls next) next
  unfolding push_links
  push_links-Gives output [] next = Gives-refl next
  push_links-Gives output (l ∷ ls) next =
      let d = F.mul l.weight output in
      let mid = add_state F d (get_elem? next l.linkedneuro) next l.linkedneuro in
      Gives-trans (push_links F output ls mid) mid next (push_links-Gives output ls mid)
        (add_state-Gives d next l.linkedneuro)

  fire_neurons-Gives :
      (first : Bool) (gain : Double) (ns next : List Neuro)
      → Gives (fire_neurons F first gain ns next).1 next
  unfolding fire_neurons
  fire_neurons-Gives first gain [] next = Gives-refl next
  fire_neurons-Gives first gain (n ∷ ns) next =
      let mid = push_links F n.output n.fp_np next in
      Gives-trans (fire_neurons F first gain ns mid).1 mid next
        (fire_neurons-Gives first gain ns mid) (push_links-Gives n.output n.fp_np next)

  -- The next layer after it has received.
  abbrev filled : Bool → Double → Layer → Layer → Layer
  filled first gain a b = record b { neurons = (fire_neurons F first gain a.neurons b.neurons).1 }

  -- The first of the layers, fired.
  head-settled :
      (first : Bool) (gain : Double) (a : Layer) (ls : List Layer)
      → (c : Layer) × (get_elem? (fire_layers F first gain (a ∷ ls)) 0 ≡ some c)
        × (c.neurons ≡ map (settle F first gain) a.neurons)
  unfolding fire_layers
  head-settled first gain a [] = (_, refl, fire_neurons-settled F first gain a.neurons [])
  head-settled first gain a (b ∷ ls) =
      (_, refl, fire_neurons-settled F first gain a.neurons b.neurons)

  fire_layers-cons :
      (first : Bool) (gain : Double) (a b : Layer) (ls : List Layer) (k : ℕ)
      → get_elem? (fire_layers F first gain (a ∷ b ∷ ls)) (suc k)
        ≡ get_elem? (fire_layers F false gain (filled first gain a b ∷ ls)) k
  unfolding fire_layers
  fire_layers-cons first gain a b ls k = refl

  -- Neuron `j` of layer `i` after the run has this output.
  pub record Fires (ls : List Layer) (i j : ℕ) (output : Double) : Type 0 where
    pub layer : Layer
    pub neuro : Neuro
    pub found : get_elem? ls i ≡ some layer
    pub there : get_elem? layer.neurons j ≡ some neuro
    pub value : neuro.output ≡ output

  pub fire_layers-Fires :
      (first : Bool) (gain : Double) (ls : List Layer) (k : ℕ) (a b : Layer) (j : ℕ) (n : Neuro)
      → AllNumbered ls
      → get_elem? ls k ≡ some a
      → get_elem? ls (suc k) ≡ some b
      → get_elem? b.neurons j ≡ some n
      → Fires
          (fire_layers F first gain ls)
          (suc k)
          j
          (F.sigmoid (F.mul gain (received F a.neurons j n.state)))
  fire_layers-Fires first gain [] k a b j n h ea eb en = cc
  fire_layers-Fires first gain (x ∷ []) k a b j n h ea eb en = cc
  fire_layers-Fires first gain (x ∷ y ∷ ls) zero a b j n h ea eb en =
      let (c, e, s) = head-settled false gain (filled first gain x y) ls in
      let m : get_elem? y.neurons j ≡ some n = ap (λ l. get_elem? l.neurons j) (some_inj eb) ∙ en in
      let f = fire_neurons-found F first gain x.neurons y.neurons j n h.0 m in
      record {
        layer = c;
        neuro = settle F false gain (record n { state = received F x.neurons j n.state });
        found = fire_layers-cons first gain x y ls 0 ∙ e;
        there =
            ap (λ ns. get_elem? ns j) s
            ∙ get_elem?-map (settle F false gain) (filled first gain x y).neurons j _ f;
        value = ap (λ l. F.sigmoid (F.mul gain (received F l.neurons j n.state))) (some_inj ea);
      }
  fire_layers-Fires first gain (x ∷ y ∷ ls) (suc zero) a b j n h ea eb en =
      let g = fire_neurons-Gives first gain x.neurons y.neurons in
      let r =
        fire_layers-Fires false gain (filled first gain x y ∷ ls) zero (filled first gain x y) b j n
          (g.numbered h.1.0, h.1.1) refl eb en in
      record {
        layer = r.layer;
        neuro = r.neuro;
        found = fire_layers-cons first gain x y ls 1 ∙ r.found;
        there = r.there;
        value =
            r.value
            ∙ ap (λ s. F.sigmoid (F.mul gain s))
                (g.equal j n.state ∙ ap (λ l. received F l.neurons j n.state) (some_inj ea));
      }
  fire_layers-Fires first gain (x ∷ y ∷ ls) (suc (suc k)) a b j n h ea eb en =
      let g = fire_neurons-Gives first gain x.neurons y.neurons in
      let r =
        fire_layers-Fires false gain (filled first gain x y ∷ ls) (suc k) a b j n
          (g.numbered h.1.0, h.1.1) ea eb en in
      record {
        layer = r.layer;
        neuro = r.neuro;
        found = fire_layers-cons first gain x y ls (suc (suc k)) ∙ r.found;
        there = r.there;
        value = r.value;
      }
