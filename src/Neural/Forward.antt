-- ===== src/Neural/Forward.antt =====
-- The outputs that `fire_nn` of neuralnetwork.c computes.
use mathlib.Core.Path.{subst}
use aping.Base.{
  ℕ, zero, suc, ◌+◌, ◌<◌, List, [], ◌∷◌, Bool, Option, none, some, map, length, get_elem?,
  get_elem?-set_self, get_elem?-set_ne, ◌≡◌, ◌≢◌, refl, sym, ap, ◌∙◌, arith,
}
use aping.Neural.{Double, Link, Neuro}
use aping.Neural.Fire.{Arithmetic, add_state, push_links, settle, fire_neurons}

-- The links name the neurons of the next layer in order, from `i` on.
abbrev NumberedFrom : ℕ → List Link → Type 0
NumberedFrom i [] = Unit
NumberedFrom i (l ∷ ls) = (l.linkedneuro ≡ i) × NumberedFrom (i + 1) ls

abbrev pub Numbered : List Neuro → Type 0
Numbered [] = Unit
Numbered (n ∷ ns) = NumberedFrom 0 n.fp_np × Numbered ns

found-lt {ℓ} : {A : Type ℓ} (xs : List A) (i : ℕ) (x : A) → get_elem? xs i ≡ some x → i < length xs
found-lt [] i x h = cc
found-lt (y ∷ ys) zero x h = omega arith
found-lt (y ∷ ys) (suc i) x h = omega (arith, found-lt ys i x h)

module _ (F : Arithmetic) where
  -- What neuron `j` of the next layer has received from one neuron, and from a layer, after `s`.
  abbrev weighed : Option Link → Double → Double → Double
  weighed none output s = s
  weighed (some l) output s = F.add s (F.mul l.weight output)

  abbrev pub received : List Neuro → ℕ → Double → Double
  received [] j s = s
  received (n ∷ ns) j s = received ns j (weighed (get_elem? n.fp_np j) n.output s)

  add_state_other :
      (d : Double) (o : Option Neuro) (ns : List Neuro) (i j : ℕ)
      → i ≢ j
      → get_elem? (add_state F d o ns i) j ≡ get_elem? ns j
  add_state_other d none ns i j h = refl
  add_state_other d (some n) ns i j h = get_elem?-set_ne ns _ h

  add_state_self :
      (d : Double) (ns : List Neuro) (i : ℕ) (n : Neuro)
      → get_elem? ns i ≡ some n
      → get_elem? (add_state F d (get_elem? ns i) ns i) i
        ≡ some (record n { state = F.add n.state d })
  add_state_self d ns i n h =
      subst (λ o. get_elem? (add_state F d o ns i) i ≡ some (record n { state = F.add n.state d }))
        (sym h) (get_elem?-set_self ns i _ (found-lt ns i n h))

  push_links-below :
      (output : Double) (i : ℕ) (ls : List Link) (next : List Neuro) (j : ℕ)
      → NumberedFrom i ls
      → j < i
      → get_elem? (push_links F output ls next) j ≡ get_elem? next j
  unfolding push_links
  push_links-below output i [] next j h k = refl
  push_links-below output i (l ∷ ls) next j h k =
      let d = F.mul l.weight output in
      let o = get_elem? next l.linkedneuro in
      push_links-below output (i + 1) ls (add_state F d o next l.linkedneuro) j h.1 (omega arith)
      ∙ add_state_other d o next l.linkedneuro j (λ e. omega (arith, e, h.0))

  push_links-found :
      (output : Double) (i k j : ℕ) (ls : List Link) (next : List Neuro) (n : Neuro)
      → NumberedFrom i ls
      → j ≡ i + k
      → get_elem? next j ≡ some n
      → get_elem? (push_links F output ls next) j
        ≡ some (record n { state = weighed (get_elem? ls k) output n.state })
  unfolding push_links
  push_links-found output i k j [] next n h e f = f
  push_links-found output i zero j (l ∷ ls) next n h e f =
      let d = F.mul l.weight output in
      let p : l.linkedneuro ≡ j = omega (arith, h.0, e) in
      let at : get_elem? next l.linkedneuro ≡ some n = ap (get_elem? next) p ∙ f in
      push_links-below output (i + 1) ls
        (add_state F d (get_elem? next l.linkedneuro) next l.linkedneuro) j h.1 (omega arith)
      ∙ ap (get_elem? (add_state F d (get_elem? next l.linkedneuro) next l.linkedneuro)) (sym p)
      ∙ add_state_self d next l.linkedneuro n at
  push_links-found output i (suc k) j (l ∷ ls) next n h e f =
      let d = F.mul l.weight output in
      let o = get_elem? next l.linkedneuro in
      push_links-found output (i + 1) k j ls (add_state F d o next l.linkedneuro) n h.1
        (omega arith) (add_state_other d o next l.linkedneuro j (λ q. omega (arith, q, h.0, e)) ∙ f)

  -- The neurons of a layer give to each neuron of the next in turn.
  pub fire_neurons-found :
      (first : Bool) (gain : Double) (ns next : List Neuro) (j : ℕ) (n : Neuro)
      → Numbered ns
      → get_elem? next j ≡ some n
      → get_elem? (fire_neurons F first gain ns next).1 j
        ≡ some (record n { state = received ns j n.state })
  unfolding fire_neurons
  fire_neurons-found first gain [] next j n h f = f
  fire_neurons-found first gain (m ∷ ms) next j n h f =
      fire_neurons-found first gain ms (push_links F m.output m.fp_np next) j
        (record n { state = weighed (get_elem? m.fp_np j) m.output n.state }) h.1
        (push_links-found m.output 0 j j m.fp_np next n h.0 (omega arith) f)

  pub fire_neurons-settled :
      (first : Bool) (gain : Double) (ns next : List Neuro)
      → (fire_neurons F first gain ns next).0 ≡ map (settle F first gain) ns
  unfolding fire_neurons
  fire_neurons-settled first gain [] next = refl
  fire_neurons-settled first gain (m ∷ ms) next =
      ap (◌∷◌ (settle F first gain m))
        (fire_neurons-settled first gain ms (push_links F m.output m.fp_np next))
