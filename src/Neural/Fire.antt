-- ===== src/Neural/Fire.antt =====
-- neuralnetwork.c: `randomize_nn` and `fire_nn`. The operations on doubles and the random numbers are
-- parameters; a link to a neuron that is not there changes nothing.
use aping.Base.{ℕ, List, [], ◌∷◌, Bool, true, false, Option, none, some, map, get_elem?, set}
use aping.Neural.{Double, zero_double, Link, Neuro, Layer, Nn}

-- `a + b`, `a - b`, `a * b`, 1, .5, and `1 / (1 + exp (-x))`.
pub record Arithmetic : Type 0 where
  pub add : Double → Double → Double
  pub sub : Double → Double → Double
  pub mul : Double → Double → Double
  pub one : Double
  pub half : Double
  pub sigmoid : Double → Double

-- The weights of one array of links are drawn in order; the rest of the numbers is kept.
unfoldable draw : List Double → List Link → List Link × List Double
draw rs [] = ([], rs)
draw [] (l ∷ ls) = (l ∷ ls, [])
draw (r ∷ rs) (l ∷ ls) = let (ls', rs') = draw rs ls in (record l { weight = r } ∷ ls', rs')

unfoldable draw_neurons : List Double → List Neuro → List Neuro × List Double
unfolding draw
draw_neurons rs [] = ([], rs)
draw_neurons rs (n ∷ ns) =
    let (ls, rs') = draw rs n.fp_np in
    let (ns', rs'') = draw_neurons rs' ns in (record n { fp_np = ls } ∷ ns', rs'')

unfoldable draw_layers : List Double → List Layer → List Layer
unfolding draw_neurons
draw_layers rs [] = []
draw_layers rs (l ∷ ls) =
    let (ns, rs') = draw_neurons rs l.neurons in record l { neurons = ns } ∷ draw_layers rs' ls

-- `rs` are the values of `(double) rand () / RAND_MAX - .5`.
unfoldable randomize_nn : List Double → Nn → Nn
unfolding draw_layers
randomize_nn rs nn = record nn { layers = draw_layers rs nn.layers }

module _ (F : Arithmetic) where
  abbrev pub add_state : Double → Option Neuro → List Neuro → ℕ → List Neuro
  add_state d none ns i = ns
  add_state d (some n) ns i = set ns i (record n { state = F.add n.state d })

  -- `linkedneuro->state += weight * output`, for each link.
  unfoldable pub push_links : Double → List Link → List Neuro → List Neuro
  push_links output [] next = next
  push_links output (l ∷ ls) next =
      push_links output ls
        (add_state (F.mul l.weight output) (get_elem? next l.linkedneuro) next l.linkedneuro)

  -- The output of a neuron; the first layer keeps its own.
  abbrev pub settle : Bool → Double → Neuro → Neuro
  settle true gain n = n
  settle false gain n = record n { output = F.sigmoid (F.mul gain n.state); state = zero_double }

  -- The neurons of a layer, and the next layer: the links take the output from before.
  unfoldable pub fire_neurons : Bool → Double → List Neuro → List Neuro → List Neuro × List Neuro
  unfolding push_links
  fire_neurons first gain [] next = ([], next)
  fire_neurons first gain (n ∷ ns) next =
      let (ns', next') = fire_neurons first gain ns (push_links n.output n.fp_np next) in
      (settle first gain n ∷ ns', next')

  unfoldable pub fire_layers : Bool → Double → List Layer → List Layer
  unfolding fire_neurons
  fire_layers first gain [] = []
  fire_layers first gain (a ∷ []) =
      record a { neurons = (fire_neurons first gain a.neurons []).0 } ∷ []
  fire_layers first gain (a ∷ b ∷ ls) =
      let (ns, next) = fire_neurons first gain a.neurons b.neurons in
      record a { neurons = ns } ∷ fire_layers false gain (record b { neurons = next } ∷ ls)

  abbrev pub outputs : List Layer → List Double
  outputs [] = []
  outputs (l ∷ []) = map (λ n. n.output) l.neurons
  outputs (l ∷ m ∷ ls) = outputs (m ∷ ls)

  -- `gain * out * (1 - out) * error`.
  abbrev slope : Double → Double → Double → Double
  slope gain out error = F.mul (F.mul (F.mul gain out) (F.sub F.one out)) error

  -- The errors of the last layer, and their sum, for the values that were expected.
  unfoldable pub last_errors : Double → List Double → Double → List Neuro → List Neuro × Double
  last_errors gain expected total [] = ([], total)
  last_errors gain [] total (n ∷ ns) = (n ∷ ns, total)
  last_errors gain (x ∷ xs) total (n ∷ ns) =
      let error = F.sub x n.output in
      let (ns', total') = last_errors gain xs (F.add total (F.mul (F.mul F.half error) error)) ns in
      (record n { error = slope gain n.output error } ∷ ns', total')

  abbrev error_of : Option Neuro → Double
  error_of none = zero_double
  error_of (some n) = n.error

  -- `error += weight * linkedneuro->error`, for each link.
  unfoldable pub sum_errors : List Neuro → Double → List Link → Double
  sum_errors next total [] = total
  sum_errors next total (l ∷ ls) =
      sum_errors next (F.add total (F.mul l.weight (error_of (get_elem? next l.linkedneuro)))) ls

  abbrev pub back_neuro : Double → List Neuro → Neuro → Neuro
  back_neuro gain next n = record n {
    error = slope gain n.output (sum_errors next zero_double n.fp_np);
  }

  abbrev first_neurons : List Layer → List Neuro
  first_neurons [] = []
  first_neurons (l ∷ ls) = l.neurons

  -- The layers from the last one back to the first.
  unfoldable pub propagate : Double → List Double → List Layer → List Layer × Double
  unfolding last_errors sum_errors
  propagate gain expected [] = ([], zero_double)
  propagate gain expected (a ∷ []) =
      let (ns, total) = last_errors gain expected zero_double a.neurons in
      (record a { neurons = ns } ∷ [], total)
  propagate gain expected (a ∷ b ∷ ls) =
      let (ls', total) = propagate gain expected (b ∷ ls) in
      (record a { neurons = map (back_neuro gain (first_neurons ls')) a.neurons } ∷ ls', total)

  -- The network afterwards, and what is written to `output`. `input` is not used, and without
  -- `expected` nothing is propagated back.
  unfoldable pub fire_nn : List Double → Option (List Double) → Nn → Nn × List Double
  unfolding fire_layers propagate
  fire_nn input expected nn =
      let ls = fire_layers true nn.gain nn.layers in
      elim expected [
        | none ↦ (record nn { layers = ls }, outputs ls)
        | some xs ↦
            let (ls', total) = propagate nn.gain xs ls in
            (record nn { layers = ls'; error = total }, outputs ls)
      ]
