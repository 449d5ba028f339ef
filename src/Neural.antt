-- ===== src/Neural.antt =====
-- neuralnetwork.c: the layers, neurons and links of a network, and their allocation. A double is the
-- eight bytes of its representation, and memory from `calloc` is 0. An array of links is the
-- list of its elements: it has as many as the neighbouring layer has neurons. A link names its neuron by
-- the place in the other layer.
pub mod Fire
pub mod Forward
pub mod Outputs
pub mod Fired
pub mod Feed
pub mod File
pub mod Count
pub mod Shape
pub mod Restore
pub mod Saved
use aping.Base.{
  ◌==◌, ℕ, zero, suc, ◌+◌, ◌*◌, ◌%◌, ◌^◌, List, [], ◌∷◌, ◌++◌, map, take, length, replicate, ltb,
  if◌then◌else◌,
}
use aping.Base.Outcome.{Run, ok, fatal, Fault, ◌>>=◌, require}

pub data Double : Type 0 where
  double : ℕ → ℕ → ℕ → ℕ → ℕ → ℕ → ℕ → ℕ → Double

abbrev pub zero_double : Double
zero_double = double 0 0 0 0 0 0 0 0

-- `LINK`.
pub record Link : Type 0 where
  pub linkedneuro : ℕ
  pub weight : Double
  pub weightsave : Double
  pub deltaweight : Double

-- `NEURO`, and `LAYER` with its neurons.
pub record Neuro : Type 0 where
  pub fp_np : List Link
  pub bp_np : List Link
  pub state : Double
  pub output : Double
  pub error : Double

pub record Layer : Type 0 where
  pub size : ℕ
  pub neurons : List Neuro

pub record Nn : Type 0 where
  pub size : ℕ
  pub layers : List Layer
  pub life : ℕ
  pub alpha : Double
  pub eta : Double
  pub gain : Double
  pub error : Double

abbrev zero_link : Link
zero_link = record {
  linkedneuro = 0;
  weight = zero_double;
  weightsave = zero_double;
  deltaweight = zero_double;
}

abbrev pub zero_neuro : ℕ → ℕ → Neuro
zero_neuro psize nsize = record {
  fp_np = replicate nsize zero_link;
  bp_np = replicate psize zero_link;
  state = zero_double;
  output = zero_double;
  error = zero_double;
}

abbrev pub alloc_layer : ℕ → ℕ → ℕ → Layer
alloc_layer size psize nsize = record {
  size = size;
  neurons = replicate size (zero_neuro psize nsize);
}

-- One array of links is set to the neurons of a layer, in order, from the place `i` on.
unfoldable pub link_from : ℕ → List Link → List Link
link_from i [] = []
link_from i (l ∷ ls) = record l { linkedneuro = i } ∷ link_from (i + 1) ls

abbrev pub link_forward : Neuro → Neuro
link_forward n = record n { fp_np = link_from 0 n.fp_np }

abbrev pub link_backward : Neuro → Neuro
link_backward n = record n { bp_np = link_from 0 n.bp_np }

-- The links of layer `a` forward to `b`, and those of `b` back to `a`.
abbrev forward_linked : Layer → Layer
forward_linked a = record a { neurons = map link_forward a.neurons }

abbrev pub backward_linked : Layer → Layer
backward_linked b = record b { neurons = map link_backward b.neurons }

-- The calls of `link_layers` for each layer and the next.
unfoldable pub link_layers : List Layer → List Layer
link_layers [] = []
link_layers (a ∷ []) = a ∷ []
link_layers (a ∷ b ∷ ls) = forward_linked a ∷ link_layers (backward_linked b ∷ ls)

abbrev pub next_size : List ℕ → ℕ
next_size [] = 0
next_size (n ∷ ns) = n

-- The layers of these sizes, after a layer of the size `psize`.
unfoldable pub alloc_layers : ℕ → List ℕ → List Layer
alloc_layers psize [] = []
alloc_layers psize (n ∷ ns) = alloc_layer n psize (next_size ns) ∷ alloc_layers n ns

abbrev pub new_nn : List ℕ → Nn
new_nn pn = record {
  size = length pn;
  layers = link_layers (alloc_layers 0 pn);
  life = 0;
  alpha = zero_double;
  eta = zero_double;
  gain = zero_double;
  error = zero_double;
}

-- `pn` has `size` elements, which `nn->size` holds in 16 bits; where it holds 0, the first layer is NULL and
-- its next one is read.
unfoldable pub create_nn : List ℕ → Run Nn
create_nn pn =
    if ltb (length pn) 2
    then fatal Fault.exited
    else if length pn % 65536 == 0
    then fatal Fault.bad_index
    else ok (new_nn (take (length pn % 65536) pn))
