-- ===== src/Neural/File.antt =====
-- neuralnetwork.c: the file of a network, written by `save_nn` and read by `load_nn`. The numbers are in
-- the order of a little-endian host.
use aping.Base.{
  ℕ, zero, suc, ◌+◌, ◌*◌, ◌/◌, ◌%◌, ◌^◌, List, [], ◌∷◌, ◌++◌, Bool, not, Option, none, some, drop,
  length, ◌==◌, if◌then◌else◌,
}
use aping.Base.Outcome.{Run, ok, fatal, Fault, ◌>>=◌, ◌>>◌, require}
use aping.Watermark.{eth_crc}
use aping.Neural.{Double, double, Link, Neuro, Layer, Nn, create_nn}

abbrev pub bytes16 : ℕ → List ℕ
bytes16 n = n % 256 ∷ n / 256 % 256 ∷ []

abbrev pub bytes32 : ℕ → List ℕ
bytes32 n = n % 256 ∷ n / 256 % 256 ∷ n / 65536 % 256 ∷ n / 16777216 % 256 ∷ []

abbrev pub bytes64 : Double → List ℕ
bytes64 (double a b c d e f g h) = a ∷ b ∷ c ∷ d ∷ e ∷ f ∷ g ∷ h ∷ []

-- What is written of each element, in sequence.
unfoldable pub save_each {ℓ} : {A : Type ℓ} → (A → List ℕ) → List A → List ℕ
save_each save [] = []
save_each save (a ∷ as') = save a ++ save_each save as'

abbrev pub save_neuro : Neuro → List ℕ
save_neuro n = bytes64 n.state ++ (bytes64 n.output ++ bytes64 n.error)

abbrev pub save_link : Link → List ℕ
save_link l = bytes64 l.weight ++ (bytes64 l.weightsave ++ bytes64 l.deltaweight)

abbrev pub save_neuros : Layer → List ℕ
save_neuros l = save_each save_neuro l.neurons

abbrev pub save_forward : Layer → List ℕ
save_forward l = save_each (λ n. save_each save_link n.fp_np) l.neurons

abbrev pub save_backward : Layer → List ℕ
save_backward l = save_each (λ n. save_each save_link n.bp_np) l.neurons

-- The last layer has no links forward, and the first none back.
abbrev pub save_layers : List Layer → List ℕ
save_layers ls =
    save_each save_neuros ls ++ (save_each save_forward ls ++ save_each save_backward ls)

abbrev pub save_head : Nn → List ℕ
save_head nn =
    bytes16 nn.size
    ++ (bytes32 nn.life
        ++ (bytes64 nn.alpha ++ (bytes64 nn.eta ++ (bytes64 nn.gain ++ bytes64 nn.error))))

abbrev pub save_body : Nn → List ℕ
save_body nn = save_head nn ++ (save_each (λ l. bytes32 l.size) nn.layers ++ save_layers nn.layers)

-- The result, and what is in the file afterwards; `opens` says whether `fopen` succeeds.
unfoldable pub save_nn : Bool → Nn → ℕ × Option (List ℕ)
save_nn opens nn =
    let body = save_body nn in
    if opens then (1, some (bytes32 (eth_crc body) ++ body)) else (0, none)

-- `RESTORE_AND_SEEK`: what was read, and the rest; a read past the file is a fault of the model.
abbrev pub Restored : Type 0 → Type 0
Restored A = Run (A × List ℕ)

unfoldable pub restore16 : List ℕ → Restored ℕ
restore16 (a ∷ b ∷ bs) = ok (a + 256 * b, bs)
restore16 bs = fatal Fault.bad_index

unfoldable pub restore32 : List ℕ → Restored ℕ
restore32 (a ∷ b ∷ c ∷ d ∷ bs) = ok (a + 256 * b + 65536 * c + 16777216 * d, bs)
restore32 bs = fatal Fault.bad_index

unfoldable pub restore64 : List ℕ → Restored Double
restore64 (a ∷ b ∷ c ∷ d ∷ e ∷ f ∷ g ∷ h ∷ bs) = ok (double a b c d e f g h, bs)
restore64 bs = fatal Fault.bad_index

-- Each element in turn.
unfoldable pub restore_each :
    {A : Type 0} → (A → List ℕ → Restored A) → List A → List ℕ → Restored (List A)
restore_each restore [] bs = ok ([], bs)
restore_each restore (a ∷ as') bs = do
  p ← restore a bs
  q ← restore_each restore as' p.1
  ok (p.0 ∷ q.0, q.1)

unfoldable pub restore_neuro : Neuro → List ℕ → Restored Neuro
unfolding restore64
restore_neuro n bs = do
  s ← restore64 bs
  o ← restore64 s.1
  e ← restore64 o.1
  ok (record n { state = s.0; output = o.0; error = e.0 }, e.1)

unfoldable pub restore_link : Link → List ℕ → Restored Link
unfolding restore64
restore_link l bs = do
  w ← restore64 bs
  s ← restore64 w.1
  d ← restore64 s.1
  ok (record l { weight = w.0; weightsave = s.0; deltaweight = d.0 }, d.1)

-- The neurons of a layer.
unfoldable pub restore_layer : (Neuro → List ℕ → Restored Neuro) → Layer → List ℕ → Restored Layer
restore_layer restore l bs =
    restore_each restore l.neurons bs >>= λ p. ok (record l { neurons = p.0 }, p.1)

abbrev pub restore_neuros : Layer → List ℕ → Restored Layer
restore_neuros l bs = restore_layer restore_neuro l bs

abbrev pub forward_of : Neuro → List ℕ → Restored Neuro
forward_of n bs = restore_each restore_link n.fp_np bs >>= λ p. ok (record n { fp_np = p.0 }, p.1)

abbrev pub backward_of : Neuro → List ℕ → Restored Neuro
backward_of n bs = restore_each restore_link n.bp_np bs >>= λ p. ok (record n { bp_np = p.0 }, p.1)

abbrev pub restore_forward : Layer → List ℕ → Restored Layer
restore_forward l bs = restore_layer forward_of l bs

abbrev pub restore_backward : Layer → List ℕ → Restored Layer
restore_backward l bs = restore_layer backward_of l bs

-- `n` sizes of layers.
unfoldable pub restore_sizes : ℕ → List ℕ → Restored (List ℕ)
restore_sizes zero bs = ok ([], bs)
restore_sizes (suc n) bs = do p ← restore32 bs; q ← restore_sizes n p.1; ok (p.0 ∷ q.0, q.1)

-- The sums of the check: the neurons, and the links of neighbouring layers, both ways.
abbrev pub neuro_count : List ℕ → ℕ
neuro_count [] = 0
neuro_count (n ∷ ns) = n + neuro_count ns

abbrev pub link_count : List ℕ → ℕ
link_count [] = 0
link_count (n ∷ ns) = elim ns [ [] ↦ 0 | m ∷ ms ↦ n * m * 2 + link_count ns ]

-- `smartpeoplecheck`.
abbrev pub file_size : List ℕ → ℕ
file_size pn = 4 + 4 * 8 + 2 + 4 + length pn * 4 + neuro_count pn * 3 * 8 + link_count pn * 3 * 8

unfoldable pub restore_layers : List Layer → List ℕ → Restored (List Layer)
restore_layers ls bs = do
  p ← restore_each restore_neuros ls bs
  q ← restore_each restore_forward p.0 p.1
  restore_each restore_backward q.0 q.1

-- `load_nn` of the bytes of a file. The fields from `life` to `error` are skipped.
unfoldable pub load_nn : List ℕ → Run Nn
load_nn file = do
  crc ← restore32 file
  require (crc.0 == eth_crc crc.1) Fault.exited
  size ← restore16 crc.1
  sizes ← restore_sizes size.0 (drop (4 + 4 * 8) size.1)
  require (not (size.0 == 0)) Fault.bad_index
  require (file_size sizes.0 % 2 ^ 32 == length file) Fault.exited
  nn ← create_nn sizes.0
  ls ← restore_layers nn.layers sizes.1
  ok (record nn { layers = ls.0 })
