-- ===== src/Neural/Saved.antt =====
-- `load_nn` of neuralnetwork.c on the file that `save_nn` has written.
use mathlib.Core.Path.{subst}
use mathlib.Core.List.{append-nil}
use aping.Base.{
  ℕ, ◌*◌, ◌%◌, ◌^◌, ◌<◌, ◌≤◌, List, [], ◌∷◌, ◌++◌, true, false, some, take, drop, length,
  length-append, length-map, ltb, ◌==◌, ◌≡◌, refl, sym, ap, ◌∙◌, arith,
}
use aping.Base.Outcome.{ok}
use aping.Watermark.{eth_crc}
use aping.Watermark.Crc.{eth_crc-lt}
use aping.Neural.{
  Double, double, zero_double, Layer, Nn, new_nn, create_nn, alloc_layers, link_layers,
}
use aping.Neural.File.{
  bytes16, bytes32, bytes64, save_each, save_layers, save_head, save_body, save_nn, restore16,
  restore_sizes, restore_layers, file_size, load_nn,
}
use aping.Neural.Restore.{
  blank, sizes_of, SmallSizes, restore32-bytes32, restore_layers-save, restore_sizes-save,
}
use aping.Neural.Count.{Same, blank-Same, length-save_layers}
use aping.Neural.Shape.{
  link_layers-Same, alloc_layers-neurons, alloc_layers-forwards, alloc_layers-backwards,
}

-- A network that `create_nn` has made, whatever its values are now.
pub record IsNet (nn : Nn) : Type 0 where
  pub shape : blank nn.layers ≡ (new_nn (sizes_of nn.layers)).layers
  pub counted : nn.size ≡ length nn.layers
  pub least : 2 ≤ nn.size
  pub most : nn.size < 65536
  pub small : SmallSizes nn.layers
  pub fits : file_size (sizes_of nn.layers) < 2 ^ 32

-- The same without the fields that `load_nn` skips.
abbrev pub forgetful : Nn → Nn
forgetful nn = record nn {
  life = 0;
  alpha = zero_double;
  eta = zero_double;
  gain = zero_double;
  error = zero_double;
}

abbrev pub file_of : Nn → List ℕ
file_of nn = bytes32 (eth_crc (save_body nn)) ++ save_body nn

-- What stands between the size and the sizes of the layers.
abbrev skipped : Nn → List ℕ
skipped nn =
    bytes32 nn.life
    ++ (bytes64 nn.alpha ++ (bytes64 nn.eta ++ (bytes64 nn.gain ++ bytes64 nn.error)))

abbrev tail_of : Nn → List ℕ
tail_of nn = save_each (λ l. bytes32 l.size) nn.layers ++ save_layers nn.layers

restore16-body :
    (nn : Nn) → nn.size < 65536 → restore16 (save_body nn) ≡ ok (nn.size, skipped nn ++ tail_of nn)
unfolding restore16
restore16-body nn h = ap (λ n. ok (n, skipped nn ++ tail_of nn)) (omega arith)

drop_skipped :
    (n : ℕ) (a b c d : Double) (bs : List ℕ)
    → drop 36 ((bytes32 n ++ (bytes64 a ++ (bytes64 b ++ (bytes64 c ++ bytes64 d)))) ++ bs) ≡ bs
drop_skipped n (double _ _ _ _ _ _ _ _) (double _ _ _ _ _ _ _ _) (double _ _ _ _ _ _ _ _)
      (double _ _ _ _ _ _ _ _) bs =
    refl

length-skipped :
    (n m : ℕ) (a b c d : Double)
    → length (bytes16 m ++ (bytes32 n ++ (bytes64 a ++ (bytes64 b ++ (bytes64 c ++ bytes64 d)))))
      ≡ 38
length-skipped n m (double _ _ _ _ _ _ _ _) (double _ _ _ _ _ _ _ _) (double _ _ _ _ _ _ _ _)
      (double _ _ _ _ _ _ _ _) =
    refl

length-sizes : (ls : List Layer) → length (save_each (λ l. bytes32 l.size) ls) ≡ 4 * length ls
unfolding save_each
length-sizes [] = refl
length-sizes (l ∷ ls) = omega (arith, length-sizes ls)

Same-sym : (xs ys : List Layer) → Same xs ys → Same ys xs
Same-sym xs ys h = record {
  neurons = sym h.neurons;
  forwards = sym h.forwards;
  backwards = sym h.backwards;
}

-- The file has the length that `load_nn` expects, which is what `save_nn` allocates.
length-file_of : (nn : Nn) → IsNet nn → length (file_of nn) ≡ file_size (sizes_of nn.layers)
length-file_of nn h =
    let ls = nn.layers in
    let ns = sizes_of ls in
    let s : Same ls (link_layers (alloc_layers 0 ns)) =
      subst (Same ls) h.shape (Same-sym (blank ls) ls (blank-Same ls)) in
    let t = link_layers-Same (alloc_layers 0 ns) in
    omega (
      arith,
      length-append (save_head nn) (tail_of nn),
      length-append (save_each (λ l. bytes32 l.size) ls) (save_layers ls),
      length-skipped nn.life nn.size nn.alpha nn.eta nn.gain nn.error,
      length-sizes ls,
      length-map ls (λ l. l.size),
      length-save_layers ls,
      s.neurons,
      s.forwards,
      s.backwards,
      t.neurons,
      t.forwards,
      t.backwards,
      alloc_layers-neurons 0 ns,
      alloc_layers-forwards 0 ns,
      alloc_layers-backwards 0 ns,
    )

take_all : (xs : List ℕ) → take (length xs) xs ≡ xs
take_all [] = refl
take_all (x ∷ xs) = ap (◌∷◌ x) (take_all xs)

create_nn-ok : (pn : List ℕ) → 2 ≤ length pn → length pn < 65536 → create_nn pn ≡ ok (new_nn pn)
unfolding create_nn
create_nn-ok pn h k =
    let few : ltb (length pn) 2 ≡ false = not_less (length pn) h in
    let whole : length pn % 65536 ≡ length pn = omega arith in
    let layers : (length pn == 0) ≡ false = not_none (length pn) h in
    rw (few, whole, layers, take_all pn) refl
  where
    not_none : (n : ℕ) → 2 ≤ n → (n == 0) ≡ false
    not_none n h = ground arith

    not_less : (n : ℕ) → 2 ≤ n → ltb n 2 ≡ false
    not_less n h = ground arith

same_word : (n : ℕ) → (n == n) ≡ true
same_word n = ground arith

not_zero : (n : ℕ) → 2 ≤ n → (n == 0) ≡ false
not_zero n h = ground arith

same_size : (n m : ℕ) → m ≡ n → n < 2 ^ 32 → (n % 2 ^ 32 == m) ≡ true
same_size n m e h = ground arith

-- For a network that `create_nn` has shaped, of 2 to 65535 layers with sizes of 32 bits and a
-- file shorter than 2 ^ 32 bytes: `load_nn` accepts the file that `save_nn` writes, and gives
-- back the sizes and all values of neurons and links, with 0 for the life, the factors and the
-- error of the network.
pub load_nn-save :
    (nn : Nn)
    → IsNet nn
    → (save_nn true nn ≡ (1, some (file_of nn))) × (load_nn (file_of nn) ≡ ok (forgetful nn))
unfolding save_nn load_nn
load_nn-save nn h =
    let ls = nn.layers in
    let ns = sizes_of ls in
    let body = save_body nn in
    let layers = save_layers ls in
    let count : length ns ≡ nn.size = length-map ls (λ l. l.size) ∙ sym h.counted in
    let e1 = restore32-bytes32 (eth_crc body) body (eth_crc-lt body) in
    let e2 = restore16-body nn h.most in
    let e3 = drop_skipped nn.life nn.alpha nn.eta nn.gain nn.error (tail_of nn) in
    let e4 : restore_sizes nn.size (tail_of nn) ≡ ok (ns, layers) =
      ap (λ n. restore_sizes n (tail_of nn)) h.counted ∙ restore_sizes-save ls layers h.small in
    let e5 : (file_size ns % 2 ^ 32 == length (file_of nn)) ≡ true =
      same_size (file_size ns) (length (file_of nn)) (length-file_of nn h) h.fits in
    let e6 = create_nn-ok ns (omega (arith, count, h.least)) (omega (arith, count, h.most)) in
    let e7 : restore_layers (new_nn ns).layers layers ≡ ok (ls, []) =
      ap (λ x. restore_layers x layers) (sym h.shape)
      ∙ ap (restore_layers (blank ls)) (sym (append-nil layers))
      ∙ restore_layers-save ls [] in
    (
      refl,
      rw (e1, same_word (eth_crc body), e2, e3, e4, not_zero nn.size h.least, e5, e6, e7, count)
          refl,
    )
