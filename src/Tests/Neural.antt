-- ===== src/Tests/Neural.antt =====
-- The network.
use aping.Base.{ℕ, [], ◌∷◌, none, some, true, length, ◌≡◌, refl, arith}
use aping.Base.Text.{Text}
use aping.Base.Outcome.{ok}
use aping.Neural.{
  Double, double, zero_double, Link, Neuro, Nn, link_layers, alloc_layers, link_from,
}
use aping.Neural.Fire.{Arithmetic, fire_nn}
use aping.Neural.Forward.{received}
use aping.Neural.Outputs.{Fires}
use aping.Neural.Fired.{fire_nn-Fires}
use aping.Neural.File.{save_nn, load_nn}
use aping.Neural.Feed.{feed_from_file}
use aping.Neural.Feed.Records.{comma, return_newline, Field}
use aping.Neural.Feed.Whole.{Record, Fits, records_bytes, run_records, feed_from_file-records}
use aping.Neural.Saved.{IsNet, file_of, forgetful, load_nn-save}

abbrev one : Double
one = double 0 0 0 0 0 0 240 63

-- Two neurons that are linked to one.
abbrev weighted : Link
weighted = record { linkedneuro = 0; weight = one; weightsave = zero_double; deltaweight = one }

abbrev second : Link
second = record { linkedneuro = 1; weight = zero_double; weightsave = one; deltaweight = one }

abbrev low : Neuro
low = record { fp_np = weighted ∷ []; bp_np = []; state = zero_double; output = one; error = one }

abbrev high : Neuro
high = record {
  fp_np = [];
  bp_np = weighted ∷ second ∷ [];
  state = one;
  output = one;
  error = zero_double;
}

abbrev small : Nn
small = record {
  size = 2;
  layers =
      record { size = 2; neurons = low ∷ low ∷ [] } ∷ record { size = 1; neurons = high ∷ [] } ∷ [];
  life = 3;
  alpha = one;
  eta = zero_double;
  gain = one;
  error = zero_double;
}

small-IsNet : IsNet small
unfolding link_layers alloc_layers link_from
small-IsNet = record {
  shape = refl;
  counted = refl;
  least = omega arith;
  most = omega arith;
  small = (omega arith, (omega arith, tt));
  fits = omega arith;
}

load_nn-save_example :
    (save_nn true small ≡ (1, some (file_of small)))
    × (load_nn (file_of small) ≡ ok (forgetful small))
load_nn-save_example = load_nn-save small small-IsNet

-- Operations that are enough for a run: the sum is the last term.
abbrev coarse : Arithmetic
coarse = record {
  add = λ a b. b;
  sub = λ a b. a;
  mul = λ a b. b;
  one = one;
  half = zero_double;
  sigmoid = λ a. a;
}

fire_nn-Fires_example :
    Fires coarse
      (fire_nn coarse [] (some (one ∷ [])) small).0.layers
      1
      0
      (coarse.sigmoid (coarse.mul small.gain (received coarse (low ∷ low ∷ []) 0 high.state)))
fire_nn-Fires_example =
    fire_nn-Fires coarse [] (some (one ∷ [])) small 0
      (record { size = 2; neurons = low ∷ low ∷ [] }) (record { size = 1; neurons = high ∷ [] }) 0
      high (((refl, tt), ((refl, tt), tt)), ((tt, tt), tt)) refl refl refl

-- A file of one record: "1,2" and a line with "3", read as texts of one digit.
abbrev digit : ℕ → Field
digit d = record { text = d ∷ []; mark = comma }

abbrev one_record : Record
one_record = record {
  inputs = digit b'1' ∷ digit b'2' ∷ [];
  expecteds = record { text = b'3' ∷ []; mark = return_newline } ∷ [];
}

abbrev coarse_strtod : Text → Double
coarse_strtod t = double (length t) 0 0 0 0 0 0 0

feed_from_file-records_example :
    feed_from_file coarse coarse_strtod none []
      (some (records_bytes (one_record ∷ one_record ∷ [])))
      small
    ≡ ok (run_records coarse coarse_strtod none small (one_record ∷ one_record ∷ []))
feed_from_file-records_example =
    feed_from_file-records coarse coarse_strtod none [] small (one_record ∷ one_record ∷ [])
      (omega arith) (omega arith) (omega arith) (fitting, (fitting, tt))
  where
    fitting : Fits 2 1 one_record
    fitting = record {
      enough_inputs = refl;
      enough_expecteds = refl;
      inputs_fit = ((cc, omega arith, omega arith), ((cc, omega arith, omega arith), tt));
      expecteds_fit = ((cc, omega arith, omega arith), tt);
    }
