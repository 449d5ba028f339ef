-- ===== src/Neural/Feed/Whole.antt =====
-- What `feed_from_file` of neuralnetwork.c does with a whole file of records.
use mathlib.Core.List.{append_assoc}
use aping.Base.{
  ℕ, zero, suc, ◌+◌, ◌≤◌, ◌<◌, List, [], ◌∷◌, ◌++◌, Option, some, map, length, length-append, ◌≡◌,
  refl, sym, arith,
}
use aping.Base.Text.{Text}
use aping.Base.Outcome.{ok}
use aping.Neural.{Double, Nn}
use aping.Neural.Fire.{Arithmetic, fire_nn}
use aping.Neural.Feed.{
  got, read_text, read_number, read_numbers, input_end, expected_end, Fed, fed, Callback, called,
  first_size, last_size, feed_record, feed_loop, feed_from_file,
}
use aping.Neural.Feed.Records.{
  Mark, comma, newline, return_comma, return_newline, mark_bytes, Field, field_bytes, fields_bytes,
  AllNumbers, last_text, read_numbers-fields,
}

pub record Record : Type 0 where
  pub inputs : List Field
  pub expecteds : List Field

abbrev record_bytes : Record → List ℕ
record_bytes r = fields_bytes r.inputs ++ fields_bytes r.expecteds

abbrev pub records_bytes : List Record → List ℕ
records_bytes [] = []
records_bytes (r ∷ rs) = record_bytes r ++ records_bytes rs

-- As many numbers as the network has inputs and outputs, each of which fits the buffer.
pub record Fits (m n : ℕ) (r : Record) : Type 0 where
  pub enough_inputs : length r.inputs ≡ m
  pub enough_expecteds : length r.expecteds ≡ n
  pub inputs_fit : AllNumbers r.inputs
  pub expecteds_fit : AllNumbers r.expecteds

abbrev AllFit : ℕ → ℕ → List Record → Type 0
AllFit m n [] = Unit
AllFit m n (r ∷ rs) = Fits m n r × AllFit m n rs

module _ (F : Arithmetic) (strtod : Text → Double) (callback : Option Callback) where
  abbrev pub values : List Field → List Double
  values fs = map (λ f. strtod f.text) fs

  -- The network is run on the records in order, and the callback is given each.
  abbrev run_record : Nn → Record → Nn × Fed
  run_record nn r =
      let (nn', output) = fire_nn F (values r.inputs) (some (values r.expecteds)) nn in
      let f = fed (values r.inputs) (values r.expecteds) output in (called callback nn' f, f)

  abbrev pub run_records : Nn → List Record → Nn × List Fed
  run_records nn [] = (nn, [])
  run_records nn (r ∷ rs) =
      let (nn', f) = run_record nn r in let (nn'', fs) = run_records nn' rs in (nn'', f ∷ fs)

  feed_record-Fits :
      (m n : ℕ) (nn : Nn) (old : Text) (r : Record) (rest : List ℕ)
      → m ≤ 98
      → n ≤ 98
      → Fits m n r
      → feed_record F strtod callback m n nn old (record_bytes r ++ rest)
        ≡ ok (
            got
              (
                (run_record nn r).0,
                last_text (last_text old r.inputs) r.expecteds,
                (run_record nn r).1,
              )
              rest)
  unfolding feed_record
  feed_record-Fits m n nn old r rest hm hn fits =
      rw
        (
          append_assoc (fields_bytes r.inputs) (fields_bytes r.expecteds) rest,
          sym fits.enough_inputs,
          sym fits.enough_expecteds,
          read_numbers-fields input_end strtod 0 old r.inputs (fields_bytes r.expecteds ++ rest)
              (omega (arith, fits.enough_inputs)) fits.inputs_fit,
          read_numbers-fields expected_end strtod 0 (last_text old r.inputs) r.expecteds rest
              (omega (arith, fits.enough_expecteds)) fits.expecteds_fit,
        )
        refl

  -- At the end of the file, where a number is wanted.
  feed_loop-nil :
      (fuel m n : ℕ) (nn : Nn) (old : Text)
      → feed_loop F strtod callback (suc fuel) (suc m) n nn old [] ≡ ok (nn, [])
  unfolding feed_loop feed_record read_numbers read_number read_text
  feed_loop-nil fuel m n nn old = refl

  feed_loop-AllFit :
      (fuel m n : ℕ) (nn : Nn) (old : Text) (rs : List Record)
      → length rs < fuel
      → suc m ≤ 98
      → n ≤ 98
      → AllFit (suc m) n rs
      → feed_loop F strtod callback fuel (suc m) n nn old (records_bytes rs)
        ≡ ok (run_records nn rs)
  unfolding feed_loop
  feed_loop-AllFit zero m n nn old rs h hm hn fits = absurd (omega arith)
  feed_loop-AllFit (suc fuel) m n nn old [] h hm hn fits = feed_loop-nil fuel m n nn old
  feed_loop-AllFit (suc fuel) m n nn old (r ∷ rs) h hm hn fits =
      rw
        (
          feed_record-Fits (suc m) n nn old r (records_bytes rs) hm hn fits.0,
          feed_loop-AllFit fuel m n (run_record nn r).0
              (last_text (last_text old r.inputs) r.expecteds) rs (omega arith) hm hn fits.1,
          feed_loop,
        )
        refl

-- Every record has its bytes, so the fuel is enough.
length-mark_bytes : (k : Mark) → 0 < length (mark_bytes k)
length-mark_bytes comma = omega arith
length-mark_bytes newline = omega arith
length-mark_bytes return_comma = omega arith
length-mark_bytes return_newline = omega arith

length-record_bytes : (m n : ℕ) (r : Record) → Fits (suc m) n r → 0 < length (record_bytes r)
length-record_bytes m n r fits = first_bytes m r.inputs fits.enough_inputs
  where
    first_bytes :
        (m : ℕ) (fs : List Field)
        → length fs ≡ suc m
        → 0 < length (fields_bytes fs ++ fields_bytes r.expecteds)
    first_bytes m [] e = absurd (omega (arith, e))
    first_bytes m (f ∷ fs) e = omega (
      arith,
      length-append (field_bytes f ++ fields_bytes fs) (fields_bytes r.expecteds),
      length-append (field_bytes f) (fields_bytes fs),
      length-append f.text (mark_bytes f.mark),
      length-mark_bytes f.mark,
    )

length-records_bytes :
    (m n : ℕ) (rs : List Record) → AllFit (suc m) n rs → length rs ≤ length (records_bytes rs)
length-records_bytes m n [] h = omega arith
length-records_bytes m n (r ∷ rs) h = omega (
  arith,
  length-append (record_bytes r) (records_bytes rs),
  length-record_bytes m n r h.0,
  length-records_bytes m n rs h.1,
)

module _ (F : Arithmetic) (strtod : Text → Double) (callback : Option Callback) where
  -- For a network of 1 to 98 inputs and at most 98 outputs, and a file of records, each with as
  -- many numbers as inputs and outputs, each number 1 to 99 plain characters ended by a comma
  -- or a new line, with a carriage return before it or not: `feed_from_file` gives the numbers
  -- of each record, read by `strtod`, in order to `fire_nn`, the callback each time, and ends
  -- with the network of the last record.
  pub feed_from_file-records :
      (old : Text) (nn : Nn) (rs : List Record)
      → 0 < first_size nn.layers
      → first_size nn.layers ≤ 98
      → last_size nn.layers ≤ 98
      → AllFit (first_size nn.layers) (last_size nn.layers) rs
      → feed_from_file F strtod callback old (some (records_bytes rs)) nn
        ≡ ok (run_records F strtod callback nn rs)
  unfolding feed_from_file
  feed_from_file-records old nn rs some_input hm hn fits =
      sized (first_size nn.layers) some_input hm fits
    where
      sized :
          (m : ℕ)
          → 0 < m
          → m ≤ 98
          → AllFit m (last_size nn.layers) rs
          → feed_loop F strtod callback
              (length (records_bytes rs) + 1)
              m
              (last_size nn.layers)
              nn
              old
              (records_bytes rs)
            ≡ ok (run_records F strtod callback nn rs)
      sized zero h hm fits = absurd (omega arith)
      sized (suc m) h hm fits =
          feed_loop-AllFit F strtod callback (length (records_bytes rs) + 1) m (last_size nn.layers)
            nn old rs (omega (arith, length-records_bytes m (last_size nn.layers) rs fits)) hm hn
            fits
