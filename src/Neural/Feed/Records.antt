-- ===== src/Neural/Feed/Records.antt =====
-- The file that `feed_from_file` of neuralnetwork.c reads: numbers that each end with a comma or a line,
-- in records for one run of the network.
use mathlib.Core.List.{append_assoc, append-nil}
use aping.Base.{
  ℕ, zero, suc, ◌+◌, ◌≤◌, ◌<◌, List, [], ◌∷◌, ◌++◌, false, Option, none, some, map, length, ◌==◌,
  ◌≡◌, ◌≢◌, refl, ◌∙◌, arith,
}
use aping.Base.Text.{Text}
use aping.Base.Outcome.{Run, ok}
use aping.Neural.{Double}
use aping.Neural.Feed.{
  Got, got, AtEnd, unless_end, before_zero, held, read_text, read_number, read_numbers,
}

-- What ends a number.
pub data Mark : Type 0 where
  comma newline return_comma return_newline : Mark

abbrev pub mark_bytes : Mark → List ℕ
mark_bytes comma = b',' ∷ []
mark_bytes newline = b'\n' ∷ []
mark_bytes return_comma = b'\r' ∷ b',' ∷ []
mark_bytes return_newline = b'\r' ∷ b'\n' ∷ []

pub record Field : Type 0 where
  pub text : Text
  pub mark : Mark

-- No zero, comma, end of a line or carriage return, and not 255.
abbrev Plain : ℕ → Type 0
Plain c = (c ≢ 0) × (c ≢ b',') × (c ≢ b'\n') × (c ≢ b'\r') × (c ≢ 255)

abbrev AllPlain : Text → Type 0
AllPlain [] = Unit
AllPlain (c ∷ cs) = Plain c × AllPlain cs

-- A text that fits the buffer.
abbrev IsNumber : Field → Type 0
IsNumber f = (f.text ≢ []) × (length f.text ≤ 99) × AllPlain f.text

abbrev pub AllNumbers : List Field → Type 0
AllNumbers [] = Unit
AllNumbers (f ∷ fs) = IsNumber f × AllNumbers fs

abbrev pub field_bytes : Field → List ℕ
field_bytes f = f.text ++ mark_bytes f.mark

abbrev pub fields_bytes : List Field → List ℕ
fields_bytes [] = []
fields_bytes (f ∷ fs) = field_bytes f ++ fields_bytes fs

-- What the buffer holds after these numbers.
abbrev pub last_text : Text → List Field → Text
last_text old [] = old
last_text old (f ∷ fs) = last_text f.text fs

unless_end-ne :
    (c : ℕ) (o : Option (Run (Got Text))) (r : Run (Got Text)) → c ≢ 255 → unless_end c o r ≡ r
unless_end-ne c none r h = refl
unless_end-ne c (some s) r h = ground arith

read_text-mark :
    (stop : AtEnd) (counter room : ℕ) (cs : Text) (m : Mark) (rest : List ℕ)
    → read_text stop counter room cs (mark_bytes m ++ rest) ≡ ok (got cs rest)
unfolding read_text
read_text-mark stop counter zero cs comma rest =
    unless_end-ne b',' (stop counter (length cs)) _ (omega arith)
read_text-mark stop counter zero cs newline rest =
    unless_end-ne b'\n' (stop counter (length cs)) _ (omega arith)
read_text-mark stop counter zero cs return_comma rest =
    unless_end-ne b'\r' (stop counter (length cs)) _ (omega arith)
read_text-mark stop counter zero cs return_newline rest =
    unless_end-ne b'\r' (stop counter (length cs)) _ (omega arith)
read_text-mark stop counter (suc room) cs comma rest =
    unless_end-ne b',' (stop counter (length cs)) _ (omega arith)
read_text-mark stop counter (suc room) cs newline rest =
    unless_end-ne b'\n' (stop counter (length cs)) _ (omega arith)
read_text-mark stop counter (suc room) cs return_comma rest =
    unless_end-ne b'\r' (stop counter (length cs)) _ (omega arith)
read_text-mark stop counter (suc room) cs return_newline rest =
    unless_end-ne b'\r' (stop counter (length cs)) _ (omega arith)

-- A character that is stored.
read_text-Plain :
    (stop : AtEnd) (counter room : ℕ) (cs : Text) (c : ℕ) (bs : List ℕ)
    → Plain c
    → read_text stop counter (suc room) cs (c ∷ bs) ≡ read_text stop counter room (cs ++ c ∷ []) bs
unfolding read_text
read_text-Plain stop counter room cs c bs (h0, h1, h2, h3, h4) =
    let e1 : (c == b'\r') ≡ false = ground arith in
    let e2 : (c == b'\n') ≡ false = ground arith in
    let e3 : (c == b',') ≡ false = ground arith in
    unless_end-ne c (stop counter (length cs)) _ h4 ∙ rw (e1, e2, e3) refl

read_text-AllPlain :
    (stop : AtEnd) (counter room : ℕ) (cs t : Text) (m : Mark) (rest : List ℕ)
    → length t ≤ room
    → AllPlain t
    → read_text stop counter room cs (t ++ (mark_bytes m ++ rest)) ≡ ok (got (cs ++ t) rest)
read_text-AllPlain stop counter room cs [] m rest h p =
    read_text-mark stop counter room cs m rest ∙ rw append-nil refl
read_text-AllPlain stop counter zero cs (c ∷ t) m rest h p = absurd (omega arith)
read_text-AllPlain stop counter (suc room) cs (c ∷ t) m rest h p =
    read_text-Plain stop counter room cs c _ p.0
    ∙ read_text-AllPlain stop counter room (cs ++ c ∷ []) t m rest (omega arith) p.1
    ∙ rw append_assoc refl

before_zero-AllPlain : (t : Text) → AllPlain t → before_zero t ≡ t
before_zero-AllPlain [] p = refl
before_zero-AllPlain (c ∷ t) p = ground (arith, before_zero-AllPlain t p.1)

held-IsNumber : (old t : Text) → t ≢ [] → AllPlain t → held old t ≡ t
held-IsNumber old [] ne p = absurd (ne refl)
held-IsNumber old (c ∷ t) ne p = before_zero-AllPlain (c ∷ t) p

read_number-field :
    (stop : AtEnd) (counter : ℕ) (old : Text) (f : Field) (rest : List ℕ)
    → counter < 98
    → IsNumber f
    → read_number stop counter old (field_bytes f ++ rest) ≡ ok (got f.text rest)
unfolding read_number
read_number-field stop counter old f rest h (ne, short, p) =
    rw
      (
        append_assoc f.text (mark_bytes f.mark) rest,
        read_text-AllPlain stop counter 99 [] f.text f.mark rest short p,
        held-IsNumber old f.text ne p,
      )
      (ground arith)

pub read_numbers-fields :
    (stop : AtEnd) (strtod : Text → Double) (counter : ℕ) (old : Text) (fs : List Field)
    (rest : List ℕ)
    → counter + length fs ≤ 98
    → AllNumbers fs
    → read_numbers stop strtod (length fs) counter old (fields_bytes fs ++ rest)
      ≡ ok (got (map (λ f. strtod f.text) fs, last_text old fs) rest)
unfolding read_numbers
read_numbers-fields stop strtod counter old [] rest h p = refl
read_numbers-fields stop strtod counter old (f ∷ fs) rest h p =
    rw
      (
        append_assoc (field_bytes f) (fields_bytes fs) rest,
        read_number-field stop counter old f (fields_bytes fs ++ rest) (omega arith) p.0,
        read_numbers-fields stop strtod (counter + 1) f.text fs rest (omega arith) p.1,
      )
      refl
