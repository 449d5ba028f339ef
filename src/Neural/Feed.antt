-- ===== src/Neural/Feed.antt =====
-- neuralnetwork.c: `feed_from_file`, which runs a network on the numbers of a file. `strtod` and the
-- callback are parameters; the callback is given the network by a pointer, so it may change it.

pub mod Records
pub mod Whole
use aping.Base.{
  ℕ, zero, suc, ◌+◌, ◌-◌, List, [], ◌∷◌, ◌++◌, Bool, ◌&&◌, ◌||◌, Option, none, some, length, ◌==◌,
  ltb, if◌then◌else◌,
}
use aping.Base.Text.{Text}
use aping.Base.Outcome.{Run, ok, fatal, Fault, ◌>>=◌}
use aping.Neural.{Double, Layer, Nn}
use aping.Neural.Fire.{Arithmetic, fire_nn}

-- `getc`, whose result goes to a `char`: the end of the file is the character 255.
abbrev getc : List ℕ → ℕ × List ℕ
getc [] = (255, [])
getc (b ∷ bs) = (b, bs)

-- After a carriage return the next character is read.
abbrev past_return : ℕ × List ℕ → ℕ × List ℕ
past_return (c, bs) = if c == b'\r' then getc bs else (c, bs)

-- The text up to its first zero.
abbrev pub before_zero : Text → Text
before_zero [] = []
before_zero (c ∷ cs) = if c == 0 then [] else c ∷ before_zero cs

-- What reading gives: a value and the rest of the file, or the jump to `END`.
pub data Got (A : Type 0) : Type 0 where
  got : A → List ℕ → Got A
  ended : Got A

infixl 5 ◌then◌
abbrev pub ◌then◌ : {A B : Type 0} → Run (Got A) → (A → List ℕ → Run (Got B)) → Run (Got B)
ok (got a bs) then f = f a bs
ok ended then f = ok ended
fatal e then f = fatal e

-- What the end of the file does, at a place in the number `counter2` of the number `counter`: none goes on.
abbrev pub AtEnd : Type 0
AtEnd = ℕ → ℕ → Option (Run (Got Text))

abbrev pub input_end : AtEnd
input_end counter counter2 = if (counter2 == 0) && (counter == 0) then some (ok ended) else none

abbrev pub expected_end : AtEnd
expected_end counter counter2 = some (fatal Fault.exited)

-- `cs` is in the buffer of 100 characters, and `room` is how many more it takes before its zero.
abbrev pub unless_end : ℕ → Option (Run (Got Text)) → Run (Got Text) → Run (Got Text)
unless_end c none rest = rest
unless_end c (some r) rest = if c == 255 then r else rest

unfoldable pub read_text : AtEnd → ℕ → ℕ → Text → List ℕ → Run (Got Text)
read_text stop counter zero cs bs =
    let (c, bs') = getc bs in
    let (d, bs'') = past_return (c, bs') in
    unless_end c (stop counter (length cs))
      (if (d == b'\n') || (d == b',') then ok (got cs bs'') else fatal Fault.bad_index)
read_text stop counter (suc room) cs bs =
    let (c, bs') = getc bs in
    let (d, bs'') = past_return (c, bs') in
    let rest = read_text stop counter room (cs ++ d ∷ []) bs'' in
    unless_end c (stop counter (length cs))
      (if (d == b'\n') || (d == b',') then ok (got cs bs'') else rest)

-- Where no character is stored, the buffer holds what it held.
abbrev pub held : Text → Text → Text
held old [] = old
held old (c ∷ cs) = before_zero (c ∷ cs)

-- One number: the text that the buffer holds then.
unfoldable pub read_number : AtEnd → ℕ → Text → List ℕ → Run (Got Text)
unfolding read_text
read_number stop counter old bs =
    if ltb 97 counter
    then fatal Fault.exited
    else read_text stop counter 99 [] bs then λ cs rest. ok (got (held old cs) rest)

-- `n` numbers, of which `counter` is the first, and the text that is in the buffer afterwards.
unfoldable pub read_numbers :
    AtEnd → (Text → Double) → ℕ → ℕ → Text → List ℕ → Run (Got (List Double × Text))
unfolding read_number
read_numbers stop strtod zero counter old bs = ok (got ([], old) bs)
read_numbers stop strtod (suc n) counter old bs = read_number stop counter old bs then λ t rest.
    read_numbers stop strtod n (counter + 1) t rest then λ p rest'.
    ok (got (strtod t ∷ p.0, p.1) rest')

-- What the callback sees: the network, `input`, `expected` and `output`.
pub data Fed : Type 0 where
  fed : List Double → List Double → List Double → Fed

abbrev pub Callback : Type 0
Callback = Nn → Fed → Nn

abbrev pub called : Option Callback → Nn → Fed → Nn
called none nn f = nn
called (some call) nn f = call nn f

abbrev pub first_size : List Layer → ℕ
first_size [] = 0
first_size (l ∷ ls) = l.size

abbrev pub last_size : List Layer → ℕ
last_size [] = 0
last_size (l ∷ []) = l.size
last_size (l ∷ m ∷ ls) = last_size (m ∷ ls)

module _ (F : Arithmetic) (strtod : Text → Double) (callback : Option Callback) where
  -- One record: the numbers of `input` and `expected`, on which the network is run.
  unfoldable pub feed_record : ℕ → ℕ → Nn → Text → List ℕ → Run (Got (Nn × Text × Fed))
  unfolding read_numbers
  feed_record inputs expecteds nn old bs =
      read_numbers input_end strtod inputs 0 old bs then λ p rest.
      read_numbers expected_end strtod expecteds 0 p.1 rest then λ q rest'.
      let (nn', output) = fire_nn F p.0 (some q.0) nn in
      let f = fed p.0 q.0 output in ok (got (called callback nn' f, q.1, f) rest')

  abbrev add_fed : Fed → Run (Nn × List Fed) → Run (Nn × List Fed)
  add_fed f r = r >>= λ p. ok (p.0, f ∷ p.1)

  -- The loop, on fuel: the network and what it was run on.
  unfoldable pub feed_loop : ℕ → ℕ → ℕ → Nn → Text → List ℕ → Run (Nn × List Fed)
  unfolding feed_record
  feed_loop zero inputs expecteds nn old bs = fatal Fault.endless_loop
  feed_loop (suc fuel) inputs expecteds nn old bs = elim (feed_record inputs expecteds nn old bs) [
    | fatal e ↦ fatal e
    | ok ended ↦ ok (nn, [])
    | ok (got r rest) ↦ add_fed r.2 (feed_loop fuel inputs expecteds r.0 r.1 rest)
  ]

  -- `old` is what the buffer holds before its first use. None is a file that cannot be opened.
  unfoldable pub feed_from_file : Text → Option (List ℕ) → Nn → Run (Nn × List Fed)
  unfolding feed_loop
  feed_from_file old none nn = fatal Fault.exited
  feed_from_file old (some bs) nn =
      feed_loop (length bs + 1) (first_size nn.layers) (last_size nn.layers) nn old bs
