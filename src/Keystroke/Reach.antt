-- ===== src/Keystroke/Reach.antt =====
-- The states that keys and packets reach, in any order.
use mathlib.Core.Path.{subst}
use aping.Base.{ℕ, ◌+◌, ◌≡◌, inl, inr, ◌^◌, ◌-◌, arith}
use aping.Base.Int.{ℤ}
use aping.Base.Bits.{bit_and_mask}
use aping.Base.Outcome.{ok, All, Run-cases}
use aping.State.{Globals, Time, initial}
use aping.Memory.{Memory, swap16}
use aping.Statistic.Expectation.{empty_tables}
use aping.Agent.{State, Places, switch, ntohss, reset_stat, reset_ipid}
use aping.Agent.Ident.{switch-lt, ntohss-eq-swap16}
use aping.Receiver.{receive}
use aping.Receiver.Inv.{IsSound, Sound, receive-Sound, reset_stat-Sound}
use aping.Keystroke.{Effect, keystroke, reset_then, change_tos}

-- One key that lets the program run on, or one captured frame.
pub data Step (at : Places) : State → State → Type 0 where
  key : (c : ℕ) (s s' : State) → keystroke at c s ≡ ok (Effect.nothing, s') → Step at s s'
  frame :
      (fuel : ℕ) (beyond : ℕ → ℤ) (m : Memory) (now : Time) (s s' : State)
      → receive at fuel beyond m now s ≡ ok s'
      → Step at s s'

pub data Reach (at : Places) : State → State → Type 0 where
  here : (s : State) → Reach at s s
  later : (s s' s'' : State) → Step at s s' → Reach at s' s'' → Reach at s s''

change_tos-Sound : (step : ℕ) (s : State) → Sound s → Sound (change_tos step s)
unfolding change_tos reset_ipid
change_tos-Sound step s (a, b, c, d, e, f) =
    (a, b, c, d, rw (bit_and_mask 4 (s.g.traffic_tos + step)) (omega arith), omega arith)

module _ (at : Places) where
  reset_then-Sound :
      (f : Globals → Globals)
      → ((g : Globals) → IsSound g → IsSound (f g))
      → (s : State) → Sound s
      → All (λ r. Sound r.1) (reset_then at f s)
  unfolding reset_then
  reset_then-Sound f k s (a, b, c, d, e, n) = elim (Run-cases (reset_stat at s)) [
    | inr (x, z) ↦ rw z tt
    | inl (s', z) ↦ rw z (k s'.g (subst (All Sound) z (reset_stat-Sound at 0 s (a, b, c, d, e))))
  ]

  flip_endian : (g : Globals) → IsSound g → IsSound (record g { endian_bug = switch g.endian_bug })
  flip_endian g (a, b, c, d, e, f) = (switch-lt g.endian_bug a, b, c, d, e, f)

  flip_diff : (g : Globals) → IsSound g → IsSound (record g { diff_ipid = switch g.diff_ipid })
  flip_diff g (a, b, c, d, e, f) = (a, switch-lt g.diff_ipid b, c, d, e, f)

  keystroke-Sound : (c : ℕ) (s : State) → Sound s → All (λ r. Sound r.1) (keystroke at c s)
  unfolding keystroke
  keystroke-Sound c s (x, y, z, u, v, w) =
      let h : Sound s = (x, y, z, u, v, w) in
      let e =
        reset_then-Sound (λ g. record g { endian_bug = switch g.endian_bug }) flip_endian s h in
      let d = reset_then-Sound (λ g. record g { diff_ipid = switch g.diff_ipid }) flip_diff s h in
      let up = change_tos-Sound 1 s h in
      let down = change_tos-Sound (2 ^ 32 - 1) s h in
      let pause = switch-lt s.g.n_pause u in
      let mac = switch-lt s.g.mac_inspection z in ground arith

  Step-Sound : (s s' : State) → Step at s s' → Sound s → Sound s'
  Step-Sound s s' (key c _ _ e) h = subst (All (λ r. Sound r.1)) e (keystroke-Sound c s h)
  Step-Sound s s' (frame fuel beyond m now _ _ e) h =
      subst (All Sound) e (receive-Sound at fuel beyond m now s h)

  Reach-Sound : (s s' : State) → Reach at s s' → Sound s → Sound s'
  Reach-Sound s _ (here _) h = h
  Reach-Sound s s' (later _ t _ step rest) h = Reach-Sound t s' rest (Step-Sound s t step h)

abbrev pub start : State
start = record { g = initial; tables = empty_tables }

-- In every state that keys and captured frames reach from the initial one, in any order, `ntohss`
-- swaps the bytes of its argument: what the key `e` and `agent_ipid` toggle in `endian_bug` never
-- has an effect.
pub ntohss-Reach : (at : Places) (s : State) (v : ℕ) → Reach at start s → ntohss s.g v ≡ swap16 v
ntohss-Reach at s v r =
    let (a, b, c, d, e, f) =
      Reach-Sound at start s r
        (omega arith, omega arith, omega arith, omega arith, omega arith, omega arith) in
    ntohss-eq-swap16 s.g v a
