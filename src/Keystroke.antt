-- ===== src/Keystroke.antt =====
-- keystroke.c: the keys that steer the program while it runs, and `ctrlc` of aping.c.
pub mod Reach
use aping.Base.{ℕ, ◌+◌, ◌-◌, ◌^◌, ◌%◌, Bool, true, false, ◌||◌, bit_and}
use aping.Base.{◌==◌, if◌then◌else◌}
use aping.Base.Outcome.{Run, ok, fatal, ◌>>=◌}
use aping.State.{Globals}
use aping.Agent.{State, Places, switch, reset_stat, reset_ipid}

-- What a key does beyond the globals: `exit (0)`, or the end of the thread that sends.
pub data Effect : Type 0 where
  nothing exits cancels_sender : Effect

unfoldable pub ctrlc : Globals → Effect
ctrlc g = if g.options.sniff then Effect.exits else Effect.cancels_sender

-- The keys.
abbrev key_interrupt : ℕ
key_interrupt = 3

abbrev key_enter : ℕ
key_enter = 10

-- Another kind of traffic, with the statistics of the ids reset.
unfoldable pub change_tos : ℕ → State → State
unfolding reset_ipid
change_tos step s = record s {
  g = record (reset_ipid s.g) { traffic_tos = bit_and (s.g.traffic_tos + step) 15 };
}

-- `'0'` to `'4'` are 48 to 52, `' '` is 32, `'+'`, `'='`, `'-'` and `'_'` are 43, 61, 45 and 95, and
-- `'e'`, `'d'` and `'m'` are 101, 100 and 109. A step down is a step of -1 on 32 bits.
module _ (at : Places) where
  unfoldable pub reset_then : (Globals → Globals) → State → Run (Effect × State)
  reset_then f s = do s' ← reset_stat at s; ok (Effect.nothing, record s' { g = f s'.g })

  unfoldable pub keystroke : ℕ → State → Run (Effect × State)
  unfolding ctrlc change_tos reset_then
  keystroke c s =
      let detailed : ℕ → State = λ n. record s { g = record s.g { detail = n } } in
      if c == key_interrupt
      then ok (ctrlc s.g, s)
      else if c == key_enter
      then ok (Effect.nothing, record s { g = record s.g { n_pause = 0 } })
      else if c == 48
      then ok (Effect.nothing, detailed 0)
      else if c == 49
      then ok (Effect.nothing, detailed 1)
      else if c == 50
      then ok (Effect.nothing, detailed 2)
      else if c == 51
      then ok (Effect.nothing, detailed 3)
      else if c == 52
      then ok (Effect.nothing, detailed 4)
      else if c == 32
      then ok (Effect.nothing, record s { g = record s.g { n_pause = switch s.g.n_pause } })
      else if (c == 43) || (c == 61)
      then ok (Effect.nothing, change_tos 1 s)
      else if (c == 45) || (c == 95)
      then ok (Effect.nothing, change_tos (2 ^ 32 - 1) s)
      else if c == 101
      then reset_then (λ g. record g { endian_bug = switch g.endian_bug }) s
      else if c == 100
      then reset_then (λ g. record g { diff_ipid = switch g.diff_ipid }) s
      else if c == 109
      then ok (
        Effect.nothing,
        record s { g = record s.g { mac_inspection = switch s.g.mac_inspection } },
      )
      else ok (Effect.nothing, s)
