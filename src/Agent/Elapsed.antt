-- ===== src/Agent/Elapsed.antt =====
-- The round trip time of `agent_timestamp`, in microseconds.
use aping.Base.{
  ℕ, ◌+◌, ◌-◌, ◌*◌, ◌%◌, ◌^◌, ◌≤◌, ◌<◌, not, ◌&&◌, inl, inr, Bool-cases, ◌≡◌, ap, ap₂, ◌∙◌, arith,
  ltb, ◌==◌, if◌then◌else◌,
}
use aping.Base.Int.{
  ℤ, pos, negsuc, pos_part, neg_part, ◌+ℤ◌, ◌-ℤ◌, ◌*ℤ◌, ltb_ℤ, tdiv, tmod, i32, i32-eq, int_laws,
}
use aping.State.{Time}
use aping.Agent.{difftime_int, difftime_frc, time_adjust}

-- The milliseconds and the microseconds beyond them.
abbrev pub micros : Time → ℤ
micros t = t.whole *ℤ pos 1000 +ℤ t.part

abbrev pub at_time : ℕ → ℕ → Time
at_time sec usec = record { whole = pos sec; part = pos usec }

abbrev pub elapsed : Time → Time → Time
elapsed a b = record { whole = difftime_int a b; part = difftime_frc a b }

thousand : (d : ℕ) → d ≤ 1000000 → i32 (pos d *ℤ pos 1000) ≡ pos (d * 1000)
unfolding ◌*ℤ◌
thousand d h =
    ap i32 {x = pos d *ℤ pos 1000} {y = pos (d * 1000)} (ground arith)
    ∙ i32-eq (pos (d * 1000)) (omega arith) (omega arith)

small :
    (z : ℤ)
    → pos_part z ≤ 1000000
    → neg_part z ≤ 1000000
    → (pos_part (tdiv z (pos 1000)) ≤ 1000) × (neg_part (tdiv z (pos 1000)) ≤ 1000)
unfolding tdiv
small (pos n) h k = ground arith
small (negsuc n) h k = ground arith

halves : (z : ℤ) → tdiv z (pos 1000) *ℤ pos 1000 +ℤ tmod z 1000 ≡ z
unfolding tdiv tmod ◌*ℤ◌ ◌+ℤ◌
halves (pos n) = ground arith
halves (negsuc n) = ground arith

tmod-lt : (z : ℤ) → (pos_part (tmod z 1000) < 1000) × (neg_part (tmod z 1000) < 1000)
unfolding tmod
tmod-lt (pos n) = ground arith
tmod-lt (negsuc n) = ground arith

times_parts :
    (a : ℤ)
    → pos_part (a *ℤ pos 1000) + neg_part a * 1000 ≡ neg_part (a *ℤ pos 1000) + pos_part a * 1000
unfolding ◌*ℤ◌
times_parts a = ground arith

diff_small : (x y : ℕ) → (pos_part (pos x -ℤ pos y) ≤ x) × (neg_part (pos x -ℤ pos y) ≤ y)
unfolding ◌-ℤ◌
diff_small x y = ground arith

sum_small :
    (a b : ℤ)
    → (pos_part (a +ℤ b) ≤ pos_part a + pos_part b) × (neg_part (a +ℤ b) ≤ neg_part a + neg_part b)
unfolding ◌+ℤ◌
sum_small a b = ground arith

negative :
    (x y : ℕ) → ltb_ℤ (tmod (pos x -ℤ pos y) 1000) (pos 0) ≡ ltb x y && not ((y - x) % 1000 == 0)
unfolding ◌-ℤ◌ tmod
negative x y = ground arith

-- An addition that stays in range.
plus :
    (a : ℤ) (n : ℕ) → pos_part a + n < 2 ^ 31 → neg_part a < 2 ^ 31 → i32 (a +ℤ pos n) ≡ a +ℤ pos n
unfolding ◌+ℤ◌
plus a n h k = i32-eq (a +ℤ pos n) (ground arith) (ground arith)

-- The adjusted time is the time, or 2 ms more than it where the fraction is negative.
adjusted :
    (t : Time)
    → pos_part t.whole < 2 ^ 31 - 1
    → neg_part t.whole < 2 ^ 31
    → pos_part t.part < 1000
    → neg_part t.part < 1000
    → micros (time_adjust t) ≡ micros t +ℤ pos (if ltb_ℤ t.part (pos 0) then 2000 else 0)
unfolding time_adjust
adjusted t a b c e = elim (Bool-cases (ltb_ℤ t.part (pos 0))) [
  | inl h ↦
      rw (h, plus t.whole 1 (omega arith) b, plus t.part 1000 (omega arith) (omega arith))
        (omega (int_laws, times_parts t.whole, times_parts (t.whole +ℤ pos 1)))
  | inr h ↦ rw h (omega int_laws)
]

-- For two times at most 1000000 s apart, the later of less than 2 ^ 31 s, with microseconds below
-- 1000000: what `DIFFTIME_int`, `DIFFTIME_frc` and `TIME_ADJUST` make of them is the time between
-- them in microseconds, or 2 ms more where the later has fewer microseconds and the difference is
-- no whole number of milliseconds.
pub agent_rtt :
    (s d x y : ℕ)
    → x < 1000000
    → y < 1000000
    → d ≤ 1000000
    → s + d < 2 ^ 31
    → micros (time_adjust (elapsed (at_time (s + d) x) (at_time s y)))
      ≡ pos (d * 1000000 + x)
        -ℤ pos y
        +ℤ pos (if ltb x y && not ((y - x) % 1000 == 0) then 2000 else 0)
unfolding difftime_int difftime_frc
agent_rtt s d x y hx hy hd hs =
    rw
      (
        seconds,
        parts,
        thousand d hd,
        i32-eq w (omega (arith, sum_small (pos (d * 1000)) q, q_small))
            (omega (arith, sum_small (pos (d * 1000)) q, q_small)),
        adjusted (record { whole = w; part = tmod z 1000 })
            (omega (arith, sum_small (pos (d * 1000)) q, q_small))
            (omega (arith, sum_small (pos (d * 1000)) q, q_small)) (omega (arith, tmod-lt z))
            (omega (arith, tmod-lt z)),
      )
      (ap₂ (λ u v. u +ℤ pos (if v then 2000 else 0))
        (omega
          (int_laws, times_parts w, times_parts q, ap pos_part (halves z), ap neg_part (halves z)))
        (negative x y))
  where
    z : ℤ
    z = pos x -ℤ pos y

    q : ℤ
    q = tdiv z (pos 1000)

    w : ℤ
    w = pos (d * 1000) +ℤ q

    seconds : i32 (pos (s + d) -ℤ pos s) ≡ pos d
    seconds =
        ap i32 {x = pos (s + d) -ℤ pos s} {y = pos d} (omega int_laws)
        ∙ i32-eq (pos d) (omega arith) (omega arith)

    parts : i32 (pos x -ℤ pos y) ≡ pos x -ℤ pos y
    parts = i32-eq (pos x -ℤ pos y) (omega (arith, diff_small x y)) (omega (arith, diff_small x y))

    q_small : (pos_part q ≤ 1000) × (neg_part q ≤ 1000)
    q_small = small z (omega (arith, diff_small x y)) (omega (arith, diff_small x y))
