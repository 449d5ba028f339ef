-- ===== src/Sending.antt =====
-- The loop of `sender` in sender.c: its counters, on the times and the results of each turn. The
-- packet of a turn is in Sending/Wire; the pauses between turns are left out.
pub mod Wire
pub mod Start
use aping.Base.{
  ℕ, ◌+◌, ◌-◌, ◌≤◌, ◌<◌, ◌^◌, List, [], ◌∷◌, ◌≡◌, sym, ap, ◌∙◌, arith, length, Bool-cases, inl, inr,
  Bool, true, false, not, ◌||◌, if◌then◌else◌,
}
use aping.Base.Int.{ℤ, pos, negsuc, pos_part, neg_part, ◌+ℤ◌, ◌==ℤ◌, ltb_ℤ, i32, i32-eq, +ℤ_pos}
use aping.Base.Outcome.{Run, ok, fatal, Fault, ◌>>=◌}
use aping.State.{Globals, Time}

-- What a turn meets: the time, the value of `atomic_sendto`, and that of `rand`.
pub record Turn : Type 0 where
  pub now : Time
  pub result : ℤ
  pub random : ℤ

-- `! count || n_sent < count`.
abbrev pub goes_on : Globals → Bool
goes_on g = (g.count ==ℤ pos 0) || ltb_ℤ g.n_sent g.count

-- The id of the next packet.
abbrev pub next_id : Globals → ℤ → ℤ
next_id g random =
    if g.options.ip_id_incr || not g.options.ip_id
    then i32 (g.ip_id +ℤ pos 1)
    else if g.options.ip_id_rand
    then random
    else g.ip_id

unfoldable pub send_turn : Turn → Globals → Run Globals
send_turn t g =
    if t.result ==ℤ negsuc 0
    then fatal Fault.sendto_failed
    else ok (record g {
      last_sent = t.now;
      n_sent = i32 (g.n_sent +ℤ pos 1);
      ip_ttl = if g.options.ip_ramp then i32 (g.ip_ttl +ℤ pos 1) else g.ip_ttl;
      ip_id = next_id g t.random;
    })

-- The globals after the loop, or after all turns that are given, and the number of turns made.
unfoldable pub sender_loop : List Turn → ℕ → Globals → Run (ℕ × Globals)
sender_loop [] made g = ok (made, g)
sender_loop (t ∷ ts) made g =
    if goes_on g then (send_turn t g >>= sender_loop ts (made + 1)) else ok (made, g)

-- No result is -1.
abbrev pub AllSent : List Turn → Type 0
AllSent [] = Unit
AllSent (t ∷ ts) = ((t.result ==ℤ negsuc 0) ≡ false) × AllSent ts

sent_one :
    (g : Globals) (c k : ℕ)
    → g.n_sent ≡ pos k
    → k < c
    → c < 2 ^ 31
    → i32 (g.n_sent +ℤ pos 1) ≡ pos (k + 1)
sent_one g c k e h r =
    ap (λ z. i32 (z +ℤ pos 1)) e
    ∙ ap i32 (+ℤ_pos k 1)
    ∙ i32-eq (pos (k + 1)) (omega arith) (omega arith)

-- With a count `c` above 0 and below 2 ^ 31, `k` packets sent, `k` at most `c`, no result of a
-- turn that is -1, and at least `c - k` turns: the loop of `sender` ends with `c` packets sent,
-- after `c - k` turns more.
pub sender_loop-count :
    (ts : List Turn) (made c k : ℕ) (g : Globals)
    → AllSent ts
    → g.count ≡ pos c
    → g.n_sent ≡ pos k
    → 0 < c
    → k ≤ c
    → c < 2 ^ 31
    → c - k ≤ length ts
    → (g' : Globals) × (sender_loop ts made g ≡ ok (made + (c - k), g')) × (g'.n_sent ≡ pos c)
unfolding sender_loop send_turn
sender_loop-count [] made c k g all count n_sent p le r enough =
    (g, ap (λ m. ok (m, g)) (omega arith), n_sent ∙ ap pos (omega arith))
sender_loop-count (t ∷ ts) made c k g all count n_sent p le r enough =
    elim (Bool-cases (goes_on g)) [
      | inr stop ↦
          let done : c ≡ k = stopped g.count g.n_sent c k count n_sent le stop in
          (g, rw stop (ap (λ m. ok (m, g)) (omega arith)), n_sent ∙ ap pos (sym done))
      | inl go ↦
          let less : k < c = running g.count g.n_sent c k count n_sent p go in
          let g' : Globals = record g {
            last_sent = t.now;
            n_sent = i32 (g.n_sent +ℤ pos 1);
            ip_ttl = if g.options.ip_ramp then i32 (g.ip_ttl +ℤ pos 1) else g.ip_ttl;
            ip_id = next_id g t.random;
          } in
          let (h, e, n) =
            sender_loop-count ts (made + 1) c (k + 1) g' all.1 count (sent_one g c k n_sent less r)
              p (omega arith) r (omega arith) in
          (h, rw (go, all.0) (e ∙ ap (λ m. ok (m, h)) (omega arith)), n)
    ]
  where
    stopped :
        (a b : ℤ) (c k : ℕ)
        → a ≡ pos c
        → b ≡ pos k
        → k ≤ c
        → ((a ==ℤ pos 0) || ltb_ℤ b a) ≡ false
        → c ≡ k
    stopped a b c k e f h s = ground (arith, ap pos_part e, ap pos_part f)

    running :
        (a b : ℤ) (c k : ℕ)
        → a ≡ pos c
        → b ≡ pos k
        → 0 < c
        → ((a ==ℤ pos 0) || ltb_ℤ b a) ≡ true
        → k < c
    running a b c k e f h s =
        ground (arith, ap pos_part e, ap neg_part e, ap pos_part f, ap neg_part f)
