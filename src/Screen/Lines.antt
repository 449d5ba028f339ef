-- ===== src/Screen/Lines.antt =====
-- What the calls that print leave of the lines, and of the buffer of a name.
use mathlib.Core.List.{append_assoc}
use aping.Base.{
  ℕ, zero, suc, ◌+◌, ◌*◌, ◌≤◌, ◌<◌, List, [], ◌∷◌, ◌++◌, Bool, true, false, not, Option, none, some,
  ltb, ◌==◌, ◌≡◌, refl, sym, ap, ◌∙◌, arith, Bool-cases, inl, inr,
}
use aping.Base.Text.{Text}
use aping.Base.Outcome.{Fault, ok, fatal}
use mathlib.Core.Path.{subst}
use Prim.Native.String.{String}
use aping.Memory.{get32, bytes}
use aping.Receiver.{hash}
use aping.State.{Globals}
use aping.Packet.{Packet, ip_opt, icmp_type, icmp_code}
use aping.NsCache.{Resolver}
use aping.Screen.Names.{index_of}
use aping.Screen.{
  Line, code_named, code_unknown, code_line, Output, puts, puts_if, print_hops, hop_count,
  print_route, print_code,
}
use aping.Screen.Kept.{IsSteady, gethostbyaddr_cache-IsSteady, safe_inet_ntoa-IsSteady}

-- The line is among those printed.
abbrev pub Prints : Line → Output → Type 0
Prints l o = (before : List Line) × (after : List Line) × (o.lines ≡ before ++ (l ∷ after))

pub Prints-puts : {l : Line} (o : Output) (m : Line) → Prints l o → Prints l (puts m o)
Prints-puts {l} o m (before, after, e) =
    (before, after ++ m ∷ [], ap (λ ls. ls ++ m ∷ []) e ∙ append_assoc before (l ∷ after) (m ∷ []))

pub Prints-puts_if :
    {l : Line} (o : Output) (b : Bool) (m : Line) → Prints l o → Prints l (puts_if b m o)
Prints-puts_if o true m h = Prints-puts o m h
Prints-puts_if o false m h = h

hop_count-le : (offset : ℕ) → hop_count offset ≤ 8
hop_count-le offset = ground arith

-- What the line of the code leaves.
pub code_line-Prints :
    (l : Line) (c : ℕ) (s : Option String) (o : Output) → Prints l o → Prints l (code_line c s o)
code_line-Prints l c (some s) o h = Prints-puts o (code_named c s) h
code_line-Prints l c none o h = Prints-puts_if o (not (c == 0)) (code_unknown c) h

pub puts_if-cache : (b : Bool) (m : Line) (o : Output) → (puts_if b m o).cache ≡ o.cache
puts_if-cache true m o = refl
puts_if-cache false m o = refl

pub code_line-cache : (c : ℕ) (s : Option String) (o : Output) → (code_line c s o).cache ≡ o.cache
code_line-cache c (some s) o = refl
code_line-cache c none o = puts_if-cache (not (c == 0)) (code_unknown c) o

pub print_code_ok :
    (p : Packet) (o o' : Output)
    → print_code p o ≡ ok o'
    → (s : Option String) × (o' ≡ code_line (icmp_code p) s o)
print_code_ok p o o' e = elim (Bool-cases (ltb (index_of (icmp_type p) (icmp_code p)) (64 * 64))) [
  | inl fits ↦ (_, sym (ok_inj (rw fits at e)))
  | inr out ↦ absurd (fatal_ne (rw out at e))
]
  where
    ok_inj : {x y : Output} → ok x ≡ ok y → x ≡ y
    ok_inj q = cc

    fatal_ne : fatal Fault.bad_index ≡ ok o' → ⊥
    fatal_ne q = cc

module _ (r : Resolver) (today : ℕ) {b : ℕ} {t : Text} {allow : Bool} where
  print_hops-IsSteady :
      (p : Packet) (n at k : ℕ) (o : Output)
      → k + 2 * n < 256
      → IsSteady r b t k allow o.cache
      → IsSteady r b t (k + 2 * n) allow (print_hops r today p n at o).cache
  unfolding print_hops
  print_hops-IsSteady p zero at k o h s =
      subst (λ m. IsSteady r b t m allow o.cache) (omega arith) s
  print_hops-IsSteady p (suc n) at k o h s =
      let a = get32 p.mem at in
      let s1 = gethostbyaddr_cache-IsSteady r today a o.cache (omega arith) s in
      let s2 = safe_inet_ntoa-IsSteady r today a _ (omega arith) s1 in
      subst (λ m. IsSteady r b t m allow (print_hops r today p (suc n) at o).cache) (omega arith)
        (print_hops-IsSteady p n (at + 4) (k + 1 + 1) _ (omega arith) s2)

  pub print_route-IsSteady :
      (p : Packet) (g : Globals) (o : Output)
      → IsSteady r b t 0 allow o.cache
      → (k : ℕ) × (k < 255) × IsSteady r b t k allow (print_route r today p g o).cache
  unfolding print_route
  print_route-IsSteady p g o s =
      let n = hop_count (p.mem (ip_opt p + 2)) in
      let few : n ≤ 8 = hop_count-le (p.mem (ip_opt p + 2)) in
      elim (Bool-cases (g.last_route == hash (bytes p.mem (ip_opt p) 36))) [
        | inl same ↦ (0, omega arith, rw same s)
        | inr new ↦ (
          0 + 2 * n,
          omega arith,
          rw new (print_hops-IsSteady p n (ip_opt p + 3) 0 o (omega arith) s),
        )
      ]
