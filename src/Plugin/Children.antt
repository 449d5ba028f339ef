-- ===== src/Plugin/Children.antt =====
-- The children that the `-l` options start, and what `discard_plugin` does at the exit.
use mathlib.Core.List.{append_assoc, append-nil}
use aping.Base.{
  ℕ, ◌<◌, ◌≤◌, min, List, [], ◌∷◌, ◌++◌, Bool, true, false, take, length, length-append, ltb,
  ltb→lt, if◌then◌else◌, ◌≡◌, refl, sym, ap, ◌∙◌, arith,
}
use aping.Base.Text.{Text}
use aping.Base.Outcome.{Run, ok, fatal, Fault, ◌>>=◌, bind_ok}
use aping.Plugin.{
  Forked, parent, child, fork_error, Process, running, image, loader_path, forked_process,
  plugin_init, discard_plugin,
}

-- One `-l` option: what the buffer of `plugin_init` holds, the name, and the result of `fork`.
pub record Start : Type 0 where
  pub buf : List ℕ
  pub name : Text
  pub forked : Forked

-- The calls of `plugin_init` in the process that goes on.
abbrev go_on : (List ℕ → Run (List ℕ)) → Process → Run (List ℕ)
go_on f (running ps) = f ps
go_on f (image t args) = fatal Fault.exited

unfoldable pub start_all : Text → List Start → List ℕ → Run (List ℕ)
start_all path [] plugins = ok plugins
start_all path (s ∷ ss) plugins =
    plugin_init path s.buf s.name s.forked plugins >>= go_on (start_all path ss)

-- The ids of the children, in order.
abbrev pub pids : List Start → List ℕ
pids [] = []
pids (s ∷ ss) = elim s.forked [
  | fork_error ↦ pids ss
  | child ↦ pids ss
  | parent pid ↦ pid ∷ pids ss
]

added :
    (b : Bool) (xs ps : List ℕ)
    → (if b then ok (running xs) else fatal Fault.too_many_plugins) ≡ ok (running ps)
    → (b ≡ true) × (ps ≡ xs)
added true xs ps h = (refl, cc)
added false xs ps h = cc

forked_running :
    (loader name : Text) (plugins ps : List ℕ) (f : Forked)
    → forked_process loader name plugins f ≡ ok (running ps)
    → (pid : ℕ) × (f ≡ parent pid) × (length plugins < 32) × (ps ≡ plugins ++ (pid ∷ []))
unfolding forked_process
forked_running loader name plugins ps fork_error h = cc
forked_running loader name plugins ps child h = cc
forked_running loader name plugins ps (parent pid) h =
    let (few, e) = added (ltb (length plugins) 32) (plugins ++ (pid ∷ [])) ps h in
    (pid, refl, ltb→lt (length plugins) 32 few, e)

going_on :
    (f : List ℕ → Run (List ℕ)) (p : Process) (r : List ℕ)
    → go_on f p ≡ ok r
    → (ps : List ℕ) × (p ≡ running ps) × (f ps ≡ ok r)
going_on f (running ps) r h = (ps, refl, h)
going_on f (image t args) r h = cc

plugin_init-eq :
    (path : Text) (s : Start) (plugins : List ℕ)
    → (loader_path path s.buf >>= λ l. forked_process l s.name plugins s.forked)
      ≡ plugin_init path s.buf s.name s.forked plugins
unfolding plugin_init
plugin_init-eq path s plugins = refl

pids-parent :
    (s : Start) (ss : List Start) (pid : ℕ) → s.forked ≡ parent pid → pids (s ∷ ss) ≡ pid ∷ pids ss
pids-parent s ss pid h = rw h refl

start_all-pids :
    (path : Text) (ss : List Start) (plugins ps : List ℕ)
    → length plugins ≤ 32
    → start_all path ss plugins ≡ ok ps
    → (ps ≡ plugins ++ pids ss) × (length ps ≤ 32)
unfolding start_all
start_all-pids path [] plugins ps l h =
    let e : plugins ≡ ps = same_ok h in
    (sym e ∙ sym (append-nil plugins), omega (arith, ap length e))
  where
    same_ok : {a b : List ℕ} → ok a ≡ ok b → a ≡ b
    same_ok e = cc
start_all-pids path (s ∷ ss) plugins ps l h =
    let (p, e1, h1) = bind_ok (plugin_init path s.buf s.name s.forked plugins) _ ps h in
    let (qs, e2, h2) = going_on (start_all path ss) p ps h1 in
    let (t, e3, h3) =
      bind_ok (loader_path path s.buf) _ _ (plugin_init-eq path s plugins ∙ e1 ∙ ap ok e2) in
    let (pid, e4, few, e5) = forked_running t s.name plugins qs s.forked h3 in
    let (e6, short) =
      start_all-pids path ss qs ps (omega (arith, ap length e5, length-append plugins (pid ∷ [])))
        h2 in
    (
      e6
          ∙ ap (◌++ pids ss) e5
          ∙ append_assoc plugins (pid ∷ []) (pids ss)
          ∙ ap (λ t. plugins ++ t) (sym (pids-parent s ss pid e4)),
      short,
    )

take-length : (t : List ℕ) → take (length t) t ≡ t
take-length [] = refl
take-length (c ∷ cs) = ap (◌∷◌ c) (take-length cs)

-- When the options `-l` have started their plugins with no fault, the table holds the ids that
-- `fork` gave, in order, and at most 32, and `discard_plugin` signals all of them.
pub start_all-discarded :
    (path : Text) (ss : List Start) (ps : List ℕ)
    → start_all path ss [] ≡ ok ps
    → (ps ≡ pids ss) × (length ps ≤ 32) × (discard_plugin ps ≡ ps)
unfolding discard_plugin
start_all-discarded path ss ps h =
    let (e, short) = start_all-pids path ss [] ps (omega arith) h in
    let m : min (length ps) 32 ≡ length ps = omega arith in
    (e, short, ap (λ n. take n ps) m ∙ take-length ps)
