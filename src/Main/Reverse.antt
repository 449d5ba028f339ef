-- ===== src/Main/Reverse.antt =====
-- The options of aping.c and the reverse resolution of ns-cache.c.
use mathlib.Core.Path.{subst}
use aping.Base.{List, [], ◌∷◌, not, Option, none, some, ◌==◌, ◌≡◌, refl, inl, inr, Bool-cases}
use aping.Base.Text.{Text, text_eq}
use aping.Base.Outcome.{Run, ok, fatal, Fault, ◌>>=◌, bind_ok, All, All-if}
use aping.NsCache.{Resolver}
use aping.NsCache.Transparent.{NamesAgree}
use aping.Plugin.{Process, running, image, plugin_init}
use aping.Main.{
  Turn, source, tos, ttl, kind, code, interval, count, pattern, device, size, ramp, route, bcast,
  predictor, promisc, sniff, debug, numeric, droute, dfrag, version, unknown, help, ident, plugin,
  Setting, help_text, unless_help, first_char, parse_ident, keep_plugins, parse_option,
  parse_options,
}

-- Names are resolved unless `-n` was given.
abbrev pub Reverse : Setting → Type 0
Reverse s = s.cache.allow_reverse ≡ not s.globals.options.numeric

-- And the table of names agrees with the resolver.
abbrev pub Sane : Resolver → Setting → Type 0
Sane r s = Reverse s × NamesAgree r s.cache

module _ (r : Resolver) where
  unless_help-All :
      (t : Text) (s : Setting) (f : Setting → Run Setting)
      → All (Sane r) (f s)
      → All (Sane r) (unless_help t s >>= f)
  unfolding unless_help
  unless_help-All t s f h = elim (Bool-cases (text_eq help_text t)) [
    | inl e ↦ rw e tt
    | inr e ↦ rw e h
  ]

  parse_ident-All :
      (t : Text) (next : Option Text) (s : Setting) → Sane r s → All (Sane r) (parse_ident t next s)
  unfolding parse_ident
  parse_ident-All t none s h = All-if (Sane r) (first_char t == b'd') _ _ tt (
      All-if (Sane r) (first_char t == b'i') _ _ h
        (All-if (Sane r) (first_char t == b'r') _ _ h tt))
  parse_ident-All t (some next) s h = All-if (Sane r) (first_char t == b'd') _ _ h (
      All-if (Sane r) (first_char t == b'i') _ _ h
        (All-if (Sane r) (first_char t == b'r') _ _ h tt))

  exits : (m : Run Process) → All (Sane r) (m >>= λ p. fatal Fault.exited)
  exits (ok p) = tt
  exits (fatal e) = tt

  keeps : (s : Setting) (m : Run Process) → Sane r s → All (Sane r) (m >>= keep_plugins s)
  keeps s (ok (running ps)) h = h
  keeps s (ok (image t args)) h = tt
  keeps s (fatal e) h = tt

  module _ (path : Text) (ls : Run Process) where
    parse_option-All : (t : Turn) (s : Setting) → Sane r s → All (Sane r) (parse_option path ls t s)
    unfolding parse_option
    parse_option-All (source t) s h = h
    parse_option-All (tos t) s h = unless_help-All t s _ h
    parse_option-All (ttl t) s h = h
    parse_option-All ramp s h = h
    parse_option-All route s h = h
    parse_option-All (ident t next) s h = parse_ident-All t next s h
    parse_option-All bcast s h = h
    parse_option-All predictor s h = tt
    parse_option-All (plugin p) s h =
        All-if (Sane r) (text_eq (b's' ∷ []) p.name) _ _ (exits ls)
          (keeps s (plugin_init path p.buf p.name p.forked s.plugins) h)
    parse_option-All (kind t) s h = unless_help-All t s _ h
    parse_option-All (code t) s h = unless_help-All t s _ h
    parse_option-All (interval t) s h = h
    parse_option-All (count t) s h = h
    parse_option-All (pattern t) s h = h
    parse_option-All (device t) s h = h
    parse_option-All promisc s h = h
    parse_option-All sniff s h = h
    parse_option-All (size t) s h = h
    parse_option-All debug s h = h
    parse_option-All numeric s h = (refl, h.1)
    parse_option-All droute s h = h
    parse_option-All dfrag s h = h
    parse_option-All version s h = tt
    parse_option-All unknown s h = tt
    parse_option-All help s h = tt

    pub parse_options-Sane :
        (ts : List Turn) (s s1 : Setting)
        → Sane r s
        → parse_options path ls ts s ≡ ok s1
        → (Sane r) s1
    unfolding parse_options
    parse_options-Sane [] s s1 h e = subst (Sane r) (ok_inj e) h
      where
        ok_inj : {a b : Setting} → ok a ≡ ok b → a ≡ b
        ok_inj e = cc
    parse_options-Sane (t ∷ ts) s s1 h e =
        let (s0, e0, e1) = bind_ok (parse_option path ls t s) (parse_options path ls ts) s1 e in
        parse_options-Sane ts s0 s1 (subst (All (Sane r)) e0 (parse_option-All t s h)) e1
