-- ===== src/Main.antt =====
-- aping.c: `defaults`, the options of the command line, and the part of `main` before the threads
-- start. The results of `getopt` and of the system are arguments. `optind` is seen only where `-Id`
-- reads `argv[optind]`.
pub mod Setup
pub mod Reverse
pub mod Consistent
pub mod Steps
pub mod Configured
use aping.Base.{
  ℕ, suc, ◌+◌, ◌%◌, ◌^◌, List, [], ◌∷◌, Bool, true, false, not, ◌&&◌, ◌||◌, Option, none, some,
  take, ◌==◌, if◌then◌else◌,
}
use aping.Base.Int.{ℤ, pos}
use aping.Base.Text.{Text, text_eq}
use aping.Base.Ctype.{strtol}
use aping.Base.Outcome.{Run, ok, fatal, Fault, ◌>>=◌}
use aping.State.{Options, Globals}
use aping.NsCache.{Cache}
use aping.Plugin.{Forked, Process, running, image, plugin_init}
use aping.Plugin.Children.{Start}

-- A result of `getopt`: the option with its argument. `-Id` has what `argv[optind]` is, and `-l` has
-- what `plugin_init` meets.
pub data Turn : Type 0 where
  source tos ttl kind code interval count pattern device size : Text → Turn
  ramp route bcast predictor promisc sniff debug numeric droute dfrag version unknown help : Turn
  ident : Text → Option Text → Turn
  plugin : Start → Turn

-- What the options set: the globals, `host_src`, `ifname`, `mysize`, `pd_plugin`, and the statics
-- of ns-cache.c with `allow_reverse`.
pub record Setting : Type 0 where
  pub globals : Globals
  pub host_src : Option Text
  pub ifname : Text
  pub mysize : ℤ
  pub plugins : List ℕ
  pub cache : Cache

-- `ATOA`.
unfoldable pub atoa : Text → ℤ
unfolding strtol
atoa t = strtol 0 t

abbrev pub set_globals : (Globals → Globals) → Setting → Setting
set_globals f s = record s { globals = f s.globals }

abbrev set_options : (Options → Options) → Setting → Setting
set_options f s = set_globals (λ g. record g { options = f g.options }) s

abbrev pub first_char : Text → ℕ
first_char [] = 0
first_char (c ∷ cs) = c

abbrev pub help_text : Text
help_text = b'h' ∷ b'e' ∷ b'l' ∷ b'p' ∷ []

-- `usage` ends with `exit (0)`.
unfoldable pub unless_help : Text → Setting → Run Setting
unless_help t s = if text_eq help_text t then fatal Fault.exited else ok s

-- The case `I`.
unfoldable pub parse_ident : Text → Option Text → Setting → Run Setting
unfolding atoa
parse_ident t (some next) s =
    if first_char t == b'd'
    then ok (
        set_globals (λ g. record g { ip_id = atoa next })
          (set_options (λ o. record o { ip_id = true }) s))
    else if first_char t == b'i'
    then ok (set_options (λ o. record o { ip_id_incr = true }) s)
    else if first_char t == b'r'
    then ok (set_options (λ o. record o { ip_id_rand = true }) s)
    else fatal Fault.invalid_option
parse_ident t none s =
    if first_char t == b'd'
    then fatal Fault.invalid_option
    else if first_char t == b'i'
    then ok (set_options (λ o. record o { ip_id_incr = true }) s)
    else if first_char t == b'r'
    then ok (set_options (λ o. record o { ip_id_rand = true }) s)
    else fatal Fault.invalid_option

-- `plugin_init` goes on only in the parent.
abbrev pub keep_plugins : Setting → Process → Run Setting
keep_plugins s (running ps) = ok (record s { plugins = ps })
keep_plugins s (image t args) = fatal Fault.exited

module _ (path : Text) (ls : Run Process) where
  -- The switch. `ls` is the result of `plugin_ls`, which ends the process in any case.
  unfoldable pub parse_option : Turn → Setting → Run Setting
  unfolding unless_help parse_ident
  parse_option (source t) s =
      ok (record (set_options (λ o. record o { ip_src = true }) s) { host_src = some t })
  parse_option (tos t) s = unless_help t s >>= λ s'. ok (
      set_globals (λ g. record g { ip_tos = atoa t })
        (set_options (λ o. record o { ip_tos = true }) s'))
  parse_option (ttl t) s = ok (
      set_globals (λ g. record g { ip_ttl = atoa t })
        (set_options (λ o. record o { ip_ttl = true }) s))
  parse_option ramp s = ok (set_options (λ o. record o { ip_ramp = true }) s)
  parse_option route s = ok (set_options (λ o. record o { rroute = true }) s)
  parse_option (ident t next) s = parse_ident t next s
  parse_option bcast s = ok (set_options (λ o. record o { bcast = true }) s)
  parse_option predictor s = fatal Fault.exited
  parse_option (plugin p) s =
      if text_eq (b's' ∷ []) p.name
      then (ls >>= λ p. fatal Fault.exited)
      else (plugin_init path p.buf p.name p.forked s.plugins >>= keep_plugins s)
  parse_option (kind t) s = unless_help t s >>= λ s'. ok (
      set_globals (λ g. record g { icmp_type = atoa t })
        (set_options (λ o. record o { icmp_type = true }) s'))
  parse_option (code t) s = unless_help t s >>= λ s'. ok (
      set_globals (λ g. record g { icmp_code = atoa t })
        (set_options (λ o. record o { icmp_code = true }) s'))
  parse_option (interval t) s =
      ok (
        set_globals (λ g. record g { tau = atoa t })
          (set_options (λ o. record o { wait = true }) s))
  parse_option (count t) s = ok (
      set_globals (λ g. record g { count = atoa t })
        (set_options (λ o. record o { count = true }) s))
  parse_option (pattern t) s = ok (
      set_globals (λ g. record g { pattern = t })
        (set_options (λ o. record o { pattern = true }) s))
  parse_option (device t) s =
      ok (record (set_options (λ o. record o { ifname = true }) s) { ifname = take 16 t })
  parse_option promisc s = ok (set_options (λ o. record o { promisc = true }) s)
  parse_option sniff s = ok (set_options (λ o. record o { sniff = true }) s)
  parse_option (size t) s =
      ok (record (set_options (λ o. record o { size = true }) s) { mysize = atoa t })
  parse_option debug s = ok (set_options (λ o. record o { so_debug = true }) s)
  parse_option numeric s = ok (record (set_options (λ o. record o { numeric = true }) s) {
    cache = record s.cache { allow_reverse = false };
  })
  parse_option droute s = ok (set_options (λ o. record o { droute = true }) s)
  parse_option dfrag s = ok (set_options (λ o. record o { dfrag = true }) s)
  parse_option version s = fatal Fault.exited
  parse_option unknown s = fatal Fault.exited
  parse_option help s = fatal Fault.exited

  unfoldable pub parse_options : List Turn → Setting → Run Setting
  unfolding parse_option
  parse_options [] s = ok s
  parse_options (t ∷ ts) s = parse_option t s >>= parse_options ts
