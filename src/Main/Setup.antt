-- ===== src/Main/Setup.antt =====
-- aping.c: what `main` does before the threads start.
use aping.Base.{
  ℕ, zero, suc, ◌+◌, ◌%◌, List, [], ◌∷◌, Bool, true, false, not, ◌&&◌, ◌||◌, Option, some, length,
  ltb, ◌==◌, if◌then◌else◌,
}
use aping.Base.Text.{Text}
use aping.Base.Outcome.{Run, ok, fatal, Fault, ◌>>=◌, ◌>>◌, require}
use aping.State.{Options}
use aping.NsCache.{Resolver, gethostbyname_cache, failed}
use aping.Iface.{System, get_first_hop, gethostbyif}
use aping.Plugin.{Process}
use aping.Main.{Turn, Setting, set_globals, parse_options}

-- What the process meets: the ids of the user and of the process, the resolver and the day, the
-- interfaces, the plugins, and whether `pcap_lookupnet` knows the network of an interface.
pub record World : Type 0 where
  pub uid : ℕ
  pub euid : ℕ
  pub pid : ℕ
  pub resolver : Resolver
  pub today : ℕ
  pub system : System
  pub path : Text
  pub listing : Run Process
  pub lookupnet : Text → Bool

-- `for (i = 0; i < 48; i++) pattern[i] = i + 8;`
unfoldable count_up : ℕ → ℕ → List ℕ
count_up zero from = []
count_up (suc n) from = from ∷ count_up n (from + 1)

unfoldable pub defaults : ℕ → Setting → Setting
unfolding count_up
defaults pid s = record s {
  globals = record s.globals { pattern = count_up 48 8; myid = pid % 65536 };
  cache = record s.cache { allow_reverse = true };
}

-- `ATOMIC`, and its test, and `DEPEND_TEST`.
unfoldable atomic : Bool → Bool → Bool
atomic a b = (not a && b) || (a && not b) || (not a && not b)

unfoldable pub atomic_test : Bool → Bool → Run (Unit {0})
unfolding atomic
atomic_test a b = require (atomic a b) Fault.exclusive_options

unfoldable pub depend_test : Bool → Bool → Run (Unit {0})
depend_test a b = require (not (a && not b)) Fault.required_option

unfoldable pub check_options : Options → Run (Unit {0})
unfolding atomic_test depend_test
check_options o = do
  atomic_test o.sniff o.ip_src
  atomic_test o.sniff o.ip_dst
  atomic_test o.ip_id_rand o.ip_id_incr
  depend_test o.sniff o.ifname
  depend_test o.ip_src o.ifname

-- The address of a host, with the name cache afterwards.
unfoldable pub host_of : World → Option Text → Fault → Setting → Run (ℕ × Setting)
host_of w host e s =
    let (a, c) = gethostbyname_cache w.resolver w.today host s.cache in
    if a == failed then fatal e else ok (a, record s { cache = c })

unfoldable pub resolve_source : World → Setting → Run Setting
resolve_source w s =
    if s.globals.options.ip_src
    then (host_of w s.host_src Fault.bad_source s >>= λ p.
        ok (set_globals (λ g. record g { ip_src = p.0 }) p.1))
    else ok s

-- `argv` less the options.
unfoldable pub resolve_destination : World → List Text → Setting → Run Setting
resolve_destination w [] s = if s.globals.options.sniff then ok s else fatal Fault.no_destination
resolve_destination w (host ∷ argv) s = host_of w (some host) Fault.bad_host s >>= λ p.
    ok (set_globals (λ g. record g { ip_dst = p.0 }) p.1)

unfoldable pub choose_source : World → Setting → Run Setting
choose_source w s =
    if s.globals.options.ip_src
    then ok s
    else if s.globals.options.ifname
    then (gethostbyif w.system s.ifname >>= λ a. ok (set_globals (λ g. record g { ip_src = a }) s))
    else (get_first_hop w.system s.globals.ip_dst >>= λ p.
        ok (record (set_globals (λ g. record g { ip_src = p.0 }) s) { ifname = p.1 }))

-- After the loop of `getopt`.
unfoldable pub configure : World → List Text → Setting → Run Setting
configure w argv s = do
  check_options s.globals.options
  s1 ← resolve_source w s
  s2 ← resolve_destination w argv s1
  s3 ← choose_source w s2
  if w.lookupnet s3.ifname then ok s3 else fatal Fault.no_network

abbrev is_long : Text → Bool
is_long (a ∷ b ∷ t) = (a == b'-') && (b == b'-')
is_long t = false

-- The tests before the options; `argc` is the number of the arguments with the name of the program.
unfoldable pub check_call : World → List Text → Run (Unit {0})
check_call w [] = fatal Fault.no_arguments
check_call w (name ∷ argv) = do
  require (w.uid == w.euid) Fault.setuid
  require (w.uid == 0) Fault.not_root
  require (not (ltb (length (name ∷ argv)) 2)) Fault.no_arguments
  elim argv [ [] ↦ ok tt | a ∷ rest ↦ require (not (is_long a)) Fault.long_options ]

-- `turns` are the results of `getopt` on `argv`, and `rest` what it leaves.
unfoldable pub main_setup : World → List Text → List Turn → List Text → Setting → Run Setting
main_setup w argv turns rest s = do
  let s0 = defaults w.pid s
  check_call w argv
  s1 ← parse_options w.path w.listing turns s0
  configure w rest s1
