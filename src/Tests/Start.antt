-- ===== src/Tests/Start.antt =====
-- The start of the program: arguments, options, interfaces, plugins.
use aping.Base.{
  ℕ, ◌<◌, ◌≤◌, List, [], ◌∷◌, ◌++◌, true, false, ◌&&◌, some, none, take, length, replicate, ltb,
  ◌≡◌, ◌↔◌, refl, arith,
}
use aping.Base.Int.{pos}
use aping.Base.Text.{Text}
use aping.Base.Outcome.{Run, ok, fatal, Fault}
use aping.State.{initial}
use aping.NsCache.{Cache, no_entry}
use aping.Args.{Format, checkip, checkargs}
use aping.Args.Numeral.{dotted}
use aping.Args.Dotted.{checkip-dotted}
use aping.Args.EchoReply.{AllDigits, checkargs_echo_reply}
use aping.StrCat.{strlcat}
use aping.StrCat.Appended.{Holds, strlcat-Holds}
use aping.Plugin.{
  loader_path, append_all, parent, child, plugin_init, loader, image, run_plugin, slash,
  loader_text, dot_so, init_suffix, exit_suffix, discard_plugin,
}
use aping.Plugin.Names.{plugin_init-loader}
use aping.Plugin.Children.{Start, start_all, pids, start_all-discarded}
use aping.Iface.{Interface, System, get_first_hop}
use aping.Iface.First.{FirstHop, get_first_hop_iff}
use aping.Main.{Turn, Setting, numeric, ttl}
use aping.Main.Setup.{World, main_setup}
use aping.Main.Configured.{Configured}

checkip-dotted_example :
    checkip [] (dotted 192 168 0 256) ≡ (ltb 192 256 && (ltb 168 256 && (ltb 0 256 && ltb 256 256)))
checkip-dotted_example =
    checkip-dotted [] 192 168 0 256 (omega arith) (omega arith) (omega arith) (omega arith)

checkargs_echo_reply_example :
    (checkargs []
        (dotted 192 168 0 1 ∷ (b'7' ∷ []) ∷ (b'x' ∷ []) ∷ [])
        3
        (Format.arg_ip ∷ Format.arg_num ∷ Format.arg_num ∷ [])
      ≡ ok tt)
    ↔ (((192 < 256) × (168 < 256) × (0 < 256) × (1 < 256))
        × AllDigits (b'7' ∷ [])
        × AllDigits (b'x' ∷ []))
checkargs_echo_reply_example =
    checkargs_echo_reply [] 192 168 0 1 (b'7' ∷ []) (b'x' ∷ []) [] (omega arith) (omega arith)
      (omega arith) (omega arith)

abbrev buffer : List ℕ
buffer = b'a' ∷ 0 ∷ 7 ∷ 7 ∷ []

strlcat-Holds_example :
    (buf : List ℕ) × (strlcat buffer (b'b' ∷ b'c' ∷ b'd' ∷ []) 4 ≡ ok (buf, 4))
    × Holds 4 buf (take 3 (b'a' ∷ b'b' ∷ b'c' ∷ b'd' ∷ []))
strlcat-Holds_example =
    strlcat-Holds 4 buffer (b'a' ∷ []) (b'b' ∷ b'c' ∷ b'd' ∷ []) 4
      (record { rest = 7 ∷ 7 ∷ []; shape = refl; zero_free = (omega arith, tt); room = refl })
      (omega arith, (omega arith, (omega arith, tt))) (omega arith) (omega arith) (omega arith)

abbrev stack : List ℕ
stack = replicate 80 9

abbrev directory : Text
directory = b'/' ∷ b'p' ∷ []

abbrev sonar : Text
sonar = b's' ∷ b'o' ∷ []

plugin_init-loader_example :
    (args : List Text) × (plugin_init directory stack sonar child []
      ≡ ok (image (directory ++ (slash ++ loader_text)) args))
    × (loader (λ t. true) directory stack stack stack args
        ≡ ok record {
          object = directory ++ (slash ++ (sonar ++ dot_so));
          init = sonar ++ init_suffix;
          exit = sonar ++ exit_suffix;
          action = run_plugin;
        })
plugin_init-loader_example =
    plugin_init-loader (λ t. true) directory sonar stack stack stack stack [] refl refl refl refl
      (omega arith, (omega arith, tt)) (omega arith, (omega arith, tt)) (omega arith) refl

-- Two children.
abbrev two : List Start
two =
    record { buf = stack; name = sonar; forked = parent 41 }
    ∷ record { buf = stack; name = sonar; forked = parent 42 }
    ∷ []

abbrev children : List ℕ
children = 41 ∷ 42 ∷ []

start_all-discarded_example :
    (children ≡ pids two) × (length children ≤ 32) × (discard_plugin children ≡ children)
unfolding start_all plugin_init loader_path append_all strlcat
start_all-discarded_example = start_all-discarded directory two children refl

abbrev loopback_device : Interface
loopback_device = record { name = b'l' ∷ b'o' ∷ []; inet = true; addr = 1; up = some false }

-- An interface with an alias.
abbrev card : Interface
card = record { name = b'e' ∷ b'0' ∷ b':' ∷ b'1' ∷ []; inet = true; addr = 7; up = some true }

abbrev host : System
host = record {
  local_name = λ t. some 7;
  ifconf = some (loopback_device ∷ card ∷ []);
  loopback = 1;
}

get_first_hop_iff_example :
    (get_first_hop host 9 ≡ ok (7, b'e' ∷ b'0' ∷ [])) ↔ FirstHop host 9 7 (b'e' ∷ b'0' ∷ [])
get_first_hop_iff_example = get_first_hop_iff host 9 7 (b'e' ∷ b'0' ∷ [])

abbrev cold : Cache
cold = record {
  hostbyname = λ i. no_entry;
  hostbyaddr = λ i. no_entry;
  held = pos 0;
  index = 0;
  buffers = λ i. none;
  allow_reverse = false;
}

abbrev world : World
world = record {
  uid = 0;
  euid = 0;
  pid = 70000;
  resolver = record {
    inet_addr = λ t. 9;
    host_address = λ t. none;
    host_name = λ a. none;
    inet_ntoa = λ a. [];
  };
  today = 100;
  system = host;
  path = directory;
  listing = fatal Fault.no_directory;
  lookupnet = λ t. true;
}

abbrev before_main : Setting
before_main = record {
  globals = initial;
  host_src = none;
  ifname = [];
  mysize = pos 0;
  plugins = [];
  cache = cold;
}

abbrev from_ok : Run Setting → Setting → Setting
from_ok (ok s) d = s
from_ok (fatal e) d = d

-- aping -n -T 64 h
abbrev command : List Text
command = [] ∷ (b'-' ∷ b'n' ∷ []) ∷ (b'-' ∷ b'T' ∷ []) ∷ (b'6' ∷ b'4' ∷ []) ∷ (b'h' ∷ []) ∷ []

abbrev turns : List Turn
turns = numeric ∷ ttl (b'6' ∷ b'4' ∷ []) ∷ []

abbrev configured : Setting
unfolding main_setup
configured = from_ok (main_setup world command turns ((b'h' ∷ []) ∷ []) before_main) before_main
