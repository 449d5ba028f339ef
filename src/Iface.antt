-- ===== src/Iface.antt =====
-- iface.c: the address and the name of the interface that a datagram leaves by. The list of the
-- interfaces and their flags, and the address that `getsockname` gives after `connect`, come from the
-- system. `socket`, `setsockopt` and `close` are taken to succeed.
pub mod First
use aping.Base.{
  ℕ, List, [], ◌∷◌, Bool, true, false, Option, none, some, take, not, ◌&&◌, ◌==◌, if◌then◌else◌,
}
use aping.Base.Text.{Text, text_eq}
use aping.Base.Outcome.{Run, ok, fatal, Fault, ◌>>=◌}

-- An entry of `SIOCGIFCONF`: its name, whether its family is `AF_INET`, the word at the place of
-- `sin_addr`, and what `SIOCGIFFLAGS` says of `IFF_UP`, if it succeeds.
pub record Interface : Type 0 where
  pub name : Text
  pub inet : Bool
  pub addr : ℕ
  pub up : Option Bool

pub record System : Type 0 where
  pub local_name : ℕ → Option ℕ
  pub ifconf : Option (List Interface)
  pub loopback : ℕ

-- The loops over the interfaces: an entry that is skipped, down, or not wanted is passed over.
unfoldable pub scan : (Interface → Bool) → (Interface → Bool) → List Interface → Run Interface
scan skip want [] = fatal Fault.no_interface
scan skip want (i ∷ is) =
    let rest = scan skip want is in
    if skip i then rest else elim i.up [
      | none ↦ fatal Fault.ioctl_failed
      | some up ↦ if up && want i then ok i else rest
    ]

-- `*strchr (ifname, ':') = '\0'`: the name without its alias.
unfoldable pub before_colon : Text → Text
before_colon [] = []
before_colon (c ∷ cs) = let rest = before_colon cs in if c == b':' then [] else c ∷ rest

abbrev pub get_or_fatal {ℓ} : {A : Type ℓ} → Option A → Fault → Run A
get_or_fatal none e = fatal e
get_or_fatal (some a) e = ok a

abbrev pub has_address : ℕ → Interface → Bool
has_address a i = i.addr == a

abbrev pub no_skip : Interface → Bool
no_skip i = false

-- `*source` and `ifname`.
unfoldable pub get_first_hop : System → ℕ → Run (ℕ × Text)
unfolding scan before_colon
get_first_hop s target = do
  source ← get_or_fatal (s.local_name target) Fault.connect_failed
  let ipif = if source == target then s.loopback else source
  ifs ← get_or_fatal s.ifconf Fault.ioctl_failed
  i ← scan no_skip (has_address ipif) ifs
  ok (source, before_colon (take 16 i.name))

abbrev unnamed : Interface → Bool
unnamed i = text_eq i.name []

abbrev pub named : Text → Interface → Bool
named ifname i = i.inet && text_eq i.name ifname

unfoldable pub gethostbyif : System → Text → Run ℕ
unfolding scan
gethostbyif s ifname = do
  ifs ← get_or_fatal s.ifconf Fault.ioctl_failed
  i ← scan unnamed (named ifname) ifs
  ok i.addr
