-- ===== src/Main/Configured.antt =====
-- What holds of the options and the addresses when `main` of aping.c starts its threads.
use aping.Base.{List, true, false, not, ◌&&◌, ◌==◌, ◌≡◌}
use aping.Base.Text.{Text}
use aping.NsCache.{failed}
use aping.Main.{Setting}
use aping.Main.Consistent.{Consistent}
use aping.Main.Steps.{IsTarget, Chosen}
use aping.Main.Reverse.{Reverse}
use aping.Main.Setup.{World}

-- What holds when the threads start.
pub record Configured (w : World) (argv : List Text) (x : Setting) : Type 0 where
  pub consistent : Consistent x.globals.options
  pub source : x.globals.options.ip_src && (x.globals.ip_src == failed) ≡ false
  pub destination : not x.globals.options.sniff && (x.globals.ip_dst == failed) ≡ false
  pub target : IsTarget w argv x.globals.ip_dst
  pub chosen : Chosen w x
  pub network : w.lookupnet x.ifname ≡ true
  pub reverse : Reverse x
