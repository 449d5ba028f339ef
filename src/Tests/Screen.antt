-- ===== src/Tests/Screen.antt =====
-- What the receiver prints.
use aping.Base.{◌-◌, ◌*◌, ◌^◌, [], some, ◌≡◌, refl, arith, ◌==◌, if◌then◌else◌}
use aping.Base.Outcome.{ok}
use aping.State.{initial}
use aping.Memory.{Memory}
use aping.Packet.{Packet}
use aping.Screen.{Output, print_pack}
use aping.Screen.Dissect.{class_of}
use aping.Screen.Prefix.{class_of-odd}
use aping.Screen.Hosts.{NamesHosts, print_pack_names}
use aping.Tests.Names.{empty, empty-AddressesAgree, one_host}

-- The mask 255.255.255.0.
class_of-odd_example : class_of (2 ^ 8 * 16777215) ≡ some (32 - 8)
class_of-odd_example = class_of-odd 8 16777215 (omega arith) refl

-- An address mask reply behind a header of 5 words.
abbrev mask_reply : Memory
mask_reply i = if i == 14 then 69 else if i == 34 then 18 else if i == 42 then 255 else 0

abbrev captured : Packet
captured = record {
  mem = mask_reply;
  dl = 0;
  ip = 14;
  icmp = 34;
  payload = 42;
  tstamp_tval = 42;
  tstamp_data = 50;
}

abbrev blank : Output
blank = record { cache = empty; lines = []; fp_buffer = [] }

print_pack_names_example :
    (o' : Output) × (print_pack one_host 100 captured 1 initial initial blank ≡ ok o')
    × NamesHosts one_host 100 blank.cache.allow_reverse captured initial o'
print_pack_names_example =
    print_pack_names one_host 100 captured 1 initial initial blank empty-AddressesAgree
      (omega arith)
