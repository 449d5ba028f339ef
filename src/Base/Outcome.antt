-- ===== src/Base/Outcome.antt =====
-- A call that may end the process by `fatal`.
use mathlib.Core.Bool.{Bool, true, false}
use mathlib.Core.Path.{◌≡◌, refl}
use aping.Base.Tests.{if◌then◌else◌}
use mathlib.Core.Logic.{◌⊎◌, inl, inr}

-- The reasons for which the modelled code calls `fatal`, the signal of a division by 0, a loop
-- that its fuel does not end, a read past a table, and the end of the process by `exit`.
pub data Fault : Type 0 where
  bad_expectation data_collision : Fault
  unknown_datalink no_datalink unsupported_device : Fault
  parameters_requested bad_number bad_ip bad_range bad_port bad_port_range : Fault
  divide_error endless_loop bad_index : Fault
  sendto_failed exclusive_options required_option bad_host no_destination : Fault
  connect_failed ioctl_failed no_interface bad_source invalid_option exited fork_failed : Fault
  too_many_plugins no_directory loader_failed setuid not_root no_arguments long_options : Fault
  no_network socket_failed : Fault

pub data Run {ℓ} (A : Type ℓ) : Type ℓ where
  ok : A → Run A
  fatal : Fault → Run A

infixl 5 ◌>>=◌ ◌>>◌
abbrev pub ◌>>=◌ {ℓ κ} : {A : Type ℓ} {B : Type κ} → Run A → (A → Run B) → Run B
ok a >>= f = f a
fatal e >>= f = fatal e

abbrev pub ◌>>◌ {ℓ} : {B : Type ℓ} → Run (Unit {0}) → Run B → Run B
m >> k = m >>= λ _. k

-- `if (! test) fatal (...)`.
abbrev pub require : Bool → Fault → Run (Unit {0})
require true e = ok tt
require false e = fatal e

-- What a result satisfies, if there is one.
abbrev pub All {ℓ κ} : {A : Type ℓ} → (A → Type κ) → Run A → Type κ
All P (ok a) = P a
All P (fatal e) = Unit

pub Run-cases {ℓ} :
    {A : Type ℓ} (m : Run A) → ((a : A) × (m ≡ ok a)) ⊎ ((e : Fault) × (m ≡ fatal e))
Run-cases (ok a) = inl (a, refl)
Run-cases (fatal e) = inr (e, refl)

pub All-if {ℓ κ} :
    {A : Type ℓ} (P : A → Type κ) (b : Bool) (x y : Run A)
    → All P x
    → All P y
    → All P (if b then x else y)
All-if P true x y p q = p
All-if P false x y p q = q

-- A call that goes through has both its parts go through.
pub bind_ok {ℓ κ} :
    {A : Type ℓ} {B : Type κ} (m : Run A) (f : A → Run B) (b : B)
    → m >>= f ≡ ok b
    → (a : A) × (m ≡ ok a) × (f a ≡ ok b)
bind_ok (ok a) f b h = (a, refl, h)
bind_ok (fatal e) f b h = cc

-- A call that goes through.
abbrev pub IsOk {ℓ} : {A : Type ℓ} → Run A → Type 0
IsOk (ok a) = Unit
IsOk (fatal e) = ⊥

pub result_of_IsOk {ℓ} : {A : Type ℓ} (m : Run A) → IsOk m → (a : A) × (m ≡ ok a)
result_of_IsOk (ok a) h = (a, refl)
result_of_IsOk (fatal e) h = elim h [ ]
