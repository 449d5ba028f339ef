-- ===== src/Usage/Marked.antt =====
-- The column of the transmitter in the list of `usage` for the types, and what is sent.
use aping.Base.{ℕ, List, ◌≡◌, ◌⊎◌, ◌↔◌, arith}
use aping.Base.Text.{Text}
use aping.Base.Outcome.{All}
use aping.NsCache.{Resolver}
use aping.Sending.Wire.{Moment, Wire, wire_loop}
use aping.Sending.Wire.Kinds.{IsLoaded}
use aping.Sending.Wire.Verified.{Sends, AllVerify, wire_loop-AllVerify}
use aping.Usage.{setup_maturity, set_levels, load_maturity}

-- Marked as done or as beta.
abbrev IsMarked : ℕ → Type 0
IsMarked c = (c ≡ b'*') ⊎ (c ≡ b'b')

IsMarked-IsLoaded :
    (kind : ℕ) → IsMarked ((load_maturity setup_maturity).loader kind) ↔ IsLoaded kind
unfolding load_maturity set_levels
IsMarked-IsLoaded kind = (λ h. ground arith, λ h. ground arith)

-- For every type that the levels of maturity mark as done or as beta for the transmitter, and a
-- memory of bytes: where the loop of `sender` ends with no fault, and so with no read past
-- `buffer`, each datagram that it hands over has the length of its header and its message, and
-- both sum to a checksum of 0.
pub IsMarked-AllVerify :
    (r : Resolver) (today : ℕ) (after : Text) (argv : List Text) (n size kind : ℕ)
    (ts : List Moment) (w : Wire)
    → IsMarked ((load_maturity setup_maturity).loader kind)
    → Sends n size kind w
    → All (λ x. AllVerify n size x.1) (wire_loop r today after argv ts w)
IsMarked-AllVerify r today after argv n size kind ts w marked s =
    wire_loop-AllVerify r today after argv n size kind ((IsMarked-IsLoaded kind).0 marked) ts w s
