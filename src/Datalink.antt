-- ===== src/Datalink.antt =====
-- datalink.c: the length of the header before the IP header, by the kind of link that libpcap tells.
-- The numbers of the links are those of bpf.h, and the lengths those of Linux.
use aping.Base.{
  ℕ, ◌≤◌, List, [], ◌∷◌, ◌≡◌, refl, arith, ◌==◌, if◌then◌else◌, Bool, ◌&&◌, ◌||◌, leb, Bool-cases,
  inl, inr, true, Option, none, some,
}
use aping.Base.Int.{ℤ, pos, negsuc, ◌==ℤ◌, pos_part, neg_part}
use aping.Base.Outcome.{Run, ok, fatal, Fault, ◌>>=◌, All}

-- `CASE`: a kind and its length; -1 marks a kind that is known and has none.
pub record Link : Type 0 where
  pub kind : ℕ
  pub size : ℤ

abbrev link : ℕ → ℤ → Link
link k n = record { kind = k; size = n }

abbrev unknown : ℤ
unknown = negsuc 0

-- The cases in the order of the source: NULL, EN10MB, EN3MB, AX25, PRONET, CHAOS, IEEE802, ARCNET,
-- SLIP, PPP, FDDI, ATM_RFC1483, LOOP, RAW, SLIP_BSDOS, PPP_BSDOS, ATM_CLIP, PPP_SERIAL, PPP_ETHER,
-- C_HDLC, IEEE802_11, LINUX_SLL, LTALK, ECONET, IPFILTER, PFLOG, CISCO_IOS, PRISM, AIRONET.
abbrev pub links : List Link
links =
    link 0 (pos 4)
    ∷ link 1 (pos 14)
    ∷ link 2 (pos 14)
    ∷ link 3 unknown
    ∷ link 4 unknown
    ∷ link 5 unknown
    ∷ link 6 (pos 22)
    ∷ link 7 unknown
    ∷ link 8 (pos 24)
    ∷ link 9 (pos 24)
    ∷ link 10 (pos 21)
    ∷ link 11 (pos 8)
    ∷ link 108 (pos 4)
    ∷ link 12 (pos 0)
    ∷ link 15 (pos 16)
    ∷ link 16 (pos 4)
    ∷ link 19 unknown
    ∷ link 50 (pos 24)
    ∷ link 51 (pos 24)
    ∷ link 104 unknown
    ∷ link 105 (pos 30)
    ∷ link 113 (pos 16)
    ∷ link 114 unknown
    ∷ link 115 unknown
    ∷ link 116 unknown
    ∷ link 117 unknown
    ∷ link 118 unknown
    ∷ link 119 unknown
    ∷ link 120 unknown
    ∷ []

unfoldable pub find : List Link → ℕ → Option ℤ
find [] k = none
find (l ∷ ls) k = let rest = find ls k in if l.kind == k then some l.size else rest

-- The value of `sizeof_datalink` for what `pcap_datalink` returns; -1 ends the receiver.
unfoldable sizeof_datalink : ℤ → Run ℤ
unfolding find
sizeof_datalink (negsuc n) = fatal Fault.no_datalink
sizeof_datalink (pos k) = elim (find links k) [
  | none ↦ fatal Fault.unknown_datalink
  | some n ↦ ok n
]

-- The test of the receiver.
unfoldable open_link : ℤ → Run ℤ
unfolding sizeof_datalink
open_link dtl = do
  n ← sizeof_datalink dtl
  if n ==ℤ negsuc 0 then fatal Fault.unsupported_device else ok n

abbrev fits : ℤ → Bool
fits n = (n ==ℤ negsuc 0) || ((neg_part n == 0) && leb (pos_part n) 30)

abbrev all_fit : List Link → Bool
all_fit [] = true
all_fit (l ∷ ls) = fits l.size && all_fit ls

abbrev Found : Option ℤ → Type 0
Found none = Unit
Found (some n) = fits n ≡ true

find-fits : (ls : List Link) (k : ℕ) → all_fit ls ≡ true → Found (find ls k)
unfolding find
find-fits [] k h = tt
find-fits (l ∷ ls) k h = elim (Bool-cases (l.kind == k)) [
  | inl e ↦ rw e (and_left (fits l.size) (all_fit ls) h)
  | inr e ↦ rw e (find-fits ls k (and_right (fits l.size) (all_fit ls) h))
]
  where
    and_left : (a b : Bool) → (a && b) ≡ true → a ≡ true
    and_left a b h = ground arith

    and_right : (a b : Bool) → (a && b) ≡ true → b ≡ true
    and_right a b h = ground arith

abbrev InBounds : ℤ → Type 0
InBounds n = (neg_part n ≡ 0) × (pos_part n ≤ 30)

-- What the receiver makes of a value of the table.
usable :
    (n : ℤ)
    → fits n ≡ true
    → All InBounds (if n ==ℤ negsuc 0 then fatal Fault.unsupported_device else ok n)
usable (pos n) h = ground arith
usable (negsuc n) h = ground arith

-- Every length of a link header that the receiver goes on with is between 0 and 30.
open_link-InBounds : (dtl : ℤ) → All InBounds (open_link dtl)
unfolding open_link sizeof_datalink
open_link-InBounds (negsuc n) = tt
open_link-InBounds (pos k) = known (find links k) (find-fits links k refl)
  where
    known :
        (r : Option ℤ)
        → Found r
        → All InBounds (
            elim r [ none ↦ fatal Fault.unknown_datalink | some n ↦ ok n ] >>= λ n.
            if n ==ℤ negsuc 0 then fatal Fault.unsupported_device else ok n)
    known none h = tt
    known (some n) h = usable n h
