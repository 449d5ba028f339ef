-- ===== src/Statistic/Link.antt =====
-- `link_type` of statistic.c and the table of bandwidth.h.
use Prim.Native.String.{String}
use aping.Base.{ℕ, ◌+◌, ◌/◌, ◌^◌, true, Option, none, some, List, [], ◌∷◌, ◌++◌}
use aping.Base.{◌≡◌, refl, ap, arith, if◌then◌else◌, Bool-cases, inl, inr}
use aping.Base.Int.{ℤ, pos, ltb_ℤ, ◌≤ℤ◌}

-- `flink`: kbit and a name, which is NULL in the last entry.
pub record Flink : Type 0 where
  pub kbit : ℕ
  pub name : Option String

abbrev link : ℕ → String → Flink
link k s = record { kbit = k; name = some s }

abbrev pub link_vector : List Flink
link_vector =
    link 0 "."
    ∷ link 28 "POTS 28.8/57k"
    ∷ link 64 "ISDN 1B+D 64k"
    ∷ link 128 "ISDN 2B+D 128k"
    ∷ link 256 "CDN/FR 256k"
    ∷ link 512 "CDN/FR 512k"
    ∷ link 1544 "T1 (1.544 mbit)"
    ∷ link 3088 "2-T1 (3.08 mbit)"
    ∷ link 6176 "4-T1 (6.17 mbit)"
    ∷ link 10000 "10baseT (8-T1)"
    ∷ link 12352 "8-T1 (12.35 mbit)"
    ∷ link 44736 "T3 (44.73 mbit)"
    ∷ link 51840 "OC-1 (51.84 mbit)"
    ∷ link 89472 "2-T3 (89.47 mbit)"
    ∷ link 100000 "100baseT (OC-3)"
    ∷ link 155520 "OC-3 (155.52 mbit)"
    ∷ link 178944 "4-T3 (178.94 mbit)"
    ∷ link 357888 "8-T3 (357.88 mbit)"
    ∷ link 466560 "OC-9 (466.56 mbit)"
    ∷ link 622080 "OC-12 (622.08 mbit)"
    ∷ link 933120 "OC-18 (933.12 mbit)"
    ∷ link 1244160 "OC-24 (1.244 gbit)"
    ∷ link 1866240 "OC-36 (1.866 gbit)"
    ∷ link 2488320 "OC-48 (2.488 gbit)"
    ∷ link 4976640 "OC-96 (4.976 gbit)"
    ∷ link 9953280 "OC-192 (9.953 gbit)"
    ∷ link 13271040 "OC-256 (13.271 gbit)"
    ∷ record { kbit = 999999999; name = none }
    ∷ []

-- The bandwidth up to which an entry is taken: its own and an eighth.
abbrev tolerance : Flink → ℕ
tolerance e = e.kbit + e.kbit / 2 ^ 3

-- The loop; `none` is a read past the end of the table.
unfoldable pub scan : List Flink → ℤ → Option Flink
scan [] kb = none
scan (e ∷ es) kb = if ltb_ℤ (pos (tolerance e)) kb then scan es kb else some e

abbrev entry_name : Option Flink → Option (Option String)
entry_name none = none
entry_name (some e) = some e.name

unfoldable pub link_type : ℤ → Option (Option String)
unfolding scan
link_type kb = entry_name (scan link_vector kb)

abbrev AllBelow : ℤ → List Flink → Type 0
AllBelow kb [] = Unit
AllBelow kb (e ∷ es) = (ltb_ℤ (pos (tolerance e)) kb ≡ true) × AllBelow kb es

-- `es` holds an entry that takes `kb` behind entries that do not.
record IsFirst (es : List Flink) (kb : ℤ) (e : Flink) : Type 0 where
  pub before : List Flink
  pub after : List Flink
  pub splits : es ≡ before ++ (e ∷ after)
  pub smaller : AllBelow kb before
  pub takes : kb ≤ℤ pos (tolerance e)

last_tolerance : List Flink → ℕ
last_tolerance [] = 0
last_tolerance (e ∷ []) = tolerance e
last_tolerance (e ∷ f ∷ es) = last_tolerance (f ∷ es)

scan-IsFirst :
    (e : Flink) (es : List Flink) (kb : ℤ)
    → kb ≤ℤ pos (last_tolerance (e ∷ es))
    → (found : Flink) × (scan (e ∷ es) kb ≡ some found) × IsFirst (e ∷ es) kb found
unfolding scan last_tolerance
scan-IsFirst e [] kb h =
    (e, ground arith, record { before = []; after = []; splits = refl; smaller = tt; takes = h })
scan-IsFirst e (f ∷ es) kb h = elim (Bool-cases (ltb_ℤ (pos (tolerance e)) kb)) [
  | inl more ↦
      let (found, eq, first) = scan-IsFirst f es kb h in
      (
        found,
        rw more eq,
        record {
          before = e ∷ first.before;
          after = first.after;
          splits = ap (λ t. e ∷ t) first.splits;
          smaller = (more, first.smaller);
          takes = first.takes;
        },
      )
  | inr stop ↦ (
    e,
    rw stop,
    record { before = []; after = f ∷ es; splits = refl; smaller = tt; takes = ground arith },
  )
]

-- Up to 1124999998 kbit/s the search stays in the table, and gives the name of the first entry
-- whose bandwidth and an eighth reach the argument.
link_type-IsFirst :
    (kb : ℤ)
    → kb ≤ℤ pos 1124999998
    → (e : Flink) × (link_type kb ≡ some e.name) × IsFirst link_vector kb e
unfolding link_type last_tolerance
link_type-IsFirst kb h =
    let (e, eq, first) = scan-IsFirst (link 0 ".") _ kb h in (e, ap entry_name eq, first)
