-- ===== src/Usage.antt =====
-- usage.c: the lists that `usage` prints, and the levels of maturity of maturity.h that it prints with the
-- types. The lines of a fixed text are left out.
pub mod Marked
use Prim.Native.String.{String}
use aping.Base.{
  ℕ, zero, suc, ◌+◌, ◌*◌, List, [], ◌∷◌, ◌++◌, Option, none, some, ◌==◌, ltb, if◌then◌else◌,
}
use aping.Base.Int.{ℤ, pos, negsuc}
use aping.Base.Outcome.{Run, ok, fatal, Fault}
use aping.State.{Globals}
use aping.Screen.Names.{entry, index_of, icmp_type_str, icmp_code_str}
use aping.Statistic.Link.{Flink, link_vector}

-- `maturity_level`, of which the first column is that of the loaders.
pub record Maturity : Type 0 where
  pub loader : ℕ → ℕ
  pub dissect : ℕ → ℕ

-- `SETUP_MATURITY`.
abbrev pub setup_maturity : Maturity
setup_maturity = record { loader = λ i. b' '; dissect = λ i. b' ' }

-- The levels that the loaders and the functions of `icmp_dissect_vector` set for their types.
abbrev loader_levels : List (ℕ × ℕ)
loader_levels =
    (0, b'b')
    ∷ (3, b'b')
    ∷ (4, b'b')
    ∷ (5, b'b')
    ∷ (8, b'*')
    ∷ (9, b'_')
    ∷ (10, b'_')
    ∷ (11, b'_')
    ∷ (12, b'_')
    ∷ (13, b'*')
    ∷ (14, b'_')
    ∷ (15, b'*')
    ∷ (16, b'_')
    ∷ (17, b'b')
    ∷ (18, b'_')
    ∷ (40, b'_')
    ∷ []

abbrev dissect_levels : List (ℕ × ℕ)
dissect_levels =
    (0, b'*')
    ∷ (3, b'*')
    ∷ (4, b'*')
    ∷ (5, b'*')
    ∷ (8, b'*')
    ∷ (9, b'_')
    ∷ (10, b'i')
    ∷ (11, b'*')
    ∷ (12, b'i')
    ∷ (13, b'a')
    ∷ (14, b'a')
    ∷ (15, b'*')
    ∷ (16, b'*')
    ∷ (17, b'_')
    ∷ (18, b'*')
    ∷ (40, b'b')
    ∷ []

-- One call after the other sets its level.
unfoldable pub set_levels : List (ℕ × ℕ) → (ℕ → ℕ) → ℕ → ℕ
set_levels [] levels = levels
set_levels ((kind, c) ∷ ls) levels = set_levels ls (λ i. if i == kind then c else levels i)

-- `LOAD_MATURITY`.
unfoldable pub load_maturity : Maturity → Maturity
unfolding set_levels
load_maturity m = record {
  loader = set_levels loader_levels m.loader;
  dissect = set_levels dissect_levels m.dissect;
}

pub data Listing : Type 0 where
  type_entry : ℕ → ℕ → ℕ → String → Listing
  codes_of : ℤ → Option String → Listing
  code_entry : ℕ → String → Listing
  pair_entry : ℕ → ℕ → String → Listing
  link_entry : String → Listing

abbrev pub listed : (String → Listing) → Option String → List Listing
listed line none = []
listed line (some s) = line s ∷ []

-- `for (i = 0; i < n; i++)`, where `at i` is what a turn prints.
unfoldable pub for_each : ℕ → (ℕ → List Listing) → List Listing
for_each zero at = []
for_each (suc n) at = for_each n at ++ at n

-- `usage` for the types.
unfoldable list_types : Maturity → List Listing
unfolding for_each entry
list_types m =
    for_each 64 (λ i. listed (type_entry (m.loader i) (m.dissect i) i) (entry icmp_type_str i))

-- The codes of one type, and of all.
unfoldable list_codes : ℕ → List Listing
unfolding for_each entry
list_codes i = for_each 64 (λ j. listed (code_entry j) (entry icmp_code_str (index_of i j)))

unfoldable pub list_pairs : List Listing
unfolding for_each entry
list_pairs =
    for_each 64
      (λ i. for_each 64 (λ j. listed (pair_entry i j) (entry icmp_code_str (index_of i j))))

-- A type past the tables is a fault.
abbrev codes_for : ℤ → Run (List Listing)
codes_for (pos i) =
    if ltb i 64
    then ok (codes_of (pos i) (entry icmp_type_str i) ∷ list_codes i)
    else fatal Fault.bad_index
codes_for (negsuc i) = fatal Fault.bad_index

-- `usage` for the codes.
unfoldable usage_codes : Globals → Run (List Listing)
unfolding list_codes list_pairs entry
usage_codes g = if g.options.icmp_type then codes_for g.icmp_type else ok list_pairs

-- Up to the entry whose name is NULL.
unfoldable links_from : List Flink → List Listing
links_from [] = []
links_from (e ∷ es) = elim e.name [ none ↦ [] | some s ↦ link_entry s ∷ links_from es ]

-- `usage` for the links, which begins with the second.
unfoldable list_links : List Listing
unfolding links_from
list_links = elim link_vector [ [] ↦ [] | e ∷ es ↦ links_from es ]
