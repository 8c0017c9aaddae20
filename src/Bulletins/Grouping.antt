-- ===== src/Bulletins/Grouping.antt =====
-- The folding of rows into groups, described by the rows' keys alone: the reference for
-- `grouped_view`. The proofs are in the child module.
pub mod Fold
pub mod Keys
use nifi_lens.Base.{
  ℕ, suc, Bool, Option, none, some, List, [], ◌∷◌, ◌++◌, map, get_elem?, if◌then◌else◌,
}
use nifi_lens.Base.Text.{Text, text_eq}
use nifi_lens.Bulletins.{BulletinSnapshot, GroupMode, GroupedRow}
use nifi_lens.Bulletins.View.{row_key}

-- A row's key and its ring index.
abbrev pub Keyed : Type 0
Keyed = List (Text × ℕ)

-- How many rows have the key, and the index of the first and of the last of them.
pub count_of : Text → Keyed → ℕ
count_of k [] = 0
count_of k ((j, i) ∷ ps) = let n = count_of k ps in if text_eq j k then suc n else n

pub first_of : Text → Keyed → ℕ
first_of k [] = 0
first_of k ((j, i) ∷ ps) = if text_eq j k then i else first_of k ps

pub last_of : ℕ → Text → Keyed → ℕ
last_of d k [] = d
last_of d k ((j, i) ∷ ps) = last_of (if text_eq j k then i else d) k ps

pub summary : Keyed → Text → GroupedRow
summary ps k = record {
  first_ring_idx = first_of k ps;
  latest_ring_idx = last_of 0 k ps;
  count = count_of k ps;
}

pub without : Text → List Text → List Text
without k [] = []
without k (j ∷ ks) = let rest = without k ks in if text_eq j k then rest else j ∷ rest

-- The keys, each once, in the order in which they come first.
pub distinct_keys : Keyed → List Text
distinct_keys [] = []
distinct_keys ((k, i) ∷ ps) = k ∷ without k (distinct_keys ps)

-- The rows with their keys.
pub keyed_rows : GroupMode → List BulletinSnapshot → List ℕ → Keyed
keyed_rows mode ring [] = []
keyed_rows mode ring (i ∷ rows) = elim (get_elem? ring i) [
  | none ↦ keyed_rows mode ring rows
  | some b ↦ (row_key mode b, i) ∷ keyed_rows mode ring rows
]
