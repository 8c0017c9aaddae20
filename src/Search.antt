-- ===== src/Search.antt =====
-- src/widget/search.rs: the search in a body of text (the drawing is left out), and the search
-- methods that the detail modals have in common, as src/view/bulletins/state/mod.rs writes them.
-- A text is its characters; offsets count the bytes of its UTF-8. They are offsets into a text in
-- memory, so the sums fit a `usize`.
pub mod Find
pub mod Matches
use nifi_lens.Base.{
  ℕ, zero, suc, ◌+◌, Bool, true, false, Option, none, some, List, [], ◌∷◌, ◌++◌, length, drop,
  is_empty, ◌==◌, if◌then◌else◌,
}
use nifi_lens.Base.Text.{Text, find, byte_len, to_ascii_lowercase}

pub record MatchSpan : Type 0 where
  pub line_idx : ℕ
  pub byte_start : ℕ
  pub byte_end : ℕ

pub record SearchState : Type 0 where
  pub query : Text
  pub input_active : Bool
  pub committed : Bool
  pub matches : List MatchSpan
  pub current : Option ℕ

-- `str::split` by a character.
unfoldable pub split_char : ℕ → Text → List Text
split_char d [] = [] ∷ []
split_char d (c ∷ s) = elim (split_char d s) [
  | [] ↦ (c ∷ []) ∷ []
  | line ∷ lines ↦ if c == d then [] ∷ line ∷ lines else (c ∷ line) ∷ lines
]

-- The `while let` loop over one line: `from` bytes are behind, `rest` is ahead.
unfoldable pub line_matches : ℕ → Text → ℕ → ℕ → Text → List MatchSpan
line_matches zero lq line_idx from rest = []
line_matches (suc fuel) lq line_idx from rest = elim (find lq rest) [
  | none ↦ []
  | some (before, at) ↦
      let start = from + byte_len before in
      let end = start + byte_len lq in
      record { line_idx = line_idx; byte_start = start; byte_end = end }
      ∷ line_matches fuel lq line_idx end (drop (length lq) at)
]

-- The `for` loop over the lines. Each match is at least a character long, so a line has at most as
-- many matches as characters.
unfoldable pub lines_matches : Text → ℕ → List Text → List MatchSpan
lines_matches lq line_idx [] = []
lines_matches lq line_idx (line ∷ lines) =
    let ll = to_ascii_lowercase line in
    line_matches (suc (length ll)) lq line_idx 0 ll ++ lines_matches lq (line_idx + 1) lines

unfoldable pub compute_matches : Text → Text → List MatchSpan
compute_matches body query =
    if is_empty query
    then []
    else lines_matches (to_ascii_lowercase query) 0 (split_char b'\n' body)
