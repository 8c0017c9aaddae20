-- ===== src/Search/Matches.antt =====
-- What `compute_matches` returns: on each line the leftmost matches that do not overlap.
use mathlib.Core.Path.{subst}
use nifi_lens.Base.{
  ℕ, zero, suc, ◌+◌, ◌≤◌, ◌<◌, ◌≡◌, ◌≢◌, ap, sym, ◌∙◌, Option-cases, inl, inr, List, [], ◌∷◌, ◌++◌,
  append_assoc, length, drop, arith, length-append, length-drop, length-map,
}
use nifi_lens.Base.Text.{Text, find, byte_len, to_ascii_lowercase}
use nifi_lens.Search.{MatchSpan, split_char, line_matches, lines_matches, compute_matches}
use nifi_lens.Search.Find.{find_sound, find_first, find-none}

-- The leftmost matches of `lq` in `rest`, one behind the other, where `from` bytes of the line are
-- behind `rest`.
pub data Scan (lq : Text) (line_idx : ℕ) : ℕ → Text → List MatchSpan → Type 0 where
  finished :
      {from : ℕ} {rest : Text}
      → ((pre post : Text) → rest ≢ pre ++ lq ++ post)
      → Scan lq line_idx from rest []
  found :
      {from : ℕ} {rest : Text} {spans : List MatchSpan} (before after : Text)
      → rest ≡ before ++ lq ++ after
      → ((pre post : Text) → rest ≡ pre ++ lq ++ post → length before ≤ length pre)
      → Scan lq line_idx (from + byte_len before + byte_len lq) after spans
      → Scan lq line_idx from rest (
          record {
            line_idx = line_idx;
            byte_start = from + byte_len before;
            byte_end = from + byte_len before + byte_len lq;
          }
          ∷ spans)

-- With more fuel than characters, and a query that is not empty, the loop makes the whole scan.
line_matches-Scan :
    (fuel : ℕ) (lq : Text) (line_idx from : ℕ) (rest : Text)
    → 0 < length lq
    → length rest < fuel
    → Scan lq line_idx from rest (line_matches fuel lq line_idx from rest)
unfolding line_matches
line_matches-Scan zero lq line_idx from rest q h = absurd (omega arith)
line_matches-Scan (suc fuel) lq line_idx from rest q h = elim (Option-cases (find lq rest)) [
  | inl e ↦ rw (e, line_matches) (finished (λ pre post. find-none lq rest pre post e))
  | inr ((before, at), e) ↦
      let (split, stands) = find_sound lq rest before at e in
      let here : rest ≡ before ++ lq ++ drop (length lq) at =
        split ∙ ap (λ t. before ++ t) stands ∙ sym (append_assoc before lq (drop (length lq) at)) in
      rw (e, line_matches)
        (found before (drop (length lq) at) here
          (λ pre post p. find_first lq rest before at pre post e p)
          (line_matches-Scan fuel lq line_idx _ (drop (length lq) at) q (
            omega (
              arith,
              ap length split,
              ap length stands,
              length-append lq (drop (length lq) at),
              length-append before at,
              length-drop (length lq) at,
            ))))
]

-- The matches of the lines, in the order of the lines, from line number `line_idx` on.
pub data ScanLines (lq : Text) : ℕ → List Text → List MatchSpan → Type 0 where
  no_line : {line_idx : ℕ} → ScanLines lq line_idx [] []
  a_line :
      {line_idx : ℕ} {lines : List Text} {later : List MatchSpan} (line : Text)
      (spans : List MatchSpan)
      → Scan lq line_idx 0 (to_ascii_lowercase line) spans
      → ScanLines lq (line_idx + 1) lines later
      → ScanLines lq line_idx (line ∷ lines) (spans ++ later)

lines_matches-ScanLines :
    (lq : Text) (line_idx : ℕ) (lines : List Text)
    → 0 < length lq
    → ScanLines lq line_idx lines (lines_matches lq line_idx lines)
unfolding lines_matches
lines_matches-ScanLines lq line_idx [] q = no_line
lines_matches-ScanLines lq line_idx (line ∷ lines) q =
    a_line line _ (line_matches-Scan _ lq line_idx 0 (to_ascii_lowercase line) q (omega arith))
      (lines_matches-ScanLines lq (line_idx + 1) lines q)

length-lowercase : (s : Text) → length (to_ascii_lowercase s) ≡ length s
unfolding to_ascii_lowercase
length-lowercase s = length-map s _

-- For a query that is not empty, the result holds line by line, in order, the leftmost matches that
-- do not overlap: each is an occurrence of the query up to ASCII case, none starts earlier behind
-- the match before it, and behind the last one there is none.
pub compute_matches-ScanLines :
    (body query : Text)
    → 0 < length query
    → ScanLines (to_ascii_lowercase query) 0 (split_char b'\n' body) (compute_matches body query)
unfolding compute_matches
compute_matches-ScanLines body [] q = absurd (omega arith)
compute_matches-ScanLines body (c ∷ query) q =
    lines_matches-ScanLines (to_ascii_lowercase (c ∷ query)) 0 (split_char b'\n' body)
      (omega (arith, length-lowercase (c ∷ query)))

byte_len-append : (s t : Text) → byte_len (s ++ t) ≡ byte_len s + byte_len t
unfolding byte_len
byte_len-append [] t = omega arith
byte_len-append (c ∷ s) t = omega (arith, byte_len-append s t)

-- The spans follow one another from byte `from` on, each `size` bytes long, up to byte `end`.
pub data Follows (size : ℕ) : ℕ → List MatchSpan → ℕ → Type 0 where
  none_left : {from end : ℕ} → from ≤ end → Follows size from [] end
  one_more :
      {from end : ℕ} {spans : List MatchSpan} (span : MatchSpan)
      → from ≤ span.byte_start
      → span.byte_end ≡ span.byte_start + size
      → Follows size span.byte_end spans end
      → Follows size from (span ∷ spans) end

-- The matches of a line neither overlap nor leave the line, and each is as long as the query.
pub Scan-Follows :
    (lq : Text) (line_idx from : ℕ) (rest : Text) (spans : List MatchSpan)
    → Scan lq line_idx from rest spans
    → Follows (byte_len lq) from spans (from + byte_len rest)
Scan-Follows lq line_idx from rest spans (finished _) = none_left (omega arith)
Scan-Follows lq line_idx from rest _ (found {spans = later} before after split first more) =
    one_more _ (omega arith) (omega arith) (
      subst (Follows (byte_len lq) _ later)
        (omega (
          arith,
          ap byte_len split,
          byte_len-append (before ++ lq) after,
          byte_len-append before lq,
        ))
        (Scan-Follows lq line_idx _ after later more))
