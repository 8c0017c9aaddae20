-- ===== src/Tests/Watch.antt =====
-- The predicates at concrete inputs.
use nifi_lens.Base.{◌+◌, ◌≡◌, refl, true, none, some, List, [], ◌∷◌, ◌++◌, length}
use nifi_lens.Base.Text.{codes, text_eq}
use nifi_lens.Predicate.{Bytes, Patterns, delimited, parse, AttributeTriple}
use nifi_lens.Predicate.Literal.{escape, ends_well, delimited-escape}
use nifi_lens.Predicate.Fuel.{parse-Ends}
use nifi_lens.Predicate.Fuel.Pieces.{Ends}

-- Patterns that match themselves.
abbrev pub literal_patterns : Patterns
literal_patterns = record {
  Regex = Bytes;
  compile = λ pattern_bytes. (some pattern_bytes, []);
  is_match = λ re v. text_eq re v;
  is_utf8 = λ bytes. true;
}

say_hi_ends_well : ends_well (codes "say \"hi\"") ≡ true
unfolding ends_well
say_hi_ends_well = refl

delimited-escape_example :
    delimited b'"' 1 (escape b'"' (codes "say \"hi\"") ++ b'"' ∷ codes " AND")
    ≡ some (
      codes "say \"hi\"",
      record { cur = 1 + length (escape b'"' (codes "say \"hi\"")) + 1; rest = codes " AND" },
    )
delimited-escape_example =
    delimited-escape b'"' 1 (codes "say \"hi\"") (codes " AND") refl say_hi_ends_well

parse-Ends_example : Ends (parse literal_patterns (codes "a = b AND "))
parse-Ends_example = parse-Ends literal_patterns (codes "a = b AND ")

abbrev attributes : List AttributeTriple
attributes = record { key = codes "a"; previous = none; current = some (codes "b") } ∷ []
