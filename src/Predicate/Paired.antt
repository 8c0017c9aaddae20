-- ===== src/Predicate/Paired.antt =====
-- Every clause of a parsed predicate has a literal of its operator's kind, so that the fallback
-- arms of `clause_matches` are not reached; and the loop's fuel does not run out.
use nifi_lens.Base.{
  ℕ, zero, suc, ◌+◌, ◌≡◌, refl, Bool, true, false, Option, none, some, [], ◌∷◌, ◌++◌, length,
  is_empty, if-keeps,
}
use nifi_lens.Base.Text.{codes}
use nifi_lens.Predicate.{
  Bytes, Op, Cursor, Parsed, ok, err, and_then, skip_ws, parse_op, consume_keyword, Patterns,
  Message, fail, ClauseLiteral, plain, regex, Clause, Predicate, parse_attr, parse_plain,
  parse_regex_literal, compiled, parse_literal, parse_clause, parse_loop, parse, is_regex_op,
  as_plain,
}

-- What is parsed, if anything, has the property.
abbrev pub Yields {ℓ ℓ'} : {A : Type ℓ} → (A → Type ℓ') → Parsed A → Type ℓ'
Yields P (ok a) = P a
Yields P (err e) = Unit

module _ (R : Patterns) where
  abbrev pub is_regex : ClauseLiteral R → Bool
  is_regex (plain value) = false
  is_regex (regex re) = true

  abbrev pub IsPaired : Clause R → Type 0
  IsPaired clause = is_regex clause.literal ≡ is_regex_op R clause.op

  and_then-Yields :
      {A B : Type 0} (P : A → Type 0) (Q : B → Type 0) (p : Parsed A) (f : A → Parsed B)
      → Yields P p
      → ((a : A) → P a → Yields Q (f a))
      → Yields Q (and_then p f)
  and_then-Yields P Q (ok a) f h k = k a h
  and_then-Yields P Q (err e) f h k = tt

  anything : {A : Type 0} (p : Parsed A) → Yields {0, 0} (λ a. Unit) p
  anything (ok a) = tt
  anything (err e) = tt

  abbrev IsKind : Bool → ClauseLiteral R × Cursor → Type 0
  IsKind kind l = is_regex l.0 ≡ kind

  compiled_case :
      (start : ℕ) (error : Bytes) (c : Cursor) (result : Option R.Regex)
      → Yields (IsKind true) (elim result [
        | none ↦ fail (Message.invalid_regex error) (start + 1)
        | some re ↦ ok (regex re, c)
      ])
  compiled_case start error c none = tt
  compiled_case start error c (some re) = refl

  compiled-IsKind :
      (start : ℕ) (pattern_and_cursor : Bytes × Cursor)
      → Yields (IsKind true) (compiled R start pattern_and_cursor)
  unfolding compiled
  compiled-IsKind start (pattern_bytes, c) =
      compiled_case start (R.compile pattern_bytes).1 c (R.compile pattern_bytes).0

  regex-IsKind :
      (c : Cursor) → Yields (IsKind true) (and_then (parse_regex_literal R c) (compiled R c.cur))
  regex-IsKind c =
      and_then-Yields (λ a. Unit) (IsKind true) (parse_regex_literal R c) (compiled R c.cur)
        (anything (parse_regex_literal R c)) (λ a _. compiled-IsKind c.cur a)

  plain-IsKind : (c : Cursor) → Yields (IsKind false) (and_then (parse_plain R c) (as_plain R))
  plain-IsKind c =
      and_then-Yields (λ a. Unit) (IsKind false) (parse_plain R c) (as_plain R)
        (anything (parse_plain R c)) (λ a _. refl)

  parse_literal-IsKind :
      (op : Op) (c : Cursor) → Yields (IsKind (is_regex_op R op)) (parse_literal R op c)
  unfolding parse_literal
  parse_literal-IsKind Op.eq c = plain-IsKind c
  parse_literal-IsKind Op.ne c = plain-IsKind c
  parse_literal-IsKind Op.regex_match c = regex-IsKind c
  parse_literal-IsKind Op.regex_not_match c = regex-IsKind c

  parse_clause-IsPaired :
      (c : Cursor) → Yields (λ (p : Clause R × Cursor). IsPaired p.0) (parse_clause R c)
  unfolding parse_clause
  parse_clause-IsPaired c =
      and_then-Yields (λ a. Unit) _ (parse_attr R c) _ (anything (parse_attr R c))
        (λ a _.
          let at_op = skip_ws a.1 in
          and_then-Yields (λ a. Unit) _ (parse_op at_op.cur at_op.rest) _ (anything _)
            (λ o _.
              and_then-Yields (IsKind (is_regex_op R o.0)) _ (parse_literal R o.0 (skip_ws o.1)) _
                (parse_literal-IsKind o.0 (skip_ws o.1)) (λ l h. h)))

  unfoldable pub AllPaired : Predicate R → Type 0
  AllPaired [] = Unit
  AllPaired (clause ∷ clauses) = IsPaired clause × AllPaired clauses

  AllPaired-append :
      (clauses : Predicate R) (clause : Clause R)
      → AllPaired clauses
      → IsPaired clause
      → AllPaired (clauses ++ clause ∷ [])
  unfolding AllPaired
  AllPaired-append [] clause h k = (k, tt)
  AllPaired-append (c ∷ clauses) clause (h, hs) k = (h, AllPaired-append clauses clause hs k)

  on_keyword :
      (o : Option Cursor) (e : Parsed (Predicate R)) (f : Cursor → Parsed (Predicate R))
      → Yields AllPaired e
      → ((c : Cursor) → Yields AllPaired (f c))
      → Yields AllPaired (elim o [ none ↦ e | some c ↦ f c ])
  on_keyword none e f h k = h
  on_keyword (some c) e f h k = k c

  parse_loop-AllPaired :
      (fuel : ℕ) (clauses : Predicate R) (c : Cursor)
      → AllPaired clauses
      → Yields AllPaired (parse_loop R fuel clauses c)
  unfolding parse_loop
  parse_loop-AllPaired zero clauses c h = tt
  parse_loop-AllPaired (suc fuel) clauses c h =
      and_then-Yields (λ (p : Clause R × Cursor). IsPaired p.0) AllPaired (parse_clause R c) _
        (parse_clause-IsPaired c)
        (λ p paired.
          let grown = AllPaired-append clauses p.0 h paired in
          if-keeps (Yields AllPaired) (is_empty (p.1).rest) grown (
            on_keyword (consume_keyword (codes "AND") (p.1).cur (p.1).rest) _ _ tt (λ behind_and.
              parse_loop-AllPaired fuel (clauses ++ p.0 ∷ []) (skip_ws behind_and) grown)))

  -- Each clause of a predicate that is parsed has a regular expression just if its operator asks
  -- for one.
  pub parse-AllPaired : (input : Bytes) → Yields AllPaired (parse R input)
  unfolding parse AllPaired
  parse-AllPaired input =
      if-keeps (Yields AllPaired) (is_empty (skip_ws (record { cur = 0; rest = input })).rest) tt
        (parse_loop-AllPaired (suc (length input)) [] _ tt)
