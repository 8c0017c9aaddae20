-- ===== src/Predicate/Fuel.antt =====
-- The loop of `parse` ends before its fuel does: every clause takes an operator's byte at least.
pub mod Pieces
use nifi_lens.Base.{
  ℕ, zero, suc, ◌+◌, ◌≤◌, ◌<◌, ◌≡◌, refl, ◌&&◌, ◌||◌, Bool, true, false, not, Option, none, some,
  [], ◌∷◌, ◌++◌, length, is_empty, if-keeps, ◌==◌, if◌then◌else◌, arith,
}
use nifi_lens.Base.Text.{codes}
use nifi_lens.Predicate.{
  Bytes, Op, Message, Cursor, Parsed, ok, err, and_then, fail, span, behind, skip_ws, is_ws,
  parse_op, delimited, consume_keyword, Patterns, ClauseLiteral, regex, Clause, Predicate, text_of,
  parse_attr, parse_bare, parse_delimited, parse_quoted, parse_regex_literal, compiled, as_plain,
  parse_plain, parse_literal, parse_clause, parse_loop, parse, is_regex_op, is_attr_byte,
  is_alphabetic,
}
use nifi_lens.Predicate.Fuel.Pieces.{
  is_out, Ends, Leaves, LeavesLess, length-span, and_then-Leaves, and_then-LeavesLess,
  less_and_then, parse_op-LeavesLess, skip_ws_le, LeavesSome, cons_le, delimited_le, LeavesCursor,
  consume_keyword_le,
}

module _ (R : Patterns) where
  text_of-Leaves :
      (n : ℕ) (m : Message) (column : ℕ) (bytes : Bytes) (c : Cursor)
      → is_out m ≡ false
      → length c.rest ≤ n
      → Leaves n (text_of R m column bytes c)
  text_of-Leaves n m column bytes c h le = if-keeps (Leaves {A = Bytes} n) (R.is_utf8 bytes) le h

  parse_attr-Leaves : (c : Cursor) → Leaves (length c.rest) (parse_attr R c)
  unfolding parse_attr
  parse_attr-Leaves c = at_attr c.rest refl
    where
      at_attr :
          (bs : Bytes)
          → c.rest ≡ bs
          → Leaves {A = Bytes} (length c.rest) (elim bs [
            | [] ↦ fail Message.expected_attribute (c.cur + 1)
            | first ∷ rest ↦
                if not (is_alphabetic first || first == b'_')
                then fail (Message.bad_start first) (c.cur + 1)
                else text_of R Message.bad_attribute_utf8
                    (c.cur + 1)
                    (span is_attr_byte c.rest).0
                    (behind is_attr_byte c)
          ])
      at_attr [] e = refl
      at_attr (first ∷ rest) e =
          if-keeps (Leaves {A = Bytes} (length c.rest)) (not (is_alphabetic first || first == b'_'))
            refl
            (text_of-Leaves _ _ _ _ (behind is_attr_byte c) refl (length-span is_attr_byte c.rest))

  parse_bare-Leaves : (c : Cursor) → Leaves (length c.rest) (parse_bare R c)
  unfolding parse_bare
  parse_bare-Leaves c =
      if-keeps (Leaves {A = Bytes} (length c.rest)) (is_empty (span (λ b. not (is_ws b)) c.rest).0)
        refl
        (text_of-Leaves _ _ _ _ (behind (λ b. not (is_ws b)) c) refl
          (length-span (λ b. not (is_ws b)) c.rest))

  parse_delimited-Leaves :
      (delimiter : ℕ) (m k : Message) (column : ℕ) (bs : Bytes)
      → is_out m ≡ false
      → is_out k ≡ false
      → Leaves (length bs) (parse_delimited R delimiter m k column bs)
  unfolding parse_delimited
  parse_delimited-Leaves delimiter m k column bs h l =
      closed (delimited delimiter column bs) (delimited_le delimiter column bs)
    where
      closed :
          (o : Option (Bytes × Cursor))
          → LeavesSome (length bs) o
          → Leaves {A = Bytes}
              (length bs)
              (elim o [ none ↦ fail m column | some (out, c) ↦ text_of R k column out c ])
      closed none le = h
      closed (some (out, c)) le = text_of-Leaves (length bs) k column out c l le

  Leaves-weaken : {A : Type 0} (m n : ℕ) (p : Parsed (A × Cursor)) → m ≤ n → Leaves m p → Leaves n p
  Leaves-weaken m n (ok a) le h = omega arith
  Leaves-weaken m n (err e) le h = h

  parse_regex_literal-Leaves : (c : Cursor) → Leaves (length c.rest) (parse_regex_literal R c)
  unfolding parse_regex_literal
  parse_regex_literal-Leaves c = opened c.rest
    where
      opened :
          (bs : Bytes)
          → Leaves {A = Bytes} (length bs) (elim bs [
            | [] ↦ fail Message.expected_regex (c.cur + 1)
            | b ∷ rest ↦
                if b == b'/'
                then parse_delimited R b'/' Message.unterminated_regex Message.bad_regex_utf8
                    (c.cur + 1)
                    rest
                else fail Message.expected_regex (c.cur + 1)
          ])
      opened [] = refl
      opened (b ∷ rest) =
          if-keeps (Leaves {A = Bytes} (length (b ∷ rest))) (b == b'/')
            (Leaves-weaken (length rest) _ _ (omega arith)
              (parse_delimited-Leaves b'/' _ _ (c.cur + 1) rest refl refl))
            refl

  parse_plain-Leaves : (c : Cursor) → Leaves (length c.rest) (parse_plain R c)
  unfolding parse_plain parse_quoted
  parse_plain-Leaves c = opened c.rest (omega arith)
    where
      opened :
          (bs : Bytes)
          → length bs ≤ length c.rest
          → Leaves {A = Bytes} (length c.rest) (elim bs [
            | [] ↦ parse_bare R c
            | b ∷ rest ↦ if b == b'"' then parse_quoted R c.cur rest else parse_bare R c
          ])
      opened [] le = parse_bare-Leaves c
      opened (b ∷ rest) le =
          if-keeps (Leaves {A = Bytes} (length c.rest)) (b == b'"')
            (Leaves-weaken (length rest) _ _ (omega arith)
              (parse_delimited-Leaves b'"' _ _ (c.cur + 1) rest refl refl))
            (parse_bare-Leaves c)

  compiled-Leaves : (start : ℕ) (p : Bytes × Cursor) → Leaves (length p.1.rest) (compiled R start p)
  unfolding compiled
  compiled-Leaves start (pattern_bytes, c) = result_of (R.compile pattern_bytes).0
    where
      result_of :
          (result : Option R.Regex)
          → Leaves {A = ClauseLiteral R} (length c.rest) (elim result [
            | none ↦ fail (Message.invalid_regex (R.compile pattern_bytes).1) (start + 1)
            | some re ↦ ok (regex re, c)
          ])
      result_of none = refl
      result_of (some re) = omega arith

  parse_literal-Leaves : (op : Op) (c : Cursor) → Leaves (length c.rest) (parse_literal R op c)
  unfolding parse_literal
  parse_literal-Leaves op c =
      if-keeps (Leaves {A = ClauseLiteral R} (length c.rest)) (is_regex_op R op)
        (and_then-Leaves (length c.rest) _ (parse_regex_literal R c) (compiled R c.cur)
          (parse_regex_literal-Leaves c)
          (λ a le. Leaves-weaken (length a.1.rest) _ _ le (compiled-Leaves c.cur a)))
        (and_then-Leaves (length c.rest) _ (parse_plain R c) (as_plain R) (parse_plain-Leaves c)
          (λ a le. le))

  -- A clause takes a byte at least.
  parse_clause-LeavesLess : (c : Cursor) → LeavesLess (length c.rest) (parse_clause R c)
  unfolding parse_clause
  parse_clause-LeavesLess c =
      and_then-LeavesLess (length c.rest) (length c.rest) (parse_attr R c) _ (parse_attr-Leaves c)
        (λ a la.
          let at_op = skip_ws a.1 in
          less_and_then (length c.rest) (parse_op at_op.cur at_op.rest) _
            (parse_op-LeavesLess at_op.cur (length c.rest) at_op.rest
              (omega (arith, skip_ws_le a.1)))
            (λ o lo.
              and_then-LeavesLess (length (skip_ws o.1).rest) (length c.rest)
                (parse_literal R o.0 (skip_ws o.1)) _ (parse_literal-Leaves o.0 (skip_ws o.1))
                (λ l ll. omega (arith, skip_ws_le l.1, skip_ws_le o.1))))

  next_round :
      (n : ℕ) (o : Option Cursor) (e : Parsed (Predicate R)) (f : Cursor → Parsed (Predicate R))
      → LeavesCursor n o
      → Ends e
      → ((c : Cursor) → length c.rest ≤ n → Ends (f c))
      → Ends (elim o [ none ↦ e | some c ↦ f c ])
  next_round n none e f h k l = k
  next_round n (some c) e f h k l = l c h

  after_clause :
      (n : ℕ) (p : Parsed (Clause R × Cursor)) (f : Clause R × Cursor → Parsed (Predicate R))
      → LeavesLess n p
      → ((a : Clause R × Cursor) → length a.1.rest < n → Ends (f a))
      → Ends (and_then p f)
  after_clause n (ok a) f h k = k a h
  after_clause n (err e) f h k = h

  parse_loop-Ends :
      (fuel : ℕ) (clauses : Predicate R) (c : Cursor)
      → length c.rest < fuel
      → Ends (parse_loop R fuel clauses c)
  unfolding parse_loop
  parse_loop-Ends zero clauses c h = absurd (omega arith)
  parse_loop-Ends (suc fuel) clauses c h =
      after_clause (length c.rest) (parse_clause R c) _ (parse_clause-LeavesLess c) (λ p le.
        if-keeps (Ends {A = Predicate R}) (is_empty (p.1).rest) tt (
          next_round (length (p.1).rest) (consume_keyword (codes "AND") (p.1).cur (p.1).rest) _ _
            (consume_keyword_le (codes "AND") (p.1).cur _ (p.1).rest (omega arith)) refl
            (λ behind_and lb.
              parse_loop-Ends fuel (clauses ++ p.0 ∷ []) (skip_ws behind_and)
                (omega (arith, skip_ws_le behind_and)))))

  -- The fuel that `parse` gives its loop is enough for every input.
  pub parse-Ends : (input : Bytes) → Ends (parse R input)
  unfolding parse
  parse-Ends input =
      let start : Cursor = record { cur = 0; rest = input } in
      if-keeps (Ends {A = Predicate R}) (is_empty (skip_ws start).rest) tt
        (parse_loop-Ends (suc (length input)) [] (skip_ws start) (omega (arith, skip_ws_le start)))
