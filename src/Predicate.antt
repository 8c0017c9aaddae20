-- ===== src/Predicate.antt =====
-- src/client/predicate.rs: the attribute predicates of the Events watch. The input and the texts
-- that are cut out of it are lists of bytes; a cursor is its index and the bytes from there on. A
-- message is a data type with the text's variable part; `regex` and `from_utf8` are parameters.
pub mod Literal
pub mod Paired
pub mod Negation
pub mod Fuel
use nifi_lens.Base.{
  ℕ, zero, suc, ◌+◌, Bool, true, false, not, ◌&&◌, ◌||◌, Option, none, some, List, [], ◌∷◌, ◌++◌,
  length, take, is_empty, leb, ◌==◌, if◌then◌else◌,
}
use nifi_lens.Base.Text.{text_eq, codes}

abbrev pub Bytes : Type 0
Bytes = List ℕ

pub data Op : Type 0 where
  eq ne regex_match regex_not_match : Op

pub data Message : Type 0 where
  expected_attribute bad_attribute_utf8 expected_operator expected_regex : Message
  bad_regex_utf8 unterminated_regex bad_quoted_utf8 unterminated_quoted : Message
  expected_literal bad_literal_utf8 out_of_fuel : Message
  bad_start : ℕ → Message
  bad_operator : Bytes → Message
  invalid_regex : Bytes → Message
  expected_and : Bytes → Message

pub record PredicateParseError : Type 0 where
  pub message : Message
  pub column : ℕ

-- `Result<A, PredicateParseError>`.
pub data Parsed {ℓ} (A : Type ℓ) : Type ℓ where
  ok : A → Parsed A
  err : PredicateParseError → Parsed A

abbrev pub fail {ℓ} : {A : Type ℓ} → Message → ℕ → Parsed A
fail message column = err (record { message = message; column = column })

-- The `?` operator.
abbrev pub and_then {ℓ ℓ'} : {A : Type ℓ} {B : Type ℓ'} → Parsed A → (A → Parsed B) → Parsed B
and_then (ok a) f = f a
and_then (err e) f = err e

pub record Cursor : Type 0 where
  pub cur : ℕ
  pub rest : Bytes

abbrev pub is_ws : ℕ → Bool
is_ws b = b == b' ' || b == 0x09

abbrev pub is_alphabetic : ℕ → Bool
is_alphabetic b = leb b'A' b && leb b b'Z' || leb b'a' b && leb b b'z'

abbrev pub is_attr_byte : ℕ → Bool
is_attr_byte b = is_alphabetic b || leb b'0' b && leb b b'9' || b == b'_' || b == b'.' || b == b'-'

-- The longest start of the bytes that pass the test, and the bytes behind it.
unfoldable pub span : (ℕ → Bool) → Bytes → Bytes × Bytes
span p [] = ([], [])
span p (b ∷ bs) = let (front, back) = span p bs in if p b then (b ∷ front, back) else ([], b ∷ bs)

-- The cursor behind the bytes that pass the test.
abbrev pub behind : (ℕ → Bool) → Cursor → Cursor
behind p c = record { cur = c.cur + length (span p c.rest).0; rest = (span p c.rest).1 }

unfoldable pub skip_ws : Cursor → Cursor
unfolding span
skip_ws c = behind is_ws c

-- The first eight bytes.
abbrev pub next_token_excerpt : Bytes → Bytes
next_token_excerpt rest = take 8 rest

unfoldable pub parse_op : ℕ → Bytes → Parsed (Op × Cursor)
parse_op cur [] = fail Message.expected_operator (cur + 1)
parse_op cur (b ∷ []) =
    if b == b'='
    then ok (Op.eq, record { cur = cur + 1; rest = [] })
    else fail (Message.bad_operator (next_token_excerpt (b ∷ []))) (cur + 1)
parse_op cur (b ∷ d ∷ bs) =
    if b == b'=' && d == b'~'
    then ok (Op.regex_match, record { cur = cur + 2; rest = bs })
    else if b == b'!' && d == b'~'
    then ok (Op.regex_not_match, record { cur = cur + 2; rest = bs })
    else if b == b'!' && d == b'='
    then ok (Op.ne, record { cur = cur + 2; rest = bs })
    else if b == b'='
    then ok (Op.eq, record { cur = cur + 1; rest = d ∷ bs })
    else fail (Message.bad_operator (next_token_excerpt (b ∷ d ∷ bs))) (cur + 1)

-- The loop of `parse_regex_literal` and of `parse_quoted`, from behind the opening delimiter: the
-- bytes up to the closing one, a backslash before a delimiter left out, and the cursor behind it.
unfoldable pub delimited : ℕ → ℕ → Bytes → Option (Bytes × Cursor)
delimited delimiter cur [] = none
delimited delimiter cur (b ∷ []) =
    if b == delimiter then some ([], record { cur = cur + 1; rest = [] }) else none
delimited delimiter cur (b ∷ d ∷ bs) =
    let escaped = delimited delimiter (cur + 2) bs in
    let plain = delimited delimiter (cur + 1) (d ∷ bs) in
    if b == 0x5c && d == delimiter
    then elim escaped [ none ↦ none | some (out, c) ↦ some (delimiter ∷ out, c) ]
    else if b == delimiter
    then some ([], record { cur = cur + 1; rest = d ∷ bs })
    else elim plain [ none ↦ none | some (out, c) ↦ some (b ∷ out, c) ]

-- The cursor behind the keyword, if it stands there and white space or the end follows.
unfoldable pub consume_keyword : Bytes → ℕ → Bytes → Option Cursor
consume_keyword [] cur [] = some (record { cur = cur; rest = [] })
consume_keyword [] cur (b ∷ bs) =
    if is_ws b then some (record { cur = cur; rest = b ∷ bs }) else none
consume_keyword (k ∷ kw) cur [] = none
consume_keyword (k ∷ kw) cur (b ∷ bs) =
    let rest = consume_keyword kw (cur + 1) bs in if k == b then rest else none

-- `AttributeTriple` of src/client/tracer/mod.rs.
pub record AttributeTriple : Type 0 where
  pub key : Bytes
  pub previous : Option Bytes
  pub current : Option Bytes

-- `iter().find(..).and_then(|a| a.current)`.
unfoldable pub value_of : Bytes → List AttributeTriple → Option Bytes
value_of attribute [] = none
value_of attribute (a ∷ attrs) =
    let later = value_of attribute attrs in if text_eq a.key attribute then a.current else later

pub record Patterns : Type 1 where
  pub Regex : Type 0
  -- `Regex::new`, and the text of its error.
  pub compile : Bytes → Option Regex × Bytes
  pub is_match : Regex → Bytes → Bool
  -- Whether `from_utf8` succeeds.
  pub is_utf8 : Bytes → Bool

module _ (R : Patterns) where
  pub data ClauseLiteral : Type 0 where
    plain : Bytes → ClauseLiteral
    regex : R.Regex → ClauseLiteral

  pub record Clause : Type 0 where
    pub attribute : Bytes
    pub op : Op
    pub literal : ClauseLiteral

  abbrev pub Predicate : Type 0
  Predicate = List Clause

  -- `from_utf8`, with the error's message and column.
  abbrev pub text_of : Message → ℕ → Bytes → Cursor → Parsed (Bytes × Cursor)
  text_of message column bytes c = if R.is_utf8 bytes then ok (bytes, c) else fail message column

  unfoldable pub parse_attr : Cursor → Parsed (Bytes × Cursor)
  unfolding span
  parse_attr c = elim (c.rest) [
    | [] ↦ fail Message.expected_attribute (c.cur + 1)
    | first ∷ bs ↦
        if not (is_alphabetic first || first == b'_')
        then fail (Message.bad_start first) (c.cur + 1)
        else text_of Message.bad_attribute_utf8 (c.cur + 1) (span is_attr_byte c.rest).0
            (behind is_attr_byte c)
  ]

  unfoldable pub parse_bare : Cursor → Parsed (Bytes × Cursor)
  unfolding span
  parse_bare c =
      let value = (span (λ b. not (is_ws b)) c.rest).0 in
      if is_empty value
      then fail Message.expected_literal (c.cur + 1)
      else text_of Message.bad_literal_utf8 (c.cur + 1) value (behind (λ b. not (is_ws b)) c)

  -- `parse_quoted` and `parse_regex_literal` from the opening delimiter on; `column` is its
  -- column, which is also the index behind it.
  unfoldable pub parse_delimited : ℕ → Message → Message → ℕ → Bytes → Parsed (Bytes × Cursor)
  parse_delimited delimiter unterminated bad_utf8 column bs = elim (delimited delimiter column bs) [
    | none ↦ fail unterminated column
    | some (out, c) ↦ text_of bad_utf8 column out c
  ]

  unfoldable pub parse_quoted : ℕ → Bytes → Parsed (Bytes × Cursor)
  unfolding parse_delimited
  parse_quoted cur bs =
      parse_delimited b'"' Message.unterminated_quoted Message.bad_quoted_utf8 (cur + 1) bs

  unfoldable pub parse_regex_literal : Cursor → Parsed (Bytes × Cursor)
  unfolding parse_delimited
  parse_regex_literal c = elim (c.rest) [
    | [] ↦ fail Message.expected_regex (c.cur + 1)
    | b ∷ bs ↦
        if b == b'/'
        then parse_delimited b'/' Message.unterminated_regex Message.bad_regex_utf8 (c.cur + 1) bs
        else fail Message.expected_regex (c.cur + 1)
  ]

  abbrev pub is_regex_op : Op → Bool
  is_regex_op Op.regex_match = true
  is_regex_op Op.regex_not_match = true
  is_regex_op _ = false

  -- `Regex::new(..).map_err(..)`, where the literal starts at index `start`.
  unfoldable pub compiled : ℕ → Bytes × Cursor → Parsed (ClauseLiteral × Cursor)
  compiled start (pattern_bytes, c) =
      let (result, error) = R.compile pattern_bytes in
      elim result [
        | none ↦ fail (Message.invalid_regex error) (start + 1)
        | some re ↦ ok (regex re, c)
      ]

  abbrev pub as_plain : Bytes × Cursor → Parsed (ClauseLiteral × Cursor)
  as_plain (value, c) = ok (plain value, c)

  unfoldable pub parse_plain : Cursor → Parsed (Bytes × Cursor)
  parse_plain c = elim (c.rest) [
    | [] ↦ parse_bare c
    | b ∷ bs ↦ if b == b'"' then parse_quoted c.cur bs else parse_bare c
  ]

  unfoldable pub parse_literal : Op → Cursor → Parsed (ClauseLiteral × Cursor)
  parse_literal op c =
      if is_regex_op op
      then and_then (parse_regex_literal c) (compiled c.cur)
      else and_then (parse_plain c) as_plain

  -- One round of the loop up to the clause, with the cursor behind it and the white space there.
  unfoldable pub parse_clause : Cursor → Parsed (Clause × Cursor)
  parse_clause c = and_then (parse_attr c) (λ a.
      let at_op = skip_ws a.1 in
      and_then (parse_op at_op.cur at_op.rest) (λ o.
        and_then (parse_literal o.0 (skip_ws o.1))
          (λ l. ok (record { attribute = a.0; op = o.0; literal = l.0 }, skip_ws l.1))))

  -- The loop. Every round reads an attribute, which is a byte at least.
  unfoldable pub parse_loop : ℕ → List Clause → Cursor → Parsed Predicate
  parse_loop zero clauses c = fail Message.out_of_fuel (c.cur + 1)
  parse_loop (suc fuel) clauses c = and_then (parse_clause c) (λ p.
      let grown = clauses ++ p.0 ∷ [] in
      if is_empty (p.1).rest
      then ok grown
      else elim (consume_keyword (codes "AND") (p.1).cur (p.1).rest) [
        | none ↦ fail (Message.expected_and (next_token_excerpt (p.1).rest)) ((p.1).cur + 1)
        | some behind_and ↦ parse_loop fuel grown (skip_ws behind_and)
      ])

  unfoldable pub parse : Bytes → Parsed Predicate
  parse input =
      let start = skip_ws (record { cur = 0; rest = input }) in
      if is_empty start.rest then ok [] else parse_loop (suc (length input)) [] start

  unfoldable pub clause_matches : Clause → List AttributeTriple → Bool
  unfolding value_of
  clause_matches clause attrs = elim (clause.literal) [
    | plain rhs ↦ elim (clause.op) [
      | Op.eq ↦ elim (value_of clause.attribute attrs) [ none ↦ false | some v ↦ text_eq v rhs ]
      | Op.ne ↦ elim (value_of clause.attribute attrs) [
        | none ↦ true
        | some v ↦ not (text_eq v rhs)
      ]
      | Op.regex_match ↦ false
      | Op.regex_not_match ↦ true
    ]
    | regex re ↦ elim (clause.op) [
      | Op.eq ↦ false
      | Op.ne ↦ true
      | Op.regex_match ↦ elim (value_of clause.attribute attrs) [
        | none ↦ false
        | some v ↦ R.is_match re v
      ]
      | Op.regex_not_match ↦ elim (value_of clause.attribute attrs) [
        | none ↦ true
        | some v ↦ not (R.is_match re v)
      ]
    ]
  ]

  -- `iter().all(..)`.
  unfoldable pub matches : Predicate → List AttributeTriple → Bool
  matches [] attrs = true
  matches (clause ∷ clauses) attrs = clause_matches clause attrs && matches clauses attrs
