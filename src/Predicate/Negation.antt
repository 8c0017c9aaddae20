-- ===== src/Predicate/Negation.antt =====
-- The two pairs of operators are each other's negation, a missing attribute included.
use nifi_lens.Base.{◌≡◌, refl, Bool, true, false, not, Option, none, some, List}
use nifi_lens.Base.Text.{text_eq}
use nifi_lens.Predicate.{
  Bytes, Op, Patterns, ClauseLiteral, plain, regex, AttributeTriple, value_of, clause_matches,
}

abbrev pub opposite : Op → Op
opposite Op.eq = Op.ne
opposite Op.ne = Op.eq
opposite Op.regex_match = Op.regex_not_match
opposite Op.regex_not_match = Op.regex_match

not-not : (b : Bool) → b ≡ not (not b)
not-not true = refl
not-not false = refl

tested :
    (o : Option Bytes) (f : Bytes → Bool)
    → elim o [ none ↦ true | some v ↦ not (f v) ] ≡ not (elim o [ none ↦ false | some v ↦ f v ])
tested none f = refl
tested (some v) f = refl

untested :
    (o : Option Bytes) (f : Bytes → Bool)
    → elim o [ none ↦ false | some v ↦ f v ] ≡ not (elim o [ none ↦ true | some v ↦ not (f v) ])
untested none f = refl
untested (some v) f = not-not (f v)

-- A clause with the opposite operator matches just the attributes that the clause does not.
pub clause_matches-opposite :
    (R : Patterns) (attribute : Bytes) (op : Op) (literal : ClauseLiteral R)
    (attrs : List AttributeTriple)
    → clause_matches R (record { attribute = attribute; op = opposite op; literal = literal }) attrs
      ≡ not (clause_matches R (record { attribute = attribute; op = op; literal = literal }) attrs)
unfolding clause_matches
clause_matches-opposite R attribute Op.eq (plain rhs) attrs =
    tested (value_of attribute attrs) (λ v. text_eq v rhs)
clause_matches-opposite R attribute Op.ne (plain rhs) attrs =
    untested (value_of attribute attrs) (λ v. text_eq v rhs)
clause_matches-opposite R attribute Op.regex_match (plain rhs) attrs = refl
clause_matches-opposite R attribute Op.regex_not_match (plain rhs) attrs = refl
clause_matches-opposite R attribute Op.eq (regex re) attrs = refl
clause_matches-opposite R attribute Op.ne (regex re) attrs = refl
clause_matches-opposite R attribute Op.regex_match (regex re) attrs =
    tested (value_of attribute attrs) (R.is_match re)
clause_matches-opposite R attribute Op.regex_not_match (regex re) attrs =
    untested (value_of attribute attrs) (R.is_match re)
