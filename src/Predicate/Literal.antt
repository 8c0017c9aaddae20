-- ===== src/Predicate/Literal.antt =====
-- Delimited literals: what can be written between the delimiters is read back.
use nifi_lens.Base.{
  ℕ, ◌+◌, ◌≡◌, ◌∙◌, ap, Bool, true, false, Option, none, some, [], ◌∷◌, ◌++◌, length, Bool-cases,
  inl, inr, ◌==◌, if◌then◌else◌, if_false, arith,
}
use nifi_lens.Predicate.{Bytes, Cursor, delimited}

-- The value with a backslash put before each delimiter.
pub escape : ℕ → Bytes → Bytes
escape delimiter [] = []
escape delimiter (b ∷ bs) =
    let rest = escape delimiter bs in if b == delimiter then 0x5c ∷ b ∷ rest else b ∷ rest

-- The value does not end in a backslash.
unfoldable pub ends_well : Bytes → Bool
ends_well [] = true
ends_well (b ∷ []) = if b == 0x5c then false else true
ends_well (b ∷ d ∷ bs) = ends_well (d ∷ bs)

abbrev push : ℕ → Option (Bytes × Cursor) → Option (Bytes × Cursor)
push b none = none
push b (some (out, c)) = some (b ∷ out, c)

plain_cons :
    (delimiter cur b c : ℕ) (bs : Bytes)
    → (b == delimiter) ≡ false
    → (c == delimiter) ≡ false
    → delimited delimiter cur (b ∷ c ∷ bs) ≡ push b (delimited delimiter (cur + 1) (c ∷ bs))
unfolding delimited
plain_cons delimiter cur b c [] h k = ground arith
plain_cons delimiter cur b c (d ∷ bs) h k = ground arith

-- In front of a byte that is no delimiter, a byte that is none is taken as it is.
plain_step :
    (delimiter cur b c : ℕ) (input bs : Bytes)
    → input ≡ c ∷ bs
    → (b == delimiter) ≡ false
    → (c == delimiter) ≡ false
    → delimited delimiter cur (b ∷ input) ≡ push b (delimited delimiter (cur + 1) input)
plain_step delimiter cur b c input bs e h k = rw e (plain_cons delimiter cur b c bs h k)

head_escape :
    (delimiter b : ℕ) (bs rest : Bytes)
    → (delimiter == 0x5c) ≡ false
    → (c : ℕ) × (t : Bytes) × (escape delimiter (b ∷ bs) ++ rest ≡ c ∷ t)
      × ((c == delimiter) ≡ false)
unfolding escape
head_escape delimiter b bs rest no_backslash = elim (Bool-cases (b == delimiter)) [
  | inl e ↦ (0x5c, b ∷ escape delimiter bs ++ rest, ground arith, ground arith)
  | inr e ↦ (b, escape delimiter bs ++ rest, ground arith, e)
]

escape_plain :
    (delimiter b : ℕ) (bs : Bytes)
    → (b == delimiter) ≡ false
    → escape delimiter (b ∷ bs) ≡ b ∷ escape delimiter bs
unfolding escape
escape_plain delimiter b bs h = if_false _ _ h

-- A value that does not end in a backslash, escaped and delimited, is read back, and the cursor is
-- then behind the closing delimiter; the delimiter is not the backslash.
pub delimited-escape :
    (delimiter cur : ℕ) (value rest : Bytes)
    → (delimiter == 0x5c) ≡ false
    → ends_well value ≡ true
    → delimited delimiter cur (escape delimiter value ++ delimiter ∷ rest)
      ≡ some (value, record { cur = cur + length (escape delimiter value) + 1; rest = rest })
unfolding delimited escape ends_well
delimited-escape delimiter cur [] [] no_backslash well = ground arith
delimited-escape delimiter cur [] (r ∷ rest) no_backslash well = ground arith
delimited-escape delimiter cur (b ∷ []) [] no_backslash well = elim (Bool-cases (b == delimiter)) [
  | inl e ↦ ground arith
  | inr e ↦ ground arith
]
delimited-escape delimiter cur (b ∷ []) (r ∷ rest) no_backslash well =
    elim (Bool-cases (b == delimiter)) [ inl e ↦ ground arith | inr e ↦ ground arith ]
delimited-escape delimiter cur (b ∷ d ∷ bs) rest no_backslash well =
    elim (Bool-cases (b == delimiter)) [
      | inl e ↦ ground (arith, delimited-escape delimiter (cur + 2) (d ∷ bs) rest no_backslash well)
      | inr e ↦
          let (c, t, starts, other) = head_escape delimiter d bs (delimiter ∷ rest) no_backslash in
          let inner = delimited-escape delimiter (cur + 1) (d ∷ bs) rest no_backslash well in
          rw (escape_plain delimiter b (d ∷ bs) e) (
            plain_step delimiter cur b c (escape delimiter (d ∷ bs) ++ delimiter ∷ rest) t starts e
              other
            ∙ ap (push b) inner
            ∙ ap (λ n. some (b ∷ d ∷ bs, record { cur = n + 1; rest = rest })) (omega arith))
    ]
