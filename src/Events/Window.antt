-- ===== src/Events/Window.antt =====
-- The time filter: a window that is written out is read back.
use nifi_lens.Base.{
  ℕ, ◌+◌, ◌-◌, ◌*◌, ◌^◌, ◌<◌, ◌≡◌, refl, sym, ap, ◌∙◌, Bool, true, false, ◌&&◌, Option, none, some,
  [], ◌∷◌, ◌++◌, append_assoc, append-nil, All, leb, lt→ltb, ◌==◌, pos, if_true, if_false, arith,
}
use nifi_lens.Base.Text.{Text, codes, is_whitespace, trim, strip_prefix}
use nifi_lens.Base.Trim.{AllWhitespace, IsTrimmed, trim-IsTrimmed}
use nifi_lens.Events.{Parts}
use nifi_lens.Events.Query.{
  TimeWindow, unread, checked, decimal, positive_i64, parse_i64, split_last, window,
  parse_time_window,
}

abbrev pub is_digit : ℕ → Bool
is_digit c = leb b'0' c && leb c b'9'

abbrev pub AllDigits : Text → Type 0
AllDigits = All (λ c. is_digit c ≡ true)

-- The number that decimal digits stand for, behind `acc`.
unfoldable pub value : ℕ → Text → ℕ
value acc [] = acc
value acc (c ∷ s) = value (acc * 10 + (c - b'0')) s

decimal-value : (acc : ℕ) (s : Text) → AllDigits s → decimal acc s ≡ some (value acc s)
unfolding decimal value
decimal-value acc [] h = refl
decimal-value acc (c ∷ s) h = if_true _ _ h.0 ∙ decimal-value (acc * 10 + (c - b'0')) s h.1

digit_not_sign :
    (c : ℕ)
    → is_digit c ≡ true
    → ((c == b'-') ≡ false) × ((c == b'+') ≡ false) × (is_whitespace c ≡ false)
unfolding is_whitespace
digit_not_sign c h = ground arith

parse_i64-digits :
    (c : ℕ) (s : Text)
    → AllDigits (c ∷ s)
    → value 0 (c ∷ s) < 2 ^ 63
    → parse_i64 (c ∷ s) ≡ some (pos (value 0 (c ∷ s)))
unfolding parse_i64
parse_i64-digits c s h b =
    let ok = digit_not_sign c h.0 in
    if_false _ _ ok.0
    ∙ if_false _ _ ok.1
    ∙ ap positive_i64 (decimal-value 0 (c ∷ s) h)
    ∙ if_true _ _ (lt→ltb _ _ b)

split_last-append : (s : Text) (c : ℕ) → split_last (s ++ c ∷ []) ≡ some (s, c)
unfolding split_last
split_last-append [] c = refl
split_last-append (d ∷ s) c = rw (split_last-append s c) refl

-- The last digit of some.
split_digits :
    (c : ℕ) (s : Text)
    → AllDigits (c ∷ s)
    → (init : Text) × (last : ℕ) × (c ∷ s ≡ init ++ last ∷ []) × (is_digit last ≡ true)
split_digits c [] h = ([], c, refl, h.0)
split_digits c (d ∷ s) h =
    let (init, last, e, k) = split_digits d s h.1 in (c ∷ init, last, ap (◌∷◌ c) e, k)

digits-IsTrimmed : (c : ℕ) (s : Text) → AllDigits (c ∷ s) → IsTrimmed (c ∷ s)
digits-IsTrimmed c s h =
    let (init, last, e, k) = split_digits c s h in
    record {
      first = c;
      rest = s;
      init = init;
      last = last;
      front = refl;
      back = e;
      first_shows = (digit_not_sign c h.0).2;
      last_shows = (digit_not_sign last k).2;
    }

-- The number and the unit behind `last`, with white space before the number.
abbrev pub amount : Text → Text → ℕ → Text
amount gap digits unit_char = gap ++ (digits ++ unit_char ∷ [])

amount-IsTrimmed :
    (gap digits : Text) (unit_char : ℕ)
    → is_whitespace unit_char ≡ false
    → IsTrimmed (codes "last " ++ amount gap digits unit_char)
unfolding is_whitespace
amount-IsTrimmed gap digits unit_char h = record {
  first = b'l';
  rest = _;
  init = codes "last " ++ (gap ++ digits);
  last = unit_char;
  front = refl;
  back = ap (λ s. codes "last " ++ s) (sym (append_assoc gap digits (unit_char ∷ [])));
  first_shows = refl;
  last_shows = h;
}

module _ (E : Parts) where
  -- What stands behind `last`, read.
  abbrev behind_last : Option (Text × ℕ) → TimeWindow E
  behind_last none = unread
  behind_last (some (num_str, unit_char)) = window E (parse_i64 (trim num_str)) unit_char

  amount_read :
      (gap : Text) (c : ℕ) (digits : Text) (unit_char : ℕ)
      → AllWhitespace gap
      → AllDigits (c ∷ digits)
      → value 0 (c ∷ digits) < 2 ^ 63
      → behind_last (split_last (amount gap (c ∷ digits) unit_char))
        ≡ window E (some (pos (value 0 (c ∷ digits)))) unit_char
  amount_read gap c digits unit_char hg hd hv =
      let split : split_last (amount gap (c ∷ digits) unit_char)
          ≡ some (gap ++ (c ∷ digits), unit_char) =
        ap split_last (sym (append_assoc gap (c ∷ digits) (unit_char ∷ [])))
        ∙ split_last-append (gap ++ (c ∷ digits)) unit_char in
      let trimmed : trim (gap ++ (c ∷ digits)) ≡ c ∷ digits =
        ap (λ s. trim (gap ++ s)) (sym (append-nil (c ∷ digits)))
        ∙ trim-IsTrimmed gap (c ∷ digits) [] hg tt (digits-IsTrimmed c digits hd) in
      ap behind_last split
      ∙ ap (λ s. window E (parse_i64 s) unit_char) trimmed
      ∙ ap (λ n. window E n unit_char) (parse_i64-digits c digits hd hv)

  -- The rest behind the prefix, read.
  abbrev after_prefix : Option Text → TimeWindow E
  after_prefix none = unread
  after_prefix (some rest) = behind_last (split_last rest)

  window_read :
      (before gap after : Text) (c : ℕ) (digits : Text) (unit_char : ℕ)
      → AllWhitespace before
      → AllWhitespace gap
      → AllWhitespace after
      → AllDigits (c ∷ digits)
      → value 0 (c ∷ digits) < 2 ^ 63
      → is_whitespace unit_char ≡ false
      → parse_time_window E
          (before ++ ((codes "last " ++ amount gap (c ∷ digits) unit_char) ++ after))
        ≡ window E (some (pos (value 0 (c ∷ digits)))) unit_char
  unfolding parse_time_window strip_prefix
  window_read before gap after c digits unit_char hb hg ha hd hv hu =
      let core = codes "last " ++ amount gap (c ∷ digits) unit_char in
      let trimmed : trim (before ++ (core ++ after)) ≡ core =
        trim-IsTrimmed before core after hb ha (amount-IsTrimmed gap (c ∷ digits) unit_char hu) in
      ap (λ t. after_prefix (strip_prefix (codes "last ") t)) trimmed
      ∙ amount_read gap c digits unit_char hg hd hv

  -- A window that is written out, with white space around it and before its number, is read as
  -- that number of minutes, hours or days, whichever its unit says, for a number within 63 bits,
  -- and panics exactly where the constructor of the duration does.
  pub parse_time_window-amount :
      (before gap after : Text) (c : ℕ) (digits : Text)
      → AllWhitespace before
      → AllWhitespace gap
      → AllWhitespace after
      → AllDigits (c ∷ digits)
      → value 0 (c ∷ digits) < 2 ^ 63
      → let n = pos (value 0 (c ∷ digits)) in
        let written : ℕ → Text =
          λ unit_char. before ++ ((codes "last " ++ amount gap (c ∷ digits) unit_char) ++ after) in
        (parse_time_window E (written b'm') ≡ checked E (E.minutes n))
        × (parse_time_window E (written b'h') ≡ checked E (E.hours n))
        × (parse_time_window E (written b'd') ≡ checked E (E.days n))
  unfolding window is_whitespace
  parse_time_window-amount before gap after c digits hb hg ha hd hv = (
    window_read before gap after c digits b'm' hb hg ha hd hv refl,
    window_read before gap after c digits b'h' hb hg ha hd hv refl,
    window_read before gap after c digits b'd' hb hg ha hd hv refl,
  )
