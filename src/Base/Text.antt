-- ===== src/Base/Text.antt =====
-- Text as a list of Unicode scalar values, and what the sources use of `str`.
use Prim.Native.Char.{code}
use Prim.Native.String.{String}
use Prim.Native.Nat.{ℕ, ◌+◌, ◌-◌, ◌/◌, ◌%◌}
use mathlib.Core.Path.{◌≡◌, refl, ap}
use mathlib.Core.Logic.{◌↔◌}
use mathlib.Core.Bool.{Bool, true, false, ◌&&◌, ◌||◌}
use mathlib.Core.List.{List, [], ◌∷◌, ◌++◌, map, reverse}
use mathlib.Core.Option.{Option, none, some}
use native.Mathlib.Omega.{arith}
use nifi_lens.Base.Tests.{ltb, leb, ◌==◌, if◌then◌else◌}

abbrev pub Text : Type 0
Text = List ℕ

-- The text of a literal.
abbrev pub codes : String → Text
codes String.[] = []
codes (String.◌∷◌ c s) = code c ∷ codes s

-- `==` on text.
unfoldable pub text_eq : Text → Text → Bool
text_eq [] [] = true
text_eq (a ∷ s) (b ∷ t) = a == b && text_eq s t
text_eq _ _ = false

pub text_eq_sound : (s t : Text) → text_eq s t ≡ true → s ≡ t
unfolding text_eq
text_eq_sound [] [] h = refl
text_eq_sound [] (b ∷ t) h = ground arith
text_eq_sound (a ∷ s) [] h = ground arith
text_eq_sound (a ∷ s) (b ∷ t) h = ground (arith, text_eq_sound s t)

pub text_eq_refl : (s : Text) → text_eq s s ≡ true
unfolding text_eq
text_eq_refl [] = refl
text_eq_refl (a ∷ s) = ground (arith, text_eq_refl s)

pub text_eq_iff : (s t : Text) → (text_eq s t ≡ true) ↔ (s ≡ t)
text_eq_iff s t = (text_eq_sound s t, λ e. rw e (text_eq_refl t))

-- `u8::to_ascii_lowercase`, `to_ascii_uppercase`, which leave other characters alone.
unfoldable pub to_ascii_lower : ℕ → ℕ
to_ascii_lower c = if leb b'A' c && leb c b'Z' then c + 32 else c

unfoldable pub to_ascii_upper : ℕ → ℕ
to_ascii_upper c = if leb b'a' c && leb c b'z' then c - 32 else c

unfoldable pub to_ascii_lowercase : Text → Text
unfolding to_ascii_lower
to_ascii_lowercase = map to_ascii_lower

unfoldable pub to_ascii_uppercase : Text → Text
unfolding to_ascii_upper
to_ascii_uppercase = map to_ascii_upper

-- `char::len_utf8`, and the byte length of a text.
unfoldable pub len_utf8 : ℕ → ℕ
len_utf8 c = if ltb c 0x80 then 1 else if ltb c 0x800 then 2 else if ltb c 0x10000 then 3 else 4

unfoldable pub byte_len : Text → ℕ
unfolding len_utf8
byte_len [] = 0
byte_len (c ∷ s) = len_utf8 c + byte_len s

-- `str::starts_with`.
unfoldable pub starts_with : Text → Text → Bool
starts_with [] s = true
starts_with (p ∷ ps) [] = false
starts_with (p ∷ ps) (c ∷ s) = p == c && starts_with ps s

-- `str::find`, as the text before the first occurrence and the text from the occurrence on.
unfoldable pub find : Text → Text → Option (Text × Text)
find p [] = if starts_with p [] then some ([], []) else none
find p (c ∷ s) = elim (starts_with p (c ∷ s)) [
  | true ↦ some ([], c ∷ s)
  | false ↦ elim (find p s) [ none ↦ none | some (before, from) ↦ some (c ∷ before, from) ]
]

-- `str::find(char)`: the text before the first such character and the text after it.
unfoldable pub find_char : ℕ → Text → Option (Text × Text)
find_char d [] = none
find_char d (c ∷ s) =
    let rest : Option (Text × Text) = elim (find_char d s) [
      | none ↦ none
      | some (before, after) ↦ some (c ∷ before, after)
    ] in
    if c == d then some ([], s) else rest

-- `String::pop`: the text without its last character.
unfoldable pub pop_char : Text → Text
pop_char [] = []
pop_char (c ∷ []) = []
pop_char (c ∷ d ∷ s) = c ∷ pop_char (d ∷ s)

-- `u8::is_ascii_whitespace`: space, tab, line feed, form feed, carriage return.
abbrev pub is_ascii_whitespace : ℕ → Bool
is_ascii_whitespace c = c == 0x20 || c == 0x09 || c == 0x0a || c == 0x0c || c == 0x0d

pub pop_char-push : (s : Text) (c : ℕ) → pop_char (s ++ c ∷ []) ≡ s
unfolding pop_char
pop_char-push [] c = refl
pop_char-push (a ∷ []) c = refl
pop_char-push (a ∷ b ∷ s) c = ap (◌∷◌ a) (pop_char-push (b ∷ s) c)

-- `char::is_whitespace`.
unfoldable pub is_whitespace : ℕ → Bool
is_whitespace c =
    (leb 0x09 c && leb c 0x0d)
    || c == 0x20
    || c == 0x85
    || c == 0xa0
    || c == 0x1680
    || (leb 0x2000 c && leb c 0x200a)
    || c == 0x2028
    || c == 0x2029
    || c == 0x202f
    || c == 0x205f
    || c == 0x3000

unfoldable pub trim_start : Text → Text
unfolding is_whitespace
trim_start [] = []
trim_start (c ∷ s) = elim (is_whitespace c) [ true ↦ trim_start s | false ↦ c ∷ s ]

unfoldable pub trim : Text → Text
unfolding trim_start
trim s = reverse (trim_start (reverse (trim_start s)))

-- `Option::unwrap_or_default`.
abbrev pub or_empty : Option Text → Text
or_empty none = []
or_empty (some t) = t

-- `str::as_bytes`: the UTF-8 bytes.
unfoldable pub encode_char : ℕ → List ℕ
encode_char c =
    if ltb c 0x80
    then c ∷ []
    else if ltb c 0x800
    then (0xc0 + c / 64) ∷ (0x80 + c % 64) ∷ []
    else if ltb c 0x10000
    then (0xe0 + c / 4096) ∷ (0x80 + c / 64 % 64) ∷ (0x80 + c % 64) ∷ []
    else (0xf0 + c / 262144) ∷ (0x80 + c / 4096 % 64) ∷ (0x80 + c / 64 % 64) ∷ (0x80 + c % 64) ∷ []

unfoldable pub as_bytes : Text → List ℕ
unfolding encode_char
as_bytes [] = []
as_bytes (c ∷ s) = encode_char c ++ as_bytes s

-- `str::strip_prefix`.
unfoldable pub strip_prefix : Text → Text → Option Text
strip_prefix [] s = some s
strip_prefix (p ∷ ps) [] = none
strip_prefix (p ∷ ps) (c ∷ s) = let rest = strip_prefix ps s in if p == c then rest else none
