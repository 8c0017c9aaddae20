-- ===== src/Bulletins/Message.antt =====
-- The two functions that reduce a bulletin's message to its shape, for the dedup key.
pub mod Normal
use nifi_lens.Base.{
  ℕ, zero, suc, Option, none, some, Bool, List, [], ◌∷◌, ◌++◌, length, drop, ◌==◌, if◌then◌else◌,
  true, false,
}
use nifi_lens.Base.Text.{Text, codes, find, find_char, is_ascii_whitespace}

-- The first character of `rest` must be white space; the rest follows it.
after_whitespace : Text → Text → Text
after_whitespace msg [] = msg
after_whitespace msg (c ∷ rest) = if is_ascii_whitespace c then rest else msg

unfoldable pub strip_component_prefix : Text → Text
unfolding after_whitespace
strip_component_prefix msg = elim (find (codes "[id=") msg) [
  | none ↦ msg
  | some (_, at) ↦ elim (find_char b']' (drop 4 at)) [
    | none ↦ msg
    | some (_, rest) ↦ after_whitespace msg rest
  ]
]

-- The text before the next such character, and the text from it on.
unfoldable pub span_char : ℕ → Text → Text × Text
span_char d [] = ([], [])
span_char d (c ∷ s) = elim (c == d) [
  | true ↦ ([], c ∷ s)
  | false ↦ (c ∷ (span_char d s).0, (span_char d s).1)
]

abbrev pub ellipsis : Text
ellipsis = b'[' ∷ 0x2026 ∷ b']' ∷ []

-- The `while` loop: `rest` is the text from byte `i` on.
unfoldable pub normalize_loop : ℕ → Text → Text → Text → Text
normalize_loop zero s rest out = out
normalize_loop (suc fuel) s [] out = out
normalize_loop (suc fuel) s (c ∷ rest) out = elim (c == b'[') [
  | true ↦ elim (find_char b']' rest) [
    | some (_, after) ↦ normalize_loop fuel s after (out ++ ellipsis)
    | none ↦ s
  ]
  | false ↦
      normalize_loop fuel s (span_char b'[' (c ∷ rest)).1 (out ++ (span_char b'[' (c ∷ rest)).0)
]

-- A round takes at least a character, so the fuel is enough (`normalize_dynamic_brackets_lem`).
unfoldable pub normalize_dynamic_brackets : Text → Text
normalize_dynamic_brackets s = elim (find_char b'[' s) [
  | none ↦ s
  | some _ ↦ normalize_loop (suc (length s)) s s []
]
