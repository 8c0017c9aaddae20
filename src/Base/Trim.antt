-- ===== src/Base/Trim.antt =====
-- `str::trim` leaves what stands between the white space.
use Prim.Native.Nat.{ℕ}
use mathlib.Core.Path.{◌≡◌, refl, ap, ◌∙◌}
use mathlib.Core.Bool.{true, false}
use mathlib.Core.List.{[], ◌∷◌, ◌++◌, reverse, reverse-cons, reverse-append, reverse-reverse}
use nifi_lens.Base.Lists.{All, All-append}
use nifi_lens.Base.Text.{Text, is_whitespace, trim_start, trim}

abbrev pub AllWhitespace : Text → Type 0
AllWhitespace = All (λ c. is_whitespace c ≡ true)

-- A text that begins and ends with a character that is not white space.
pub record IsTrimmed (core : Text) : Type 0 where
  pub first : ℕ
  pub rest : Text
  pub init : Text
  pub last : ℕ
  pub front : core ≡ first ∷ rest
  pub back : core ≡ init ++ last ∷ []
  pub first_shows : is_whitespace first ≡ false
  pub last_shows : is_whitespace last ≡ false

All-reverse {κ} : (P : ℕ → Type κ) (s : Text) → All P s → All P (reverse s)
All-reverse P [] h = tt
All-reverse P (c ∷ s) h =
    rw reverse-cons (All-append P (reverse s) (c ∷ []) (All-reverse P s h.1) (h.0, tt))

trim_start-skip : (pre s : Text) → AllWhitespace pre → trim_start (pre ++ s) ≡ trim_start s
unfolding trim_start
trim_start-skip [] s h = refl
trim_start-skip (c ∷ pre) s h = rw (h.0, trim_start) (trim_start-skip pre s h.1)

trim_start-keep : (c : ℕ) (s : Text) → is_whitespace c ≡ false → trim_start (c ∷ s) ≡ c ∷ s
unfolding trim_start
trim_start-keep c s h = rw (h, trim_start) refl

pub trim-IsTrimmed :
    (pre core post : Text)
    → AllWhitespace pre
    → AllWhitespace post
    → IsTrimmed core
    → trim (pre ++ (core ++ post)) ≡ core
unfolding trim
trim-IsTrimmed pre core post hp hq t =
    let starts : trim_start (core ++ post) ≡ core ++ post =
      rw t.front (trim_start-keep t.first (t.rest ++ post) t.first_shows) in
    let mirrored : reverse core ≡ t.last ∷ reverse t.init =
      ap reverse t.back ∙ reverse-append t.init (t.last ∷ []) in
    let ends : trim_start (reverse core) ≡ reverse core =
      rw mirrored (trim_start-keep t.last (reverse t.init) t.last_shows) in
    ap (λ s. reverse (trim_start (reverse s))) (trim_start-skip pre (core ++ post) hp ∙ starts)
    ∙ ap (λ s. reverse (trim_start s)) (reverse-append core post)
    ∙ ap reverse (trim_start-skip (reverse post) (reverse core) (All-reverse _ post hq) ∙ ends)
    ∙ reverse-reverse core
