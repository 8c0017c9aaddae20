-- ===== src/Search/Find.antt =====
-- `find` returns the first occurrence.
use nifi_lens.Base.{
  ◌≤◌, ◌≡◌, ◌≢◌, refl, Bool-cases, Option-cases, inl, inr, none, some, [], ◌∷◌, ◌++◌, length, drop,
  true, arith,
}
use nifi_lens.Base.Text.{Text, find, starts_with}

starts_with_sound : (p s : Text) → starts_with p s ≡ true → s ≡ p ++ drop (length p) s
unfolding starts_with
starts_with_sound [] s h = refl
starts_with_sound (a ∷ p) [] h = ground arith
starts_with_sound (a ∷ p) (c ∷ s) h = ground (arith, starts_with_sound p s)

starts_with-append : (p t : Text) → starts_with p (p ++ t) ≡ true
unfolding starts_with
starts_with-append [] t = refl
starts_with-append (a ∷ p) t = ground (arith, starts_with-append p t)

-- What is found splits the text, and the pattern stands at the split.
pub find_sound :
    (p s before at : Text)
    → find p s ≡ some (before, at)
    → (s ≡ before ++ at) × (at ≡ p ++ drop (length p) at)
unfolding find
find_sound p [] before at h = ground (arith, starts_with_sound p [])
find_sound p (c ∷ s) before at h = elim (Bool-cases (starts_with p (c ∷ s))) [
  | inl here ↦ ground (arith, starts_with_sound p (c ∷ s) here)
  | inr later ↦ elim (Option-cases (find p s)) [
    | inl e ↦ absurd (ground arith)
    | inr ((b, f), e) ↦ ground (arith, find_sound p s b f e)
  ]
]

-- No occurrence starts before the one that is found.
pub find_first :
    (p s before at pre post : Text)
    → find p s ≡ some (before, at)
    → s ≡ pre ++ p ++ post
    → length before ≤ length pre
unfolding find
find_first p [] before at pre post h e = ground arith
find_first p (c ∷ s) before at [] post h e = ground (arith, starts_with-append p post)
find_first p (c ∷ s) before at (d ∷ pre) post h e = elim (Bool-cases (starts_with p (c ∷ s))) [
  | inl here ↦ ground arith
  | inr later ↦ elim (Option-cases (find p s)) [
    | inl missing ↦ absurd (ground arith)
    | inr ((b, f), found) ↦ ground (arith, find_first p s b f pre post found)
  ]
]

-- Where nothing is found the pattern does not occur.
pub find-none : (p s pre post : Text) → find p s ≡ none → s ≢ pre ++ p ++ post
unfolding find
find-none p [] [] post h e = ground (arith, starts_with-append p post)
find-none p [] (d ∷ pre) post h e = cc
find-none p (c ∷ s) [] post h e = ground (arith, starts_with-append p post)
find-none p (c ∷ s) (d ∷ pre) post h e = elim (Bool-cases (starts_with p (c ∷ s))) [
  | inl here ↦ ground arith
  | inr later ↦ elim (Option-cases (find p s)) [
    | inl missing ↦ ground (arith, find-none p s pre post missing)
    | inr ((b, f), found) ↦ ground arith
  ]
]
