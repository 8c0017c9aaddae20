-- ===== src/Bulletins/Shown.antt =====
-- `row_matches` and `filtered_indices` against what the filters mean, one by one.
use nifi_lens.Base.{
  ℕ, zero, suc, ◌≡◌, refl, sym, ap, ◌∙◌, Bool, true, false, not, ◌&&◌, ◌||◌, Option, none, some,
  List, [], ◌∷◌, ◌++◌, append_assoc, is_empty, get_elem?, ◌⊎◌, inl, inr, ◌↔◌, Bool-cases,
  Option-cases, ◌==◌, ==_refl, arith,
}
use mathlib.Core.List.{Memᴰ}
use nifi_lens.Base.Text.{Text, find, text_eq, text_eq_sound, text_eq_refl, text_eq_iff}
use nifi_lens.Search.Find.{find_sound, find-none}
use nifi_lens.Bulletins.{
  BulletinSnapshot, Severity, parse_severity, ComponentType, classify, type_index, FilterState,
}
use nifi_lens.Bulletins.View.{
  contains, mem_text, source_ok, severity_ok, type_ok, row_matches, filtered,
}
use nifi_lens.Bulletins.Visible.{member, IsAscendingFrom, passes, filtered-member}

-- The text has the other somewhere.
abbrev pub Has : Text → Text → Type 0
Has hay needle = (before : Text) × (after : Text) × (hay ≡ before ++ needle ++ after)

-- A choice that is open admits everything.
abbrev pub IsChosen : {A : Type 0} → A → Option A → Type 0
IsChosen a none = Unit
IsChosen a (some want) = a ≡ want

-- The chip of the severity is on; an unknown severity goes with the information.
pub data IsOn (f : FilterState) : Severity → Type 0 where
  error_on : f.show_error ≡ true → IsOn f Severity.error
  warning_on : f.show_warning ≡ true → IsOn f Severity.warning
  info_on : f.show_info ≡ true → IsOn f Severity.info
  unknown_on : f.show_info ≡ true → IsOn f Severity.unknown

contains_iff : (hay needle : Text) → (contains hay needle ≡ true) ↔ Has hay needle
contains_iff hay needle = elim (Option-cases (find needle hay)) [
  | inl e ↦ (
    λ h. absurd (ground arith),
    λ (before, after, split). absurd (find-none needle hay before after e split),
  )
  | inr ((before, at), e) ↦
      let (split, front) = find_sound needle hay before at e in
      (
        λ h. (before, _, split ∙ ap (λ t. before ++ t) front ∙ sym (append_assoc before needle _)),
        λ h. ground arith,
      )
]

mem_text_to : (t : Text) (us : List Text) → mem_text t us ≡ true → Memᴰ t us
mem_text_to t [] h = absurd (ground arith)
mem_text_to t (u ∷ us) h = elim (Bool-cases (text_eq u t)) [
  | inl e ↦ Memᴰ.head (sym (text_eq_sound u t e))
  | inr e ↦ Memᴰ.tail (mem_text_to t us (ground arith))
]

mem_text_from : (t : Text) (us : List Text) → Memᴰ t us → mem_text t us ≡ true
mem_text_from t [] m = elim m [ ]
mem_text_from t (u ∷ us) (Memᴰ.head e) = ground (arith, text_eq_refl t)
mem_text_from t (u ∷ us) (Memᴰ.tail m) = ground (arith, mem_text_from t us m)

source_ok_iff : (o : Option Text) (id : Text) → (source_ok o id ≡ true) ↔ IsChosen id o
source_ok_iff none id = (λ h. tt, λ h. refl)
source_ok_iff (some want) id = text_eq_iff id want

unfoldable type_at : ℕ → ComponentType
type_at zero = ComponentType.processor
type_at (suc zero) = ComponentType.controller_service
type_at (suc (suc zero)) = ComponentType.reporting_task
type_at n = ComponentType.other

type_at-type_index : (t : ComponentType) → type_at (type_index t) ≡ t
unfolding type_at
type_at-type_index ComponentType.processor = refl
type_at-type_index ComponentType.controller_service = refl
type_at-type_index ComponentType.reporting_task = refl
type_at-type_index ComponentType.other = refl

type_index-injective : (a b : ComponentType) → (type_index a == type_index b) ≡ true → a ≡ b
type_index-injective a b h =
    let same : type_index a ≡ type_index b = ground arith in
    sym (type_at-type_index a) ∙ ap type_at same ∙ type_at-type_index b

type_ok_iff : (o : Option ComponentType) (t : ComponentType) → (type_ok o t ≡ true) ↔ IsChosen t o
type_ok_iff none t = (λ h. tt, λ h. refl)
type_ok_iff (some want) t = (type_index-injective t want, λ e. rw e (==_refl (type_index want)))

severity_ok_iff : (f : FilterState) (v : Severity) → (severity_ok f v ≡ true) ↔ IsOn f v
severity_ok_iff f Severity.error = (λ h. error_on h, elim [ error_on h ↦ h ])
severity_ok_iff f Severity.warning = (λ h. warning_on h, elim [ warning_on h ↦ h ])
severity_ok_iff f Severity.info = (λ h. info_on h, elim [ info_on h ↦ h ])
severity_ok_iff f Severity.unknown = (λ h. unknown_on h, elim [ unknown_on h ↦ h ])

module _ (to_lowercase : Text → Text) (f : FilterState) (mutes : List Text) where
  -- The lower case of the message or of the source's name has the lower case of the filter's text,
  -- unless that text is empty.
  abbrev pub IsFound : BulletinSnapshot → Type 0
  IsFound b =
      (f.text ≡ [])
      ⊎ (Has (to_lowercase b.message) (to_lowercase f.text)
          ⊎ Has (to_lowercase b.source_name) (to_lowercase f.text))

  -- What the filters and the mutes let pass.
  pub record IsShown (b : BulletinSnapshot) : Type 0 where
    pub pin : IsChosen b.source_id f.source_id
    pub chip : IsOn f (parse_severity b.level)
    pub loud : ¬ Memᴰ b.source_id mutes
    pub kind : IsChosen (classify b.source_type) f.component_type
    pub found : IsFound b

  abbrev text_ok : BulletinSnapshot → Bool
  text_ok b =
      is_empty f.text
      || (contains (to_lowercase b.message) (to_lowercase f.text)
          || contains (to_lowercase b.source_name) (to_lowercase f.text))

  row_matches-tests :
      (b : BulletinSnapshot)
      → row_matches to_lowercase f mutes b ≡ (
          source_ok f.source_id b.source_id
          && (severity_ok f (parse_severity b.level)
              && (not (mem_text b.source_id mutes)
                  && (type_ok f.component_type (classify b.source_type) && text_ok b))))
  unfolding row_matches
  row_matches-tests b = ground arith

  is_empty_iff : (t : Text) → (is_empty t ≡ true) ↔ (t ≡ [])
  is_empty_iff [] = (λ h. refl, λ h. refl)
  is_empty_iff (c ∷ t) = (λ h. absurd (ground arith), λ h. cc)

  text_ok-IsFound : (b : BulletinSnapshot) → text_ok b ≡ true → IsFound b
  text_ok-IsFound b h =
      let needle = to_lowercase f.text in
      elim (Bool-cases (is_empty f.text)) [
        | inl e ↦ inl ((is_empty_iff f.text).0 e)
        | inr e ↦ inr (elim (Bool-cases (contains (to_lowercase b.message) needle)) [
          | inl k ↦ inl ((contains_iff (to_lowercase b.message) needle).0 k)
          | inr k ↦ inr ((contains_iff (to_lowercase b.source_name) needle).0 (ground arith))
        ])
      ]

  IsFound-text_ok : (b : BulletinSnapshot) → IsFound b → text_ok b ≡ true
  IsFound-text_ok b (inl e) = ground (arith, (is_empty_iff f.text).1 e)
  IsFound-text_ok b (inr (inl h)) =
      ground (arith, (contains_iff (to_lowercase b.message) (to_lowercase f.text)).1 h)
  IsFound-text_ok b (inr (inr h)) =
      ground (arith, (contains_iff (to_lowercase b.source_name) (to_lowercase f.text)).1 h)

  row_matches-IsShown :
      (b : BulletinSnapshot) → row_matches to_lowercase f mutes b ≡ true → IsShown b
  row_matches-IsShown b h =
      let all = sym (row_matches-tests b) ∙ h in
      record {
        pin = (source_ok_iff f.source_id b.source_id).0 (ground arith);
        chip = (severity_ok_iff f (parse_severity b.level)).0 (ground arith);
        loud = λ m. let there = mem_text_from b.source_id mutes m in ground arith;
        kind = (type_ok_iff f.component_type (classify b.source_type)).0 (ground arith);
        found = text_ok-IsFound b (ground arith);
      }

  IsShown-row_matches :
      (b : BulletinSnapshot) → IsShown b → row_matches to_lowercase f mutes b ≡ true
  IsShown-row_matches b s =
      let pin = (source_ok_iff f.source_id b.source_id).1 s.pin in
      let chip = (severity_ok_iff f (parse_severity b.level)).1 s.chip in
      let loud : mem_text b.source_id mutes ≡ false =
        elim (Bool-cases (mem_text b.source_id mutes)) [
          | inl e ↦ absurd (s.loud (mem_text_to b.source_id mutes e))
          | inr e ↦ e
        ] in
      let kind = (type_ok_iff f.component_type (classify b.source_type)).1 s.kind in
      let found = IsFound-text_ok b s.found in row_matches-tests b ∙ ground arith

  -- The indices of the shown rows ascend, so that none is there twice, and an index is among them
  -- just if the ring has a bulletin there whose source is the pinned one, if one is pinned, and is
  -- not muted, whose severity has its chip on (an unknown one goes with the information), whose type
  -- is the chosen one, if one is chosen, and whose message or source name has the filter's text, case
  -- aside, if there is such a text.
  pub filtered-IsShown :
      (ring : List BulletinSnapshot)
      → IsAscendingFrom 0 (filtered to_lowercase f mutes ring)
        × ((k : ℕ)
            → (member k (filtered to_lowercase f mutes ring) ≡ true)
              ↔ ((b : BulletinSnapshot) × (get_elem? ring k ≡ some b) × IsShown b))
  unfolding passes
  filtered-IsShown ring =
      let (ascending, listed) = filtered-member to_lowercase f mutes ring in
      (
        ascending,
        λ k. elim (Option-cases (get_elem? ring k)) [
          | inl e ↦
              (λ h. absurd (ground (arith, listed k)), λ (b, at, shown). absurd (ground arith))
          | inr (b, e) ↦ (
            λ h. (b, e, row_matches-IsShown b (ground (arith, listed k))),
            λ (c, at, shown).
                let same : row_matches to_lowercase f mutes c ≡ true =
                  IsShown-row_matches c shown in
                ground (arith, listed k),
          )
        ],
      )
