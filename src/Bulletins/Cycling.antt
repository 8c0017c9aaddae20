-- ===== src/Bulletins/Cycling.antt =====
-- The search of the detail modal: its matches are those of its query in the message, and its
-- current match is one of them.
use native.Mathlib.Nat.{mod-eq_of_lt, mod_self}
use nifi_lens.Base.{
  ℕ, ◌+◌, ◌-◌, ◌<◌, ◌≡◌, refl, ap, Bool, true, false, Option, none, some, List, [], ◌∷◌, length,
  is_empty, not, ◌||◌, ◌∙◌, Bool-cases, Option-cases, inl, inr, ◌==◌, if◌then◌else◌, if-keeps, ℤ,
  usize_mod, arith,
}
use nifi_lens.Base.Text.{Text}
use nifi_lens.Search.{SearchState, compute_matches}
use nifi_lens.Bulletins.{DetailModalState, BulletinsState}
use nifi_lens.Bulletins.Detail.{
  with_query, search_push, search_pop, search_commit, search_cycle_next, search_cycle_prev,
  on_modal, on_search, close_detail_modal, modal_scroll_by, modal_page_down, modal_page_up,
  modal_jump_top, modal_jump_bottom, modal_search_open, modal_search_push, modal_search_pop,
  modal_search_commit, modal_search_cancel, modal_search_cycle_next, modal_search_cycle_prev,
}

-- The current match: none of no matches, and else one that there is.
abbrev pub IsCurrent : ℕ → Option ℕ → Type 0
IsCurrent n none = n ≡ 0
IsCurrent n (some i) = i < n

pub record IsSearching (body : Text) (search : SearchState) : Type 0 where
  pub matched : search.matches ≡ compute_matches body search.query
  pub current_ok : IsCurrent (length search.matches) search.current

with_query-IsSearching :
    (body query : Text) (search : SearchState) → IsSearching body (with_query body query search)
unfolding with_query
with_query-IsSearching body query search = record { matched = refl; current_ok = ground arith }

push-IsSearching :
    (body : Text) (ch : ℕ) (search : SearchState)
    → IsSearching body search
    → IsSearching body (search_push body ch search)
unfolding search_push
push-IsSearching body ch search h =
    if-keeps (IsSearching body) search.input_active (with_query-IsSearching body _ search) h

pop-IsSearching :
    (body : Text) (search : SearchState)
    → IsSearching body search
    → IsSearching body (search_pop body search)
unfolding search_pop
pop-IsSearching body search h =
    if-keeps (IsSearching body) search.input_active (with_query-IsSearching body _ search) h

next-IsSearching :
    (body : Text) (search : SearchState)
    → IsSearching body search
    → IsSearching body (search_cycle_next search)
unfolding search_cycle_next
next-IsSearching body search h = record {
  matched = ground (arith, h.matched);
  current_ok = ground (arith, h.current_ok);
}

prev-IsSearching :
    (body : Text) (search : SearchState)
    → IsSearching body search
    → IsSearching body (search_cycle_prev search)
unfolding search_cycle_prev
prev-IsSearching body search h = record {
  matched = ground (arith, h.matched);
  current_ok = ground (arith, h.current_ok);
}

-- The search, if it is open.
abbrev pub IsOpenSearch : Text → Option SearchState → Type 0
IsOpenSearch body none = Unit
IsOpenSearch body (some search) = IsSearching body search

commit-IsOpenSearch :
    (body : Text) (search : SearchState)
    → IsSearching body search
    → IsOpenSearch body (search_commit search)
unfolding search_commit
commit-IsOpenSearch body search h =
    if-keeps (IsOpenSearch body) (is_empty search.query) tt
      (record { matched = h.matched; current_ok = h.current_ok })

-- The search of the modal, if that is open, against the message that the modal shows.
abbrev pub IsSearchedModal : Option DetailModalState → Type 0
IsSearchedModal none = Unit
IsSearchedModal (some modal) = IsOpenSearch modal.details.raw_message modal.search

pub data ModalAction : Type 0 where
  close top bottom page_up page_down open_search pop commit cancel next prev : ModalAction
  scroll : ℤ → ModalAction
  push : ℕ → ModalAction

unfoldable pub modal_act : ModalAction → BulletinsState → BulletinsState
modal_act ModalAction.close s = close_detail_modal s
modal_act ModalAction.top s = modal_jump_top s
modal_act ModalAction.bottom s = modal_jump_bottom s
modal_act ModalAction.page_up s = modal_page_up s
modal_act ModalAction.page_down s = modal_page_down s
modal_act ModalAction.open_search s = modal_search_open s
modal_act ModalAction.pop s = modal_search_pop s
modal_act ModalAction.commit s = modal_search_commit s
modal_act ModalAction.cancel s = modal_search_cancel s
modal_act ModalAction.next s = modal_search_cycle_next s
modal_act ModalAction.prev s = modal_search_cycle_prev s
modal_act (ModalAction.scroll delta) s = modal_scroll_by delta s
modal_act (ModalAction.push ch) s = modal_search_push ch s

unfoldable pub modal_act_all : List ModalAction → BulletinsState → BulletinsState
modal_act_all [] s = s
modal_act_all (a ∷ acts) s = modal_act_all acts (modal_act a s)

on_modal-IsSearchedModal :
    (f : DetailModalState → DetailModalState) (s : BulletinsState)
    → ((modal : DetailModalState) → IsSearchedModal (some modal) → IsSearchedModal (some (f modal)))
    → IsSearchedModal s.detail_modal
    → IsSearchedModal (on_modal f s).detail_modal
unfolding on_modal
on_modal-IsSearchedModal f s keeps h = elim (Option-cases s.detail_modal) [
  | inl e ↦ rw e tt
  | inr (modal, e) ↦ rw e (keeps modal (rw e at h))
]

on_search-IsSearchedModal :
    (f : Text → SearchState → Option SearchState) (s : BulletinsState)
    → ((body : Text) (search : SearchState)
        → IsSearching body search
        → IsOpenSearch body (f body search))
    → IsSearchedModal s.detail_modal
    → IsSearchedModal (on_search f s).detail_modal
unfolding on_search
on_search-IsSearchedModal f s keeps = on_modal-IsSearchedModal _ s (λ modal h.
    elim (Option-cases modal.search) [
      | inl e ↦ rw e tt
      | inr (search, e) ↦ rw e (keeps modal.details.raw_message search (rw e at h))
    ])

modal_act-IsSearchedModal :
    (a : ModalAction) (s : BulletinsState)
    → IsSearchedModal s.detail_modal
    → IsSearchedModal (modal_act a s).detail_modal
unfolding modal_act
modal_act-IsSearchedModal ModalAction.close s h = unfold close_detail_modal in tt
modal_act-IsSearchedModal ModalAction.top s h =
    unfold modal_jump_top in on_modal-IsSearchedModal _ s (λ m k. k) h
modal_act-IsSearchedModal ModalAction.bottom s h =
    unfold modal_jump_bottom in on_modal-IsSearchedModal _ s (λ m k. k) h
modal_act-IsSearchedModal ModalAction.page_up s h =
    unfold modal_page_up in on_modal-IsSearchedModal _ s (λ m k. k) h
modal_act-IsSearchedModal ModalAction.page_down s h =
    unfold modal_page_down in on_modal-IsSearchedModal _ s (λ m k. k) h
modal_act-IsSearchedModal (ModalAction.scroll d) s h =
    unfold modal_scroll_by in on_modal-IsSearchedModal _ s (λ m k. k) h
modal_act-IsSearchedModal ModalAction.open_search s h =
    unfold modal_search_open compute_matches in
    on_modal-IsSearchedModal _ s (λ m k. record { matched = refl; current_ok = refl }) h
modal_act-IsSearchedModal ModalAction.cancel s h =
    unfold modal_search_cancel in on_modal-IsSearchedModal _ s (λ m k. tt) h
modal_act-IsSearchedModal ModalAction.pop s h =
    unfold modal_search_pop in on_search-IsSearchedModal _ s pop-IsSearching h
modal_act-IsSearchedModal ModalAction.commit s h =
    unfold modal_search_commit in on_search-IsSearchedModal _ s commit-IsOpenSearch h
modal_act-IsSearchedModal ModalAction.next s h =
    unfold modal_search_cycle_next in on_search-IsSearchedModal _ s next-IsSearching h
modal_act-IsSearchedModal ModalAction.prev s h =
    unfold modal_search_cycle_prev in on_search-IsSearchedModal _ s prev-IsSearching h
modal_act-IsSearchedModal (ModalAction.push ch) s h =
    unfold modal_search_push in
    on_search-IsSearchedModal _ s (λ body search. push-IsSearching body ch search) h

-- Whatever is done in the detail modal, the matches of an open search are those of its query in
-- the message of the modal, and the current match is one of them, or none if there are none.
pub modal_act_all-IsSearchedModal :
    (acts : List ModalAction) (s : BulletinsState)
    → IsSearchedModal s.detail_modal
    → IsSearchedModal (modal_act_all acts s).detail_modal
unfolding modal_act_all
modal_act_all-IsSearchedModal [] s h = h
modal_act_all-IsSearchedModal (a ∷ acts) s h =
    modal_act_all-IsSearchedModal acts (modal_act a s) (modal_act-IsSearchedModal a s h)

-- A search cycles once it is committed and if it has a match.
abbrev pub is_idle : SearchState → Bool
is_idle search = not search.committed || is_empty search.matches

next_idle : (search : SearchState) → is_idle search ≡ true → search_cycle_next search ≡ search
unfolding search_cycle_next
next_idle search idle = ground arith

prev_idle : (search : SearchState) → is_idle search ≡ true → search_cycle_prev search ≡ search
unfolding search_cycle_prev
prev_idle search idle = ground arith

next_some :
    (i : ℕ) (search : SearchState)
    → is_idle search ≡ false
    → search.current ≡ some i
    → i < length search.matches
    → length search.matches < usize_mod
    → search_cycle_next search
      ≡ record search { current = some (if i + 1 == length search.matches then 0 else i + 1) }
unfolding search_cycle_next
next_some i search live at lt fits = grind (arith, mod-eq_of_lt, mod_self (length search.matches))

prev_some :
    (i : ℕ) (search : SearchState)
    → is_idle search ≡ false
    → search.current ≡ some i
    → search_cycle_prev search
      ≡ record search { current = some (if i == 0 then length search.matches - 1 else i - 1) }
unfolding search_cycle_prev
prev_some i search live at = ground arith

-- In a search with a current match, the next match's previous one, and the previous one's next,
-- is that match.
pub search_cycle_prev-search_cycle_next :
    (i : ℕ) (search : SearchState)
    → search.current ≡ some i
    → i < length search.matches
    → length search.matches < usize_mod
    → (search_cycle_prev (search_cycle_next search) ≡ search)
      × (search_cycle_next (search_cycle_prev search) ≡ search)
search_cycle_prev-search_cycle_next i search at lt fits = elim (Bool-cases (is_idle search)) [
  | inl e ↦ (
    ap search_cycle_prev (next_idle search e) ∙ prev_idle search e,
    ap search_cycle_next (prev_idle search e) ∙ next_idle search e,
  )
  | inr e ↦
      let n = length search.matches in
      let with_current : Option ℕ → SearchState = λ c. record search { current = c } in
      let up = if i + 1 == n then 0 else i + 1 in
      let down = if i == 0 then n - 1 else i - 1 in
      let back : some (if up == 0 then n - 1 else up - 1) ≡ search.current = ground arith in
      let forth : some (if down + 1 == n then 0 else down + 1) ≡ search.current = ground arith in
      (
        ap search_cycle_prev (next_some i search e at lt fits)
            ∙ prev_some up (with_current (some up)) e refl
            ∙ ap with_current back,
        ap search_cycle_next (prev_some i search e at)
            ∙ next_some down (with_current (some down)) e refl (ground arith) fits
            ∙ ap with_current forth,
      )
]
