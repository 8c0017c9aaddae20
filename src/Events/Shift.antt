-- ===== src/Events/Shift.antt =====
-- What the rows of a watch show, which are newest first, when another event matches.
use nifi_lens.Base.{
  ℕ, zero, suc, ◌+◌, ◌-◌, ◌≤◌, ◌<◌, ◌≡◌, refl, sym, ap, ◌∙◌, false, Option, none, some, List, [],
  ◌∷◌, ◌++◌, length, length-append, get_elem?, leb, leb→le, ltb, Bool-cases, inl, inr, usize_mod,
  usize_add, usize_add_small, arith, if_false,
}
use nifi_lens.Events.{
  ProvenanceEventSummary, MatchedEvent, Parts, WatchSession, watching, EventsState, watch_match,
}
use nifi_lens.Predicate.{AttributeTriple}
use nifi_lens.Events.Watch.{remove, trim_idx, push_event, handle_watch_payload}
use nifi_lens.Events.Rows.{summary_of, selected_event}
use nifi_lens.Events.Payload.{apply_payload}

get_last {ℓ} : {A : Type ℓ} (xs : List A) (x : A) → get_elem? (xs ++ x ∷ []) (length xs) ≡ some x
get_last [] x = refl
get_last (y ∷ xs) x = get_last xs x

get_before {ℓ} :
    {A : Type ℓ} (xs : List A) (x : A) (i : ℕ)
    → i < length xs
    → get_elem? (xs ++ x ∷ []) i ≡ get_elem? xs i
get_before [] x i h = absurd (omega arith)
get_before (y ∷ xs) x zero h = refl
get_before (y ∷ xs) x (suc i) h = get_before xs x i (omega arith)

length-remove {ℓ} :
    {A : Type ℓ} (k : ℕ) (xs : List A) → k < length xs → suc (length (remove k xs)) ≡ length xs
unfolding remove
length-remove k [] h = absurd (omega arith)
length-remove zero (x ∷ xs) h = refl
length-remove (suc k) (x ∷ xs) h = ap suc (length-remove k xs (omega arith))

get_behind {ℓ} :
    {A : Type ℓ} (k : ℕ) (xs : List A) (i : ℕ)
    → k ≤ i
    → get_elem? (remove k xs) i ≡ get_elem? xs (suc i)
unfolding remove
get_behind k [] i h = refl
get_behind zero (x ∷ xs) i h = refl
get_behind (suc k) (x ∷ xs) zero h = absurd (omega arith)
get_behind (suc k) (x ∷ xs) (suc i) h = get_behind k xs i (omega arith)

trim_idx_bounds :
    (focused : Option ℕ) (len : ℕ)
    → 1 ≤ len
    → (trim_idx focused len ≤ 1) × (trim_idx focused len < len)
unfolding trim_idx
trim_idx_bounds none len h = omega arith
trim_idx_bounds (some i) len h = ground arith

-- Behind the front one more was pushed: what the end and the row before it are.
record Appended {ℓ} {A : Type ℓ} (front : List A) (x : A) (i : ℕ) (all : List A) : Type ℓ where
  size : length all ≡ length front + 1
  newest : get_elem? all (length all - 1) ≡ some x
  shifted : get_elem? all (length all - (i + 1 + 1)) ≡ get_elem? front (length front - (i + 1))

append-Appended {ℓ} :
    {A : Type ℓ} (front : List A) (x : A) (i : ℕ)
    → i < length front
    → Appended front x i (front ++ x ∷ [])
append-Appended front x i h =
    let size = length-append front (x ∷ []) in
    let newest : length (front ++ x ∷ []) - 1 ≡ length front = omega arith in
    let before : length (front ++ x ∷ []) - (i + 1 + 1) ≡ length front - (i + 1) = omega arith in
    record {
      size = size;
      newest = rw newest (get_last front x);
      shifted = rw before (get_before front x (length front - (i + 1)) (omega arith));
    }

behind_removed {ℓ} :
    {A : Type ℓ} (k : ℕ) (b : List A) (i : ℕ)
    → k ≤ 1
    → k < length b
    → i + 2 < length b
    → get_elem? (remove k b) (length (remove k b) - (i + 1)) ≡ get_elem? b (length b - (i + 1))
behind_removed k b i one l h =
    let size = length-remove k b l in
    let at : suc (length (remove k b) - (i + 1)) ≡ length b - (i + 1) = omega arith in
    get_behind k b (length (remove k b) - (i + 1)) (omega arith) ∙ ap (get_elem? b) at

module _ (E : Parts) where
  -- The event of a row, where the row is selected.
  unfoldable pub row : ℕ → EventsState E → Option ProvenanceEventSummary
  row i s = selected_event E (record s { selected_row = some i })

  row_shown :
      (i : ℕ) (w : WatchSession E) (s : EventsState E)
      → s.mode ≡ watching w
      → i < length w.buffer
      → length w.buffer < usize_mod
      → row i s ≡ summary_of (get_elem? w.buffer (length w.buffer - (i + 1)))
  unfolding row selected_event
  row_shown i w s m h b =
      let next : usize_add i 1 ≡ i + 1 = usize_add_small i 1 (omega arith) in
      let inside : ltb (length w.buffer) (i + 1) ≡ false = ground arith in
      rw m (rw next (if_false _ _ inside))

  push_event-Appended :
      (ev : MatchedEvent) (focused : Option ℕ) (i : ℕ) (w : WatchSession E)
      → length w.buffer ≤ w.buffer_cap
      → i + 2 < w.buffer_cap
      → i < length w.buffer
      → (front : List MatchedEvent) × Appended front ev i (push_event E ev focused w).buffer
        × (i < length front)
        × (length front < w.buffer_cap)
        × (get_elem? front (length front - (i + 1))
            ≡ get_elem? w.buffer (length w.buffer - (i + 1)))
  unfolding push_event
  push_event-Appended ev focused i w h c l =
      let b = w.buffer in
      let k = trim_idx focused (length b) in
      let ok = trim_idx_bounds focused (length b) (omega arith) in
      let size = length-remove k b ok.1 in
      elim (Bool-cases (leb w.buffer_cap (length b))) [
        | inl e ↦
            let full = leb→le w.buffer_cap (length b) e in
            rw e (
              remove k b,
              append-Appended (remove k b) ev i (omega arith),
              omega arith,
              omega arith,
              behind_removed k b i ok.0 ok.1 (omega arith),
            )
        | inr e ↦
            let short : length b < w.buffer_cap = ground arith in
            rw e (b, append-Appended b ev i l, l, short, refl)
      ]

  -- When an event matches, the selection stays on its row, though the rows move: row 0 shows the
  -- new event, whatever row is selected, and each row that had an event and is not among the last
  -- two that the buffer has room for hands it on to the row behind it. The buffer is within its
  -- capacity, which a `usize` holds.
  pub match_shifts_rows :
      (now : ℕ) (summary : ProvenanceEventSummary) (attrs : List AttributeTriple) (i : ℕ)
      (w : WatchSession E) (s : EventsState E)
      → s.mode ≡ watching w
      → length w.buffer ≤ w.buffer_cap
      → w.buffer_cap < usize_mod
      → i + 2 < w.buffer_cap
      → i < length w.buffer
      → let after = apply_payload E now (watch_match summary attrs) s in
        (after.selected_row ≡ s.selected_row)
        × (row 0 after ≡ some summary)
        × (row (i + 1) after ≡ row i s)
  unfolding apply_payload handle_watch_payload
  match_shifts_rows now summary attrs i w s m h big c l =
      let ev : MatchedEvent = record { summary = summary; attrs = attrs } in
      let v = push_event E ev s.selected_row w in
      let after : EventsState E = record s { mode = watching v } in
      let (front, a, inside, room, same) = push_event-Appended ev s.selected_row i w h c l in
      let size = a.size in
      let newest : row 0 after ≡ some summary =
        row_shown 0 v after refl (omega arith) (omega arith) ∙ ap summary_of a.newest in
      let shifted : row (i + 1) after ≡ row i s =
        row_shown (i + 1) v after refl (omega arith) (omega arith)
        ∙ ap summary_of (a.shifted ∙ same)
        ∙ sym (row_shown i w s m l (omega arith)) in
      let same : apply_payload E now (watch_match summary attrs) s ≡ after = rw m refl in
      (ap (λ t. t.selected_row) same, ap (row 0) same ∙ newest, ap (row (i + 1)) same ∙ shifted)
