-- ===== src/History/RoundTrip.antt =====
-- Going back and then forward again.
use nifi_lens.Base.{
  ◌≤◌, ◌<◌, ◌≡◌, refl, ap, ◌⊎◌, inl, inr, List, [], ◌∷◌, ◌++◌, some, length, length-append, arith,
}
use nifi_lens.History.{
  HistoryEntry, TabHistory, max_history, push_capped, pop_last, pop_back, pop_forward,
}

pub pop_last-append {ℓ} :
    {A : Type ℓ} (xs : List A) (x : A) → pop_last (xs ++ x ∷ []) ≡ some (x, xs)
unfolding pop_last
pop_last-append [] x = refl
pop_last-append (y ∷ xs) x = rw (pop_last-append xs x)

-- A list is empty or ends in an element.
pub snoc-cases {ℓ} :
    {A : Type ℓ} (v : List A) → (v ≡ []) ⊎ ((x : A) × (rest : List A) × (v ≡ rest ++ x ∷ []))
snoc-cases [] = inl refl
snoc-cases (x ∷ xs) = elim (snoc-cases xs) [
  | inl e ↦ inr (x, [], rw e)
  | inr (y, rest, e) ↦ inr (y, x ∷ rest, rw e)
]

push_capped_room :
    (e : HistoryEntry) (v : List HistoryEntry)
    → length v < max_history
    → push_capped e v ≡ v ++ e ∷ []
unfolding push_capped
push_capped_room e v h = ground (arith, length-append v (e ∷ []))

-- After going back, going forward returns to the entry that was left, and to the same history, if
-- the two stacks were within the limit and the forward stack had room for one more entry.
pub pop_forward-pop_back :
    (current entry : HistoryEntry) (h h' : TabHistory)
    → length h.back ≤ max_history
    → length h.forward < max_history
    → pop_back current h ≡ (some entry, h')
    → pop_forward entry h' ≡ (some current, h)
unfolding pop_back pop_forward
pop_forward-pop_back current entry h h' hb hf e = elim (snoc-cases h.back) [
  | inl none_left ↦ absurd (ground arith)
  | inr (x, rest, ends) ↦ ground (
    arith,
    pop_last-append rest x,
    pop_last-append h.forward current,
    push_capped_room current h.forward hf,
    push_capped_room x rest (omega (arith, ap length ends, length-append rest (x ∷ []))),
  )
]
