-- ===== src/History/Window.antt =====
-- The history against one without a limit: a stack is the window of the newest entries.
use nifi_lens.Base.{
  ◌≤◌, ◌≡◌, refl, ap, ◌∙◌, List, [], ◌∷◌, ◌++◌, length, drop, length-append, append_assoc, arith,
}
use nifi_lens.Base.Window.{keep_last, keep_last-append, length-keep_last}
use nifi_lens.History.{HistoryEntry, TabHistory, tail, max_history, push_capped, push}

unfoldable pub push_all : List HistoryEntry → TabHistory → TabHistory
push_all [] h = h
push_all (e ∷ es) h = push_all es (push e h)

tail-drop {ℓ} : {A : Type ℓ} (xs : List A) → tail xs ≡ drop 1 xs
tail-drop [] = refl
tail-drop (x ∷ xs) = refl

push_capped-keep_last :
    (e : HistoryEntry) (v : List HistoryEntry)
    → length v ≤ max_history
    → push_capped e v ≡ keep_last max_history (v ++ e ∷ [])
unfolding push_capped
push_capped-keep_last e v h = ground (arith, length-append v (e ∷ []), tail-drop (v ++ e ∷ []))

push-keep_last :
    (e : HistoryEntry) (h : TabHistory)
    → length h.back ≤ max_history
    → push e h ≡ record { back = keep_last max_history (h.back ++ e ∷ []); forward = [] }
unfolding push
push-keep_last e h b = rw (push_capped-keep_last e h.back b)

-- Pushed one after the other on a history within the limit, entries leave on the back stack the
-- last `max_history` of all entries ever put there, in order; a push empties the forward stack.
pub push_all-keep_last :
    (e : HistoryEntry) (es : List HistoryEntry) (h : TabHistory)
    → length h.back ≤ max_history
    → push_all (e ∷ es) h ≡ record { back = keep_last max_history (h.back ++ e ∷ es); forward = [] }
unfolding push_all
push_all-keep_last e [] h b = rw (push-keep_last e h b)
push_all-keep_last e (f ∷ es) h b = rw (push-keep_last e h b) (
    push_all-keep_last f es _ (length-keep_last max_history (h.back ++ e ∷ []))
    ∙ ap (λ back. record { back = back; forward = [] })
        (keep_last-append max_history (h.back ++ e ∷ []) (f ∷ es)
          ∙ ap (keep_last max_history) (append_assoc h.back (e ∷ []) (f ∷ es))))
