-- ===== src/Tests/Stream.antt =====
-- The streaming of a content at concrete inputs.
use nifi_lens.Base.{ℕ, refl, true, false, Option, none, some, List, [], ◌∷◌, All, arith}
use nifi_lens.Base.Text.{Text, codes}
use nifi_lens.Tracer.{
  ContentSide, ContentModalTab, TracerCeilingConfig, ContentModalState, StreamEvent, empty_side,
  apply_events,
}
use nifi_lens.Tracer.Stream.{IsReply, IsStreamed}
use nifi_lens.Tracer.Streamed.{IsServed, Shows, apply_events-Shows}

-- A decoder that takes each byte for a character.
abbrev ascii : List ℕ → Option Text
ascii bytes = some bytes

abbrev small_ceiling : TracerCeilingConfig
small_ceiling = record { text = some 4; tabular = none }

abbrev letters : ContentSide → List ℕ
letters ContentSide.input = codes "hello"
letters ContentSide.output = codes "ok"

abbrev fresh : ContentModalState
fresh = record {
  event_id = 7;
  active_tab = ContentModalTab.input;
  input = empty_side;
  output = empty_side;
  diff_cache = false;
  diff_generation = 0;
  vertical = record { offset = 0; last_viewport_rows = 10 };
}

-- A chunk twice, an error, a scroll, the rest, a chunk of another event, and the other side.
abbrev arrivals : List StreamEvent
arrivals =
    StreamEvent.chunk 7 ContentSide.input 0 (codes "hel") false 3
    ∷ StreamEvent.chunk 7 ContentSide.input 0 (codes "hel") false 3
    ∷ StreamEvent.failed 7 ContentSide.input (codes "timeout")
    ∷ StreamEvent.scroll 1
    ∷ StreamEvent.chunk 7 ContentSide.input 3 (codes "lo") true 3
    ∷ StreamEvent.chunk 8 ContentSide.input 4 (codes "xx") true 3
    ∷ StreamEvent.chunk 7 ContentSide.output 0 (codes "ok") true 3
    ∷ []

early : IsReply (letters ContentSide.input) 0 3 (codes "hel") false
early = record { slice = refl; last = λ h. absurd (ground arith) }

served : All (IsServed letters 7) arrivals
served = (
  λ e. early,
  (
    λ e. early,
    (
      tt,
      (
        tt,
        (
          λ e. record { slice = refl; last = λ h. omega arith },
          (λ e. absurd (omega arith), (λ e. record { slice = refl; last = λ h. omega arith }, tt)),
        ),
      ),
    ),
  ),
)

nothing_yet : (content : List ℕ) → IsStreamed content empty_side
nothing_yet content = record {
  part = record { rest = content; split = refl; done = λ e h. absurd (ground arith) };
  capped = λ c e. omega arith;
}

apply_events-Shows_example :
    Shows letters 7 (apply_events ascii small_ceiling arrivals (some fresh))
apply_events-Shows_example =
    apply_events-Shows ascii small_ceiling letters arrivals 7 (some fresh) served
      (fresh, refl, refl, record { first = nothing_yet _; second = nothing_yet _ })
