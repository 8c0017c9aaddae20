-- ===== src/Tracer.antt =====
-- src/view/tracer/modal_state/mod.rs, src/client/tracer/content.rs: the bytes of a provenance event's
-- content as they come in for the content modal. Of `ContentModalState` it has the two sides, the
-- vertical scroll and of the cached diff whether there is one; of a side and of a decoded table not
-- what the work off the UI thread keeps (`in_flight_decode`, `in_flight_pretty`, `decoded_bytes`,
-- `truncated`), and of the ceilings not the diff's. An event's id is a number that is only compared.
pub mod Stream
pub mod Streamed
use nifi_lens.Base.{
  ℕ, zero, suc, ◌+◌, ◌-◌, ◌*◌, ◌/◌, ◌%◌, ◌^◌, min, max, Bool, true, false, Option, none, some, List,
  [], ◌∷◌, ◌++◌, length, take, is_some, ltb, leb, ◌==◌, ◌&&◌, ◌||◌, not, if◌then◌else◌,
  saturating_add,
}
use nifi_lens.Base.Text.{Text, codes, text_eq}
use nifi_lens.Scroll.{VerticalScrollState}

pub data TabularFormat : Type 0 where
  parquet avro : TabularFormat

pub data ContentRender : Type 0 where
  -- The text, and whether it is pretty-printed.
  text : Text → Bool → ContentRender
  -- `schema_summary` and `body`.
  tabular : TabularFormat → Text → Text → ContentRender
  hex : Text → ContentRender
  nothing : ContentRender

pub data ContentSide : Type 0 where
  input output : ContentSide

pub data ContentModalTab : Type 0 where
  input output diff : ContentModalTab

pub record TracerCeilingConfig : Type 0 where
  pub text : Option ℕ
  pub tabular : Option ℕ

pub record SideBuffer : Type 0 where
  pub loaded : List ℕ
  pub decoded : ContentRender
  pub fully_loaded : Bool
  pub ceiling_hit : Bool
  pub in_flight : Bool
  pub last_error : Option Text
  pub effective_ceiling : Option (Option ℕ)

-- `SideBuffer::default()`.
abbrev pub empty_side : SideBuffer
empty_side = record {
  loaded = [];
  decoded = ContentRender.nothing;
  fully_loaded = false;
  ceiling_hit = false;
  in_flight = false;
  last_error = none;
  effective_ceiling = none;
}

pub record ContentModalState : Type 0 where
  pub event_id : ℕ
  pub active_tab : ContentModalTab
  pub input : SideBuffer
  pub output : SideBuffer
  pub diff_cache : Bool
  pub diff_generation : ℕ
  pub vertical : VerticalScrollState

pub record ModalFetchRequest : Type 0 where
  pub event_id : ℕ
  pub side : ContentSide
  pub offset : ℕ
  pub len : ℕ

unfoldable pub side_of : ContentSide → ContentModalState → SideBuffer
side_of ContentSide.input m = m.input
side_of ContentSide.output m = m.output

unfoldable pub with_side : ContentSide → SideBuffer → ContentModalState → ContentModalState
with_side ContentSide.input b m = record m { input = b }
with_side ContentSide.output b m = record m { output = b }

abbrev pub avro_magic : List ℕ
avro_magic = codes "Obj" ++ 1 ∷ []

unfoldable pub detect_tabular_format : List ℕ → Option TabularFormat
detect_tabular_format bytes =
    if ltb (length bytes) 4
    then none
    else if text_eq (take 4 bytes) (codes "PAR1")
    then some TabularFormat.parquet
    else if text_eq (take 4 bytes) avro_magic
    then some TabularFormat.avro
    else none

unfoldable pub hex_digit : ℕ → ℕ
hex_digit n = if ltb n 10 then 48 + n else 87 + n

unfoldable pub hex_dump : ℕ → List ℕ → Text
hex_dump i [] = []
hex_dump i (byte ∷ bytes) =
    let gap = if ltb 0 i && i % 16 == 0 then b'\n' ∷ [] else if ltb 0 i then b' ' ∷ [] else [] in
    gap ++ hex_digit (byte / 16) ∷ hex_digit (byte % 16) ∷ hex_dump (suc i) bytes

unfoldable pub hex_preview_bytes : ℕ
hex_preview_bytes = 4096

-- 8 MiB.
unfoldable pub modal_chunk_bytes : ℕ
modal_chunk_bytes = 8 * (1024 * 1024)

unfoldable pub stream_lookahead_lines : ℕ
stream_lookahead_lines = 100

-- `lines().count()`: a line is what a line feed ends, or a non-empty rest.
unfoldable pub line_count : Text → ℕ
line_count [] = 0
line_count (c ∷ []) = 1
line_count (c ∷ d ∷ rest) =
    let later = line_count (d ∷ rest) in if c == b'\n' then suc later else later

unfoldable pub decoded_line_count : ContentRender → ℕ
decoded_line_count (ContentRender.text t pretty) = max (line_count t) 1
decoded_line_count (ContentRender.hex t) = max (line_count t) 1
decoded_line_count ContentRender.nothing = 1
decoded_line_count (ContentRender.tabular f schema body) = line_count schema + 1 + line_count body

unfoldable pub provisional_ceiling : TracerCeilingConfig → Option ℕ
provisional_ceiling cfg = elim cfg.text [
  | none ↦ none
  | some a ↦ elim cfg.tabular [ none ↦ none | some b ↦ some (max a b) ]
]

-- The cap of a side, which both the loading and the scrolling read.
unfoldable pub cap_of : TracerCeilingConfig → SideBuffer → Option ℕ
cap_of cfg b = elim b.effective_ceiling [
  | none ↦ provisional_ceiling cfg
  | some resolved ↦ resolved
]

unfoldable pub should_fire_next_chunk : SideBuffer → TracerCeilingConfig → Bool
should_fire_next_chunk b cfg = elim (cap_of cfg b) [
  | none ↦ true
  | some c ↦ ltb (length b.loaded) c
]

unfoldable pub apply_first_chunk_and_resolve_ceiling :
    TracerCeilingConfig → List ℕ → SideBuffer → SideBuffer
apply_first_chunk_and_resolve_ceiling cfg chunk b =
    let resolved = if is_some (detect_tabular_format chunk) then cfg.tabular else cfg.text in
    elim b.effective_ceiling [
      | none ↦ record b { effective_ceiling = some resolved }
      | some ceiling ↦ b
    ]

unfoldable pub extend : List ℕ → SideBuffer → SideBuffer
extend bytes b = record b { loaded = b.loaded ++ bytes; in_flight = false; last_error = none }

unfoldable pub truncate : ℕ → SideBuffer → SideBuffer
truncate c b =
    if ltb c (length b.loaded)
    then record b { loaded = take c b.loaded; ceiling_hit = true; fully_loaded = true }
    else if length b.loaded == c
    then record b { ceiling_hit = true; fully_loaded = true }
    else b

unfoldable pub enforce : TracerCeilingConfig → SideBuffer → SideBuffer
enforce cfg b = elim (cap_of cfg b) [ none ↦ b | some c ↦ truncate c b ]

unfoldable pub finish : Bool → SideBuffer → SideBuffer
finish eof b = if eof && not b.fully_loaded then record b { fully_loaded = true } else b

unfoldable pub invalidate_diff_cache : ContentModalState → ContentModalState
invalidate_diff_cache m = record m {
  diff_cache = false;
  diff_generation = (m.diff_generation + 1) % 2 ^ 64;
}

module _ (from_utf8 : List ℕ → Option Text) where
  unfoldable pub classify_text_or_hex_no_pretty : List ℕ → ContentRender
  classify_text_or_hex_no_pretty [] = ContentRender.nothing
  classify_text_or_hex_no_pretty (byte ∷ bytes) = elim (from_utf8 (byte ∷ bytes)) [
    | none ↦ ContentRender.hex (hex_dump 0 (take hex_preview_bytes (byte ∷ bytes)))
    | some t ↦ ContentRender.text t false
  ]

  unfoldable pub decode : SideBuffer → SideBuffer
  decode b =
      if is_some (detect_tabular_format b.loaded)
      then b
      else record b { decoded = classify_text_or_hex_no_pretty b.loaded }

  unfoldable pub receive : TracerCeilingConfig → List ℕ → Bool → SideBuffer → SideBuffer
  receive cfg bytes eof b =
      finish eof
        (decode (enforce cfg (apply_first_chunk_and_resolve_ceiling cfg bytes (extend bytes b))))

  unfoldable pub apply_modal_chunk_with_ceiling :
      ℕ
      → ContentSide
      → ℕ
      → List ℕ
      → Bool
      → ℕ
      → TracerCeilingConfig
      → Option ContentModalState
      → Option ContentModalState
  apply_modal_chunk_with_ceiling event_id side offset bytes eof requested_len cfg none = none
  apply_modal_chunk_with_ceiling event_id side offset bytes eof requested_len cfg (some m) =
      if not (m.event_id == event_id) || not (offset == length (side_of side m).loaded)
      then some m
      else some (invalidate_diff_cache (with_side side (receive cfg bytes eof (side_of side m)) m))

unfoldable pub apply_modal_chunk_failed :
    ℕ → ContentSide → Text → Option ContentModalState → Option ContentModalState
apply_modal_chunk_failed event_id side error none = none
apply_modal_chunk_failed event_id side error (some m) =
    if not (m.event_id == event_id)
    then some m
    else some
        (with_side side (record (side_of side m) { in_flight = false; last_error = some error }) m)

-- What a scroll on a side asks for, and the modal after it.
unfoldable pub fetch_more :
    TracerCeilingConfig
    → ContentSide
    → ContentModalState
    → ContentModalState × List ModalFetchRequest
fetch_more cfg side m =
    let b = side_of side m in
    let bottom = saturating_add m.vertical.offset m.vertical.last_viewport_rows in
    let remaining : ℕ = elim (cap_of cfg b) [
      | none ↦ modal_chunk_bytes
      | some c ↦ c - length b.loaded
    ] in
    let request : ModalFetchRequest = record {
      event_id = m.event_id;
      side = side;
      offset = length b.loaded;
      len = min modal_chunk_bytes remaining;
    } in
    if b.fully_loaded || b.in_flight
    then (m, [])
    else if ltb stream_lookahead_lines (decoded_line_count b.decoded - bottom)
    then (m, [])
    else if remaining == 0
    then (m, [])
    else (with_side side (record b { in_flight = true }) m, request ∷ [])

-- The diff never asks for more.
unfoldable pub auto_stream :
    TracerCeilingConfig
    → ContentModalTab
    → ContentModalState
    → ContentModalState × List ModalFetchRequest
auto_stream cfg ContentModalTab.input m = fetch_more cfg ContentSide.input m
auto_stream cfg ContentModalTab.output m = fetch_more cfg ContentSide.output m
auto_stream cfg ContentModalTab.diff m = (m, [])

unfoldable pub content_modal_scroll_to :
    ℕ
    → TracerCeilingConfig
    → Option ContentModalState
    → Option ContentModalState × List ModalFetchRequest
content_modal_scroll_to new_offset cfg none = (none, [])
content_modal_scroll_to new_offset cfg (some m) =
    let at : ContentModalState = record m {
      vertical = record m.vertical { offset = new_offset };
    } in
    let more = auto_stream cfg m.active_tab at in (some more.0, more.1)

-- What comes to the open modal: a chunk, an error, or a scroll.
pub data StreamEvent : Type 0 where
  chunk : ℕ → ContentSide → ℕ → List ℕ → Bool → ℕ → StreamEvent
  failed : ℕ → ContentSide → Text → StreamEvent
  scroll : ℕ → StreamEvent

unfoldable pub apply_event :
    (List ℕ → Option Text)
    → TracerCeilingConfig
    → StreamEvent
    → Option ContentModalState
    → Option ContentModalState
apply_event from_utf8 cfg (StreamEvent.chunk event_id side offset bytes eof requested_len) o =
    apply_modal_chunk_with_ceiling from_utf8 event_id side offset bytes eof requested_len cfg o
apply_event from_utf8 cfg (StreamEvent.failed event_id side error) o =
    apply_modal_chunk_failed event_id side error o
apply_event from_utf8 cfg (StreamEvent.scroll new_offset) o =
    (content_modal_scroll_to new_offset cfg o).0

unfoldable pub apply_events :
    (List ℕ → Option Text)
    → TracerCeilingConfig
    → List StreamEvent
    → Option ContentModalState
    → Option ContentModalState
apply_events from_utf8 cfg [] o = o
apply_events from_utf8 cfg (e ∷ events) o =
    apply_events from_utf8 cfg events (apply_event from_utf8 cfg e o)
