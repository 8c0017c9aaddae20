-- ===== src/Lib.antt =====
-- The core logic of nifi-lens, a terminal user interface for Apache NiFi, as functions on its state.
--
-- The program keeps one state, which the UI task alone changes: the cluster store takes the results
-- of the fetch tasks, and each tab derives its rows from it and keeps its own filters, selection
-- and dialogs. The modules follow the source files:
--   Views       src/app/state/mod.rs: the tabs (`ViewId`)
--   Navigation  src/app/navigation.rs: the trait `ListNavigation`, `CursorRef`, the scroll window
--   Scroll      src/widget/scroll.rs: the vertical, the bidirectional and the cursored scroll state
--   History     src/app/history.rs: the cross-link history
--   Search      src/widget/search.rs: the search in a body of text
--   Bulletins   src/view/bulletins/state/mod.rs: the Bulletins tab, with the types of
--               src/client/mod.rs that it shows
--   Cluster     src/cluster/mod.rs, snapshot.rs, subscriber.rs, store.rs, fetcher.rs: the store of the
--               cluster state, which the fetch tasks feed and the tabs read
--   Predicate   src/client/predicate.rs: the attribute predicates of the Events watch
--   Events      src/view/events/state.rs and mod.rs: the Events tab, its query and its watch; in
--               Events/Keys* and Events/Verbs src/app/state/events.rs: what its keys do
--   Browser     src/view/browser/state/mod.rs: the flow's arena, the rows of its tree and the
--               snapshots
--   Tracer      src/view/tracer/modal_state/mod.rs, src/client/tracer/content.rs: the streaming of
--               a content into the content modal
--   Base        what the modules share: Boolean tests, lists, text, machine words
--   Tests       the theorems at concrete inputs
-- A method of a struct is a function of the same name that takes the state and returns it; where
-- two structs of a file have methods of one name, the name has the struct's word in front
-- (`cursor_up`). The tab uses the trait through `bulletins_nav`, and the scroll state and the
-- search by their own functions.
--
-- A `usize` is a number below 2 ^ 64 with the wrap-around of `+` written out; `saturating_sub`
-- is the subtraction of the natural numbers. A text is the list of its characters; offsets
-- that the source takes in bytes are computed from the UTF-8 length of the characters. These
-- loops run on fuel: the search in a line gets one more than the characters of the line, and
-- every match takes one at least; the parser of predicates gets one more than the bytes of the
-- input, and every clause takes one at least. The walks along the Browser's tree get the
-- number of the nodes (the walk down one more), and a forest is no deeper than that. The
-- constructors of `time::Duration` panic on overflow: `AppState` then says so, and a run of
-- the Events tab ends there.
--
-- Not modelled: drawing, key maps, HTTP calls, the asynchronous tasks, configuration, the
-- dialogs of the Browser tab, the Overview tab, and of the Tracer tab the lineage, the diff,
-- the decoding off the UI thread and the opening of the content modal. `str::to_lowercase`,
-- which follows the Unicode tables, the crate `regex`, `from_utf8`, the crate `time` and the
-- clipboard are parameters; the values that the client fetches for an endpoint are types that
-- `Payloads` names.
pub mod Base
pub mod Views
pub mod Navigation
pub mod Scroll
pub mod History
pub mod Search
pub mod Bulletins
pub mod Cluster
pub mod Browser
pub mod Events
pub mod Tracer
pub mod Predicate
pub mod Tests
