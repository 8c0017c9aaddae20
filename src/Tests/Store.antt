-- ===== src/Tests/Store.antt =====
-- The cluster store at concrete inputs.
use nifi_lens.Base.{
  ℕ, ◌*◌, ◌≤◌, ◌≡◌, max, not, ◌&&◌, none, some, List, [], ◌∷◌, ◌++◌, pos, ◌==◌, arith,
}
use nifi_lens.Base.Text.{Text, codes}
use nifi_lens.Base.Window.{keep_last}
use nifi_lens.Views.{ViewId}
use nifi_lens.Bulletins.{BulletinSnapshot}
use nifi_lens.Cluster.{
  ClusterEndpoint, FetchMeta, Fetched, ok, err, EndpointState, loading, latest, kept, BulletinRing,
  Payloads, with_bulletins_capacity,
}
use nifi_lens.Cluster.Store.{ClusterUpdate, ClusterStore, AccessAuditState}
use nifi_lens.Cluster.Subscriber
use nifi_lens.Cluster.Latest.{apply_all, last_success, value_of, latest-apply_all}
use nifi_lens.Cluster.Counted.{Call, run, views_in, run_counts}
use nifi_lens.Cluster.Updates.{apply_updates, arrivals, apply_updates-keep_last}
use nifi_lens.Cluster.Cadence.{adaptive_interval, adaptive_interval_bounds}

abbrev bulletin : ℕ → BulletinSnapshot
bulletin id = record {
  id = pos id;
  level = codes "INFO";
  message = [];
  source_id = [];
  source_name = [];
  source_type = [];
  group_id = [];
  timestamp_iso = [];
  timestamp_human = [];
}

abbrev fetched : ℕ → FetchMeta
fetched at = record { fetched_at = at; fetch_duration = 1; next_interval = 5 }

-- Lists of texts for all values.
abbrev texts : Payloads
texts = record {
  About = List Text;
  ControllerStatus = List Text;
  RootPgStatus = List Text;
  ControllerServices = List Text;
  SystemDiag = List Text;
  Connections = List Text;
  ClusterNodes = List Text;
  TlsCerts = List Text;
  VersionControl = List Text;
  ParameterContextBindings = List Text;
  ReportingTasks = List Text;
  pg_ids = λ ids. ids;
  row_addresses = λ addresses. addresses;
  node_addresses = λ addresses. addresses;
}

abbrev fetches : List (Fetched ℕ × FetchMeta)
fetches = (ok 3, fetched 1) ∷ (err (codes "timeout"), fetched 2) ∷ []

latest-apply_all_example :
    (latest (apply_all fetches loading) ≡ value_of (last_success (kept loading) fetches))
    × (kept (apply_all fetches loading) ≡ last_success (kept loading) fetches)
latest-apply_all_example = latest-apply_all fetches loading

abbrev batch : List BulletinSnapshot
batch = bulletin 4 ∷ bulletin 6 ∷ bulletin 5 ∷ []

abbrev ring : BulletinRing
ring = record {
  buf = bulletin 1 ∷ bulletin 2 ∷ [];
  capacity = 4;
  last_id = some (pos 2);
  meta = none;
  last_error = none;
}

abbrev calls : List Call
calls =
    Call.join ClusterEndpoint.tls_certs ViewId.overview
    ∷ Call.join ClusterEndpoint.tls_certs ViewId.browser
    ∷ Call.leave ClusterEndpoint.tls_certs ViewId.overview
    ∷ []

run_counts_example :
    let e = ClusterEndpoint.tls_certs in
    let r = run calls Subscriber.new in
    (Subscriber.count e r ≡ views_in (Subscriber.subscribed e r))
    × ((Subscriber.subscribe e ViewId.events r).0 ≡ not (Subscriber.subscribed e r ViewId.events))
    × ((Subscriber.unsubscribe e ViewId.events r).0
        ≡ (Subscriber.subscribed e r ViewId.events && views_in (Subscriber.subscribed e r) == 1))
run_counts_example = run_counts calls ClusterEndpoint.tls_certs ViewId.events

abbrev store : ClusterStore texts
store = record {
  snapshot = with_bulletins_capacity 2;
  subscribers = Subscriber.new;
  notified = [];
  handles = [];
  sent_pg_ids = [];
  sent_node_addresses = [];
  access_audit = AccessAuditState.supported;
}

abbrev updates : List (ClusterUpdate texts)
updates =
    ClusterUpdate.bulletins_delta (ok batch) (fetched 1)
    ∷ ClusterUpdate.about (err (codes "timeout")) (fetched 2)
    ∷ ClusterUpdate.bulletins_delta (err (codes "timeout")) (fetched 3)
    ∷ []

apply_updates-keep_last_example :
    (apply_updates updates store).snapshot.bulletins.buf ≡ keep_last 2 ([] ++ arrivals updates)
unfolding with_bulletins_capacity
apply_updates-keep_last_example = apply_updates-keep_last updates store (omega arith)

abbrev connections : ClusterUpdate texts
connections = ClusterUpdate.connections (codes "root") (err (codes "timeout")) (fetched 2)

abbrev standalone : ClusterStore texts
standalone = record store {
  snapshot = record (store.snapshot) {
    system_diagnostics = EndpointState.ready (codes "localhost:8443" ∷ []) (fetched 1);
  };
}

adaptive_interval_bounds_example :
    (10 ≤ adaptive_interval 10 12 60)
    × (adaptive_interval 10 12 60 ≤ max 10 60)
    × (10 ≤ 12 * 2 → 12 * 2 ≤ 60 → adaptive_interval 10 12 60 ≡ 12 * 2)
    × (adaptive_interval 10 12 60 ≤ adaptive_interval 10 40 60)
adaptive_interval_bounds_example = adaptive_interval_bounds 10 12 40 60 (omega arith) (omega arith)
