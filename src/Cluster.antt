-- ===== src/Cluster.antt =====
-- src/cluster/mod.rs, src/cluster/snapshot.rs: the endpoints and the snapshot that the cluster
-- store keeps of them. `Duration` and `Instant` are numbers, an error is its text, `HashMap` an
-- association list.
pub mod Subscriber
pub mod Store
pub mod Ring
pub mod Latest
pub mod Counted
pub mod Updates
pub mod Ready
pub mod Publish
pub mod Cadence
use nifi_lens.Base.{
  ℕ, ◌+◌, max, Bool, true, false, not, Option, none, some, List, [], ◌∷◌, ◌++◌, length, is_empty,
  is_some, ltb, ◌==◌, if◌then◌else◌, ℤ, ltb_ℤ,
}
use nifi_lens.Base.Text.{Text}
use nifi_lens.Bulletins.{BulletinSnapshot}

pub data ClusterEndpoint : Type 0 where
  about controller_status root_pg_status controller_services system_diagnostics : ClusterEndpoint
  connections_by_pg bulletins cluster_nodes tls_certs version_control : ClusterEndpoint
  parameter_context_bindings reporting_tasks : ClusterEndpoint

-- `ClusterEndpoint::COUNT`.
abbrev pub endpoint_count : ℕ
endpoint_count = 12

-- The discriminant, the index into the arrays.
abbrev pub endpoint_index : ClusterEndpoint → ℕ
endpoint_index ClusterEndpoint.about = 0
endpoint_index ClusterEndpoint.controller_status = 1
endpoint_index ClusterEndpoint.root_pg_status = 2
endpoint_index ClusterEndpoint.controller_services = 3
endpoint_index ClusterEndpoint.system_diagnostics = 4
endpoint_index ClusterEndpoint.connections_by_pg = 5
endpoint_index ClusterEndpoint.bulletins = 6
endpoint_index ClusterEndpoint.cluster_nodes = 7
endpoint_index ClusterEndpoint.tls_certs = 8
endpoint_index ClusterEndpoint.version_control = 9
endpoint_index ClusterEndpoint.parameter_context_bindings = 10
endpoint_index ClusterEndpoint.reporting_tasks = 11

abbrev pub endpoint_eq : ClusterEndpoint → ClusterEndpoint → Bool
endpoint_eq a b = endpoint_index a == endpoint_index b

pub record FetchMeta : Type 0 where
  pub fetched_at : ℕ
  pub fetch_duration : ℕ
  pub next_interval : ℕ

-- `Result<T, NifiLensError>`, the error as its `to_string`.
pub data Fetched {ℓ} (T : Type ℓ) : Type ℓ where
  ok : T → Fetched T
  err : Text → Fetched T

pub data EndpointState {ℓ} (T : Type ℓ) : Type ℓ where
  loading : EndpointState T
  ready : T → FetchMeta → EndpointState T
  failed : Text → FetchMeta → Option (T × FetchMeta) → EndpointState T

unfoldable pub latest {ℓ} : {T : Type ℓ} → EndpointState T → Option T
latest loading = none
latest (ready value meta) = some value
latest (failed error meta (some (value, m))) = some value
latest (failed error meta none) = none

-- What an endpoint keeps for a failure: its last value with the metadata of that fetch.
unfoldable pub kept {ℓ} : {T : Type ℓ} → EndpointState T → Option (T × FetchMeta)
kept loading = none
kept (ready value meta) = some (value, meta)
kept (failed error meta last_ok) = last_ok

unfoldable pub apply {ℓ} : {T : Type ℓ} → Fetched T → FetchMeta → EndpointState T → EndpointState T
unfolding kept
apply (ok value) meta s = ready value meta
apply (err error) meta s = failed error meta (kept s)

pub record BulletinRing : Type 0 where
  pub buf : List BulletinSnapshot
  pub capacity : ℕ
  pub last_id : Option ℤ
  pub meta : Option FetchMeta
  pub last_error : Option Text

unfoldable pub new_ring : ℕ → BulletinRing
new_ring capacity = record {
  buf = [];
  capacity = capacity;
  last_id = none;
  meta = none;
  last_error = none;
}

-- `Some(id) > last_id`, where `None` is below every `Some`.
abbrev pub is_newer : ℤ → Option ℤ → Bool
is_newer id none = true
is_newer id (some last) = ltb_ℤ last id

-- `while buf.len() > capacity { buf.pop_front(); }`
unfoldable pub trim_front : ℕ → List BulletinSnapshot → List BulletinSnapshot
trim_front capacity [] = []
trim_front capacity (b ∷ buf) =
    let rest = trim_front capacity buf in if ltb capacity (length (b ∷ buf)) then rest else b ∷ buf

unfoldable pub merge_one : BulletinSnapshot → BulletinRing → BulletinRing
unfolding trim_front
merge_one b r = record r {
  last_id = if is_newer b.id r.last_id then some b.id else r.last_id;
  buf = trim_front r.capacity (r.buf ++ b ∷ []);
}

unfoldable pub merge : List BulletinSnapshot → BulletinRing → BulletinRing
merge [] r = r
merge (b ∷ batch) r = merge batch (merge_one b r)

-- The values of the endpoints, which the client makes. The store reads of them no more than the
-- ids of the process groups and the addresses of the nodes.
pub record Payloads : Type 1 where
  pub About : Type 0
  pub ControllerStatus : Type 0
  pub RootPgStatus : Type 0
  pub ControllerServices : Type 0
  pub SystemDiag : Type 0
  pub Connections : Type 0
  pub ClusterNodes : Type 0
  pub TlsCerts : Type 0
  pub VersionControl : Type 0
  pub ParameterContextBindings : Type 0
  pub ReportingTasks : Type 0
  -- `RootPgStatusSnapshot::pg_ids`, and the `address` of the `rows` and of the `nodes`.
  pub pg_ids : RootPgStatus → List Text
  pub row_addresses : ClusterNodes → List Text
  pub node_addresses : SystemDiag → List Text

pub record ClusterSnapshot (P : Payloads) : Type 0 where
  pub about : EndpointState P.About
  pub controller_status : EndpointState P.ControllerStatus
  pub root_pg_status : EndpointState P.RootPgStatus
  pub controller_services : EndpointState P.ControllerServices
  pub cluster_nodes : EndpointState P.ClusterNodes
  pub tls_certs : EndpointState P.TlsCerts
  pub system_diagnostics : EndpointState P.SystemDiag
  pub connections_by_pg : List (Text × EndpointState P.Connections)
  pub bulletins : BulletinRing
  pub version_control : EndpointState P.VersionControl
  pub parameter_context_bindings : EndpointState P.ParameterContextBindings
  pub reporting_tasks : EndpointState P.ReportingTasks

abbrev pub is_loading {ℓ} : {T : Type ℓ} → EndpointState T → Bool
is_loading loading = true
is_loading _ = false

abbrev pub bit : Bool → ℕ
bit true = 1
bit false = 0

-- `iter().filter(|r| **r).count()`.
abbrev pub count_true : List Bool → ℕ
count_true [] = 0
count_true (flag ∷ flags) = bit flag + count_true flags

unfoldable pub meta_of {ℓ} : {T : Type ℓ} → EndpointState T → Option FetchMeta
meta_of loading = none
meta_of (ready value meta) = some meta
meta_of (failed error meta last_ok) = some meta

-- `map(|m| m.next_interval)`.
abbrev pub interval : Option FetchMeta → Option ℕ
interval none = none
interval (some meta) = some meta.next_interval

abbrev pub or_max : Option ℕ → Option ℕ → Option ℕ
or_max none o = o
or_max (some n) none = some n
or_max (some n) (some m) = some (max n m)

-- `filter_map(meta_of).map(|m| m.next_interval).max()` over the entries of the map.
unfoldable pub max_interval {ℓ} : {T : Type ℓ} → List (Text × EndpointState T) → Option ℕ
max_interval [] = none
max_interval ((id, s) ∷ entries) = or_max (interval (meta_of s)) (max_interval entries)

module _ {P : Payloads} where
  unfoldable pub with_bulletins_capacity : ℕ → ClusterSnapshot P
  unfolding new_ring
  with_bulletins_capacity capacity = record {
    about = loading;
    controller_status = loading;
    root_pg_status = loading;
    controller_services = loading;
    cluster_nodes = loading;
    tls_certs = loading;
    system_diagnostics = loading;
    connections_by_pg = [];
    bulletins = new_ring capacity;
    version_control = loading;
    parameter_context_bindings = loading;
    reporting_tasks = loading;
  }

  unfoldable pub ready_count : ClusterSnapshot P → ℕ × ℕ
  ready_count s =
      let simple =
        not (is_loading s.about)
        ∷ not (is_loading s.controller_status)
        ∷ not (is_loading s.root_pg_status)
        ∷ not (is_loading s.controller_services)
        ∷ not (is_loading s.cluster_nodes)
        ∷ not (is_loading s.tls_certs)
        ∷ not (is_loading s.system_diagnostics)
        ∷ not (is_loading s.version_control)
        ∷ not (is_loading s.parameter_context_bindings)
        ∷ not (is_loading s.reporting_tasks)
        ∷ [] in
      let ready = count_true simple in
      let with_bulletins = if is_some s.bulletins.meta then ready + 1 else ready in
      (
        if not (is_empty s.connections_by_pg) then with_bulletins + 1 else with_bulletins,
        endpoint_count,
      )

  unfoldable pub next_interval_for : ClusterEndpoint → ClusterSnapshot P → Option ℕ
  unfolding meta_of max_interval
  next_interval_for ClusterEndpoint.about s = interval (meta_of s.about)
  next_interval_for ClusterEndpoint.controller_status s = interval (meta_of s.controller_status)
  next_interval_for ClusterEndpoint.root_pg_status s = interval (meta_of s.root_pg_status)
  next_interval_for ClusterEndpoint.controller_services s = interval (meta_of s.controller_services)
  next_interval_for ClusterEndpoint.system_diagnostics s = interval (meta_of s.system_diagnostics)
  next_interval_for ClusterEndpoint.connections_by_pg s = max_interval s.connections_by_pg
  next_interval_for ClusterEndpoint.bulletins s = interval s.bulletins.meta
  next_interval_for ClusterEndpoint.cluster_nodes s = interval (meta_of s.cluster_nodes)
  next_interval_for ClusterEndpoint.tls_certs s = interval (meta_of s.tls_certs)
  next_interval_for ClusterEndpoint.version_control s = interval (meta_of s.version_control)
  next_interval_for ClusterEndpoint.parameter_context_bindings s =
      interval (meta_of s.parameter_context_bindings)
  next_interval_for ClusterEndpoint.reporting_tasks s = interval (meta_of s.reporting_tasks)
