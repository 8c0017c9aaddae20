-- ===== src/Cluster/Store.antt =====
-- src/cluster/store.rs: the store of the cluster state. The wake-ups of the fetch tasks
-- (`Notify::notify_one`) are listed in the order of the calls, newest first; a watch channel is the
-- value that was sent last (the store keeps a receiver of each, so that no send fails); a fetch task
-- is its endpoint and whether it parks without subscribers. The configuration and the address of the server, which the store hands
-- to the tasks unread, are left out.
use nifi_lens.Base.{
  ℕ, Bool, true, false, not, ◌&&◌, none, some, List, [], ◌∷◌, ◌++◌, is_empty, if◌then◌else◌,
}
use nifi_lens.Base.Text.{Text, text_eq}
use nifi_lens.Views.{ViewId}
use nifi_lens.Bulletins.{BulletinSnapshot}
use nifi_lens.Cluster.{
  ClusterEndpoint, FetchMeta, Fetched, ok, err, EndpointState, loading, latest, apply, BulletinRing,
  merge, Payloads, ClusterSnapshot, with_bulletins_capacity,
}
use nifi_lens.Cluster.Subscriber
use nifi_lens.Cluster.Subscriber.{SubscriberRegistry}

pub data ClusterUpdate (P : Payloads) : Type 0 where
  about : Fetched P.About → FetchMeta → ClusterUpdate P
  controller_status : Fetched P.ControllerStatus → FetchMeta → ClusterUpdate P
  root_pg_status : Fetched P.RootPgStatus → FetchMeta → ClusterUpdate P
  controller_services : Fetched P.ControllerServices → FetchMeta → ClusterUpdate P
  system_diagnostics : Fetched P.SystemDiag → FetchMeta → ClusterUpdate P
  cluster_nodes : Fetched P.ClusterNodes → FetchMeta → ClusterUpdate P
  tls_certs : Fetched P.TlsCerts → FetchMeta → ClusterUpdate P
  connections : Text → Fetched P.Connections → FetchMeta → ClusterUpdate P
  bulletins_delta : Fetched (List BulletinSnapshot) → FetchMeta → ClusterUpdate P
  version_control : Fetched P.VersionControl → FetchMeta → ClusterUpdate P
  parameter_context_bindings : Fetched P.ParameterContextBindings → FetchMeta → ClusterUpdate P
  reporting_tasks : Fetched P.ReportingTasks → FetchMeta → ClusterUpdate P

pub data AccessAuditState : Type 0 where
  unknown supported unsupported : AccessAuditState

pub record FetchTask : Type 0 where
  pub endpoint : ClusterEndpoint
  pub gated : Bool

pub record ClusterStore (P : Payloads) : Type 0 where
  pub snapshot : ClusterSnapshot P
  pub subscribers : SubscriberRegistry
  pub notified : List ClusterEndpoint
  pub handles : List FetchTask
  pub sent_pg_ids : List Text
  pub sent_node_addresses : List Text
  pub access_audit : AccessAuditState

-- `==` on lists of texts.
unfoldable pub texts_eq : List Text → List Text → Bool
texts_eq [] [] = true
texts_eq (s ∷ ss) (t ∷ ts) = text_eq s t && texts_eq ss ts
texts_eq _ _ = false

-- `entry(key).or_default()` with a change of the entry.
unfoldable pub on_entry {ℓ} :
    {T : Type ℓ}
    → Text
    → (EndpointState T → EndpointState T)
    → List (Text × EndpointState T)
    → List (Text × EndpointState T)
on_entry id f [] = (id, f loading) ∷ []
on_entry id f ((key, s) ∷ entries) =
    let rest = on_entry id f entries in
    if text_eq key id then (key, f s) ∷ entries else (key, s) ∷ rest

-- The arm of `apply_update` for bulletins.
unfoldable pub apply_bulletins :
    Fetched (List BulletinSnapshot) → FetchMeta → BulletinRing → BulletinRing
apply_bulletins (ok batch) meta r = record (merge batch r) { meta = some meta; last_error = none }
apply_bulletins (err error) meta r = record r { last_error = some error; meta = some meta }

module _ {P : Payloads} where
  unfoldable pub new : ℕ → ClusterStore P
  new bulletins_capacity = record {
    snapshot = with_bulletins_capacity bulletins_capacity;
    subscribers = Subscriber.new;
    notified = [];
    handles = [];
    sent_pg_ids = [];
    sent_node_addresses = [];
    access_audit = AccessAuditState.unknown;
  }

  unfoldable pub endpoint : ClusterUpdate P → ClusterEndpoint
  endpoint (ClusterUpdate.about r m) = ClusterEndpoint.about
  endpoint (ClusterUpdate.controller_status r m) = ClusterEndpoint.controller_status
  endpoint (ClusterUpdate.root_pg_status r m) = ClusterEndpoint.root_pg_status
  endpoint (ClusterUpdate.controller_services r m) = ClusterEndpoint.controller_services
  endpoint (ClusterUpdate.system_diagnostics r m) = ClusterEndpoint.system_diagnostics
  endpoint (ClusterUpdate.cluster_nodes r m) = ClusterEndpoint.cluster_nodes
  endpoint (ClusterUpdate.tls_certs r m) = ClusterEndpoint.tls_certs
  endpoint (ClusterUpdate.connections id r m) = ClusterEndpoint.connections_by_pg
  endpoint (ClusterUpdate.bulletins_delta r m) = ClusterEndpoint.bulletins
  endpoint (ClusterUpdate.version_control r m) = ClusterEndpoint.version_control
  endpoint (ClusterUpdate.parameter_context_bindings r m) =
      ClusterEndpoint.parameter_context_bindings
  endpoint (ClusterUpdate.reporting_tasks r m) = ClusterEndpoint.reporting_tasks

  -- What `apply_update` does to the snapshot.
  unfoldable pub updated : ClusterUpdate P → ClusterSnapshot P → ClusterSnapshot P
  updated (ClusterUpdate.about r m) s = record s { about = apply r m s.about }
  updated (ClusterUpdate.controller_status r m) s = record s {
    controller_status = apply r m s.controller_status;
  }
  updated (ClusterUpdate.root_pg_status r m) s = record s {
    root_pg_status = apply r m s.root_pg_status;
  }
  updated (ClusterUpdate.controller_services r m) s = record s {
    controller_services = apply r m s.controller_services;
  }
  updated (ClusterUpdate.system_diagnostics r m) s = record s {
    system_diagnostics = apply r m s.system_diagnostics;
  }
  updated (ClusterUpdate.cluster_nodes r m) s = record s {
    cluster_nodes = apply r m s.cluster_nodes;
  }
  updated (ClusterUpdate.tls_certs r m) s = record s { tls_certs = apply r m s.tls_certs }
  updated (ClusterUpdate.connections id r m) s = record s {
    connections_by_pg = on_entry id (apply r m) s.connections_by_pg;
  }
  updated (ClusterUpdate.bulletins_delta r m) s = record s {
    bulletins = apply_bulletins r m s.bulletins;
  }
  updated (ClusterUpdate.version_control r m) s = record s {
    version_control = apply r m s.version_control;
  }
  updated (ClusterUpdate.parameter_context_bindings r m) s = record s {
    parameter_context_bindings = apply r m s.parameter_context_bindings;
  }
  updated (ClusterUpdate.reporting_tasks r m) s = record s {
    reporting_tasks = apply r m s.reporting_tasks;
  }

  unfoldable pub apply_update : ClusterUpdate P → ClusterStore P → ClusterEndpoint × ClusterStore P
  apply_update u s = (endpoint u, record s { snapshot = updated u s.snapshot })

  unfoldable pub force : ClusterEndpoint → ClusterStore P → ClusterStore P
  force e s = record s { notified = e ∷ s.notified }

  -- The addresses that are to be probed.
  unfoldable pub addresses : ClusterSnapshot P → List Text
  addresses s =
      let of_diagnostics : List Text = elim (latest s.system_diagnostics) [
        | none ↦ []
        | some diag ↦ P.node_addresses diag
      ] in
      elim (latest s.cluster_nodes) [
        | none ↦ of_diagnostics
        | some nodes ↦
            if not (is_empty (P.row_addresses nodes)) then P.row_addresses nodes else of_diagnostics
      ]

  unfoldable pub publish_node_addresses : ClusterStore P → ClusterStore P
  publish_node_addresses s =
      if not (texts_eq s.sent_node_addresses (addresses s.snapshot))
      then force ClusterEndpoint.tls_certs (record s { sent_node_addresses = addresses s.snapshot })
      else s

  unfoldable pub publish_pg_ids : ClusterStore P → ClusterStore P
  publish_pg_ids s = elim (latest s.snapshot.root_pg_status) [
    | none ↦ s
    | some snap ↦ record s { sent_pg_ids = P.pg_ids snap }
  ]

  -- One task for each endpoint, in the order in which the source starts them.
  unfoldable pub spawn_fetchers : ClusterStore P → ClusterStore P
  spawn_fetchers s = record s {
    handles =
        s.handles
        ++ record { endpoint = ClusterEndpoint.controller_status; gated = false }
          ∷ record { endpoint = ClusterEndpoint.root_pg_status; gated = true }
          ∷ record { endpoint = ClusterEndpoint.controller_services; gated = true }
          ∷ record { endpoint = ClusterEndpoint.connections_by_pg; gated = true }
          ∷ record { endpoint = ClusterEndpoint.bulletins; gated = false }
          ∷ record { endpoint = ClusterEndpoint.system_diagnostics; gated = false }
          ∷ record { endpoint = ClusterEndpoint.about; gated = false }
          ∷ record { endpoint = ClusterEndpoint.cluster_nodes; gated = true }
          ∷ record { endpoint = ClusterEndpoint.tls_certs; gated = true }
          ∷ record { endpoint = ClusterEndpoint.version_control; gated = true }
          ∷ record { endpoint = ClusterEndpoint.parameter_context_bindings; gated = true }
          ∷ record { endpoint = ClusterEndpoint.reporting_tasks; gated = true }
          ∷ [];
  }

  unfoldable pub subscribe : ClusterEndpoint → ViewId → ClusterStore P → ClusterStore P
  subscribe e v s =
      let (added, subscribers) = Subscriber.subscribe e v s.subscribers in
      if added
      then record s { subscribers = subscribers; notified = e ∷ s.notified }
      else record s { subscribers = subscribers }

  unfoldable pub unsubscribe : ClusterEndpoint → ViewId → ClusterStore P → ClusterStore P
  unsubscribe e v s = record s { subscribers = (Subscriber.unsubscribe e v s.subscribers).1 }

  unfoldable pub shutdown : ClusterStore P → ClusterStore P
  shutdown s = record s { handles = []; access_audit = AccessAuditState.unknown }
