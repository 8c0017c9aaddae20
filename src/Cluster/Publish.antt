-- ===== src/Cluster/Publish.antt =====
-- The store's fan-out to the tasks: the addresses of the nodes and the subscriptions.
use mathlib.Core.Path.{subst}
use nifi_lens.Base.{
  ℕ, ◌+◌, ◌≡◌, refl, sym, ap, true, false, not, List, [], ◌∷◌, Bool-cases, inl, inr, if◌then◌else◌,
  if_true, if_false, arith,
}
use nifi_lens.Base.Text.{Text, text_eq_sound, text_eq_refl}
use nifi_lens.Cluster.{ClusterEndpoint, endpoint_eq, Payloads}
use nifi_lens.Cluster.Store.{
  ClusterStore, FetchTask, AccessAuditState, texts_eq, addresses, force, publish_node_addresses,
  spawn_fetchers, shutdown,
}

texts_eq_sound : (s t : List Text) → texts_eq s t ≡ true → s ≡ t
unfolding texts_eq
texts_eq_sound [] [] h = refl
texts_eq_sound [] (t ∷ ts) h = ground arith
texts_eq_sound (s ∷ ss) [] h = ground arith
texts_eq_sound (s ∷ ss) (t ∷ ts) h = ground (arith, text_eq_sound s t, texts_eq_sound ss ts)

texts_eq_refl : (s : List Text) → texts_eq s s ≡ true
unfolding texts_eq
texts_eq_refl [] = refl
texts_eq_refl (s ∷ ss) = ground (arith, text_eq_refl s, texts_eq_refl ss)

-- How many of the tasks fetch the endpoint.
pub tasks_for : ClusterEndpoint → List FetchTask → ℕ
tasks_for e [] = 0
tasks_for e (task ∷ tasks) =
    let n = tasks_for e tasks in if endpoint_eq task.endpoint e then n + 1 else n

module _ {P : Payloads} where
  publish_same :
      (s : ClusterStore P)
      → texts_eq s.sent_node_addresses (addresses s.snapshot) ≡ true
      → publish_node_addresses s ≡ s
  unfolding publish_node_addresses
  publish_same s e = if_false _ _ (ap not e)

  -- The store that sends the addresses and wakes the task.
  abbrev sent : ClusterStore P → ClusterStore P
  sent s = record s {
    sent_node_addresses = addresses s.snapshot;
    notified = ClusterEndpoint.tls_certs ∷ s.notified;
  }

  publish_changed :
      (s : ClusterStore P)
      → texts_eq s.sent_node_addresses (addresses s.snapshot) ≡ false
      → publish_node_addresses s ≡ sent s
  unfolding publish_node_addresses force
  publish_changed s e = if_true _ _ (ap not e)

  -- What publishing the addresses of `s` makes of it.
  abbrev pub IsPublished : ClusterStore P → ClusterStore P → Type 0
  IsPublished s t =
      (t.sent_node_addresses ≡ addresses s.snapshot)
      × (t.snapshot ≡ s.snapshot)
      × (publish_node_addresses t ≡ t)
      × (t.notified ≡ (
          if texts_eq s.sent_node_addresses (addresses s.snapshot)
          then s.notified
          else ClusterEndpoint.tls_certs ∷ s.notified))

  -- After the addresses are published the channel has the addresses of the snapshot, publishing
  -- them again changes nothing, and the certificate task is woken just if the addresses changed.
  pub publish_node_addresses_idem : (s : ClusterStore P) → IsPublished s (publish_node_addresses s)
  publish_node_addresses_idem s =
      elim (Bool-cases (texts_eq s.sent_node_addresses (addresses s.snapshot))) [
        | inl e ↦
            subst (IsPublished s) (sym (publish_same s e))
              (texts_eq_sound _ _ e, refl, publish_same s e, sym (if_true _ _ e))
        | inr e ↦ subst (IsPublished s) (sym (publish_changed s e)) (
          refl,
          refl,
          publish_same (sent s) (texts_eq_refl (addresses s.snapshot)),
          sym (if_false _ _ e),
        )
      ]

  -- After a shutdown no task is left, and starting the tasks then gives each endpoint one task; the
  -- snapshot and the subscribers stay, and whether access is audited is unknown again.
  pub spawn_fetchers-shutdown :
      (s : ClusterStore P) (e : ClusterEndpoint)
      → let t = spawn_fetchers (shutdown s) in
        ((shutdown s).handles ≡ [])
        × (tasks_for e t.handles ≡ 1)
        × (t.snapshot ≡ s.snapshot)
        × (t.subscribers ≡ s.subscribers)
        × (t.access_audit ≡ AccessAuditState.unknown)
  unfolding spawn_fetchers shutdown tasks_for
  spawn_fetchers-shutdown s ClusterEndpoint.about = (refl, refl, refl, refl, refl)
  spawn_fetchers-shutdown s ClusterEndpoint.controller_status = (refl, refl, refl, refl, refl)
  spawn_fetchers-shutdown s ClusterEndpoint.root_pg_status = (refl, refl, refl, refl, refl)
  spawn_fetchers-shutdown s ClusterEndpoint.controller_services = (refl, refl, refl, refl, refl)
  spawn_fetchers-shutdown s ClusterEndpoint.system_diagnostics = (refl, refl, refl, refl, refl)
  spawn_fetchers-shutdown s ClusterEndpoint.connections_by_pg = (refl, refl, refl, refl, refl)
  spawn_fetchers-shutdown s ClusterEndpoint.bulletins = (refl, refl, refl, refl, refl)
  spawn_fetchers-shutdown s ClusterEndpoint.cluster_nodes = (refl, refl, refl, refl, refl)
  spawn_fetchers-shutdown s ClusterEndpoint.tls_certs = (refl, refl, refl, refl, refl)
  spawn_fetchers-shutdown s ClusterEndpoint.version_control = (refl, refl, refl, refl, refl)
  spawn_fetchers-shutdown s ClusterEndpoint.parameter_context_bindings =
      (refl, refl, refl, refl, refl)
  spawn_fetchers-shutdown s ClusterEndpoint.reporting_tasks = (refl, refl, refl, refl, refl)
