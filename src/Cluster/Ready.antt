-- ===== src/Cluster/Ready.antt =====
-- `ready_count`: how many endpoints have reported.
use nifi_lens.Base.{
  ℕ, ◌+◌, ◌≤◌, ◌≡◌, ap, Bool, true, false, not, List, [], ◌∷◌, length, is_some, is_empty,
  if◌then◌else◌, arith,
}
use nifi_lens.Cluster.{
  FetchMeta, Fetched, EndpointState, is_loading, apply, bit, count_true, Payloads, ClusterSnapshot,
  ready_count,
}
use nifi_lens.Cluster.Store.{ClusterUpdate, ClusterStore, updated, apply_update}
use nifi_lens.Cluster.Updates.{is_loading-apply, apply_bulletins-meta, is_empty-on_entry}

bit_le : (b : Bool) → bit b ≤ 1
bit_le true = omega arith
bit_le false = omega arith

count_true_le : (flags : List Bool) → count_true flags ≤ length flags
count_true_le [] = omega arith
count_true_le (flag ∷ flags) = omega (arith, bit_le flag, count_true_le flags)

two_more :
    (a b : Bool) (n : ℕ)
    → (if b then (if a then n + 1 else n) + 1 else (if a then n + 1 else n)) ≡ n + bit a + bit b
two_more a b n = ground arith

-- The endpoint has reported.
abbrev pub reported {ℓ} : {T : Type ℓ} → EndpointState T → ℕ
reported s = bit (not (is_loading s))

reported-apply {ℓ} :
    {T : Type ℓ} (r : Fetched T) (m : FetchMeta) (s : EndpointState T) → reported (apply r m s) ≡ 1
reported-apply r m s = ap (λ b. bit (not b)) (is_loading-apply r m s)

module _ {P : Payloads} where
  abbrev pub with_state : ClusterSnapshot P → List Bool
  with_state s =
      not (is_loading s.about)
      ∷ not (is_loading s.controller_status)
      ∷ not (is_loading s.root_pg_status)
      ∷ not (is_loading s.controller_services)
      ∷ not (is_loading s.cluster_nodes)
      ∷ not (is_loading s.tls_certs)
      ∷ not (is_loading s.system_diagnostics)
      ∷ not (is_loading s.version_control)
      ∷ not (is_loading s.parameter_context_bindings)
      ∷ not (is_loading s.reporting_tasks)
      ∷ []

  abbrev pub total : ClusterSnapshot P → ℕ
  total s =
      count_true (with_state s)
      + bit (is_some s.bulletins.meta)
      + bit (not (is_empty s.connections_by_pg))

  ready_count_lem : (s : ClusterSnapshot P) → (ready_count s).0 ≡ total s
  unfolding ready_count
  ready_count_lem s = two_more _ _ _

  total-updated : (u : ClusterUpdate P) (s : ClusterSnapshot P) → total s ≤ total (updated u s)
  unfolding updated
  total-updated (ClusterUpdate.about r m) s =
      omega (arith, reported-apply r m s.about, bit_le (not (is_loading s.about)))
  total-updated (ClusterUpdate.controller_status r m) s =
      omega (
        arith,
        reported-apply r m s.controller_status,
        bit_le (not (is_loading s.controller_status)),
      )
  total-updated (ClusterUpdate.root_pg_status r m) s =
      omega (arith, reported-apply r m s.root_pg_status, bit_le (not (is_loading s.root_pg_status)))
  total-updated (ClusterUpdate.controller_services r m) s = omega (
    arith,
    reported-apply r m s.controller_services,
    bit_le (not (is_loading s.controller_services)),
  )
  total-updated (ClusterUpdate.system_diagnostics r m) s = omega (
    arith,
    reported-apply r m s.system_diagnostics,
    bit_le (not (is_loading s.system_diagnostics)),
  )
  total-updated (ClusterUpdate.cluster_nodes r m) s =
      omega (arith, reported-apply r m s.cluster_nodes, bit_le (not (is_loading s.cluster_nodes)))
  total-updated (ClusterUpdate.tls_certs r m) s =
      omega (arith, reported-apply r m s.tls_certs, bit_le (not (is_loading s.tls_certs)))
  total-updated (ClusterUpdate.connections id r m) s = omega (
    arith,
    ap (λ b. bit (not b)) (is_empty-on_entry id (apply r m) s.connections_by_pg),
    bit_le (not (is_empty s.connections_by_pg)),
  )
  total-updated (ClusterUpdate.bulletins_delta r m) s = omega (
    arith,
    ap (λ o. bit (is_some o)) (apply_bulletins-meta r m s.bulletins),
    bit_le (is_some s.bulletins.meta),
  )
  total-updated (ClusterUpdate.version_control r m) s =
      omega
        (arith, reported-apply r m s.version_control, bit_le (not (is_loading s.version_control)))
  total-updated (ClusterUpdate.parameter_context_bindings r m) s = omega (
    arith,
    reported-apply r m s.parameter_context_bindings,
    bit_le (not (is_loading s.parameter_context_bindings)),
  )
  total-updated (ClusterUpdate.reporting_tasks r m) s =
      omega
        (arith, reported-apply r m s.reporting_tasks, bit_le (not (is_loading s.reporting_tasks)))

  -- An update never lowers the number of endpoints that have reported, and there are at most as
  -- many as the total that is shown with it.
  pub ready_count_grows :
      (u : ClusterUpdate P) (s : ClusterStore P)
      → ((ready_count s.snapshot).0 ≤ (ready_count (apply_update u s).1.snapshot).0)
        × ((ready_count s.snapshot).0 ≤ (ready_count s.snapshot).1)
  unfolding apply_update ready_count
  ready_count_grows u s = (
    omega (
      arith,
      ready_count_lem s.snapshot,
      ready_count_lem (updated u s.snapshot),
      total-updated u s.snapshot,
    ),
    omega (
      arith,
      ready_count_lem s.snapshot,
      count_true_le (with_state s.snapshot),
      bit_le (is_some s.snapshot.bulletins.meta),
      bit_le (not (is_empty s.snapshot.connections_by_pg)),
    ),
  )
