-- ===== src/Cluster/Updates.antt =====
-- `apply_update` over sequences of updates: the start-up count, the cadence and the bulletins.
use nifi_lens.Base.{
  ℕ, ◌≤◌, ◌≡◌, refl, sym, ap, ◌∙◌, false, Option, none, some, List, [], ◌∷◌, ◌++◌, append_assoc,
  append-nil, length, is_empty, if-keeps, arith,
}
use nifi_lens.Base.Text.{Text, text_eq}
use nifi_lens.Base.Window.{keep_last, keep_last-append, keep_last_short, length-keep_last}
use nifi_lens.Bulletins.{BulletinSnapshot}
use nifi_lens.Cluster.{
  FetchMeta, Fetched, ok, err, EndpointState, loading, is_loading, apply, meta_of, interval,
  max_interval, or_max, BulletinRing, Payloads, next_interval_for,
}
use nifi_lens.Cluster.Store.{
  ClusterUpdate, ClusterStore, on_entry, apply_bulletins, endpoint, updated, apply_update,
}
use nifi_lens.Cluster.Ring.{merge-keep_last}

-- The metadata that comes with the update.
abbrev pub meta_in : {P : Payloads} → ClusterUpdate P → FetchMeta
meta_in (ClusterUpdate.about r m) = m
meta_in (ClusterUpdate.controller_status r m) = m
meta_in (ClusterUpdate.root_pg_status r m) = m
meta_in (ClusterUpdate.controller_services r m) = m
meta_in (ClusterUpdate.system_diagnostics r m) = m
meta_in (ClusterUpdate.cluster_nodes r m) = m
meta_in (ClusterUpdate.tls_certs r m) = m
meta_in (ClusterUpdate.connections id r m) = m
meta_in (ClusterUpdate.bulletins_delta r m) = m
meta_in (ClusterUpdate.version_control r m) = m
meta_in (ClusterUpdate.parameter_context_bindings r m) = m
meta_in (ClusterUpdate.reporting_tasks r m) = m

-- The interval is at least the number.
abbrev pub IsAtLeast : ℕ → Option ℕ → Type 0
IsAtLeast n none = ⊥
IsAtLeast n (some m) = n ≤ m

-- What the debug dump is to show for an endpoint after an update: its interval, and for the
-- connections, which have one for each process group, no less.
abbrev pub IsReported : {P : Payloads} → ClusterUpdate P → Option ℕ → Type 0
IsReported (ClusterUpdate.connections id r m) shown = IsAtLeast m.next_interval shown
IsReported u shown = shown ≡ some (meta_in u).next_interval

pub is_loading-apply {ℓ} :
    {T : Type ℓ} (r : Fetched T) (m : FetchMeta) (s : EndpointState T)
    → is_loading (apply r m s) ≡ false
unfolding apply
is_loading-apply (ok value) m s = refl
is_loading-apply (err error) m s = refl

meta_of-apply {ℓ} :
    {T : Type ℓ} (r : Fetched T) (m : FetchMeta) (s : EndpointState T)
    → interval (meta_of (apply r m s)) ≡ some m.next_interval
unfolding apply meta_of
meta_of-apply (ok value) m s = refl
meta_of-apply (err error) m s = refl

or_max_left : (n : ℕ) (a o : Option ℕ) → a ≡ some n → IsAtLeast n (or_max a o)
or_max_left n none o e = cc
or_max_left n (some m) none e = ground arith
or_max_left n (some m) (some k) e = ground arith

or_max_right : (n : ℕ) (a o : Option ℕ) → IsAtLeast n o → IsAtLeast n (or_max a o)
or_max_right n none o h = h
or_max_right n (some m) none h = absurd h
or_max_right n (some m) (some k) h = omega arith

max_interval-on_entry {ℓ} :
    {T : Type ℓ} (id : Text) (r : Fetched T) (m : FetchMeta)
    (entries : List (Text × EndpointState T))
    → IsAtLeast m.next_interval (max_interval (on_entry id (apply r m) entries))
unfolding on_entry max_interval
max_interval-on_entry id r m [] = or_max_left _ _ none (meta_of-apply r m loading)
max_interval-on_entry {T = T} id r m ((key, s) ∷ entries) =
    if-keeps (λ (es : List (Text × EndpointState T)). IsAtLeast m.next_interval (max_interval es))
      (text_eq key id) (or_max_left _ _ (max_interval entries) (meta_of-apply r m s))
      (or_max_right _ (interval (meta_of s)) _ (max_interval-on_entry id r m entries))

pub apply_bulletins-meta :
    (r : Fetched (List BulletinSnapshot)) (m : FetchMeta) (ring : BulletinRing)
    → (apply_bulletins r m ring).meta ≡ some m
unfolding apply_bulletins
apply_bulletins-meta (ok batch) m ring = refl
apply_bulletins-meta (err error) m ring = refl

pub is_empty-on_entry {ℓ} :
    {T : Type ℓ} (id : Text) (f : EndpointState T → EndpointState T)
    (entries : List (Text × EndpointState T))
    → is_empty (on_entry id f entries) ≡ false
unfolding on_entry
is_empty-on_entry id f [] = refl
is_empty-on_entry {T = T} id f ((key, s) ∷ entries) =
    if-keeps (λ (es : List (Text × EndpointState T)). is_empty es ≡ false) (text_eq key id) refl
      refl

module _ {P : Payloads} where
  unfoldable pub apply_updates : List (ClusterUpdate P) → ClusterStore P → ClusterStore P
  unfolding apply_update
  apply_updates [] s = s
  apply_updates (u ∷ us) s = apply_updates us (apply_update u s).1

  -- The bulletins that the updates bring, in the order of their arrival.
  pub arrivals : List (ClusterUpdate P) → List BulletinSnapshot
  arrivals [] = []
  arrivals (ClusterUpdate.bulletins_delta (ok batch) m ∷ us) = batch ++ arrivals us
  arrivals (_ ∷ us) = arrivals us

  -- After an update, whether it failed or not, the endpoint reports the interval that came with it.
  pub next_interval_for-apply_update :
      (u : ClusterUpdate P) (s : ClusterStore P)
      → let (e, t) = apply_update u s in IsReported u (next_interval_for e t.snapshot)
  unfolding apply_update updated endpoint next_interval_for
  next_interval_for-apply_update (ClusterUpdate.about r m) s = meta_of-apply r m _
  next_interval_for-apply_update (ClusterUpdate.controller_status r m) s = meta_of-apply r m _
  next_interval_for-apply_update (ClusterUpdate.root_pg_status r m) s = meta_of-apply r m _
  next_interval_for-apply_update (ClusterUpdate.controller_services r m) s = meta_of-apply r m _
  next_interval_for-apply_update (ClusterUpdate.system_diagnostics r m) s = meta_of-apply r m _
  next_interval_for-apply_update (ClusterUpdate.cluster_nodes r m) s = meta_of-apply r m _
  next_interval_for-apply_update (ClusterUpdate.tls_certs r m) s = meta_of-apply r m _
  next_interval_for-apply_update (ClusterUpdate.connections id r m) s =
      max_interval-on_entry id r m s.snapshot.connections_by_pg
  next_interval_for-apply_update (ClusterUpdate.bulletins_delta r m) s =
      ap interval (apply_bulletins-meta r m s.snapshot.bulletins)
  next_interval_for-apply_update (ClusterUpdate.version_control r m) s = meta_of-apply r m _
  next_interval_for-apply_update (ClusterUpdate.parameter_context_bindings r m) s =
      meta_of-apply r m _
  next_interval_for-apply_update (ClusterUpdate.reporting_tasks r m) s = meta_of-apply r m _

  quiet :
      (s : ClusterStore P)
      → length s.snapshot.bulletins.buf ≤ s.snapshot.bulletins.capacity
      → s.snapshot.bulletins.buf
        ≡ keep_last s.snapshot.bulletins.capacity (s.snapshot.bulletins.buf ++ [])
  quiet s h = sym (
      ap (keep_last s.snapshot.bulletins.capacity) (append-nil s.snapshot.bulletins.buf)
      ∙ keep_last_short _ _ h)

  apply_update-merge :
      (u : ClusterUpdate P) (s : ClusterStore P)
      → length s.snapshot.bulletins.buf ≤ s.snapshot.bulletins.capacity
      → let t = (apply_update u s).1 in
        (t.snapshot.bulletins.buf
          ≡ keep_last s.snapshot.bulletins.capacity (s.snapshot.bulletins.buf ++ arrivals (u ∷ [])))
        × (t.snapshot.bulletins.capacity ≡ s.snapshot.bulletins.capacity)
  unfolding apply_update updated apply_bulletins arrivals
  apply_update-merge (ClusterUpdate.bulletins_delta (ok batch) m) s h =
      rw (append-nil batch) (merge-keep_last batch s.snapshot.bulletins h)
  apply_update-merge (ClusterUpdate.bulletins_delta (err error) m) s h = (quiet s h, refl)
  apply_update-merge (ClusterUpdate.about r m) s h = (quiet s h, refl)
  apply_update-merge _ s h = (quiet s h, refl)

  arrivals-cons :
      (u : ClusterUpdate P) (us : List (ClusterUpdate P))
      → arrivals (u ∷ us) ≡ arrivals (u ∷ []) ++ arrivals us
  unfolding arrivals
  arrivals-cons (ClusterUpdate.bulletins_delta (ok batch) m) us =
      ap (λ b. b ++ arrivals us) (sym (append-nil batch))
  arrivals-cons (ClusterUpdate.bulletins_delta (err error) m) us = refl
  arrivals-cons (ClusterUpdate.about r m) us = refl
  arrivals-cons _ us = refl

  -- After any updates, from a ring within its capacity, the ring has the last `capacity` of its
  -- bulletins and of all that the updates brought, in the order of their arrival; failures and the
  -- other endpoints leave it alone.
  pub apply_updates-keep_last :
      (us : List (ClusterUpdate P)) (s : ClusterStore P)
      → length s.snapshot.bulletins.buf ≤ s.snapshot.bulletins.capacity
      → (apply_updates us s).snapshot.bulletins.buf
        ≡ keep_last s.snapshot.bulletins.capacity (s.snapshot.bulletins.buf ++ arrivals us)
  unfolding apply_updates arrivals
  apply_updates-keep_last [] s h = quiet s h
  apply_updates-keep_last (u ∷ us) s h =
      let (window, same) = apply_update-merge u s h in
      let capacity = s.snapshot.bulletins.capacity in
      let buf = s.snapshot.bulletins.buf in
      let short : length (apply_update u s).1.snapshot.bulletins.buf
          ≤ (apply_update u s).1.snapshot.bulletins.capacity =
        rw (window, same) (length-keep_last capacity (buf ++ arrivals (u ∷ []))) in
      apply_updates-keep_last us (apply_update u s).1 short
      ∙ rw (window, same)
          (keep_last-append capacity (buf ++ arrivals (u ∷ [])) (arrivals us)
            ∙ ap (keep_last capacity) (
                append_assoc buf (arrivals (u ∷ [])) (arrivals us)
                ∙ ap (λ new. buf ++ new) (sym (arrivals-cons u us))))
