-- ===== src/Cluster/Latest.antt =====
-- `EndpointState`: the latest value is that of the last fetch that succeeded.
use nifi_lens.Base.{Option, none, some, List, [], ◌∷◌, ◌≡◌, refl, ◌∙◌}
use nifi_lens.Cluster.{
  FetchMeta, Fetched, ok, err, EndpointState, loading, ready, failed, latest, kept, apply,
}

module _ {ℓ} {T : Type ℓ} where
  unfoldable pub apply_all : List (Fetched T × FetchMeta) → EndpointState T → EndpointState T
  apply_all [] s = s
  apply_all ((result, meta) ∷ fetches) s = apply_all fetches (apply result meta s)

  -- The last value that was fetched with its metadata, or the given one if no fetch succeeded.
  pub last_success : Option (T × FetchMeta) → List (Fetched T × FetchMeta) → Option (T × FetchMeta)
  last_success prior [] = prior
  last_success prior ((ok value, meta) ∷ fetches) = last_success (some (value, meta)) fetches
  last_success prior ((err error, meta) ∷ fetches) = last_success prior fetches

  pub value_of : Option (T × FetchMeta) → Option T
  value_of none = none
  value_of (some (value, meta)) = some value

  latest-kept : (s : EndpointState T) → latest s ≡ value_of (kept s)
  unfolding latest kept value_of
  latest-kept loading = refl
  latest-kept (ready value meta) = refl
  latest-kept (failed error meta none) = refl
  latest-kept (failed error meta (some (value, m))) = refl

  kept-apply_all :
      (fetches : List (Fetched T × FetchMeta)) (s : EndpointState T)
      → kept (apply_all fetches s) ≡ last_success (kept s) fetches
  unfolding apply_all apply kept last_success
  kept-apply_all [] s = refl
  kept-apply_all ((ok value, meta) ∷ fetches) s = kept-apply_all fetches (ready value meta)
  kept-apply_all ((err error, meta) ∷ fetches) s =
      kept-apply_all fetches (failed error meta (kept s))

  -- After any fetches, failures among them, an endpoint shows the value of the last one that
  -- succeeded, or what it showed before if none did, and keeps the metadata of that fetch.
  pub latest-apply_all :
      (fetches : List (Fetched T × FetchMeta)) (s : EndpointState T)
      → (latest (apply_all fetches s) ≡ value_of (last_success (kept s) fetches))
        × (kept (apply_all fetches s) ≡ last_success (kept s) fetches)
  latest-apply_all fetches s = (
    latest-kept (apply_all fetches s) ∙ rw (kept-apply_all fetches s) refl,
    kept-apply_all fetches s,
  )
