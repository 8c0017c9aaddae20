-- ===== src/Cluster/Subscriber.antt =====
-- src/cluster/subscriber.rs: which views need which endpoint. `SubscriberId` is the view that it
-- wraps; a set of subscribers is its membership test, and the maps by endpoint are functions.
use nifi_lens.Base.{
  ℕ, Bool, true, false, Option, none, some, ◌==◌, if◌then◌else◌, usize_add, usize_sub,
}
use nifi_lens.Views.{ViewId, view_eq}
use nifi_lens.Cluster.{ClusterEndpoint, endpoint_eq}

-- `HashSet<SubscriberId>`.
abbrev pub ViewSet : Type 0
ViewSet = ViewId → Bool

pub record SubscriberRegistry : Type 0 where
  pub sets : ClusterEndpoint → Option ViewSet
  pub counters : ClusterEndpoint → ℕ

abbrev pub new : SubscriberRegistry
new = record { sets = λ e. none; counters = λ e. 0 }

-- `insert` (`true`) and `remove` (`false`).
abbrev pub put_view : ViewId → Bool → ViewSet → ViewSet
put_view v b set = λ u. if view_eq u v then b else set u

-- The map with the value at the endpoint replaced.
abbrev pub put {ℓ} :
    {A : Type ℓ} → ClusterEndpoint → A → (ClusterEndpoint → A) → ClusterEndpoint → A
put e a f = λ x. if endpoint_eq x e then a else f x

-- `entry(endpoint).or_default()`.
abbrev pub subscribed : ClusterEndpoint → SubscriberRegistry → ViewSet
subscribed e r = elim (r.sets e) [ none ↦ λ v. false | some set ↦ set ]

unfoldable pub subscribe : ClusterEndpoint → ViewId → SubscriberRegistry → Bool × SubscriberRegistry
subscribe e v r =
    if subscribed e r v
    then (false, record r { sets = put e (some (subscribed e r)) r.sets })
    else (
      true,
      record {
        sets = put e (some (put_view v true (subscribed e r))) r.sets;
        counters = put e (usize_add (r.counters e) 1) r.counters;
      },
    )

-- The result is whether the counter was 1 before.
unfoldable pub unsubscribe :
    ClusterEndpoint → ViewId → SubscriberRegistry → Bool × SubscriberRegistry
unsubscribe e v r = elim (r.sets e) [
  | none ↦ (false, r)
  | some set ↦
      if set v
      then (
        r.counters e == 1,
        record {
          sets = put e (some (put_view v false set)) r.sets;
          counters = put e (usize_sub (r.counters e) 1) r.counters;
        },
      )
      else (false, r)
]

abbrev pub count : ClusterEndpoint → SubscriberRegistry → ℕ
count e r = r.counters e
