-- ===== src/Cluster/Counted.antt =====
-- The lock-free counter of an endpoint is the number of the views that are subscribed to it.
use mathlib.Core.Path.{subst}
use nifi_lens.Base.{
  ℕ, ◌+◌, ◌≤◌, ◌≡◌, refl, sym, ap, ◌∙◌, Bool, true, false, not, ◌&&◌, Option, none, some, List, [],
  ◌∷◌, ◌==◌, Bool-cases, inl, inr, if◌then◌else◌, if_true, if_false, usize_sub, arith,
}
use nifi_lens.Views.{ViewId}
use nifi_lens.Cluster.{ClusterEndpoint, endpoint_eq, endpoint_index, bit}
use nifi_lens.Cluster.Subscriber.{
  ViewSet, SubscriberRegistry, new, put_view, put, subscribed, subscribe, unsubscribe, count,
}

-- How many of the five views the set has.
abbrev pub views_in : ViewSet → ℕ
views_in set =
    bit (set ViewId.overview)
    + bit (set ViewId.bulletins)
    + bit (set ViewId.browser)
    + bit (set ViewId.events)
    + bit (set ViewId.tracer)

views_in-put_view :
    (v : ViewId) (set : ViewSet) → set v ≡ false → views_in (put_view v true set) ≡ views_in set + 1
views_in-put_view ViewId.overview set h = omega (arith, ap bit h)
views_in-put_view ViewId.bulletins set h = omega (arith, ap bit h)
views_in-put_view ViewId.browser set h = omega (arith, ap bit h)
views_in-put_view ViewId.events set h = omega (arith, ap bit h)
views_in-put_view ViewId.tracer set h = omega (arith, ap bit h)

views_in_removed :
    (v : ViewId) (set : ViewSet) → set v ≡ true → views_in (put_view v false set) + 1 ≡ views_in set
views_in_removed ViewId.overview set h = omega (arith, ap bit h)
views_in_removed ViewId.bulletins set h = omega (arith, ap bit h)
views_in_removed ViewId.browser set h = omega (arith, ap bit h)
views_in_removed ViewId.events set h = omega (arith, ap bit h)
views_in_removed ViewId.tracer set h = omega (arith, ap bit h)

endpoint_of : ℕ → ClusterEndpoint
endpoint_of n =
    if n == 0
    then ClusterEndpoint.about
    else if n == 1
    then ClusterEndpoint.controller_status
    else if n == 2
    then ClusterEndpoint.root_pg_status
    else if n == 3
    then ClusterEndpoint.controller_services
    else if n == 4
    then ClusterEndpoint.system_diagnostics
    else if n == 5
    then ClusterEndpoint.connections_by_pg
    else if n == 6
    then ClusterEndpoint.bulletins
    else if n == 7
    then ClusterEndpoint.cluster_nodes
    else if n == 8
    then ClusterEndpoint.tls_certs
    else if n == 9
    then ClusterEndpoint.version_control
    else if n == 10
    then ClusterEndpoint.parameter_context_bindings
    else ClusterEndpoint.reporting_tasks

endpoint_of-endpoint_index : (e : ClusterEndpoint) → endpoint_of (endpoint_index e) ≡ e
unfolding endpoint_of
endpoint_of-endpoint_index ClusterEndpoint.about = refl
endpoint_of-endpoint_index ClusterEndpoint.controller_status = refl
endpoint_of-endpoint_index ClusterEndpoint.root_pg_status = refl
endpoint_of-endpoint_index ClusterEndpoint.controller_services = refl
endpoint_of-endpoint_index ClusterEndpoint.system_diagnostics = refl
endpoint_of-endpoint_index ClusterEndpoint.connections_by_pg = refl
endpoint_of-endpoint_index ClusterEndpoint.bulletins = refl
endpoint_of-endpoint_index ClusterEndpoint.cluster_nodes = refl
endpoint_of-endpoint_index ClusterEndpoint.tls_certs = refl
endpoint_of-endpoint_index ClusterEndpoint.version_control = refl
endpoint_of-endpoint_index ClusterEndpoint.parameter_context_bindings = refl
endpoint_of-endpoint_index ClusterEndpoint.reporting_tasks = refl

endpoint_eq_sound : (a b : ClusterEndpoint) → endpoint_eq a b ≡ true → a ≡ b
endpoint_eq_sound a b h =
    let same : endpoint_index a ≡ endpoint_index b = ground arith in
    sym (endpoint_of-endpoint_index a) ∙ ap endpoint_of same ∙ endpoint_of-endpoint_index b

bit_le : (b : Bool) → bit b ≤ 1
bit_le true = omega arith
bit_le false = omega arith

views_in_le : (set : ViewSet) → views_in set ≤ 5
views_in_le set = omega (
  arith,
  bit_le (set ViewId.overview),
  bit_le (set ViewId.bulletins),
  bit_le (set ViewId.browser),
  bit_le (set ViewId.events),
  bit_le (set ViewId.tracer),
)

-- The counter of the endpoint counts its subscribers.
abbrev pub IsCounted : SubscriberRegistry → ClusterEndpoint → Type 0
IsCounted r e = count e r ≡ views_in (subscribed e r)

abbrev members : Option ViewSet → ViewSet
members none = λ v. false
members (some set) = set

-- The registry with the set and the counter of the endpoint replaced.
abbrev replaced : ClusterEndpoint → ViewSet → ℕ → SubscriberRegistry → SubscriberRegistry
replaced e set n r = record { sets = put e (some set) r.sets; counters = put e n r.counters }

replaced-IsCounted :
    (e x : ClusterEndpoint) (set : ViewSet) (n : ℕ) (r : SubscriberRegistry)
    → n ≡ views_in set
    → IsCounted r x
    → IsCounted (replaced e set n r) x
replaced-IsCounted e x set n r h hx = elim (Bool-cases (endpoint_eq x e)) [
  | inl same ↦ if_true _ _ same ∙ h ∙ ap (λ o. views_in (members o)) (sym (if_true _ _ same))
  | inr other ↦ if_false _ _ other ∙ hx ∙ ap (λ o. views_in (members o)) (sym (if_false _ _ other))
]

touched-IsCounted :
    (e x : ClusterEndpoint) (r : SubscriberRegistry)
    → IsCounted r e
    → IsCounted r x
    → IsCounted (record r { sets = put e (some (subscribed e r)) r.sets }) x
touched-IsCounted e x r he hx = elim (Bool-cases (endpoint_eq x e)) [
  | inl same ↦
      ap r.counters (endpoint_eq_sound x e same)
      ∙ he
      ∙ ap (λ o. views_in (members o)) (sym (if_true _ _ same))
  | inr other ↦ hx ∙ ap (λ o. views_in (members o)) (sym (if_false _ _ other))
]

subscribe-IsCounted :
    (e x : ClusterEndpoint) (v : ViewId) (r : SubscriberRegistry)
    → IsCounted r e
    → IsCounted r x
    → IsCounted (subscribe e v r).1 x
unfolding subscribe
subscribe-IsCounted e x v r he hx = elim (Bool-cases (subscribed e r v)) [
  | inl there ↦
      subst (λ (p : Bool × SubscriberRegistry). IsCounted p.1 x) (sym (if_true _ _ there))
        (touched-IsCounted e x r he hx)
  | inr absent ↦
      subst (λ (p : Bool × SubscriberRegistry). IsCounted p.1 x) (sym (if_false _ _ absent))
        (replaced-IsCounted e x _ _ r
          (omega
            (arith, he, views_in_le (subscribed e r), views_in-put_view v (subscribed e r) absent))
          hx)
]

-- `unsubscribe` with the entry of the endpoint at hand.
abbrev dropped : ClusterEndpoint → ViewId → SubscriberRegistry → ViewSet → Bool × SubscriberRegistry
dropped e v r set =
    if set v
    then (r.counters e == 1, replaced e (put_view v false set) (usize_sub (r.counters e) 1) r)
    else (false, r)

dropped-members :
    (e : ClusterEndpoint) (v : ViewId) (r : SubscriberRegistry) (o : Option ViewSet)
    → elim o [ none ↦ (false, r) | some set ↦ dropped e v r set ] ≡ dropped e v r (members o)
dropped-members e v r none = refl
dropped-members e v r (some set) = refl

unsubscribe-dropped :
    (e : ClusterEndpoint) (v : ViewId) (r : SubscriberRegistry)
    → unsubscribe e v r ≡ dropped e v r (subscribed e r)
unfolding unsubscribe
unsubscribe-dropped e v r = dropped-members e v r (r.sets e)

unsubscribe-IsCounted :
    (e x : ClusterEndpoint) (v : ViewId) (r : SubscriberRegistry)
    → IsCounted r e
    → IsCounted r x
    → IsCounted (unsubscribe e v r).1 x
unsubscribe-IsCounted e x v r he hx = elim (Bool-cases (subscribed e r v)) [
  | inl there ↦
      subst (λ (p : Bool × SubscriberRegistry). IsCounted p.1 x)
        (sym (unsubscribe-dropped e v r ∙ if_true _ _ there))
        (replaced-IsCounted e x _ _ r
          (omega
            (arith, he, views_in_le (subscribed e r), views_in_removed v (subscribed e r) there))
          hx)
  | inr absent ↦
      subst (λ (p : Bool × SubscriberRegistry). IsCounted p.1 x)
        (sym (unsubscribe-dropped e v r ∙ if_false _ _ absent)) hx
]

pub data Call : Type 0 where
  join leave : ClusterEndpoint → ViewId → Call

unfoldable pub run : List Call → SubscriberRegistry → SubscriberRegistry
run [] r = r
run (Call.join e v ∷ calls) r = run calls (subscribe e v r).1
run (Call.leave e v ∷ calls) r = run calls (unsubscribe e v r).1

run-IsCounted :
    (calls : List Call) (r : SubscriberRegistry)
    → ((x : ClusterEndpoint) → IsCounted r x)
    → (x : ClusterEndpoint) → IsCounted (run calls r) x
unfolding run
run-IsCounted [] r h x = h x
run-IsCounted (Call.join e v ∷ calls) r h x =
    run-IsCounted calls (subscribe e v r).1 (λ y. subscribe-IsCounted e y v r (h e) (h y)) x
run-IsCounted (Call.leave e v ∷ calls) r h x =
    run-IsCounted calls (unsubscribe e v r).1 (λ y. unsubscribe-IsCounted e y v r (h e) (h y)) x

subscribe_added :
    (e : ClusterEndpoint) (v : ViewId) (r : SubscriberRegistry)
    → (subscribe e v r).0 ≡ not (subscribed e r v)
unfolding subscribe
subscribe_added e v r = elim (Bool-cases (subscribed e r v)) [
  | inl there ↦ ap (λ (p : Bool × SubscriberRegistry). p.0) (if_true _ _ there) ∙ sym (ap not there)
  | inr absent ↦
      ap (λ (p : Bool × SubscriberRegistry). p.0) (if_false _ _ absent) ∙ sym (ap not absent)
]

unsubscribe_last :
    (e : ClusterEndpoint) (v : ViewId) (r : SubscriberRegistry)
    → (unsubscribe e v r).0 ≡ (subscribed e r v && count e r == 1)
unsubscribe_last e v r = elim (Bool-cases (subscribed e r v)) [
  | inl there ↦
      ap (λ (p : Bool × SubscriberRegistry). p.0) (unsubscribe-dropped e v r ∙ if_true _ _ there)
      ∙ sym (ap (λ b. b && count e r == 1) there)
  | inr absent ↦
      ap (λ (p : Bool × SubscriberRegistry). p.0) (unsubscribe-dropped e v r ∙ if_false _ _ absent)
      ∙ sym (ap (λ b. b && count e r == 1) absent)
]

-- After any calls, the counter of an endpoint is the number of views that are subscribed to it;
-- the next `subscribe` says whether the view was not there, however many others were, and the next
-- `unsubscribe` whether the view was the only subscriber.
pub run_counts :
    (calls : List Call) (e : ClusterEndpoint) (v : ViewId)
    → let r = run calls new in
      (count e r ≡ views_in (subscribed e r))
      × ((subscribe e v r).0 ≡ not (subscribed e r v))
      × ((unsubscribe e v r).0 ≡ (subscribed e r v && views_in (subscribed e r) == 1))
run_counts calls e v =
    let counted = run-IsCounted calls new (λ x. refl) e in
    (
      counted,
      subscribe_added e v (run calls new),
      unsubscribe_last e v (run calls new)
          ∙ ap (λ n. subscribed e (run calls new) v && n == 1) counted,
    )
