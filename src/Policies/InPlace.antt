-- ===== src/Policies/InPlace.antt =====
-- The network policy that is in place when CheckNetworkPolicies lets the reconciliation go on.
use cass_operator.Prelude.{
  String, ◌≡◌, refl, ◌⊎◌, inl, inr, true, false, List, [], ◌∷◌, Option, none, some, insert, lookup,
  lookup-insert, string_eq, Bool, sym, ap, ◌∙◌,
}
use cass_operator.Result.{continue_reconcile}
use cass_operator.Datacenter.{Datacenter}
use cass_operator.Pods.{value_at}
use cass_operator.Labels.{Labels, get_datacenter_labels, merge_map}
use cass_operator.Construct.StatefulSets.{resource_hash_annotation_key}
use cass_operator.Reconcile.World.{Answer, found, not_found, failed}
use cass_operator.Reconcile.Upgrade.{resources_have_same_hash}
use cass_operator.Policies.{
  NetworkPolicy, Call, create_policy, update_policy, Cluster,
  new_network_policy_for_cassandra_datacenter, carry_over_policy, result_of, update_unless_same,
  reconcile_policy, after_owner, check_network_policies,
}

abbrev pub AllSelects : Datacenter → NetworkPolicy → Type 0
AllSelects dc q = q.pod_selector ≡ get_datacenter_labels dc

-- The policy was there and nothing is sent, or it is the one that is sent, without a failure, and it selects the
-- datacenter's pods.
abbrev pub IsInPlace : Cluster → Datacenter → NetworkPolicy → List Call → Type 0
IsInPlace cluster dc q calls =
    ((cluster.read (new_network_policy_for_cassandra_datacenter cluster.hash dc).name ≡ found q)
      × (calls ≡ []))
    ⊎ ((c : Call) × (calls ≡ c ∷ [])
        × (cluster.failure c ≡ none)
        × ((c ≡ create_policy q) ⊎ (c ≡ update_policy q))
        × AllSelects dc q)

lookup-value_at : (k : String) (m : Labels) (v : String) → lookup k m ≡ some v → value_at k m ≡ v
lookup-value_at k m v e = ap (λ o. elim o [ none ↦ "" | some w ↦ w ]) e

resources_have_same_hash-lookup :
    (a b : Labels) (h : String)
    → lookup resource_hash_annotation_key a ≡ some h
    → lookup resource_hash_annotation_key b ≡ some h
    → resources_have_same_hash a b ≡ true
unfolding resources_have_same_hash
resources_have_same_hash-lookup [] b h ea eb = absurd (cc)
resources_have_same_hash-lookup (x ∷ a) [] h ea eb = absurd (cc)
resources_have_same_hash-lookup (x ∷ a) (y ∷ b) h ea eb = (string_eq.same_iff _ _).1 (
    lookup-value_at resource_hash_annotation_key (x ∷ a) h ea
    ∙ sym (lookup-value_at resource_hash_annotation_key (y ∷ b) h eb))

resources_have_same_hash-insert :
    (h : String) (m : Labels)
    → resources_have_same_hash
        (insert resource_hash_annotation_key h m)
        (insert resource_hash_annotation_key h [])
      ≡ true
resources_have_same_hash-insert h m =
    resources_have_same_hash-lookup (insert resource_hash_annotation_key h m) _ h
      (lookup-insert resource_hash_annotation_key resource_hash_annotation_key h m) refl

module _ (cluster : Cluster) (dc : Datacenter) where
  abbrev desired : NetworkPolicy
  desired = new_network_policy_for_cassandra_datacenter cluster.hash dc

  -- A policy with the hash of the desired one is in place.
  abbrev pub Reconciled : List Call → Type 0
  Reconciled calls =
      (q : NetworkPolicy) × IsInPlace cluster dc q calls
      × (resources_have_same_hash q.annotations desired.annotations ≡ true)

  desired-AllSelects : AllSelects dc desired
  unfolding new_network_policy_for_cassandra_datacenter
  desired-AllSelects = refl

  carry_over_policy-AllSelects :
      (current : NetworkPolicy) → AllSelects dc (carry_over_policy current desired)
  unfolding carry_over_policy new_network_policy_for_cassandra_datacenter
  carry_over_policy-AllSelects current = refl

  desired-same_hash : resources_have_same_hash desired.annotations desired.annotations ≡ true
  unfolding new_network_policy_for_cassandra_datacenter
  desired-same_hash = resources_have_same_hash-insert _ []

  carry_over_policy-same_hash :
      (current : NetworkPolicy)
      → resources_have_same_hash (carry_over_policy current desired).annotations desired.annotations
        ≡ true
  unfolding carry_over_policy new_network_policy_for_cassandra_datacenter merge_map
  carry_over_policy-same_hash current =
      resources_have_same_hash-insert _ (merge_map [] current.annotations)

  send_policy-Reconciled :
      (c : Call) (q : NetworkPolicy) (failure : Option String)
      → cluster.failure c ≡ failure
      → (c ≡ create_policy q) ⊎ (c ≡ update_policy q)
      → AllSelects dc q
      → resources_have_same_hash q.annotations desired.annotations ≡ true
      → result_of failure ≡ continue_reconcile
      → Reconciled (c ∷ [])
  send_policy-Reconciled c q none e sends selects same h =
      (q, inr (c, refl, e, sends, selects), same)
  send_policy-Reconciled c q (some x) e sends selects same h = absurd (cc)

  update_unless_same-Reconciled :
      (current : NetworkPolicy) (same : Bool)
      → cluster.read desired.name ≡ found current
      → resources_have_same_hash current.annotations desired.annotations ≡ same
      → (update_unless_same cluster current desired same).0 ≡ continue_reconcile
      → Reconciled (update_unless_same cluster current desired same).1
  update_unless_same-Reconciled current true e same h = (current, inl (e, refl), same)
  update_unless_same-Reconciled current false e same h =
      send_policy-Reconciled (update_policy (carry_over_policy current desired))
        (carry_over_policy current desired) _ refl (inr refl) (carry_over_policy-AllSelects current)
        (carry_over_policy-same_hash current) h

  reconcile_policy-Reconciled :
      (a : Answer NetworkPolicy)
      → cluster.read desired.name ≡ a
      → (reconcile_policy cluster desired a).0 ≡ continue_reconcile
      → Reconciled (reconcile_policy cluster desired a).1
  unfolding reconcile_policy
  reconcile_policy-Reconciled not_found e h =
      send_policy-Reconciled (create_policy desired) desired _ refl (inl refl) desired-AllSelects
        desired-same_hash h
  reconcile_policy-Reconciled (failed x) e h = absurd (cc)
  reconcile_policy-Reconciled (found current) e h = update_unless_same-Reconciled current _ e refl h

  after_owner-Reconciled :
      (o : Option String)
      → (after_owner cluster desired o).0 ≡ continue_reconcile
      → Reconciled (after_owner cluster desired o).1
  after_owner-Reconciled none h = reconcile_policy-Reconciled (cluster.read desired.name) refl h
  after_owner-Reconciled (some e) h = absurd (cc)

-- If CheckNetworkPolicies lets the reconciliation go on, then a policy with the hash of the datacenter's is in place: the
-- one that was read, and nothing was sent; or the one that the single call sent, which did not fail, and which
-- selects the datacenter's pods.
pub check_network_policies-Reconciled :
    (cluster : Cluster) (dc : Datacenter)
    → (check_network_policies cluster dc).0 ≡ continue_reconcile
    → Reconciled cluster dc (check_network_policies cluster dc).1
unfolding check_network_policies
check_network_policies-Reconciled cluster dc h =
    after_owner-Reconciled cluster dc cluster.owner_failure h
