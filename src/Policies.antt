-- ===== src/Policies.antt =====
-- The network policy of a datacenter, which admits the operator's requests on vSphere:
-- operator/pkg/psp/networkpolicies.go.
pub mod InPlace
mod Examples
use cass_operator.Prelude.{
  String, append, Bool, true, false, List, [], ◌∷◌, Option, none, some, insert, string_eq,
}
use cass_operator.Result.{ReconcileResult, continue_reconcile, error_out}
use cass_operator.Datacenter.{Datacenter}
use cass_operator.Labels.{Labels, get_datacenter_labels, add_managed_by_label, merge_map}
use cass_operator.Construct.StatefulSets.{resource_hash_annotation_key}
use cass_operator.Reconcile.World.{Answer, found, not_found, failed}
use cass_operator.Reconcile.Upgrade.{resources_have_same_hash}

-- A rule that names no peer and no port admits every request.
pub record IngressRule : Type 0 where
  pub from : List String
  pub ports : List String

pub record NetworkPolicy : Type 0 where
  pub name : String
  pub namespace : String
  pub labels : Labels
  pub annotations : Labels
  pub pod_selector : Labels
  pub policy_types : List String
  pub ingress : List IngressRule
  pub resource_version : String

pub data Call : Type 0 where
  create_policy update_policy : NetworkPolicy → Call

-- `hash` is deepHashString; `owner_failure` is the error of SetDatacenterAsOwner.
pub record Cluster : Type 0 where
  pub hash : NetworkPolicy → String
  pub owner_failure : Option String
  pub read : (name : String) → Answer NetworkPolicy
  pub failure : Call → Option String

abbrev open_rule : IngressRule
open_rule = record { from = []; ports = [] }

abbrev bare_policy : Datacenter → NetworkPolicy
bare_policy dc = record {
  name = append dc.name "-management-api-ingress";
  namespace = dc.namespace;
  labels = add_managed_by_label (get_datacenter_labels dc);
  annotations = [];
  pod_selector = get_datacenter_labels dc;
  policy_types = "Ingress" ∷ [];
  ingress = open_rule ∷ [];
  resource_version = "";
}

unfoldable pub new_network_policy_for_cassandra_datacenter :
    (hash : NetworkPolicy → String) → Datacenter → NetworkPolicy
new_network_policy_for_cassandra_datacenter hash dc = record (bare_policy dc) {
  annotations = insert resource_hash_annotation_key (hash (bare_policy dc)) [];
}

-- Labels and annotations that were added later are kept, and so is the version.
unfoldable pub carry_over_policy : (current desired : NetworkPolicy) → NetworkPolicy
carry_over_policy current desired = record desired {
  labels = merge_map (merge_map [] current.labels) desired.labels;
  annotations = merge_map (merge_map [] current.annotations) desired.annotations;
  resource_version = current.resource_version;
}

abbrev pub result_of : Option String → ReconcileResult
result_of none = continue_reconcile
result_of (some e) = error_out e

abbrev pub send_policy : Cluster → Call → ReconcileResult × List Call
send_policy cluster c = (result_of (cluster.failure c), c ∷ [])

abbrev pub update_unless_same :
    Cluster → (current desired : NetworkPolicy) → (same : Bool) → ReconcileResult × List Call
update_unless_same cluster current desired true = (continue_reconcile, [])
update_unless_same cluster current desired false =
    send_policy cluster (update_policy (carry_over_policy current desired))

unfoldable pub reconcile_policy :
    Cluster → (desired : NetworkPolicy) → Answer NetworkPolicy → ReconcileResult × List Call
reconcile_policy cluster desired not_found = send_policy cluster (create_policy desired)
reconcile_policy cluster desired (failed e) = (error_out e, [])
reconcile_policy cluster desired (found current) =
    update_unless_same cluster current desired
      (resources_have_same_hash current.annotations desired.annotations)

abbrev pub after_owner :
    Cluster
    → (desired : NetworkPolicy) → (owner_failure : Option String) → ReconcileResult × List Call
after_owner cluster desired (some e) = (error_out e, [])
after_owner cluster desired none = reconcile_policy cluster desired (cluster.read desired.name)

unfoldable pub check_network_policies : Cluster → Datacenter → ReconcileResult × List Call
check_network_policies cluster dc =
    after_owner cluster (new_network_policy_for_cassandra_datacenter cluster.hash dc)
      cluster.owner_failure
