-- ===== src/Policies/Examples.antt =====
-- The theorem on network policies where a policy with another hash is there.
use cass_operator.Prelude.{◌≡◌, refl, [], ◌∷◌, none}
use cass_operator.Result.{continue_reconcile}
use cass_operator.Datacenter.{Datacenter}
use cass_operator.Fixtures.{datacenter, rack}
use cass_operator.Reconcile.World.{found}
use cass_operator.Reconcile.Upgrade.{resources_have_same_hash}
use cass_operator.Construct.StatefulSets.{resource_hash_annotation_key}
use cass_operator.Policies.{
  NetworkPolicy, Cluster, new_network_policy_for_cassandra_datacenter, reconcile_policy,
  check_network_policies,
}
use cass_operator.Policies.InPlace.{Reconciled, check_network_policies-Reconciled}

abbrev some_datacenter : Datacenter
some_datacenter = datacenter "cassandra" "3.11.7" 1 (rack "r1" ∷ [])

abbrev old_policy : NetworkPolicy
old_policy = record {
  name = "dc1-management-api-ingress";
  namespace = "ns";
  labels = ("team", "a") ∷ [];
  annotations = (resource_hash_annotation_key, "old") ∷ [];
  pod_selector = [];
  policy_types = [];
  ingress = [];
  resource_version = "3";
}

abbrev some_cluster : Cluster
some_cluster = record {
  hash = λ q. "new";
  owner_failure = none;
  read = λ name. found old_policy;
  failure = λ c. none;
}

some_cluster-goes_on : (check_network_policies some_cluster some_datacenter).0 ≡ continue_reconcile
unfolding check_network_policies reconcile_policy resources_have_same_hash
    new_network_policy_for_cassandra_datacenter
some_cluster-goes_on = refl

check_network_policies-Reconciled_example :
    Reconciled some_cluster some_datacenter (check_network_policies some_cluster some_datacenter).1
check_network_policies-Reconciled_example =
    check_network_policies-Reconciled some_cluster some_datacenter some_cluster-goes_on
