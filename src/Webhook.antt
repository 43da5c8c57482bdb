-- ===== src/Webhook.antt =====
-- The admission checks of operator/pkg/apis/cassandra/v1beta1/webhook.go. `top_level_keys` stands for
-- `json.Unmarshal` of the configuration: the keys of the object, or none if the text is not one.
pub mod Accepted
pub mod Growth
mod Examples
use cass_operator.Prelude.{
  ℕ, zero, suc, String, ◌+◌, ◌-◌, ◌*◌, Bool, true, false, not, ◌&&◌, ◌||◌, List, [], ◌∷◌, Option,
  none, some, length, get_elem?, contains, ◌==◌, leb, ltb, if◌then◌else◌, nat_eq, string_eq,
}
use cass_operator.Strings.{codes, has_prefix}
use cass_operator.Datacenter.{same_storage, Datacenter, Rack, DseWorkloads, Resources, get_racks}
use cass_operator.Racks.{split_racks}
use cass_operator.Images.{is_dse_version_supported, is_oss_version_supported}

-- What the write attempted to do.
pub data Rejection : Type 0 where
  unsupported_dse_version dse_workloads_on_cassandra unsupported_cassandra_version : Rejection
  jvm_options_defined jvm_server_options_defined dse_yaml_defined : Rejection
  multiple_nodes_without_resources : Rejection
  change_cluster_name change_allow_multiple_nodes change_superuser_secret_name : Rejection
  change_service_account change_storage_config remove_rack add_rack_same_size : Rejection
  add_rack_too_small change_rack_name change_rack_zone not_a_datacenter : Rejection

pub any_workload : Option DseWorkloads → Bool
any_workload none = false
any_workload (some w) = w.analytics_enabled || w.graph_enabled || w.search_enabled

pub lacks_resources : Resources → Bool
lacks_resources r =
    r.requests_cpu == 0 || r.limits_cpu == 0 || r.requests_memory == 0 || r.limits_memory == 0

-- `none` is Go's nil error.
pub validate_single_datacenter :
    (top_level_keys : String → List String) → Datacenter → Option Rejection
unfolding any_workload lacks_resources
validate_single_datacenter top_level_keys dc =
    let is_dse = server_type == "dse" in
    let is_cassandra = server_type == "cassandra" in
    let is_cassandra3 = is_cassandra && has_prefix (codes server_version) (codes "3.") in
    let is_cassandra4 = is_cassandra && has_prefix (codes server_version) (codes "4.") in
    let c = top_level_keys config in
    if is_dse && not (is_dse_version_supported server_version)
    then some unsupported_dse_version
    else if is_cassandra && any_workload dse_workloads
    then some dse_workloads_on_cassandra
    else if is_cassandra && not (is_oss_version_supported server_version)
    then some unsupported_cassandra_version
    else if contains "jvm-options" c && (is_dse || is_cassandra4)
    then some jvm_options_defined
    else if contains "jvm-server-options" c && is_cassandra3
    then some jvm_server_options_defined
    else if contains "dse-yaml" c && (is_cassandra3 || is_cassandra4)
    then some dse_yaml_defined
    else if allow_multiple_nodes_per_worker && lacks_resources resources
    then some multiple_nodes_without_resources
    else none
  where
    open dc.spec use {
      server_type, server_version, config, dse_workloads, allow_multiple_nodes_per_worker,
      resources,
    }

-- `oldRackNodeSplit[len(oldRackNodeSplit)-1]`; the split is never empty.
last_of : List ℕ → ℕ
last_of [] = 0
last_of (n ∷ []) = n
last_of (n ∷ m ∷ ms) = last_of (m ∷ ms)

-- The loop over the old racks, with the new rack of the same index.
compare_racks : List Rack → List Rack → Option Rejection
compare_racks [] new = none
compare_racks (o ∷ os) [] = none
compare_racks (o ∷ os) (n ∷ ns) =
    let rest = compare_racks os ns in
    if not (o.name == n.name)
    then some change_rack_name
    else if not (o.zone == n.zone)
    then some change_rack_zone
    else rest

-- `old_size` and `new_size` are compared before they are subtracted, which in Go gives a difference
-- of at most zero there.
check_new_racks : (old_size new_size old_count new_rack_count : ℕ) → Option Rejection
unfolding last_of
check_new_racks old_size new_size old_count zero = none
check_new_racks old_size new_size old_count (suc k) =
    let min_size_adjustment = last_of (split_racks old_size old_count) * suc k in
    if leb new_size old_size
    then some add_rack_same_size
    else if ltb (new_size - old_size) min_size_adjustment
    then some add_rack_too_small
    else none

or_else : Option Rejection → Option Rejection → Option Rejection
or_else none later = later
or_else (some r) later = some r

pub validate_datacenter_field_changes : (old_dc new_dc : Datacenter) → Option Rejection
unfolding compare_racks check_new_racks or_else
validate_datacenter_field_changes old_dc new_dc =
    let old = old_dc.spec in
    let new = new_dc.spec in
    let old_racks = get_racks old_dc in
    let new_racks = get_racks new_dc in
    if not (old.cluster_name == new.cluster_name)
    then some change_cluster_name
    else if differ old.allow_multiple_nodes_per_worker new.allow_multiple_nodes_per_worker
    then some change_allow_multiple_nodes
    else if not (old.superuser_secret_name == new.superuser_secret_name)
    then some change_superuser_secret_name
    else if not (old.service_account == new.service_account)
    then some change_service_account
    else if not (same_storage old.storage_config new.storage_config)
    then some change_storage_config
    else if ltb (length new_racks) (length old_racks)
    then some remove_rack
    else or_else
        (check_new_racks old.size new.size (length old_racks) (length new_racks - length old_racks))
        (compare_racks old_racks new_racks)
  where
    differ : Bool → Bool → Bool
    differ a b = if a then not b else b

pub validate_create : (String → List String) → Datacenter → Option Rejection
validate_create top_level_keys dc = validate_single_datacenter top_level_keys dc

-- `none` for an old object that is not a CassandraDatacenter.
pub validate_update :
    (String → List String) → (old : Option Datacenter) → Datacenter → Option Rejection
unfolding or_else
validate_update top_level_keys none dc = some not_a_datacenter
validate_update top_level_keys (some old) dc =
    or_else (validate_single_datacenter top_level_keys dc)
      (validate_datacenter_field_changes old dc)

pub validate_delete : Datacenter → Option Rejection
validate_delete dc = none
