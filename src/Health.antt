-- ===== src/Health.antt =====
-- The health status for vSphere: operator/pkg/psp/psp_status.go. Update writes the catalog and the health
-- document into two config maps.
pub mod Document
pub mod Laws
pub mod Alone
mod Examples
use cass_operator.Prelude.{
  String, Bool, true, false, List, [], ◌∷◌, Option, none, some, ◌==◌, lookup, insert, if◌then◌else◌,
  string_eq,
}
use cass_operator.Result.{Outcome, ok, err}
use cass_operator.Passing
use cass_operator.Passing.{pure, lift_outcome, ◌>>=◌, ◌>>◌, outcome_of}
use cass_operator.Datacenter.{Datacenter}
use cass_operator.Labels.{Labels, merge_map}
use cass_operator.Construct.StatefulSets.{resource_hash_annotation_key}
use cass_operator.Reconcile.World.{Answer, found, not_found, failed}
use cass_operator.Reconcile.Upgrade.{resources_have_same_hash}
use cass_operator.Health.Document.{
  Health, empty_health, update_health, build_catalog, marshal_map_to_properties,
}

abbrev pub health_check_name : String
health_check_name = "health-check-0"

abbrev pub catalog_name : String
catalog_name = "health-catalog-0"

abbrev pub health_label : String
health_label = "vmware.vsphere.health"

pub record ConfigMap : Type 0 where
  pub name : String
  pub namespace : String
  pub labels : Labels
  pub annotations : Labels
  pub values : List (String × String)  -- the field Data
  pub binary_data : List (String × String)
  pub resource_version : String

pub data Call : Type 0 where
  create_config_map update_config_map : ConfigMap → Call

abbrev pub Trace : Type 0
Trace = List Call

-- `namespace` is that of the operator; `marshal` and `unmarshal` are gopkg.in/yaml.v2 on the document,
-- `hash` is deepHashString, and `range` is the order in which Go ranges over the catalog.
pub record Settings : Type 0 where
  pub namespace : String
  pub failure : Trace → Call → Option String
  pub read : Trace → (name : String) → Answer ConfigMap
  pub marshal : Health → Outcome String
  pub unmarshal : String → Outcome Health
  pub hash : ConfigMap → String
  pub range : Labels → Labels

abbrev pub M : Type 0 → Type 0
M A = Passing.M Trace A

unfoldable pub perform : Settings → Call → M (Unit {0})
perform cfg c t = (outcome_of (cfg.failure t c), c ∷ t)

unfoldable pub new_config_map : (name namespace : String) → ConfigMap
new_config_map name namespace = record {
  name = name;
  namespace = namespace;
  labels = [];
  annotations = [];
  values = [];
  binary_data = [];
  resource_version = "";
}

-- The hash is that of the map before it has a label.
unfoldable pub finish : Settings → (label_value : String) → ConfigMap → ConfigMap
finish cfg label_value m = record m {
  annotations = insert resource_hash_annotation_key (cfg.hash m) m.annotations;
  labels = merge_map (merge_map [] m.labels) ((health_label, label_value) ∷ []);
}

-- The caller drops the error of `yaml.Marshal`.
unfoldable pub save_health_check_to_config_map : Outcome String → ConfigMap → ConfigMap
save_health_check_to_config_map (err e) m = m
save_health_check_to_config_map (ok raw) m = record m { values = insert "health" raw m.values }

unfoldable pub create_health_check_config_map : Settings → Health → ConfigMap
create_health_check_config_map cfg health = finish cfg "health" (
    save_health_check_to_config_map (cfg.marshal health)
      (new_config_map health_check_name cfg.namespace))

unfoldable pub create_catalog_config_map : Settings → (catalog : Labels) → ConfigMap
create_catalog_config_map cfg catalog =
    finish cfg "catalog" (record (new_config_map catalog_name cfg.namespace) {
      values = insert "health_en" (marshal_map_to_properties (cfg.range catalog)) [];
    })

abbrev pub parsed : Settings → Option String → Outcome Health
parsed cfg none = ok empty_health
parsed cfg (some raw) = cfg.unmarshal raw

unfoldable pub load_health_from_config_map : Settings → ConfigMap → Outcome Health
load_health_from_config_map cfg m = parsed cfg (lookup "health" m.binary_data)

abbrev pub present : Answer ConfigMap → Outcome (Option ConfigMap)
present (found m) = ok (some m)
present not_found = ok none
present (failed e) = err e

unfoldable pub get_config_map : Settings → (name : String) → M (Option ConfigMap)
get_config_map cfg name t = (present (cfg.read t name), t)

-- The existing map becomes a copy of the new one, but for its version.
unfoldable pub overwritten : (existing m : ConfigMap) → ConfigMap
overwritten existing m = record m {
  labels = merge_map (merge_map [] existing.labels) m.labels;
  annotations = merge_map (merge_map [] existing.annotations) m.annotations;
  resource_version = existing.resource_version;
}

unfoldable pub store : Settings → ConfigMap → (existing : Option ConfigMap) → M (Unit {0})
store cfg m none = perform cfg (create_config_map m)
store cfg m (some existing) =
    if resources_have_same_hash m.annotations existing.annotations
    then pure tt
    else perform cfg (update_config_map (overwritten existing m))

unfoldable pub upsert_config_map : Settings → ConfigMap → M (Unit {0})
upsert_config_map cfg m = do existing ← get_config_map cfg m.name; store cfg m existing

unfoldable pub load : Settings → Option ConfigMap → Outcome Health
load cfg none = ok empty_health
load cfg (some m) = load_health_from_config_map cfg m

unfoldable pub get_health_data : Settings → M Health
get_health_data cfg = do m ← get_config_map cfg health_check_name; lift_outcome (load cfg m)

unfoldable pub update : Settings → Datacenter → M (Unit {0})
update cfg dc = do
  upsert_config_map cfg (create_catalog_config_map cfg build_catalog)
  health ← get_health_data cfg
  upsert_config_map cfg (create_health_check_config_map cfg (update_health health dc))
