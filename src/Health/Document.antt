-- ===== src/Health/Document.antt =====
-- The health document of operator/pkg/psp/psp_status.go, which has an entry for each datacenter.
use cass_operator.Prelude.{
  ℕ, zero, suc, String, append, Bool, ◌&&◌, ◌||◌, List, [], ◌∷◌, ◌++◌, Option, none, some, ◌==◌,
  if◌then◌else◌, string_eq,
}
use cass_operator.Datacenter.{
  Datacenter, ConditionType, ready, replacing_nodes, scaling_up, updating, resuming,
  rolling_restart, status_true, status_false,
}
use cass_operator.Conditions.{get_condition_status, status_eq}
use cass_operator.Labels.{Labels, merge_map}

-- The values that a `map[string]interface{}` holds
mutual
  pub data Value : Type 0 where
    text : String → Value
    list : Values → Value
    object : Fields → Value

  pub data Values : Type 0 where
    no_value : Values
    value : Value → Values → Values

  pub data Fields : Type 0 where
    no_field : Fields
    field : (name : String) → Value → Fields → Fields

pub data HealthStatus : Type 0 where
  green yellow red : HealthStatus

pub record InstanceHealth : Type 0 where
  pub instance_name : String
  pub namespace : String
  pub health : HealthStatus

-- `none` is the nil specification of `&Health{}`.
pub record Health : Type 0 where
  pub spec : Option Fields
  pub instance_health : List InstanceHealth

abbrev pub empty_health : Health
empty_health = record { spec = none; instance_health = [] }

abbrev named_string : (name : String) → Value
named_string name = object (field "name" (text name) (field "type" (text "string") no_field))

unfoldable pub instance_health_schema : Fields
instance_health_schema = field "name" (text "instanceHealth") (
    field "fields"
      (list (
        value (named_string "instance")
          (value (named_string "namespace") (value (named_string "health") no_value))))
      no_field)

unfoldable pub build_schema : Fields
build_schema =
    field "name" (text "CassandraDatacenter")
      (field "healthchecks" (list (value (object instance_health_schema) no_value)) no_field)

abbrev pub degraded_when_true : List ConditionType
degraded_when_true = replacing_nodes ∷ scaling_up ∷ updating ∷ resuming ∷ rolling_restart ∷ []

-- The loop over the conditions, which ends at the first that is true
unfoldable pub status_by : Datacenter → List ConditionType → HealthStatus
status_by dc [] = green
status_by dc (t ∷ ts) =
    if get_condition_status t dc.status.conditions == status_true then yellow else status_by dc ts

unfoldable pub health_status : Datacenter → HealthStatus
health_status dc =
    if get_condition_status ready dc.status.conditions == status_false
      || get_condition_status resuming dc.status.conditions == status_true
    then red
    else status_by dc degraded_when_true

unfoldable pub create_instance_health : Datacenter → InstanceHealth
create_instance_health dc = record {
  instance_name = dc.name;
  namespace = dc.namespace;
  health = health_status dc;
}

abbrev pub is_of : (name namespace : String) → InstanceHealth → Bool
is_of name namespace h = h.instance_name == name && h.namespace == namespace

-- The index of the datacenter's first entry
unfoldable pub index_of : (name namespace : String) → List InstanceHealth → Option ℕ
index_of name namespace [] = none
index_of name namespace (h ∷ hs) =
    let rest = index_of name namespace hs in
    if is_of name namespace h then some zero else elim rest [ none ↦ none | some i ↦ some (suc i) ]

unfoldable pub set_at : ℕ → InstanceHealth → List InstanceHealth → List InstanceHealth
set_at i h [] = []
set_at zero h (g ∷ gs) = h ∷ gs
set_at (suc i) h (g ∷ gs) = g ∷ set_at i h gs

unfoldable pub with_instance : InstanceHealth → Option ℕ → List InstanceHealth → List InstanceHealth
with_instance h none hs = hs ++ (h ∷ [])
with_instance h (some i) hs = set_at i h hs

unfoldable pub update_health : Health → Datacenter → Health
update_health health dc = record {
  spec = some build_schema;
  instance_health =
      with_instance (create_instance_health dc)
        (index_of dc.name dc.namespace health.instance_health) health.instance_health;
}

unfoldable pub prefix_keys : Labels → (prefix : String) → Labels
prefix_keys [] prefix = []
prefix_keys ((k, v) ∷ m) prefix = (append prefix k, v) ∷ prefix_keys m prefix

abbrev description : String
description =
    "Provides the overall health of each Cassandra datacenter. A value of 'green' means the datacenter is available and all of its nodes are in good working order. A value of 'yellow' means that the datacenter is available, but some node may be down (e.g. there might be a rolling restart in progress). A value of 'red' means the cluster is not available (e.g. several nodes are down)."

unfoldable pub build_instance_health_catalog : Labels
build_instance_health_catalog =
    ("testname", "Instance Health")
    ∷ ("short", "Health of cassandra datacenter")
    ∷ ("desc", description)
    ∷ ("table.label", "CassandraDatacenter Instances")
    ∷ ("columns.instance", "CassandraDatacenter Instance")
    ∷ ("columns.namespace", "Namespace")
    ∷ ("columns.health", "Health")
    ∷ []

unfoldable pub build_catalog : Labels
build_catalog =
    merge_map [] (prefix_keys build_instance_health_catalog "CassandraDatacenter.instaceHealth.")

unfoldable pub marshal_map_to_properties : Labels → String
marshal_map_to_properties [] = ""
marshal_map_to_properties ((k, v) ∷ m) =
    append (append (append k "=") (append v "\n")) (marshal_map_to_properties m)
