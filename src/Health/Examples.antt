-- ===== src/Health/Examples.antt =====
-- The theorems on the health document at a datacenter that scales up, with another one's entry stored.
use cass_operator.Prelude.{
  ◌≡◌, refl, sym, ap, String, Option, lookup, string_eq, [], ◌∷◌, none, some, if◌then◌else◌,
}
use cass_operator.Result.{ok}
use cass_operator.Datacenter.{Datacenter, scaling_up, ready, status_true}
use cass_operator.Conditions.{new_datacenter_condition, get_condition_status, status_beq, type_beq}
use cass_operator.Fixtures.{datacenter, rack}
use cass_operator.Reconcile.World.{Answer, found, not_found, failed}
use cass_operator.Health.{Settings, ConfigMap, health_check_name, update}
use cass_operator.Health.Document.{
  Health, green, yellow, update_health, create_instance_health, health_status, status_by,
}
use cass_operator.Health.Laws.{find_health, is_pair, find_health-update_health}
use cass_operator.Health.Alone.{AllSend, alone, NoBinary, update-IsAlone}

abbrev some_datacenter : Datacenter
unfolding new_datacenter_condition
some_datacenter =
    let dc = datacenter "cassandra" "3.11.7" 1 (rack "r1" ∷ []) in
    record dc {
      status = record dc.status {
        conditions =
            new_datacenter_condition ready status_true
            ∷ new_datacenter_condition scaling_up status_true
            ∷ [];
      };
    }

abbrev some_health : Health
some_health = record {
  spec = none;
  instance_health =
      record { instance_name = "dc2"; namespace = "ns"; health = green }
      ∷ record { instance_name = "dc1"; namespace = "ns"; health = green }
      ∷ [];
}

find_health-update_health_example :
    find_health "dc2" "ns" (update_health some_health some_datacenter).instance_health
    ≡ (if is_pair "dc1" "ns" "dc2" "ns" then some (health_status some_datacenter) else some green)
unfolding some_datacenter
find_health-update_health_example = find_health-update_health some_health some_datacenter "dc2" "ns"

scaling-is_yellow : health_status some_datacenter ≡ yellow
unfolding health_status status_by new_datacenter_condition status_beq get_condition_status type_beq
scaling-is_yellow = refl

-- The config map as Update writes it
abbrev some_config_map : ConfigMap
some_config_map = record {
  name = health_check_name;
  namespace = "operator";
  labels = [];
  annotations = [];
  values = ("health", "the entry of dc2") ∷ [];
  binary_data = [];
  resource_version = "7";
}

abbrev some_settings : Settings
some_settings = record {
  namespace = "operator";
  failure = λ t c. none;
  read = λ t name. found some_config_map;
  marshal = λ health. ok "document";
  unmarshal = λ raw. ok some_health;
  hash = λ m. "h";
  range = λ m. m;
}

abbrev binary_document : Answer ConfigMap → Option String
binary_document (found m) = lookup "health" m.binary_data
binary_document not_found = none
binary_document (failed e) = none

some_settings-NoBinary : NoBinary some_settings
some_settings-NoBinary t m e = ap binary_document (sym e)

update-IsAlone_example :
    AllSend some_settings (alone some_datacenter) (update some_settings some_datacenter []).1
    × ((alone some_datacenter).instance_health ≡ create_instance_health some_datacenter ∷ [])
update-IsAlone_example = update-IsAlone some_settings some_datacenter some_settings-NoBinary
