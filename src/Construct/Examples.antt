-- ===== src/Construct/Examples.antt =====
-- The theorem on a stateful set's mounts at a rack whose storage section has a volume more and whose management API
-- is secured.
use cass_operator.Prelude.{◌≡◌, refl, true, false, [], ◌∷◌, some}
use cass_operator.Result.{Outcome, ok, err}
use cass_operator.Templates.{StatefulSet}
use cass_operator.Datacenter.{Datacenter}
use cass_operator.Fixtures.{datacenter, rack}
use cass_operator.Labels.{get_rack_labels}
use cass_operator.Construct.Config.{Surroundings, get_config_data_env_vars, get_config_as_json}
use cass_operator.Construct.Security.{
  get_mgmt_api_wget_post_action, build_management_api_security_provider,
  build_manual_api_security_provider, build_insecure_management_api_security_provider,
  select_provider,
}
use cass_operator.Construct.Containers.{
  build_init_containers, make_image, pre_stop_lifecycle, cassandra_container, build_containers,
  last_named, empty_container,
}
use cass_operator.Construct.PodTemplate.{
  build_pod_template_spec, base_template, with_scheduling, with_pod_settings,
}
use cass_operator.Construct.Volumes.{add_volumes, mount, volume_defaults}
use cass_operator.Construct.StatefulSets.{new_stateful_set, assemble}
use cass_operator.Pods.Filters.{map_contains}
use cass_operator.Construct.Services.{
  new_service_for_cassandra_datacenter, new_all_pods_service_for_cassandra_datacenter,
  new_node_port_service_for_cassandra_datacenter,
}
use cass_operator.Construct.Selected.{new_stateful_set-IsSelected}
use cass_operator.Construct.Secured.{StatefulSetIsWired, new_stateful_set-IsWired}

abbrev surroundings : Surroundings
surroundings = record {
  environment = record { registry_override = []; base_image_os = []; pull_secrets = "" };
  psp_enabled = true;
  extension_id = "com.datastax.vulcan";
  merge_json = λ values config. ok "{}";
  hash = λ sts. "h";
}

abbrev plain : Datacenter
plain = datacenter "cassandra" "3.11.7" 3 (rack "r1" ∷ [])

abbrev some_datacenter : Datacenter
some_datacenter = record plain {
  spec = record plain.spec {
    server_image = "image";
    pod_template_spec = some (record (base_template plain) {
      containers =
          record empty_container {
            name = "cassandra";
            volume_mounts = mount "server-logs" "/logs" ∷ [];
          }
          ∷ [];
    });
    storage_config = record {
      cassandra_data_volume_claim_spec = some "claim";
      additional_volumes = record { mount_path = "/more"; name = "more"; pvc_spec = "claim" } ∷ [];
    };
    management_api_auth = record {
      insecure = false;
      manual = some (record {
        client_secret_name = "client";
        server_secret_name = "server";
        skip_secret_validation = false;
      });
    };
  };
}

abbrev or_else : Outcome StatefulSet → StatefulSet → StatefulSet
or_else (ok sts) default = sts
or_else (err e) default = default

abbrev built : StatefulSet
built =
    or_else (new_stateful_set surroundings "r1" some_datacenter 0 false)
      (assemble plain "r1" 0 [] (base_template plain))

built_lem : new_stateful_set surroundings "r1" some_datacenter 0 false ≡ ok built
unfolding new_stateful_set build_pod_template_spec build_init_containers get_config_data_env_vars
    get_config_as_json build_containers cassandra_container make_image pre_stop_lifecycle
    get_mgmt_api_wget_post_action build_management_api_security_provider select_provider
    build_manual_api_security_provider build_insecure_management_api_security_provider last_named
    add_volumes with_scheduling with_pod_settings
built_lem = refl

new_stateful_set-IsWired_example : StatefulSetIsWired built
unfolding last_named volume_defaults
new_stateful_set-IsWired_example =
    new_stateful_set-IsWired surroundings "r1" some_datacenter 0 false built (refl, tt) built_lem

new_stateful_set-IsSelected_example :
    (built.selector ≡ get_rack_labels some_datacenter "r1")
    × (map_contains built.template.labels built.selector ≡ true)
    × (map_contains built.template.labels
          (new_service_for_cassandra_datacenter (λ service. "h") some_datacenter).selector
        ≡ true)
    × (map_contains built.template.labels
          (new_all_pods_service_for_cassandra_datacenter (λ service. "h") some_datacenter).selector
        ≡ true)
    × (map_contains built.template.labels
          (new_node_port_service_for_cassandra_datacenter some_datacenter).selector
        ≡ true)
new_stateful_set-IsSelected_example =
    new_stateful_set-IsSelected surroundings "r1" some_datacenter 0 false built (λ service. "h")
      built_lem
