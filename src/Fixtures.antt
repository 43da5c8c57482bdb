-- ===== src/Fixtures.antt =====
-- Small datacenters and pods that the examples are about.
use cass_operator.Prelude.{ℕ, String, Bool, true, false, List, [], ◌∷◌, none, some}
use cass_operator.Datacenter.{
  Datacenter, ServiceConfig, ServiceConfigAdditions, Rack, Resources, progress_none,
}
use cass_operator.Pods.{Pod, cass_node_state, rack_label}

abbrev pub rack : String → Rack
rack n = record { name = n; zone = ""; node_affinity_labels = [] }

abbrev pub some_resources : Resources
some_resources = record { requests_cpu = 1; limits_cpu = 2; requests_memory = 3; limits_memory = 4 }

abbrev no_addition : ServiceConfigAdditions
no_addition = record { labels = []; annotations = [] }

abbrev no_additions : ServiceConfig
no_additions = record {
  datacenter_service = no_addition;
  seed_service = no_addition;
  all_pods_service = no_addition;
  additional_seed_service = no_addition;
  node_port_service = no_addition;
}

abbrev pub datacenter : (server_type version : String) → (size : ℕ) → List Rack → Datacenter
datacenter server_type version size racks = record {
  name = "dc1";
  namespace = "ns";
  generation = 1;
  annotations = [];
  finalizers = [];
  is_deleted = false;
  spec = record {
    size = size;
    server_version = version;
    server_type = server_type;
    cluster_name = "cluster1";
    config = "";
    racks = racks;
    storage_config = record {
      cassandra_data_volume_claim_spec = some "claim";
      additional_volumes = [];
    };
    superuser_secret_name = "";
    service_account = "";
    allow_multiple_nodes_per_worker = true;
    resources = some_resources;
    networking = none;
    dse_workloads = none;
    additional_seeds = [];
    stopped = false;
    replace_nodes = [];
    server_image = "";
    docker_image_runs_as_cassandra = none;
    config_secret = "";
    management_api_auth = record { insecure = false; manual = none };
    node_affinity_labels = [];
    system_logger_resources = none;
    config_builder_resources = none;
    config_builder_image = "";
    canary_upgrade = false;
    canary_upgrade_count = 0;
    rolling_restart_requested = false;
    node_selector = [];
    force_upgrade_racks = [];
    pod_template_spec = none;
    users = [];
    disable_system_logger_sidecar = false;
    system_logger_image = "";
    tolerations = [];
    additional_service_config = no_additions;
  };
  status = record {
    conditions = [];
    cassandra_operator_progress = progress_none;
    node_statuses = [];
    node_replacements = [];
    last_server_node_started = 0;
    last_rolling_restart = 0;
    super_user_upserted = 0;
    users_upserted = 0;
    quiet_period = 0;
    observed_generation = 0;
  };
}

-- A pod of a rack in a state, its container ready or not
abbrev pub pod : (name node rack_name state : String) → (ready : Bool) → Pod
pod name node rack_name state is_ready = record {
  name = name;
  node_name = node;
  labels = (rack_label, rack_name) ∷ (cass_node_state, state) ∷ [];
  annotations = [];
  pod_ip = "10.0.0.1";
  host_ip = "10.1.0.1";
  is_pending = false;
  creation_timestamp = 0;
  container_statuses =
      record { name = "cassandra"; ready = is_ready; running_since = some 5; terminated_at = none }
      ∷ [];
  conditions = [];
}
