-- ===== src/Construct/Containers.antt =====
-- The containers of a pod: buildInitContainers and buildContainers of construct_podtemplatespec.go.
use cass_operator.Prelude.{
  ℕ, String, append, Bool, true, not, List, [], ◌∷◌, ◌++◌, Option, none, some, ◌==◌, if◌then◌else◌,
  string_eq,
}
use cass_operator.Strings.{Text, codes, text_eq}
use cass_operator.Result.{Outcome, ok, err}
use cass_operator.Templates.{
  Resources, EnvVar, field_path, VolumeMount, Probe, http_get, exec, Lifecycle, Container,
  PodTemplateSpec,
}
use cass_operator.Datacenter.{Datacenter, DseWorkloads, is_node_port_enabled}
use cass_operator.Images.{
  get_cassandra_image, get_config_builder_image, get_system_logger_image, found,
  unknown_server_type, unsupported_version,
}
use cass_operator.Construct.Combine.{
  combine_volume_mount_slices, combine_env_slices, combine_port_slices, get_container_ports,
}
use cass_operator.Construct.Config.{Surroundings, env, get_config_data_env_vars}
use cass_operator.Construct.Security.{get_mgmt_api_wget_post_action}
use cass_operator.Construct.Volumes.{mount, generate_storage_config_volumes_mount}

abbrev pub empty_container : Container
empty_container = record {
  name = "";
  image = [];
  image_pull_policy = "";
  resources = none;
  env = [];
  ports = [];
  volume_mounts = [];
  liveness_probe = none;
  readiness_probe = none;
  lifecycle = none;
}

-- buildResourceRequirements, in thousandths of a processor and millions of bytes
abbrev build_resource_requirements : (cpu_millis memory_mb : ℕ) → Resources
build_resource_requirements cpu_millis memory_mb = record {
  requests_cpu = cpu_millis;
  limits_cpu = cpu_millis;
  requests_memory = memory_mb;
  limits_memory = memory_mb;
}

unfoldable pub get_resources_or_default : Option Resources → Resources → Resources
get_resources_or_default none default = default
get_resources_or_default (some resources) default = resources

-- The container of the name that the loop ends with: the first one, or the last one
unfoldable pub first_named : String → List Container → Option Container
first_named name [] = none
first_named name (c ∷ cs) = if c.name == name then some c else first_named name cs

unfoldable pub last_named : String → List Container → Option Container
last_named name [] = none
last_named name (c ∷ cs) = elim (last_named name cs) [
  | some d ↦ some d
  | none ↦ if c.name == name then some c else none
]

-- A changed container goes back to its place.
unfoldable pub put_first : Container → List Container → List Container
put_first new [] = new ∷ []
put_first new (c ∷ cs) = if c.name == new.name then new ∷ cs else c ∷ put_first new cs

unfoldable pub put_last? : Container → List Container → Option (List Container)
put_last? new [] = none
put_last? new (c ∷ cs) = elim (put_last? new cs) [
  | some cs' ↦ some (c ∷ cs')
  | none ↦ if c.name == new.name then some (new ∷ cs) else none
]

abbrev pub or_empty : Option Container → Container
or_empty none = empty_container
or_empty (some c) = c

unfoldable pub init_env : Datacenter → (rack_name : String) → List EnvVar → List EnvVar
init_env dc rack_name config_env =
    record { name = "POD_IP"; source = field_path "status.podIP" }
    ∷ record { name = "HOST_IP"; source = field_path "status.hostIP" }
    ∷ env "USE_HOST_IP_FOR_BROADCAST" (if is_node_port_enabled dc then "true" else "false")
    ∷ env "RACK_NAME" rack_name
    ∷ env "PRODUCT_VERSION" dc.spec.server_version
    ∷ env "PRODUCT_NAME" dc.spec.server_type
    ∷ env "DSE_VERSION" dc.spec.server_version
    ∷ config_env

abbrev config_builder_image : Surroundings → Datacenter → Text → Text
config_builder_image around dc image =
    if image == []
    then if dc.spec.config_builder_image == ""
      then get_config_builder_image around.environment
      else codes dc.spec.config_builder_image
    else image

unfoldable pub server_config_container :
    Surroundings → Datacenter → (rack_name : String) → List EnvVar → Container → Container
server_config_container around dc rack_name config_env c = record c {
  name = "server-config-init";
  image = config_builder_image around dc c.image;
  volume_mounts =
      combine_volume_mount_slices (mount "server-config" "/config" ∷ []) c.volume_mounts;
  resources = some (
      get_resources_or_default dc.spec.config_builder_resources
        (build_resource_requirements 1000 256));
  env = combine_env_slices (init_env dc rack_name config_env) c.env;
}

unfoldable pub build_init_containers :
    Surroundings → Datacenter → (rack_name : String) → PodTemplateSpec → Outcome PodTemplateSpec
build_init_containers around dc rack_name base = elim (get_config_data_env_vars around dc) [
  | err e ↦ err e
  | ok config_env ↦ ok (record base {
    init_containers =
        put_first
          (server_config_container around dc rack_name config_env
            (or_empty (first_named "server-config-init" base.init_containers)))
          base.init_containers;
  })
]

unfoldable pub make_image : Surroundings → Datacenter → Outcome Text
make_image around dc =
    if dc.spec.server_image == ""
    then elim (get_cassandra_image around.environment dc.spec.server_type dc.spec.server_version) [
      | found image ↦ ok image
      | unknown_server_type ↦ err "unknown server type"
      | unsupported_version ↦ err "unsupported server version"
    ]
    else ok (codes dc.spec.server_image)

abbrev get_jvm_extra_opts : DseWorkloads → String
get_jvm_extra_opts w = append (if w.analytics_enabled then "-Dspark-trackers=true " else "") (
    append (if w.graph_enabled then "-Dgraph-enabled=true " else "")
      (if w.search_enabled then "-Dsearch-service=true" else ""))

abbrev workload_env : Datacenter → List EnvVar
workload_env dc = elim dc.spec.dse_workloads [
  | none ↦ []
  | some w ↦
      if dc.spec.server_type == "dse" then env "JVM_EXTRA_OPTS" (get_jvm_extra_opts w) ∷ [] else []
]

unfoldable pub cassandra_env : Datacenter → List EnvVar
cassandra_env dc =
    env "DS_LICENSE" "accept"
    ∷ env "DSE_AUTO_CONF_OFF" "all"
    ∷ env "USE_MGMT_API" "true"
    ∷ env "MGMT_API_EXPLICIT_START" "true"
    ∷ env "DSE_MGMT_EXPLICIT_START" "true"
    ∷ workload_env dc

abbrev probe : (port : ℕ) → (path : String) → (init_delay period : ℕ) → Probe
probe port path init_delay period = record {
  handler = http_get port path;
  initial_delay_seconds = init_delay;
  period_seconds = period;
}

abbrev probe_or : Option Probe → Probe → Probe
probe_or none default = default
probe_or (some given) default = given

-- PreStop drains the node unless the user's template has an action of its own.
unfoldable pub pre_stop_lifecycle : Datacenter → Option Lifecycle → Outcome Lifecycle
pre_stop_lifecycle dc lifecycle =
    let given : Lifecycle = elim lifecycle [
      | none ↦ record { pre_stop = none; post_start = none }
      | some l ↦ l
    ] in
    elim given.pre_stop [
      | some action ↦ ok given
      | none ↦ elim (get_mgmt_api_wget_post_action dc "localhost:8080/api/v0/ops/node/drain" "") [
        | err e ↦ err e
        | ok command ↦ ok (record given { pre_stop = some (exec command) })
      ]
    ]

abbrev server_logs_mount : VolumeMount
server_logs_mount = mount "server-logs" "/var/log/cassandra"

unfoldable pub cassandra_mounts : Datacenter → List VolumeMount → List VolumeMount
cassandra_mounts dc given =
    let operators = combine_volume_mount_slices (mount "server-config" "/config" ∷ []) (
      server_logs_mount
      ∷ mount "server-data" "/var/lib/cassandra"
      ∷ mount "encryption-cred-storage" "/etc/encryption/"
      ∷ []) in
    combine_volume_mount_slices (combine_volume_mount_slices operators given)
      (generate_storage_config_volumes_mount dc)

unfoldable pub cassandra_container : Surroundings → Datacenter → Container → Outcome Container
cassandra_container around dc c =
    elim (if c.image == [] then make_image around dc else ok c.image) [
      | err e ↦ err e
      | ok image ↦ elim (pre_stop_lifecycle dc c.lifecycle) [
        | err e ↦ err e
        | ok lifecycle ↦ ok (record c {
          name = "cassandra";
          image = image;
          resources = elim c.resources [ none ↦ some dc.spec.resources | some r ↦ some r ];
          liveness_probe =
              some (probe_or c.liveness_probe (probe 8080 "/api/v0/probes/liveness" 15 15));
          readiness_probe =
              some (probe_or c.readiness_probe (probe 8080 "/api/v0/probes/readiness" 20 10));
          lifecycle = some lifecycle;
          env = combine_env_slices (cassandra_env dc) c.env;
          ports = combine_port_slices (get_container_ports dc) c.ports;
          volume_mounts = cassandra_mounts dc c.volume_mounts;
        })
      ]
    ]

abbrev logger_image : Surroundings → Datacenter → Container → Container
logger_image around dc c =
    if c.image == []
    then if dc.spec.system_logger_image == ""
      then record c {
        image = get_system_logger_image around.environment;
        image_pull_policy = "IfNotPresent";
      }
      else record c { image = codes dc.spec.system_logger_image }
    else c

unfoldable pub logger_container : Surroundings → Datacenter → Container → Container
logger_container around dc c = record (logger_image around dc c) {
  name = "server-system-logger";
  volume_mounts =
      combine_volume_mount_slices
        (combine_volume_mount_slices (server_logs_mount ∷ []) c.volume_mounts)
        (generate_storage_config_volumes_mount dc);
  resources = some (
      get_resources_or_default dc.spec.system_logger_resources
        (build_resource_requirements 100 64));
}

-- A container that was not there is appended if it is wanted.
unfoldable pub put_last : (wanted : Bool) → Container → List Container → List Container
unfolding put_last?
put_last wanted new cs = elim (put_last? new cs) [
  | some cs' ↦ cs'
  | none ↦ if wanted then cs ++ (new ∷ []) else cs
]

unfoldable pub with_containers :
    Surroundings → Datacenter → PodTemplateSpec → (cassandra : Container) → PodTemplateSpec
with_containers around dc base cassandra =
    let logger =
      logger_container around dc (or_empty (last_named "server-system-logger" base.containers)) in
    record base {
      containers =
          put_last (not dc.spec.disable_system_logger_sidecar) logger
            (put_last true cassandra base.containers);
    }

unfoldable pub build_containers :
    Surroundings → Datacenter → PodTemplateSpec → Outcome PodTemplateSpec
build_containers around dc base =
    elim (cassandra_container around dc (or_empty (last_named "cassandra" base.containers))) [
      | err e ↦ err e
      | ok cassandra ↦ ok (with_containers around dc base cassandra)
    ]
