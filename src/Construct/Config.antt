-- ===== src/Construct/Config.antt =====
-- The configuration that goes to the config builder: GetConfigAsJSON of cassandradatacenter_types.go,
-- GetModelValues of configgen.go and getConfigDataEnVars of construct_podtemplatespec.go. What a build
-- reads from outside is a `Surroundings`: the environment, and encoding/json with gabs as one function that
-- merges a user's configuration into the model's values.
use cass_operator.Prelude.{
  ℕ, String, append, Bool, not, List, [], ◌∷◌, Option, none, some, lookup, ◌==◌, if◌then◌else◌,
  string_eq, nat_eq,
}
use cass_operator.Result.{Outcome, ok, err}
use cass_operator.Templates.{EnvVar, plain_value, secret_key, StatefulSet}
use cass_operator.Datacenter.{Datacenter, NodePortConfig}
use cass_operator.Labels.{get_seed_service_name, get_additional_seeds_service_name}
use cass_operator.Images.{Environment}

pub record ModelValues : Type 0 where
  pub cluster_name : String
  pub seeds : String
  pub datacenter_name : String
  pub graph_enabled : ℕ
  pub solr_enabled : ℕ
  pub spark_enabled : ℕ
  pub cassandra_yaml : List (String × ℕ)

-- `hash` is deepHashString of hash_annotation.go: SHA-256 over Kubernetes' deep hash.
pub record Surroundings : Type 0 where
  pub environment : Environment
  pub psp_enabled : Bool
  pub extension_id : String
  pub merge_json : ModelValues → Option String → Outcome String
  pub hash : StatefulSet → String

join_by_comma : List String → String
join_by_comma [] = ""
join_by_comma (s ∷ []) = s
join_by_comma (s ∷ t ∷ ts) = append s (append "," (join_by_comma (t ∷ ts)))

abbrev port_entry :
    (ssl_name name : String) → (ssl plain : ℕ) → List (String × ℕ) → List (String × ℕ)
port_entry ssl_name name ssl plain rest =
    if not (ssl == 0)
    then (ssl_name, ssl) ∷ rest
    else if not (plain == 0)
    then (name, plain) ∷ rest
    else rest

unfoldable pub get_model_values :
    List String
    → (cluster_name dc_name : String) → (graph solr spark : ℕ)
    → (native native_ssl internode internode_ssl : ℕ) → ModelValues
unfolding join_by_comma
get_model_values seeds cluster_name dc_name graph solr spark native native_ssl internode
      internode_ssl =
    record {
      cluster_name = cluster_name;
      seeds = join_by_comma seeds;
      datacenter_name = dc_name;
      graph_enabled = graph;
      solr_enabled = solr;
      spark_enabled = spark;
      cassandra_yaml =
          port_entry "native_transport_port_ssl" "native_transport_port" native_ssl native
            (port_entry "ssl_storage_port" "storage_port" internode_ssl internode []);
    }

abbrev no_ports : NodePortConfig
no_ports = record { native = 0; native_ssl = 0; internode = 0; internode_ssl = 0 }

-- The ports of the node port service; zeros where it is not enabled
abbrev node_ports : Datacenter → NodePortConfig
node_ports dc = elim dc.spec.networking [
  | none ↦ no_ports
  | some networking ↦ elim networking.node_port [ none ↦ no_ports | some p ↦ p ]
]

abbrev number : Bool → ℕ
number b = if b then 1 else 0

-- Graph, search and analytics, of DSE alone
abbrev workload_numbers : Datacenter → ℕ × ℕ × ℕ
workload_numbers dc = elim dc.spec.dse_workloads [
  | none ↦ (0, 0, 0)
  | some w ↦
      if dc.spec.server_type == "dse"
      then (number w.graph_enabled, number w.search_enabled, number w.analytics_enabled)
      else (0, 0, 0)
]

unfoldable pub config_seeds : Datacenter → List String
config_seeds dc = elim dc.spec.additional_seeds [
  | [] ↦ get_seed_service_name dc ∷ []
  | s ∷ ss ↦ get_seed_service_name dc ∷ get_additional_seeds_service_name dc ∷ []
]

unfoldable pub get_config_as_json :
    Surroundings → Datacenter → (config : Option String) → Outcome String
get_config_as_json around dc config =
    let ports = node_ports dc in
    let (graph, solr, spark) = workload_numbers dc in
    around.merge_json
      (get_model_values (config_seeds dc) dc.spec.cluster_name dc.name graph solr spark ports.native
        ports.native_ssl ports.internode ports.internode_ssl)
      config

abbrev pub config_hash_annotation : String
config_hash_annotation = "cassandra.datastax.com/config-hash"

unfoldable pub get_datacenter_config_secret_name : Datacenter → String
get_datacenter_config_secret_name dc =
    append (append (append dc.spec.cluster_name "-") dc.name) "-config"

abbrev pub env : String → String → EnvVar
env name value = record { name = name; source = plain_value value }

-- An empty configuration is a nil one.
abbrev pub given : String → Option String
given config = if config == "" then none else some config

unfoldable pub get_config_data_env_vars : Surroundings → Datacenter → Outcome (List EnvVar)
get_config_data_env_vars around dc =
    if not (dc.spec.config_secret == "")
    then elim (lookup config_hash_annotation dc.annotations) [
      | none ↦ err "the datacenter is missing the annotation of the configuration's hash"
      | some config_hash ↦ ok (
          record {
            name = "CONFIG_FILE_DATA";
            source = secret_key (get_datacenter_config_secret_name dc) "config";
          }
          ∷ env "CONFIG_HASH" config_hash
          ∷ [])
    ]
    else elim (get_config_as_json around dc (given dc.spec.config)) [
      | err e ↦ err e
      | ok config_data ↦ ok (env "CONFIG_FILE_DATA" config_data ∷ [])
    ]
