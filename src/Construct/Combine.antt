-- ===== src/Construct/Combine.antt =====
-- Defaults and a user's overrides of construct_podtemplatespec.go, and the container ports of
-- cassandradatacenter_types.go.
use cass_operator.Prelude.{
  ℕ, String, not, List, [], ◌∷◌, ◌++◌, Option, none, some, filter, any, ◌==◌, if◌then◌else◌,
  string_eq, nat_eq,
}
use cass_operator.Templates.{EnvVar, Volume, VolumeMount, ContainerPort}
use cass_operator.Datacenter.{Datacenter, DseWorkloads}

-- The overrides, and then the defaults whose name no override has: combineVolumeSlices and its like
unfoldable pub combine : {A : Type 0} → (A → String) → (defaults overrides : List A) → List A
combine name defaults overrides =
    overrides ++ filter (λ d. not (any (λ o. name d == name o) overrides)) defaults

unfoldable pub combine_volume_mount_slices :
    (defaults overrides : List VolumeMount) → List VolumeMount
unfolding combine
combine_volume_mount_slices defaults overrides = combine (λ m. m.name) defaults overrides

unfoldable pub combine_volume_slices : (defaults overrides : List Volume) → List Volume
unfolding combine
combine_volume_slices defaults overrides = combine (λ v. v.name) defaults overrides

unfoldable pub combine_port_slices : (defaults overrides : List ContainerPort) → List ContainerPort
unfolding combine
combine_port_slices defaults overrides = combine (λ p. p.name) defaults overrides

unfoldable pub combine_env_slices : (defaults overrides : List EnvVar) → List EnvVar
unfolding combine
combine_env_slices defaults overrides = combine (λ e. e.name) defaults overrides

abbrev named_port : String → ℕ → ContainerPort
named_port name port = record { name = name; container_port = port }

default_ports : List ContainerPort
default_ports =
    named_port "native" 9042
    ∷ named_port "tls-native" 9142
    ∷ named_port "internode" 7000
    ∷ named_port "tls-internode" 7001
    ∷ named_port "jmx" 7199
    ∷ named_port "mgmt-api-http" 8080
    ∷ named_port "prometheus" 9103
    ∷ named_port "thrift" 9160
    ∷ []

analytics_ports : List ContainerPort
analytics_ports =
    named_port "spark-app-4040" 4040
    ∷ named_port "spark-app-4041" 4041
    ∷ named_port "spark-app-4042" 4042
    ∷ named_port "spark-app-4043" 4043
    ∷ named_port "spark-app-4044" 4044
    ∷ named_port "spark-app-4045" 4045
    ∷ named_port "spark-app-4046" 4046
    ∷ named_port "spark-app-4047" 4047
    ∷ named_port "spark-app-4048" 4048
    ∷ named_port "spark-app-4049" 4049
    ∷ named_port "spark-app-4050" 4050
    ∷ named_port "dsefs-public" 5598
    ∷ named_port "dsefs-internode" 5599
    ∷ named_port "spark-internode" 7077
    ∷ named_port "spark-master" 7080
    ∷ named_port "spark-worker" 7081
    ∷ named_port "jobserver" 8090
    ∷ named_port "always-on-sql" 9077
    ∷ named_port "jobserver-jmx" 9999
    ∷ named_port "sql-thrift" 10000
    ∷ named_port "spark-history" 18080
    ∷ []

workload_ports : Option DseWorkloads → List ContainerPort
unfolding analytics_ports
workload_ports none = []
workload_ports (some w) =
    (if w.analytics_enabled then analytics_ports else [])
    ++ ((if w.graph_enabled then named_port "gremlin" 8182 ∷ [] else [])
        ++ (if w.search_enabled then named_port "solr" 8983 ∷ [] else []))

-- GetContainerPorts, which returns no error
unfoldable pub get_container_ports : Datacenter → List ContainerPort
unfolding default_ports workload_ports
get_container_ports dc =
    default_ports
    ++ ((if dc.spec.server_type == "dse" then named_port "internode-msg" 8609 ∷ [] else [])
        ++ workload_ports dc.spec.dse_workloads)

-- The SSL port if it is set, or else the plain one if that is set, or else the default
abbrev first_set : (ssl plain default : ℕ) → ℕ
first_set ssl plain default =
    if not (ssl == 0) then ssl else if not (plain == 0) then plain else default

unfoldable pub get_node_port_native_port : Datacenter → ℕ
get_node_port_native_port dc = elim dc.spec.networking [
  | none ↦ 0
  | some networking ↦ elim networking.node_port [
    | none ↦ 0
    | some p ↦ first_set p.native_ssl p.native 9042
  ]
]

unfoldable pub get_node_port_internode_port : Datacenter → ℕ
get_node_port_internode_port dc = elim dc.spec.networking [
  | none ↦ 0
  | some networking ↦ elim networking.node_port [
    | none ↦ 0
    | some p ↦ first_set p.internode_ssl p.internode 7000
  ]
]
