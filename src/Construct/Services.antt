-- ===== src/Construct/Services.antt =====
-- The services of a datacenter and the endpoints of its additional seeds: construct_service.go.
use cass_operator.Prelude.{
  ℕ, String, Bool, true, false, List, [], ◌∷◌, ◌++◌, Option, none, some, insert, if◌then◌else◌,
  string_eq,
}
use cass_operator.Result.{Outcome, ok, err}
use cass_operator.Templates.{ServicePort, Service, Endpoints}
use cass_operator.Datacenter.{
  Datacenter, DseWorkloads, ServiceConfigAdditions, is_node_port_enabled,
}
use cass_operator.Pods.{seed_node_label}
use cass_operator.Labels.{
  Labels, get_cluster_labels, get_datacenter_labels, add_managed_by_label, merge_map,
  get_seed_service_name, get_additional_seeds_service_name, get_all_pods_service_name,
  get_datacenter_service_name, get_node_port_service_name,
}
use cass_operator.Construct.Combine.{get_node_port_native_port, get_node_port_internode_port}
use cass_operator.Construct.StatefulSets.{resource_hash_annotation_key}

unfoldable pub make_generic_headless_service : Datacenter → Service
make_generic_headless_service dc = record {
  name = "";
  namespace = dc.namespace;
  labels = add_managed_by_label (get_datacenter_labels dc);
  annotations = [];
  selector = get_datacenter_labels dc;
  type = "ClusterIP";
  cluster_ip = "None";
  publish_not_ready_addresses = false;
  external_traffic_policy = "";
  ports = [];
}

unfoldable pub add_additional_options : ServiceConfigAdditions → Service → Service
add_additional_options config service = record service {
  labels = merge_map service.labels config.labels;
  annotations = merge_map service.annotations config.annotations;
}

-- `hash` is deepHashString.
abbrev with_hash : (hash : Service → String) → Service → Service
with_hash hash service = record service {
  annotations = insert resource_hash_annotation_key (hash service) service.annotations;
}

abbrev named_service_port : String → (port target_port : ℕ) → ServicePort
named_service_port name port target_port = record {
  name = name;
  port = port;
  node_port = 0;
  target_port = target_port;
}

-- The port of the clients: that of the node port if there is one
unfoldable pub native_port : Datacenter → ℕ
native_port dc = if is_node_port_enabled dc then get_node_port_native_port dc else 9042

analytics_service_ports : List ServicePort
analytics_service_ports =
    named_service_port "dsefs-public" 5598 5598
    ∷ named_service_port "spark-worker" 7081 7081
    ∷ named_service_port "jobserver" 8090 8090
    ∷ named_service_port "always-on-sql" 9077 9077
    ∷ named_service_port "sql-thrift" 10000 10000
    ∷ named_service_port "spark-history" 18080 18080
    ∷ []

workload_service_ports : Option DseWorkloads → List ServicePort
unfolding analytics_service_ports
workload_service_ports none = []
workload_service_ports (some w) =
    (if w.analytics_enabled then analytics_service_ports else [])
    ++ ((if w.graph_enabled then named_service_port "gremlin" 8182 8182 ∷ [] else [])
        ++ (if w.search_enabled then named_service_port "solr" 8983 8983 ∷ [] else []))

unfoldable pub datacenter_service_ports : Datacenter → List ServicePort
unfolding workload_service_ports
datacenter_service_ports dc =
    (named_service_port "native" (native_port dc) (native_port dc)
      ∷ named_service_port "tls-native" 9142 9142
      ∷ named_service_port "mgmt-api" 8080 8080
      ∷ named_service_port "prometheus" 9103 9103
      ∷ named_service_port "thrift" 9160 9160
      ∷ [])
    ++ workload_service_ports dc.spec.dse_workloads

unfoldable pub new_service_for_cassandra_datacenter :
    (hash : Service → String) → Datacenter → Service
new_service_for_cassandra_datacenter hash dc = with_hash hash (
    add_additional_options dc.spec.additional_service_config.datacenter_service
      (record (make_generic_headless_service dc) {
        name = get_datacenter_service_name dc;
        ports = datacenter_service_ports dc;
      }))

unfoldable pub build_label_selector_for_seed_service : Datacenter → Labels
build_label_selector_for_seed_service dc = insert seed_node_label "true" (get_cluster_labels dc)

unfoldable pub new_seed_service_for_cassandra_datacenter :
    (hash : Service → String) → Datacenter → Service
new_seed_service_for_cassandra_datacenter hash dc = with_hash hash (
    add_additional_options dc.spec.additional_service_config.seed_service
      (record (make_generic_headless_service dc) {
        name = get_seed_service_name dc;
        labels = add_managed_by_label (get_cluster_labels dc);
        selector = build_label_selector_for_seed_service dc;
        publish_not_ready_addresses = true;
      }))

-- Without a selector: the endpoints are made by hand.
unfoldable pub new_additional_seed_service_for_cassandra_datacenter :
    (hash : Service → String) → Datacenter → Service
new_additional_seed_service_for_cassandra_datacenter hash dc = with_hash hash (
    add_additional_options dc.spec.additional_service_config.additional_seed_service (record {
      name = get_additional_seeds_service_name dc;
      namespace = dc.namespace;
      labels = add_managed_by_label (get_datacenter_labels dc);
      annotations = [];
      selector = [];
      type = "ClusterIP";
      cluster_ip = "None";
      publish_not_ready_addresses = true;
      external_traffic_policy = "";
      ports = [];
    }))

abbrev node_service_port : String → ℕ → ServicePort
node_service_port name port = record {
  name = name;
  port = port;
  node_port = port;
  target_port = port;
}

-- This one gets no hash.
unfoldable pub new_node_port_service_for_cassandra_datacenter : Datacenter → Service
new_node_port_service_for_cassandra_datacenter dc =
    add_additional_options dc.spec.additional_service_config.node_port_service
      (record (make_generic_headless_service dc) {
        name = get_node_port_service_name dc;
        type = "NodePort";
        cluster_ip = "";
        external_traffic_policy = "Local";
        ports =
            node_service_port "internode" (get_node_port_internode_port dc)
            ∷ node_service_port "native" (get_node_port_native_port dc)
            ∷ [];
      })

abbrev prom_metrics_label : String
prom_metrics_label = "cassandra.datastax.com/prom-metrics"

unfoldable pub new_all_pods_service_for_cassandra_datacenter :
    (hash : Service → String) → Datacenter → Service
new_all_pods_service_for_cassandra_datacenter hash dc = with_hash hash (
    add_additional_options dc.spec.additional_service_config.all_pods_service
      (record (make_generic_headless_service dc) {
        name = get_all_pods_service_name dc;
        labels = insert prom_metrics_label "true" (add_managed_by_label (get_datacenter_labels dc));
        publish_not_ready_addresses = true;
        ports =
            named_service_port "native" (native_port dc) (native_port dc)
            ∷ named_service_port "mgmt-api" 8080 8080
            ∷ named_service_port "prometheus" 9103 9103
            ∷ [];
      }))

-- net.ParseIP and net.LookupIP, whose addresses tell whether they are of version 4
pub record Resolver : Type 0 where
  pub is_ip : String → Bool
  pub lookup_ip : String → Outcome (List (String × Bool))

version_4 : List (String × Bool) → List String
version_4 [] = []
version_4 ((ip, is_4) ∷ ips) = let rest = version_4 ips in if is_4 then ip ∷ rest else rest

unfoldable pub resolve_address : Resolver → (host : String) → Outcome (List String)
unfolding version_4
resolve_address net host = elim (net.lookup_ip host) [ err e ↦ err e | ok ips ↦ ok (version_4 ips) ]

unfoldable pub seed_addresses : Resolver → List String → Outcome (List String)
seed_addresses net [] = ok []
seed_addresses net (seed ∷ seeds) =
    let rest = seed_addresses net seeds in
    elim (if net.is_ip seed then ok (seed ∷ []) else resolve_address net seed) [
      | err e ↦ err e
      | ok ips ↦ elim rest [ err e ↦ err e | ok more ↦ ok (ips ++ more) ]
    ]

unfoldable pub new_endpoints_for_additional_seeds :
    Resolver → (hash : Endpoints → String) → Datacenter → Outcome Endpoints
new_endpoints_for_additional_seeds net hash dc =
    elim (seed_addresses net dc.spec.additional_seeds) [
      | err e ↦ err e
      | ok addresses ↦
          let endpoints : Endpoints = record {
            name = get_additional_seeds_service_name dc;
            namespace = dc.namespace;
            labels = add_managed_by_label (get_datacenter_labels dc);
            annotations = [];
            addresses = addresses;
          } in
          ok
            (record endpoints { annotations = (resource_hash_annotation_key, hash endpoints) ∷ [] })
    ]
