-- ===== src/Datacenter.antt =====
-- The CassandraDatacenter resource: operator/pkg/apis/cassandra/v1beta1/cassandradatacenter_types.go,
-- with the fields that the modelled code reads. A size, port or quantity is a native number: the
-- resource's schema admits no negative size. A `nil` pointer is `none`.
use cass_operator.Prelude.{
  ℕ, String, Bool, true, false, ◌&&◌, List, [], ◌∷◌, Option, none, some, ◌<◌, ◌==◌, length, arith,
  string_eq,
}
pub use cass_operator.Templates.{Resources}
use cass_operator.Templates.{PodTemplateSpec}

pub record Rack : Type 0 where
  pub name : String
  pub zone : String
  pub node_affinity_labels : List (String × String)

pub record NodePortConfig : Type 0 where
  pub native : ℕ
  pub native_ssl : ℕ
  pub internode : ℕ
  pub internode_ssl : ℕ

pub record NetworkingConfig : Type 0 where
  pub node_port : Option NodePortConfig
  pub host_network : Bool

pub record DseWorkloads : Type 0 where
  pub analytics_enabled : Bool
  pub graph_enabled : Bool
  pub search_enabled : Bool

pub record AdditionalVolume : Type 0 where
  pub mount_path : String
  pub name : String
  pub pvc_spec : String

pub record StorageConfig : Type 0 where
  pub cassandra_data_volume_claim_spec : Option String
  pub additional_volumes : List AdditionalVolume

pub record CassandraUser : Type 0 where
  pub secret_name : String
  pub superuser : Bool

pub record ServiceConfigAdditions : Type 0 where
  pub labels : List (String × String)
  pub annotations : List (String × String)

pub record ServiceConfig : Type 0 where
  pub datacenter_service : ServiceConfigAdditions
  pub seed_service : ServiceConfigAdditions
  pub all_pods_service : ServiceConfigAdditions
  pub additional_seed_service : ServiceConfigAdditions
  pub node_port_service : ServiceConfigAdditions

pub record ManualAuth : Type 0 where
  pub client_secret_name : String
  pub server_secret_name : String
  pub skip_secret_validation : Bool

pub record ManagementApiAuth : Type 0 where
  pub insecure : Bool  -- not nil
  pub manual : Option ManualAuth

-- A claim's own specification and a toleration are texts that stand for them.
pub record Spec : Type 0 where
  pub size : ℕ
  pub server_version : String
  pub server_type : String
  pub cluster_name : String
  pub config : String
  pub racks : List Rack
  pub storage_config : StorageConfig
  pub superuser_secret_name : String
  pub service_account : String
  pub allow_multiple_nodes_per_worker : Bool
  pub resources : Resources
  pub networking : Option NetworkingConfig
  pub dse_workloads : Option DseWorkloads
  pub additional_seeds : List String
  pub stopped : Bool
  pub replace_nodes : List String
  pub server_image : String
  pub docker_image_runs_as_cassandra : Option Bool
  pub config_secret : String
  pub management_api_auth : ManagementApiAuth
  pub node_affinity_labels : List (String × String)
  pub system_logger_resources : Option Resources
  pub config_builder_resources : Option Resources
  pub config_builder_image : String
  pub canary_upgrade : Bool
  pub canary_upgrade_count : ℕ
  pub rolling_restart_requested : Bool
  pub node_selector : List (String × String)
  pub force_upgrade_racks : List String
  pub pod_template_spec : Option PodTemplateSpec
  pub users : List CassandraUser
  pub disable_system_logger_sidecar : Bool
  pub system_logger_image : String
  pub tolerations : List String
  pub additional_service_config : ServiceConfig

pub data ConditionType : Type 0 where
  ready initialized replacing_nodes scaling_up scaling_down updating stopped resuming :
      ConditionType
  rolling_restart valid : ConditionType

pub data ConditionStatus : Type 0 where
  status_true status_false status_unknown : ConditionStatus

pub record Condition : Type 0 where
  pub type : ConditionType
  pub status : ConditionStatus
  pub reason : String
  pub message : String
  pub last_transition_time : ℕ

pub data ProgressState : Type 0 where
  progress_none progress_updating progress_ready : ProgressState

pub record Status : Type 0 where
  pub conditions : List Condition
  pub cassandra_operator_progress : ProgressState
  pub node_statuses : List (String × String)  -- pod name, host ID
  pub node_replacements : List String
  pub last_server_node_started : ℕ
  pub last_rolling_restart : ℕ
  pub super_user_upserted : ℕ
  pub users_upserted : ℕ
  pub quiet_period : ℕ
  pub observed_generation : ℕ

pub record Datacenter : Type 0 where
  pub name : String
  pub namespace : String
  pub generation : ℕ
  pub annotations : List (String × String)
  pub finalizers : List String
  pub is_deleted : Bool  -- whether there is a deletion timestamp
  pub spec : Spec
  pub status : Status

abbrev default_rack : Rack
default_rack = record { name = "default"; zone = ""; node_affinity_labels = [] }

-- `reflect.DeepEqual` on the storage sections
abbrev same_volumes : List AdditionalVolume → List AdditionalVolume → Bool
same_volumes [] [] = true
same_volumes [] (w ∷ ws) = false
same_volumes (v ∷ vs) [] = false
same_volumes (v ∷ vs) (w ∷ ws) =
    v.mount_path == w.mount_path
    && v.name == w.name
    && v.pvc_spec == w.pvc_spec
    && same_volumes vs ws

abbrev same_claim : Option String → Option String → Bool
same_claim none none = true
same_claim none (some d) = false
same_claim (some c) none = false
same_claim (some c) (some d) = c == d

unfoldable pub same_storage : StorageConfig → StorageConfig → Bool
same_storage a b =
    same_claim a.cassandra_data_volume_claim_spec b.cassandra_data_volume_claim_spec
    && same_volumes a.additional_volumes b.additional_volumes

unfoldable pub is_node_port_enabled : Datacenter → Bool
is_node_port_enabled dc = elim dc.spec.networking [
  | none ↦ false
  | some networking ↦ elim networking.node_port [ none ↦ false | some ports ↦ true ]
]

unfoldable pub is_host_network_enabled : Datacenter → Bool
is_host_network_enabled dc = elim dc.spec.networking [
  | none ↦ false
  | some networking ↦ networking.host_network
]

-- GetRacks
unfoldable pub get_racks : Datacenter → List Rack
get_racks dc = elim dc.spec.racks [ [] ↦ default_rack ∷ [] | r ∷ rs ↦ r ∷ rs ]

pub get_racks_pos : (dc : Datacenter) → 0 < length (get_racks dc)
unfolding get_racks
get_racks_pos dc = pos dc.spec.racks
  where
    pos : (rs : List Rack) → 0 < length (elim rs [ [] ↦ default_rack ∷ [] | r ∷ rs ↦ r ∷ rs ])
    pos [] = omega arith
    pos (r ∷ rs) = omega arith
