-- ===== src/Templates.antt =====
-- The parts of Kubernetes' pod templates and stateful sets that the operator reads or writes. A `nil` map is
-- an empty one, and a `nil` pointer is `none`. An image is a text of code points.
use cass_operator.Prelude.{ℕ, String, Bool, List, Option}
use cass_operator.Strings.{Text}

-- The quantities of `corev1.ResourceRequirements` that validation reads; a missing one is zero.
pub record Resources : Type 0 where
  pub requests_cpu : ℕ
  pub limits_cpu : ℕ
  pub requests_memory : ℕ
  pub limits_memory : ℕ

-- `any_source` is one of the sources that the operator does not make, as a user's template has it.
pub data EnvVarSource : Type 0 where
  plain_value : String → EnvVarSource
  field_path : String → EnvVarSource
  secret_key : (secret key : String) → EnvVarSource
  any_source : String → EnvVarSource

pub record EnvVar : Type 0 where
  pub name : String
  pub source : EnvVarSource

pub data VolumeSource : Type 0 where
  no_source empty_dir : VolumeSource
  secret : String → VolumeSource
  any_source : String → VolumeSource

pub record Volume : Type 0 where
  pub name : String
  pub source : VolumeSource

pub record VolumeMount : Type 0 where
  pub name : String
  pub mount_path : String
  pub read_only : Bool

pub record ContainerPort : Type 0 where
  pub name : String
  pub container_port : ℕ

pub data Handler : Type 0 where
  no_handler : Handler
  http_get : (port : ℕ) → (path : String) → Handler
  exec : (command : List String) → Handler
  tcp_socket : (port : ℕ) → Handler

pub record Probe : Type 0 where
  pub handler : Handler
  pub initial_delay_seconds : ℕ
  pub period_seconds : ℕ

pub record Lifecycle : Type 0 where
  pub pre_stop : Option Handler
  pub post_start : Option Handler

-- `none` for resources is the empty struct.
pub record Container : Type 0 where
  pub name : String
  pub image : Text
  pub image_pull_policy : String
  pub resources : Option Resources
  pub env : List EnvVar
  pub ports : List ContainerPort
  pub volume_mounts : List VolumeMount
  pub liveness_probe : Option Probe
  pub readiness_probe : Option Probe
  pub lifecycle : Option Lifecycle

pub data Operator : Type 0 where
  is_in : (values : List String) → Operator
  is_there : Operator

pub record Requirement : Type 0 where
  pub key : String
  pub operator : Operator

-- `pod_anti_affinity` has the terms' label requirements and the topology key.
pub record Affinity : Type 0 where
  pub node_affinity : Option (List Requirement)
  pub pod_anti_affinity : Option (List Requirement × String)

pub record SecurityContext : Type 0 where
  pub run_as_user : ℕ
  pub run_as_group : ℕ
  pub fs_group : ℕ

pub record PodTemplateSpec : Type 0 where
  pub labels : List (String × String)
  pub annotations : List (String × String)
  pub service_account_name : String
  pub host_network : Bool
  pub dns_policy : String
  pub termination_grace_period_seconds : Option ℕ
  pub security_context : Option SecurityContext
  pub image_pull_secrets : List String
  pub affinity : Affinity
  pub tolerations : List String
  pub node_selector : List (String × String)
  pub volumes : List Volume
  pub init_containers : List Container
  pub containers : List Container

-- `spec` stands for a claim's own specification.
pub record VolumeClaim : Type 0 where
  pub name : String
  pub labels : List (String × String)
  pub spec : String

pub record StatefulSetStatus : Type 0 where
  pub observed_generation : ℕ
  pub replicas : ℕ
  pub ready_replicas : ℕ
  pub current_replicas : ℕ
  pub updated_replicas : ℕ

-- `partition` is that of a rolling update, if the strategy is given.
pub record StatefulSet : Type 0 where
  pub name : String
  pub namespace : String
  pub labels : List (String × String)
  pub annotations : List (String × String)
  pub generation : ℕ
  pub selector : List (String × String)
  pub replicas : ℕ
  pub service_name : String
  pub template : PodTemplateSpec
  pub volume_claim_templates : List VolumeClaim
  pub partition : Option ℕ
  pub status : StatefulSetStatus

pub record ServicePort : Type 0 where
  pub name : String
  pub port : ℕ
  pub node_port : ℕ
  pub target_port : ℕ

pub record Service : Type 0 where
  pub name : String
  pub namespace : String
  pub labels : List (String × String)
  pub annotations : List (String × String)
  pub selector : List (String × String)
  pub type : String
  pub cluster_ip : String
  pub publish_not_ready_addresses : Bool
  pub external_traffic_policy : String
  pub ports : List ServicePort

pub record Endpoints : Type 0 where
  pub name : String
  pub namespace : String
  pub labels : List (String × String)
  pub annotations : List (String × String)
  pub addresses : List String
