-- ===== src/Pods.antt =====
-- Pods, and the tests on them of operator/pkg/reconciliation/reconcile_racks.go,
-- reconcile_racks_helpers.go and operator/pkg/utils/k8s_utils.go. The current time is an argument, in
-- seconds. A `nil` map of labels or annotations is an empty one: the code reads both alike.
pub mod Filters
use cass_operator.Prelude.{
  ℕ, String, ◌+◌, ◌*◌, Bool, true, false, not, ◌&&◌, ◌||◌, List, [], ◌∷◌, Option, none, some,
  filter, count_if, lookup, contains, ◌==◌, leb, ltb, if◌then◌else◌, string_eq, nat_eq,
}

pub record ContainerStatus : Type 0 where
  pub name : String
  pub ready : Bool
  pub running_since : Option ℕ
  pub terminated_at : Option ℕ  -- LastTerminationState.Terminated.FinishedAt

pub record PodCondition : Type 0 where
  pub type : String
  pub status : String
  pub reason : String
  pub last_transition_time : ℕ

pub record Pod : Type 0 where
  pub name : String
  pub node_name : String
  pub labels : List (String × String)
  pub annotations : List (String × String)
  pub pod_ip : String
  pub host_ip : String
  pub is_pending : Bool
  pub creation_timestamp : ℕ
  pub container_statuses : List ContainerStatus
  pub conditions : List PodCondition

abbrev pub rack_label : String
rack_label = "cassandra.datastax.com/rack"

abbrev pub seed_node_label : String
seed_node_label = "cassandra.datastax.com/seed-node"

abbrev pub cass_node_state : String
cass_node_state = "cassandra.datastax.com/node-state"

abbrev pub state_ready_to_start : String
state_ready_to_start = "Ready-to-Start"

abbrev pub state_started_not_ready : String
state_started_not_ready = "Started-not-Ready"

abbrev pub state_started : String
state_started = "Started"

abbrev pub state_starting : String
state_starting = "Starting"

abbrev pub state_decommissioning : String
state_decommissioning = "Decommissioning"

-- `m[key]`: the zero value for a missing key.
abbrev pub value_at : String → List (String × String) → String
value_at key m = elim (lookup key m) [ none ↦ "" | some v ↦ v ]

abbrev pub node_state : Pod → String
node_state pod = value_at cass_node_state pod.labels

abbrev pub rack_of : Pod → String
rack_of pod = value_at rack_label pod.labels

-- The first status of the container `cassandra`: getCassContainerStatus.
unfoldable pub get_cass_container_status : List ContainerStatus → Option ContainerStatus
get_cass_container_status [] = none
get_cass_container_status (c ∷ cs) =
    if c.name == "cassandra" then some c else get_cass_container_status cs

-- The loop of isServerReady.
server_ready : List ContainerStatus → Bool
server_ready [] = false
server_ready (c ∷ cs) = if c.name == "cassandra" then c.ready else server_ready cs

unfoldable pub is_server_ready : Pod → Bool
unfolding server_ready
is_server_ready pod = server_ready pod.container_statuses

-- The loop of isMgmtApiRunning: a container that does not run lets it go on.
mgmt_api_running : (now : ℕ) → List ContainerStatus → Bool
mgmt_api_running now [] = false
mgmt_api_running now (c ∷ cs) =
    let rest = mgmt_api_running now cs in
    if c.name == "cassandra"
    then elim c.running_since [ none ↦ rest | some t ↦ ltb (t + 10) now ]
    else rest

unfoldable pub is_mgmt_api_running : (now : ℕ) → Pod → Bool
unfolding mgmt_api_running
is_mgmt_api_running now pod = mgmt_api_running now pod.container_statuses

unfoldable pub is_node_decommissioning : Pod → Bool
is_node_decommissioning pod = node_state pod == state_decommissioning

unfoldable pub is_server_starting : Pod → Bool
is_server_starting pod = node_state pod == state_starting

unfoldable pub is_server_started : Pod → Bool
is_server_started pod = node_state pod == state_started || node_state pod == state_started_not_ready

unfoldable pub is_server_started_not_ready : Pod → Bool
is_server_started_not_ready pod = node_state pod == state_started_not_ready

unfoldable pub is_server_ready_to_start : Pod → Bool
is_server_ready_to_start pod = node_state pod == state_ready_to_start

unfoldable pub did_server_lose_readiness : Pod → Bool
did_server_lose_readiness pod =
    if node_state pod == state_started then not (is_server_ready pod) else false

-- hasBeenXMinutes
unfoldable pub has_been_x_minutes : (x now since : ℕ) → Bool
has_been_x_minutes x now since = ltb (since + 60 * x) now

-- The loop of hasBeenXMinutesSinceReady
not_ready_for : (x now : ℕ) → List PodCondition → Bool
not_ready_for x now [] = false
not_ready_for x now (c ∷ cs) =
    if c.type == "Ready" && c.status == "False"
    then has_been_x_minutes x now c.last_transition_time
    else not_ready_for x now cs

unfoldable pub has_been_x_minutes_since_ready : (x now : ℕ) → Pod → Bool
unfolding not_ready_for
has_been_x_minutes_since_ready x now pod = not_ready_for x now pod.conditions

unfoldable pub has_been_x_minutes_since_terminated : (x now : ℕ) → Pod → Bool
has_been_x_minutes_since_terminated x now pod =
    elim (get_cass_container_status pod.container_statuses) [
      | none ↦ false
      | some c ↦ elim c.terminated_at [ none ↦ false | some t ↦ has_been_x_minutes x now t ]
    ]

unfoldable pub is_node_stuck_after_terminating : (now : ℕ) → Pod → Bool
is_node_stuck_after_terminating now pod =
    if is_server_ready pod || is_server_ready_to_start pod
    then false
    else has_been_x_minutes_since_terminated 10 now pod

unfoldable pub is_node_stuck_after_losing_readiness : (now : ℕ) → Pod → Bool
is_node_stuck_after_losing_readiness now pod =
    if not (is_server_started_not_ready pod) || is_server_ready_to_start pod
    then false
    else has_been_x_minutes_since_ready 10 now pod

-- A pod is up or was once a member: its host ID is known, or its state is past Ready-to-Start.
unfoldable pub has_pod_potentially_bootstrapped : Pod → List (String × String) → Bool
has_pod_potentially_bootstrapped pod node_statuses =
    not (value_at pod.name node_statuses == "") || elim (lookup cass_node_state pod.labels) [
      | none ↦ false
      | some state ↦ not (state == state_ready_to_start)
    ]

unfoldable pub find_all_pods_not_ready_and_potentially_bootstrapped :
    List Pod → List (String × String) → List Pod
find_all_pods_not_ready_and_potentially_bootstrapped pods node_statuses =
    filter (λ p. not (is_server_ready p) && has_pod_potentially_bootstrapped p node_statuses) pods

unfoldable pub find_all_pods_not_ready : List Pod → List Pod
find_all_pods_not_ready pods = filter (λ p. not (is_server_ready p)) pods

-- countReadyAndStarted
unfoldable pub count_ready_and_started : List Pod → ℕ × ℕ
count_ready_and_started pods = (count_if is_server_ready pods, count_if is_server_started pods)

-- IsPodUnschedulable
unschedulable : List PodCondition → Bool
unschedulable [] = false
unschedulable (c ∷ cs) =
    (c.reason == "Unschedulable" && c.type == "PodScheduled" && c.status == "False")
    || unschedulable cs

unfoldable pub is_pod_unschedulable : Pod → Bool
unfolding unschedulable
is_pod_unschedulable pod = unschedulable pod.conditions
