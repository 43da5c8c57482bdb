-- ===== src/Startup/World.antt =====
-- What CheckPodsReady reads and changes. `rc.clusterPods` and `rc.dcPods` share their pods, so a member
-- is a pod of the cluster with a mark for those of the datacenter; a pod is found again by its name,
-- which Kubernetes keeps unique in a namespace. A label is set in memory before the patch is sent, and stays
-- if the patch fails. Every call is recorded, the newest first, and its answer may depend on all before.
use cass_operator.Prelude.{
  ℕ, String, Bool, true, false, List, ◌∷◌, map, filter, Option, none, some, ◌==◌, if◌then◌else◌,
  string_eq, insert,
}
use cass_operator.Result.{ok}
use cass_operator.Passing.{◌>>=◌, ◌>>◌, pure, outcome_of}
use cass_operator.Passing
use cass_operator.Racks.{RackInformation}
use cass_operator.Pods.{Pod}

pub record Member : Type 0 where
  pub pod : Pod
  pub in_dc : Bool

-- What the management API reports of a node: EndpointState of operator/pkg/httphelper/client.go
pub record Endpoint : Type 0 where
  pub host_id : String
  pub native_transport_address : String
  pub rpc_address : String
  pub status : String
  pub load : String

unfoldable pub get_rpc_address : Endpoint → String
get_rpc_address ep =
    if ep.native_transport_address == "" then ep.rpc_address else ep.native_transport_address

pub data Call : Type 0 where
  patch_pod delete_pod start reload_seeds probe : Pod → Call
  start_replacing : Pod → String → Call
  patch_status : ℕ → Call

pub record Settings : Type 0 where
  pub now : ℕ
  pub failure : List Call → Call → Option String
  pub stopped : Bool
  pub size : ℕ
  pub additional_seeds : List String
  pub node_replacements : List String
  pub node_statuses : List (String × String)
  pub endpoints : List Endpoint
  pub rack_labels : String → List (String × String)
  pub desired_rack_information : List RackInformation
  pub rack_order : List String  -- of the keys of Go's map of ready counts

pub record State : Type 0 where
  pub members : List Member
  pub trace : List Call
  pub last_server_node_started : ℕ

abbrev pub M : Type 0 → Type 0
M A = Passing.M State A

unfoldable pub perform : Settings → Call → M (Unit {0})
perform cfg c s = (outcome_of (cfg.failure s.trace c), record s { trace = c ∷ s.trace })

-- A probe's answer is data here, not an error that ends the pass.
unfoldable pub is_answered : Settings → Call → M Bool
is_answered cfg c s = (
  ok (elim (cfg.failure s.trace c) [ none ↦ true | some e ↦ false ]),
  record s { trace = c ∷ s.trace },
)

abbrev pub pods_of : List Member → List Pod
pods_of ms = map (λ m. m.pod) ms

unfoldable pub cluster_pods : M (List Pod)
cluster_pods s = (ok (pods_of s.members), s)

unfoldable pub dc_pods : M (List Pod)
dc_pods s = (ok (pods_of (filter (λ m. m.in_dc) s.members)), s)

abbrev pub with_labels : List (String × String) → Pod → Pod
with_labels ls p = record p { labels = ls }

-- `pod.SetLabels(labels)` on the pod of this name, for all who hold it
abbrev pub relabel_member : (name : String) → List (String × String) → Member → Member
relabel_member name ls m = if m.pod.name == name then record m { pod = with_labels ls m.pod } else m

unfoldable pub set_labels : Pod → List (String × String) → M (Unit {0})
set_labels p ls s = (ok tt, record s { members = map (relabel_member p.name ls) s.members })

-- New labels, in memory and then by a patch
unfoldable pub patch_labels : Settings → Pod → List (String × String) → M (Unit {0})
unfolding set_labels perform
patch_labels cfg p ls = do set_labels p ls; perform cfg (patch_pod (with_labels ls p))

unfoldable pub patch_label : Settings → Pod → (key value : String) → M (Unit {0})
patch_label cfg p key value = patch_labels cfg p (insert key value p.labels)
