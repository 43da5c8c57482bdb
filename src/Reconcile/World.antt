-- ===== src/Reconcile/World.antt =====
-- What the stages read and change: the fields of ReconciliationContext, the map of datacenters by worker, and the
-- calls made, the newest first. The answer of a call may depend on all before.
use cass_operator.Prelude.{ℕ, zero, suc, String, Bool, List, [], ◌∷◌, Option, none, some}
use cass_operator.Result.{ok}
use cass_operator.Passing
use cass_operator.Passing.{outcome_of, fail, pure}
use cass_operator.Templates.{StatefulSet, Service, Endpoints}
use cass_operator.Datacenter.{Datacenter}
use cass_operator.Pods.{Pod}
use cass_operator.Racks.{RackInformation}
use cass_operator.Construct.Config.{Surroundings}

-- A read from the cluster
pub data Answer (A : Type 0) : Type 0 where
  found : A → Answer A
  not_found : Answer A
  failed : String → Answer A

pub record Claim : Type 0 where
  pub name : String
  pub labels : List (String × String)

pub record Secret : Type 0 where
  pub name : String
  pub annotations : List (String × String)
  pub contents : List (String × String)

-- `set_owner` is setControllerReference on the object of the name.
pub data Call : Type 0 where
  set_owner : String → Call
  patch_status patch_datacenter : Datacenter → Call
  create_stateful_set update_stateful_set patch_stateful_set : StatefulSet → Call
  drain delete_pod patch_pod : Pod → Call
  patch_claim : Claim → Call
  delete_budget create_budget : (hash : String) → Call
  create_service update_service : Service → Call
  create_endpoints update_endpoints : Endpoints → Call
  create_role : Pod → (username password : String) → (superuser : Bool) → Call
  update_watches remove_watcher list_claims : Call
  update_datacenter : Datacenter → Call
  delete_claim : Claim → Call
  patch_secret update_secret create_secret : Secret → Call

pub record State : Type 0 where
  pub dc : Datacenter
  pub stateful_sets : List (Option StatefulSet)
  pub dc_pods : List Pod
  pub node_to_dc : List (String × List (String × String))  -- worker, namespaces and names
  pub trace : List Call

pub record Settings : Type 0 where
  pub now : ℕ
  pub around : Surroundings
  pub desired_rack_information : List RackInformation
  pub failure : List Call → Call → Option String
  pub get_stateful_set : List Call → (name : String) → Answer StatefulSet
  pub get_pod : List Call → (name : String) → Answer Pod
  pub claim_of_pod : Pod → Option String  -- the claim of its first volume
  pub get_claim : List Call → (name : String) → Answer Claim
  pub get_secret : List Call → (name : String) → Answer Secret

abbrev pub M : Type 0 → Type 0
M A = Passing.M State A

unfoldable pub get : M State
get s = (ok s, s)

unfoldable pub put : State → M (Unit {0})
put s' s = (ok tt, s')

unfoldable pub perform : Settings → Call → M (Unit {0})
perform cfg c s = (outcome_of (cfg.failure s.trace c), record s { trace = c ∷ s.trace })

-- A call whose error is logged and no more
unfoldable pub attempt : Settings → Call → M (Unit {0})
attempt cfg c s = (ok tt, record s { trace = c ∷ s.trace })

-- The stateful set of the index, which is a nil pointer before CheckRackCreation.
unfoldable pub deref : Option StatefulSet → M StatefulSet
deref none = fail "invalid memory address or nil pointer dereference"
deref (some sts) = pure sts

abbrev pub set_nth : ℕ → StatefulSet → List (Option StatefulSet) → List (Option StatefulSet)
set_nth i sts [] = []
set_nth zero sts (o ∷ os) = some sts ∷ os
set_nth (suc i) sts (o ∷ os) = o ∷ set_nth i sts os

abbrev pub nth : ℕ → List (Option StatefulSet) → Option StatefulSet
nth i [] = none
nth zero (o ∷ os) = o
nth (suc i) (o ∷ os) = nth i os

unfoldable pub stateful_set_at : ℕ → M StatefulSet
unfolding deref
stateful_set_at i s = deref (nth i s.stateful_sets) s

unfoldable pub store_stateful_set : ℕ → StatefulSet → M (Unit {0})
store_stateful_set i sts s = (ok tt, record s { stateful_sets = set_nth i sts s.stateful_sets })
