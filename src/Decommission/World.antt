-- ===== src/Decommission/World.antt =====
-- What the decommissioning stages read and change. The stages run after every rack has its stateful set.
-- Every call is recorded, the newest first, and its answer may depend on all before.
use cass_operator.Prelude.{
  ℕ, zero, suc, String, ◌+◌, ◌/◌, ◌%◌, List, [], ◌∷◌, ◌++◌, map, Option, ◌==◌, ltb, if◌then◌else◌,
  string_eq, insert,
}
use cass_operator.Result.{Outcome, ok}
use cass_operator.Passing.{◌>>=◌, ◌>>◌, pure, outcome_of}
use cass_operator.Passing
use cass_operator.Strings.{Text, codes}
use cass_operator.Datacenter.{Datacenter, Condition, ProgressState}
use cass_operator.Pods.{Pod}
use cass_operator.Startup.World.{Endpoint}

pub record StatefulSet : Type 0 where
  pub rack : String  -- its label
  pub replicas : ℕ

pub data Call : Type 0 where
  patch_status : Call
  patch_pod call_decommission : Pod → Call
  patch_stateful_set : StatefulSet → Call
  get_pvc delete_pvc : String → Call

pub record State : Type 0 where
  pub dc_pods : List Pod
  pub stateful_sets : List StatefulSet
  pub conditions : List Condition
  pub progress : ProgressState
  pub node_statuses : List (String × String)
  pub trace : List Call

-- A volume's capacity is that of the pod's server-data claim; `none` is one that has no storage entry.
-- `parse_load` is strconv.ParseFloat, cut to whole bytes.
pub record Settings : Type 0 where
  pub now : ℕ
  pub failure : List Call → Call → Option String
  pub dc : Datacenter
  pub endpoints : List Endpoint
  pub capacity : List Call → Pod → Outcome (Option ℕ)
  pub parse_load : String → Outcome ℕ
  pub claims : Pod → List String

abbrev pub M : Type 0 → Type 0
M A = Passing.M State A

unfoldable pub get : M State
get s = (ok s, s)

unfoldable pub put : State → M (Unit {0})
put s' s = (ok tt, s')

unfoldable pub perform : Settings → Call → M (Unit {0})
perform cfg c s = (outcome_of (cfg.failure s.trace c), record s { trace = c ∷ s.trace })

-- A call whose error is logged and no more
unfoldable pub attempt : Settings → Call → M (Unit {0})
attempt cfg c s = (ok tt, record s { trace = c ∷ s.trace })

-- One label of the pods of this name, in memory and then by a patch
abbrev pub with_label : (key value : String) → Pod → Pod
with_label key value p = record p { labels = insert key value p.labels }

unfoldable pub patch_label : Settings → Pod → (key value : String) → M (Unit {0})
unfolding get put perform
patch_label cfg p key value = do
  s ← get
  put (record s {
    dc_pods = map (λ q. if q.name == p.name then with_label key value q else q) s.dc_pods;
  })
  perform cfg (patch_pod (with_label key value p))

-- A number as `%v` prints it, on fuel that the number itself bounds
digits : (fuel n : ℕ) → Text
digits zero n = []
digits (suc fuel) n =
    let rest = digits fuel (n / 10) in
    if ltb n 10 then (48 + n) ∷ [] else rest ++ ((48 + n % 10) ∷ [])

-- stsLastPodSuffix
unfoldable pub sts_last_pod_suffix : (max_replicas : ℕ) → Text
unfolding digits
sts_last_pod_suffix zero = codes "sts--1"
sts_last_pod_suffix (suc n) = codes "sts-" ++ digits (suc n) n
