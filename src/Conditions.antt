-- ===== src/Conditions.antt =====
-- The conditions in a datacenter's status: GetCondition and SetCondition of
-- operator/pkg/apis/cassandra/v1beta1/cassandradatacenter_types.go, and the stages of
-- operator/pkg/reconciliation/reconcile_racks.go that decide on them. A stage takes the time, and the
-- answer of the status patch (`none` is success).
pub mod Laws
pub mod Settling
mod Examples
use cass_operator.Prelude.{
  ℕ, String, ◌≡◌, refl, sym, ap, ◌∙◌, ◌↔◌, Bool, true, false, not, ◌&&◌, ◌||◌, List, [], ◌∷◌, ◌++◌,
  Option, none, some, arith, Eq, ◌==◌, if◌then◌else◌, nat_eq, string_eq,
}
use cass_operator.Result.{ReconcileResult, continue_reconcile, call_back_soon, error_out}
use cass_operator.Datacenter.{
  ConditionType, ready, initialized, replacing_nodes, scaling_up, scaling_down, updating, stopped,
  resuming, rolling_restart, valid, ConditionStatus, status_true, status_false, status_unknown,
  Condition,
}

abbrev type_code : ConditionType → ℕ
type_code ready = 0
type_code initialized = 1
type_code replacing_nodes = 2
type_code scaling_up = 3
type_code scaling_down = 4
type_code updating = 5
type_code stopped = 6
type_code resuming = 7
type_code rolling_restart = 8
type_code valid = 9

abbrev type_of : ℕ → ConditionType
type_of n =
    if n == 0
    then ready
    else if n == 1
    then initialized
    else if n == 2
    then replacing_nodes
    else if n == 3
    then scaling_up
    else if n == 4
    then scaling_down
    else if n == 5
    then updating
    else if n == 6
    then stopped
    else if n == 7
    then resuming
    else if n == 8
    then rolling_restart
    else valid

type_of-type_code : (t : ConditionType) → type_of (type_code t) ≡ t
type_of-type_code ready = refl
type_of-type_code initialized = refl
type_of-type_code replacing_nodes = refl
type_of-type_code scaling_up = refl
type_of-type_code scaling_down = refl
type_of-type_code updating = refl
type_of-type_code stopped = refl
type_of-type_code resuming = refl
type_of-type_code rolling_restart = refl
type_of-type_code valid = refl

unfoldable pub type_beq : ConditionType → ConditionType → Bool
type_beq s t = type_code s == type_code t

pub type_beq_iff : (s t : ConditionType) → (type_beq s t ≡ true) ↔ (s ≡ t)
unfolding type_beq
type_beq_iff s t =
    let same = nat_eq.same_iff (type_code s) (type_code t) in
    (
      λ h. sym (type_of-type_code s) ∙ ap type_of (same.0 h) ∙ type_of-type_code t,
      λ e. same.1 (ap type_code e),
    )

instance abbrev pub type_eq : Eq ConditionType
type_eq = record { same = type_beq; same_iff = type_beq_iff }

unfoldable pub status_beq : ConditionStatus → ConditionStatus → Bool
status_beq status_true status_true = true
status_beq status_false status_false = true
status_beq status_unknown status_unknown = true
status_beq _ _ = false

pub status_beq_iff : (s t : ConditionStatus) → (status_beq s t ≡ true) ↔ (s ≡ t)
unfolding status_beq
status_beq_iff s t = ground arith

instance abbrev pub status_eq : Eq ConditionStatus
status_eq = record { same = status_beq; same_iff = status_beq_iff }

-- NewDatacenterCondition; the transition time is set when it is stored.
unfoldable pub new_datacenter_condition : ConditionType → ConditionStatus → Condition
new_datacenter_condition t s = record {
  type = t;
  status = s;
  reason = "";
  message = "";
  last_transition_time = 0;
}

unfoldable pub get_condition : ConditionType → List Condition → Option Condition
get_condition t [] = none
get_condition t (c ∷ cs) = if c.type == t then some c else get_condition t cs

unfoldable pub get_condition_status : ConditionType → List Condition → ConditionStatus
get_condition_status t [] = status_unknown
get_condition_status t (c ∷ cs) = if c.type == t then c.status else get_condition_status t cs

-- The loop of SetCondition: every entry of the type is overwritten.
overwrite : Condition → List Condition → Bool × List Condition
overwrite c [] = (false, [])
overwrite c (d ∷ ds) =
    let (added, rest) = overwrite c ds in
    if d.type == c.type then (true, c ∷ rest) else (added, d ∷ rest)

-- SetCondition of the API
unfoldable pub store_condition : Condition → List Condition → List Condition
unfolding overwrite
store_condition c cs =
    let (added, conditions) = overwrite c cs in if added then conditions else conditions ++ (c ∷ [])

-- setCondition of the reconciler: whether it changed the status.
unfoldable pub set_condition : (now : ℕ) → Condition → List Condition → Bool × List Condition
set_condition now c cs =
    if get_condition_status c.type cs == c.status
    then (false, cs)
    else (true, store_condition (record c { last_transition_time = now }) cs)

-- `updated = rc.setCondition(NewDatacenterCondition(t, s)) || updated`
unfoldable pub set_status :
    (now : ℕ) → ConditionType → ConditionStatus → Bool × List Condition → Bool × List Condition
set_status now t s (updated, cs) =
    let (changed, cs') = set_condition now (new_datacenter_condition t s) cs in
    (changed || updated, cs')

-- A loop over condition types
unfoldable pub set_all :
    (now : ℕ) → List ConditionType → ConditionStatus → Bool × List Condition → Bool × List Condition
set_all now [] s u = u
set_all now (t ∷ ts) s u = set_all now ts s (set_status now t s u)

-- A stage ends with a patch if it changed a condition, and has itself run again.
unfoldable pub patch_if_updated : Option String → Bool × List Condition → ReconcileResult
patch_if_updated failure (false, cs) = continue_reconcile
patch_if_updated none (true, cs) = call_back_soon 0
patch_if_updated (some e) (true, cs) = error_out e

abbrev pub conditions_that_should_be_false : List ConditionType
conditions_that_should_be_false =
    replacing_nodes ∷ updating ∷ rolling_restart ∷ resuming ∷ scaling_down ∷ []

abbrev pub stopped_status : Bool → ConditionStatus
stopped_status true = status_true
stopped_status false = status_false

-- The condition of a scale up ends once the cleanup is done.
unfoldable pub clear_scaling_up : (now : ℕ) → List Condition → Bool × List Condition
clear_scaling_up now cs =
    if get_condition_status scaling_up cs == status_true
    then set_status now scaling_up status_false (false, cs)
    else (false, cs)

-- The conditions after CheckClearActionConditions, its cleanup done
unfoldable pub clear_actions :
    (now : ℕ) → (spec_stopped : Bool) → List Condition → Bool × List Condition
clear_actions now spec_stopped cs =
    let marked = set_status now stopped (stopped_status spec_stopped) (clear_scaling_up now cs) in
    set_status now valid status_true
      (set_all now conditions_that_should_be_false status_false marked)

-- cleanupAfterScaling: the pods are asked in turn till one succeeds; no pod is no error.
unfoldable pub cleanup_after_scaling : {A : Type 0} → (A → Option String) → List A → Option String
cleanup_after_scaling call [] = none
cleanup_after_scaling call (p ∷ []) = call p
cleanup_after_scaling call (p ∷ q ∷ ps) =
    let rest = cleanup_after_scaling call (q ∷ ps) in elim (call p) [ none ↦ none | some e ↦ rest ]

unfoldable pub check_clear_action_conditions :
    (now : ℕ)
    → (spec_stopped : Bool) → (cleanup patch : Option String) → List Condition
    → ReconcileResult × List Condition
check_clear_action_conditions now spec_stopped cleanup patch cs =
    let done = clear_actions now spec_stopped cs in
    let carried_out : ReconcileResult × List Condition = (patch_if_updated patch done, done.1) in
    if get_condition_status scaling_up cs == status_true
    then elim cleanup [ some e ↦ (error_out e, cs) | none ↦ carried_out ]
    else carried_out

unfoldable pub check_condition_initialized_and_ready :
    (now : ℕ) → (patch : Option String) → List Condition → ReconcileResult × List Condition
check_condition_initialized_and_ready now patch cs =
    let started = set_status now initialized status_true (false, cs) in
    let done =
      if get_condition_status stopped started.1 == status_false
      then set_status now ready status_true started
      else started in
    (patch_if_updated patch done, done.1)

-- CheckForInvalidState
unfoldable pub check_for_invalid_state :
    (error : Condition → String) → List Condition → ReconcileResult
check_for_invalid_state error cs = elim (get_condition valid cs) [
  | none ↦ continue_reconcile
  | some c ↦ if c.status == status_false then error_out (error c) else continue_reconcile
]

-- CheckCassandraNodeStatuses, on the host IDs of the pods as the status holds them ("" for none)
unfoldable pub check_cassandra_node_statuses : List String → ReconcileResult
unfolding patch_if_updated
check_cassandra_node_statuses [] = continue_reconcile
check_cassandra_node_statuses (id ∷ ids) =
    if id == "" then call_back_soon 2 else check_cassandra_node_statuses ids
