-- ===== src/Conditions/Settling.antt =====
-- What CheckClearActionConditions leaves, and a second run of it.
use cass_operator.Prelude.{
  ℕ, String, ◌≡◌, refl, Bool, false, List, [], ◌∷◌, Option, arith, ◌==◌, if◌then◌else◌, ◌∙◌, All,
  ◌≢◌, ◌↔◌, ◌&&◌,
}
use cass_operator.Result.{continue_reconcile}
use cass_operator.Datacenter.{
  Condition, ConditionType, ConditionStatus, status_true, status_false, stopped, valid, scaling_up,
  replacing_nodes, updating, rolling_restart, resuming, scaling_down, ready, initialized,
}
use cass_operator.Conditions.{
  type_beq, type_eq, status_eq, type_beq_iff, status_beq_iff, get_condition_status, set_status,
  set_all, clear_actions, stopped_status, conditions_that_should_be_false,
  check_clear_action_conditions, patch_if_updated, clear_scaling_up, check_for_invalid_state,
  check_condition_initialized_and_ready,
}
use cass_operator.Conditions.Laws.{
  get_condition_status-get_condition, get_condition_status-set_status, set_status-same,
}

-- The status of each type once every action is over
abbrev pub settled : (spec_stopped : Bool) → List Condition → ConditionType → ConditionStatus
settled spec_stopped cs ready = get_condition_status ready cs
settled spec_stopped cs initialized = get_condition_status initialized cs
settled spec_stopped cs replacing_nodes = status_false
settled spec_stopped cs scaling_up =
    if get_condition_status scaling_up cs == status_true
    then status_false
    else get_condition_status scaling_up cs
settled spec_stopped cs scaling_down = status_false
settled spec_stopped cs updating = status_false
settled spec_stopped cs stopped = stopped_status spec_stopped
settled spec_stopped cs resuming = status_false
settled spec_stopped cs rolling_restart = status_false
settled spec_stopped cs valid = status_true

-- The condition of a scale up is cleared first.
clear_scaling_up-status :
    (now : ℕ) (t : ConditionType) (cs : List Condition)
    → get_condition_status t (clear_scaling_up now cs).1 ≡ (
        if scaling_up == t
        then if get_condition_status scaling_up cs == status_true
          then status_false
          else get_condition_status t cs
        else get_condition_status t cs)
unfolding clear_scaling_up
clear_scaling_up-status now t cs =
    ground (arith, get_condition_status-set_status now t scaling_up status_false (false, cs))

clear_actions-status :
    (now : ℕ) (spec_stopped : Bool) (t : ConditionType) (cs : List Condition)
    → get_condition_status t (clear_actions now spec_stopped cs).1 ≡ (
        if valid == t
        then status_true
        else if scaling_down == t
        then status_false
        else if resuming == t
        then status_false
        else if rolling_restart == t
        then status_false
        else if updating == t
        then status_false
        else if replacing_nodes == t
        then status_false
        else if stopped == t
        then stopped_status spec_stopped
        else get_condition_status t (clear_scaling_up now cs).1)
unfolding clear_actions set_all
clear_actions-status now spec_stopped t cs = simp (get_condition_status-set_status)

-- After CheckClearActionConditions no action is in progress: ReplacingNodes, Updating, RollingRestart,
-- Resuming and ScalingDown are false, Valid is true, Stopped is as the spec says, ScalingUp is
-- not true, and Ready and Initialized are as before.
pub clear_actions-settled :
    (now : ℕ) (spec_stopped : Bool) (cs : List Condition) (t : ConditionType)
    → get_condition_status t (clear_actions now spec_stopped cs).1 ≡ settled spec_stopped cs t
unfolding type_beq
clear_actions-settled now spec_stopped cs valid = clear_actions-status now spec_stopped valid cs
clear_actions-settled now spec_stopped cs stopped = clear_actions-status now spec_stopped stopped cs
clear_actions-settled now spec_stopped cs replacing_nodes =
    clear_actions-status now spec_stopped replacing_nodes cs
clear_actions-settled now spec_stopped cs scaling_down =
    clear_actions-status now spec_stopped scaling_down cs
clear_actions-settled now spec_stopped cs updating =
    clear_actions-status now spec_stopped updating cs
clear_actions-settled now spec_stopped cs resuming =
    clear_actions-status now spec_stopped resuming cs
clear_actions-settled now spec_stopped cs rolling_restart =
    clear_actions-status now spec_stopped rolling_restart cs
clear_actions-settled now spec_stopped cs ready =
    clear_actions-status now spec_stopped ready cs ∙ clear_scaling_up-status now ready cs
clear_actions-settled now spec_stopped cs initialized =
    clear_actions-status now spec_stopped initialized cs
    ∙ clear_scaling_up-status now initialized cs
clear_actions-settled now spec_stopped cs scaling_up =
    clear_actions-status now spec_stopped scaling_up cs ∙ clear_scaling_up-status now scaling_up cs

-- Nothing is set where every status is settled.
set_all-same :
    (now : ℕ) (ts : List ConditionType) (s : ConditionStatus) (done : Bool × List Condition)
    → All (λ t. get_condition_status t done.1 ≡ s) ts
    → set_all now ts s done ≡ done
unfolding set_all
set_all-same now [] s done h = refl
set_all-same now (t ∷ ts) s done h =
    rw (set_status-same now t s done h.0) (set_all-same now ts s done h.1)

-- Conditions that no action and no change of the spec is left to clear from
IsSettled : Bool → List Condition → Type 0
IsSettled spec_stopped cs =
    ((get_condition_status scaling_up cs == status_true) ≡ false)
    × (get_condition_status stopped cs ≡ stopped_status spec_stopped)
    × All (λ t. get_condition_status t cs ≡ status_false) conditions_that_should_be_false
    × (get_condition_status valid cs ≡ status_true)

clear_actions-IsSettled :
    (now : ℕ) (spec_stopped : Bool) (cs : List Condition)
    → IsSettled spec_stopped (clear_actions now spec_stopped cs).1
unfolding IsSettled
clear_actions-IsSettled now spec_stopped cs =
    let at = clear_actions-settled now spec_stopped cs in
    (
      ground (
        arith,
        at scaling_up,
        status_beq_iff (get_condition_status scaling_up cs) status_true,
        status_beq_iff (get_condition_status scaling_up (clear_actions now spec_stopped cs).1)
            status_true,
      ),
      at stopped,
      (
        at replacing_nodes,
        (at updating, (at rolling_restart, (at resuming, (at scaling_down, tt)))),
      ),
      at valid,
    )

clear_actions-same :
    (now : ℕ) (spec_stopped : Bool) (cs : List Condition)
    → IsSettled spec_stopped cs
    → clear_actions now spec_stopped cs ≡ (false, cs)
unfolding IsSettled clear_actions clear_scaling_up
clear_actions-same now spec_stopped cs (no_scaling, as_spec, no_action, is_valid) = rw (
  no_scaling,
  set_status-same now stopped (stopped_status spec_stopped) (false, cs) as_spec,
  set_all-same now conditions_that_should_be_false status_false (false, cs) no_action,
  set_status-same now valid status_true (false, cs) is_valid,
)

-- Once CheckClearActionConditions has set the conditions, a second run finds nothing to change and lets
-- the reconciliation go on, at whatever time it runs and whatever the cluster would answer: the requeue that the
-- first run asks for does not repeat itself.
pub check_clear_action_conditions-settles :
    (now later : ℕ) (spec_stopped : Bool) (cleanup patch : Option String) (cs : List Condition)
    → let settled_conditions = (clear_actions now spec_stopped cs).1 in
      check_clear_action_conditions later spec_stopped cleanup patch settled_conditions
      ≡ (continue_reconcile, settled_conditions)
unfolding check_clear_action_conditions patch_if_updated IsSettled
check_clear_action_conditions-settles now later spec_stopped cleanup patch cs =
    let after = clear_actions-IsSettled now spec_stopped cs in
    rw (after.0, clear_actions-same later spec_stopped (clear_actions now spec_stopped cs).1 after)
      refl

-- CheckForInvalidState lets the reconciliation go on exactly if the status of Valid is not false; a
-- datacenter that has no such condition yet is taken as valid.
pub check_for_invalid_state_iff :
    (error : Condition → String) (cs : List Condition)
    → (check_for_invalid_state error cs ≡ continue_reconcile)
      ↔ (get_condition_status valid cs ≢ status_false)
unfolding check_for_invalid_state
check_for_invalid_state_iff error cs = ground (
  arith,
  get_condition_status-get_condition valid cs,
  status_beq_iff (get_condition_status valid cs) status_false,
)

-- After CheckConditionInitializedAndReady, Initialized is true; Ready is true if the status of Stopped is
-- false; every other status is kept.
pub check_condition_initialized_and_ready-status :
    (now : ℕ) (patch : Option String) (cs : List Condition) (t : ConditionType)
    → get_condition_status t (check_condition_initialized_and_ready now patch cs).1 ≡ (
        if t == initialized
        then status_true
        else if t == ready && get_condition_status stopped cs == status_false
        then status_true
        else get_condition_status t cs)
unfolding check_condition_initialized_and_ready type_beq
check_condition_initialized_and_ready-status now patch cs t =
    let first = set_status now initialized status_true (false, cs) in
    let kept : get_condition_status stopped first.1 ≡ get_condition_status stopped cs =
      get_condition_status-set_status now stopped initialized status_true (false, cs) in
    ground (
      arith,
      kept,
      get_condition_status-set_status now t initialized status_true (false, cs),
      get_condition_status-set_status now t ready status_true first,
      type_beq_iff t ready,
      type_beq_iff ready t,
      type_beq_iff t initialized,
      type_beq_iff initialized t,
    )
