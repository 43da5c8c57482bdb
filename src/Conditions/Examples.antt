-- ===== src/Conditions/Examples.antt =====
-- The theorems on conditions at the status of a datacenter that has scaled up.
use cass_operator.Prelude.{◌≡◌, ◌≢◌, ◌↔◌, false, List, [], ◌∷◌, none, some}
use cass_operator.Result.{continue_reconcile}
use cass_operator.Datacenter.{
  Condition, ConditionType, ready, scaling_up, updating, stopped, valid, ConditionStatus,
  status_true, status_false,
}
use cass_operator.Conditions.{
  type_beq, get_condition, get_condition_status, store_condition, clear_actions,
  new_datacenter_condition, check_clear_action_conditions, check_condition_initialized_and_ready,
  check_for_invalid_state,
}
use cass_operator.Conditions
use cass_operator.Conditions.Laws.{get_condition-store_condition}
use cass_operator.Conditions.Settling.{
  clear_actions-settled, check_clear_action_conditions-settles, check_for_invalid_state_iff,
  check_condition_initialized_and_ready-status,
}

abbrev condition : ConditionType → ConditionStatus → Condition
condition t s = record { type = t; status = s; reason = ""; message = ""; last_transition_time = 0 }

abbrev grown : List Condition
grown = condition scaling_up status_true ∷ condition stopped status_false ∷ []

get_condition-store_condition_example :
    get_condition stopped (store_condition (condition scaling_up status_false) grown)
    ≡ some (condition stopped status_false)
unfolding type_beq get_condition
get_condition-store_condition_example =
    get_condition-store_condition stopped (condition scaling_up status_false) grown

clear_actions-settled_example :
    get_condition_status updating (clear_actions 9 false grown).1 ≡ status_false
clear_actions-settled_example = clear_actions-settled 9 false grown updating

check_clear_action_conditions-settles_example :
    check_clear_action_conditions 10 false none none (clear_actions 9 false grown).1
    ≡ (continue_reconcile, (clear_actions 9 false grown).1)
check_clear_action_conditions-settles_example =
    check_clear_action_conditions-settles 9 10 false none none grown

check_for_invalid_state_iff_example :
    (check_for_invalid_state (λ c. c.message) grown ≡ continue_reconcile)
    ↔ (get_condition_status valid grown ≢ status_false)
check_for_invalid_state_iff_example = check_for_invalid_state_iff (λ c. c.message) grown

check_condition_initialized_and_ready-status_example :
    get_condition_status ready (check_condition_initialized_and_ready 9 none grown).1 ≡ status_true
unfolding type_beq get_condition_status Conditions.status_beq
check_condition_initialized_and_ready-status_example =
    check_condition_initialized_and_ready-status 9 none grown ready
