-- ===== src/Reconcile/Waiting.antt =====
-- When CheckStatefulSetControllerCaughtUp ends a pass.
use cass_operator.Prelude.{
  ℕ, String, ◌≡◌, refl, ◌≢◌, true, false, List, [], ◌∷◌, Option, none, All, arith, if◌then◌else◌,
  Bool,
}
use cass_operator.Result.{
  Outcome, ok, err, ReconcileResult, completed, continue_reconcile, done, call_back_soon,
}
use cass_operator.Passing.{pure, fail, lift_outcome, ◌>>=◌, ◌>>◌, continue}
use cass_operator.Passing.Keeps.{Ends, Ends->>=, Ends-if, Keeps, Keeps-Ends}
use cass_operator.Datacenter.{Condition}
use cass_operator.Conditions.{check_for_invalid_state}
use cass_operator.Racks.{RackInformation, calculate_rack_information}
use cass_operator.Reconcile.Start.{unread_sets, racks_outcome, take_racks, take_pods, start_racks}
use cass_operator.Templates.{StatefulSet}
use cass_operator.Pods.{Pod}
use cass_operator.Reconcile.World.{Settings, State, Call, get, put}
use cass_operator.Reconcile.CaughtUp.{
  has_stateful_set_controller_caught_up, fix_missing_pvc, check_stateful_set_controller_caught_up,
}

-- Sets that are nil pointers are passed over.
has_stateful_set_controller_caught_up-nil :
    (digits : ℕ → String) (sets : List (Option StatefulSet)) (pods : List Pod)
    → All (λ o. o ≡ none) sets
    → has_stateful_set_controller_caught_up digits sets pods ≡ true
unfolding has_stateful_set_controller_caught_up
has_stateful_set_controller_caught_up-nil digits [] pods h = refl
has_stateful_set_controller_caught_up-nil digits (o ∷ os) pods h =
    rw h.0 (has_stateful_set_controller_caught_up-nil digits os pods h.1)

fixed-not_done :
    (r : Outcome Bool) (s : State)
    → (continue r (λ fixed. pure (if fixed then call_back_soon 2 else continue_reconcile)) s).0
      ≢ ok done
unfolding pure
fixed-not_done (ok true) s h = absurd (cc)
fixed-not_done (ok false) s h = absurd (cc)
fixed-not_done (err e) s h = absurd (cc)

check_stateful_set_controller_caught_up-nil :
    (cfg : Settings) (digits : ℕ → String) (s : State)
    → All (λ o. o ≡ none) s.stateful_sets
    → (check_stateful_set_controller_caught_up cfg digits s).0 ≢ ok done
unfolding check_stateful_set_controller_caught_up get ◌>>=◌
check_stateful_set_controller_caught_up-nil cfg digits s h =
    rw (has_stateful_set_controller_caught_up-nil digits s.stateful_sets s.dc_pods h)
      (fixed-not_done (fix_missing_pvc cfg s.dc_pods s).0 (fix_missing_pvc cfg s.dc_pods s).1)

unread_sets-nil : (infos : List RackInformation) → All (λ o. o ≡ none) (unread_sets infos)
unfolding unread_sets
unread_sets-nil [] = tt
unread_sets-nil (info ∷ infos) = (refl, unread_sets-nil infos)

abbrev IsUnread : State → Type 0
IsUnread s = All (λ o. o ≡ none) s.stateful_sets

abbrev Taken : Outcome (List RackInformation) → State → Type 0
Taken (ok infos) s = IsUnread s
Taken (err e) s = Unit

abbrev IsNotDone : Outcome ReconcileResult → State → Type 0
IsNotDone r s = r ≢ ok done

taken :
    (o : Outcome (List RackInformation)) (s : State)
    → Taken
        (continue
          (lift_outcome o s).0
          (λ infos. put (record s { stateful_sets = unread_sets infos }) >> pure infos)
          (lift_outcome o s).1).0
        (continue
          (lift_outcome o s).0
          (λ infos. put (record s { stateful_sets = unread_sets infos }) >> pure infos)
          (lift_outcome o s).1).1
unfolding put pure fail lift_outcome ◌>>=◌
taken (ok infos) s = unread_sets-nil infos
taken (err e) s = tt

take_racks-Taken : Ends (λ s. Unit) take_racks Taken
unfolding take_racks get ◌>>=◌
take_racks-Taken = record { at = λ s h. taken (racks_outcome (calculate_rack_information s.dc)) s }

get-IsUnread : Ends IsUnread get (λ r. IsUnread)
unfolding get
get-IsUnread = record { at = λ s h. h }

take_pods-IsUnread : (list : List Call → List Pod) → Keeps IsUnread (take_pods list)
unfolding take_pods get put ◌>>=◌
take_pods-IsUnread list = record { at = λ s h. h }

check_for_invalid_state-not_done :
    (error : Condition → String) (cs : List Condition) → check_for_invalid_state error cs ≢ done
unfolding check_for_invalid_state
check_for_invalid_state-not_done error cs h = ground arith

invalid-IsNotDone :
    (error : Condition → String) (cs : List Condition)
    → Ends IsUnread (pure (check_for_invalid_state error cs)) IsNotDone
unfolding pure
invalid-IsNotDone error cs = record { at = λ s h e. check_for_invalid_state-not_done error cs (cc) }

-- A pass that comes from CalculateRackInformation never ends at CheckStatefulSetControllerCaughtUp to wait for the stateful
-- set controller, whatever the datacenter, its pods and the answers of the cluster are.
pub start_racks-IsNotDone :
    (cfg : Settings) (error : Condition → String) (list : List Call → List Pod)
    (digits : ℕ → String) (s : State)
    → (start_racks cfg error list digits s).0 ≢ ok done
unfolding start_racks
start_racks-IsNotDone cfg error list digits s =
    (Ends->>= (λ s. Unit) Taken IsNotDone take_racks _ take_racks-Taken
        (λ infos.
          Ends->>= IsUnread (λ r. IsUnread) IsNotDone get _ get-IsUnread
            (λ s'.
              Ends-if _ _ (completed (check_for_invalid_state error s'.dc.status.conditions)) _
                (take_pods list
                  >> check_stateful_set_controller_caught_up
                      (record cfg { desired_rack_information = infos }) digits)
                (λ t. invalid-IsNotDone error s'.dc.status.conditions)
                (λ f.
                  Ends->>= IsUnread (λ r. IsUnread) IsNotDone (take_pods list) _
                    (Keeps-Ends _ (take_pods-IsUnread list))
                    (λ u. record {
                      at = λ s h. check_stateful_set_controller_caught_up-nil _ digits s h;
                    })
                    (λ e s h k. absurd (cc))))
            (λ e s h k. absurd (cc)))
        (λ e s h k. absurd (cc))).at
      s tt
