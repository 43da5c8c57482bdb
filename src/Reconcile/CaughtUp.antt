-- ===== src/Reconcile/CaughtUp.antt =====
-- Whether the stateful set controller has caught up: CheckStatefulSetControllerCaughtUp; and the labels of pods and
-- claims: CheckRackPodLabels.
use cass_operator.Prelude.{
  ℕ, zero, suc, String, append, ◌+◌, Bool, true, false, ◌&&◌, List, [], ◌∷◌, map, Option, none,
  some, ◌==◌, length, if◌then◌else◌, string_eq, nat_eq,
}
use cass_operator.Result.{ReconcileResult, continue_reconcile, done, call_back_soon}
use cass_operator.Passing.{pure, fail, ◌>>=◌, ◌>>◌}
use cass_operator.Templates.{StatefulSet}
use cass_operator.Pods.{Pod, value_at, rack_label}
use cass_operator.StringSet.{StringSet, of_names, subtract_string_set}
use cass_operator.Racks.{RackInformation}
use cass_operator.Labels.{should_update_labels_for_rack_resource}
use cass_operator.Reconcile.World.{
  Settings, M, found, not_found, failed, get, perform, attempt, stateful_set_at, delete_pod,
  patch_pod, patch_claim,
}

-- A pod's name has the ordinal as `%v` prints it, which is an argument.
unfoldable pub get_stateful_set_pod_name_for_idx : (digits : ℕ → String) → StatefulSet → ℕ → String
get_stateful_set_pod_name_for_idx digits sts i = append (append sts.name "-") (digits i)

names_from : (digits : ℕ → String) → StatefulSet → (i rounds : ℕ) → List String
names_from digits sts i zero = []
names_from digits sts i (suc n) =
    get_stateful_set_pod_name_for_idx digits sts i ∷ names_from digits sts (i + 1) n

unfoldable pub get_stateful_set_pod_names : (digits : ℕ → String) → StatefulSet → StringSet
unfolding names_from
get_stateful_set_pod_names digits sts = of_names (names_from digits sts 0 sts.status.replicas)

unfoldable pub has_stateful_set_controller_caught_up :
    (digits : ℕ → String) → List (Option StatefulSet) → List Pod → Bool
has_stateful_set_controller_caught_up digits [] pods = true
has_stateful_set_controller_caught_up digits (o ∷ os) pods =
    let rest = has_stateful_set_controller_caught_up digits os pods in
    elim o [
      | none ↦ rest
      | some sts ↦
          sts.generation == sts.status.observed_generation
          && (length (
                  subtract_string_set (get_stateful_set_pod_names digits sts)
                    (of_names (map (λ p. p.name) pods)))
                == 0
              && rest)
    ]

-- A pod that is pending and whose claim is not there; another error is logged.
unfoldable pub is_node_stuck_without_pvc : Settings → Pod → M Bool
is_node_stuck_without_pvc cfg p = do
  s ← get
  pure (
      p.is_pending && elim (cfg.get_claim s.trace (append "server-data-" p.name)) [
        | found c ↦ false
        | not_found ↦ true
        | failed e ↦ false
      ])

-- Whether a pod was deleted
unfoldable pub fix_missing_pvc : Settings → List Pod → M Bool
fix_missing_pvc cfg [] = pure false
fix_missing_pvc cfg (p ∷ ps) = do
  is_stuck ← is_node_stuck_without_pvc cfg p
  if is_stuck then (do perform cfg (delete_pod p); pure true) else fix_missing_pvc cfg ps

unfoldable pub check_stateful_set_controller_caught_up :
    Settings → (digits : ℕ → String) → M ReconcileResult
check_stateful_set_controller_caught_up cfg digits = do
  s ← get
  if has_stateful_set_controller_caught_up digits s.stateful_sets s.dc_pods
      then (do
        fixed ← fix_missing_pvc cfg s.dc_pods
        pure (if fixed then call_back_soon 2 else continue_reconcile))
      else pure done

-- A patch that fails is logged.
unfoldable pub label_claim : Settings → (rack : String) → Pod → M (Unit {0})
label_claim cfg rack p = elim (cfg.claim_of_pod p) [
  | none ↦ pure tt
  | some claim ↦ (do
    s ← get
    elim (cfg.get_claim s.trace claim) [
      | not_found ↦ fail "Unable to get pvc"
      | failed e ↦ fail e
      | found pvc ↦
          let (update, labels) = should_update_labels_for_rack_resource pvc.labels s.dc rack in
          if update then attempt cfg (patch_claim (record pvc { labels = labels })) else pure tt
    ])
]

unfoldable pub label_pod : Settings → (rack : String) → (name : String) → M (Unit {0})
label_pod cfg rack name = do
  s ← get
  elim (cfg.get_pod s.trace name) [
    | not_found ↦ fail "Unable to get pod"
    | failed e ↦ fail e
    | found p ↦ (do
      let (update, labels) = should_update_labels_for_rack_resource p.labels s.dc rack
      if update then attempt cfg (patch_pod (record p { labels = labels })) else pure tt
      label_claim cfg rack p)
  ]

unfoldable pub label_pods : Settings → (rack : String) → List String → M (Unit {0})
label_pods cfg rack [] = pure tt
label_pods cfg rack (name ∷ names) = do label_pod cfg rack name; label_pods cfg rack names

-- The rack is the one of the set's own label.
unfoldable pub reconcile_pods : Settings → (digits : ℕ → String) → StatefulSet → M (Unit {0})
unfolding names_from
reconcile_pods cfg digits sts =
    label_pods cfg (value_at rack_label sts.labels) (names_from digits sts 0 sts.status.replicas)

unfoldable pub reconcile_pods_of :
    Settings → (digits : ℕ → String) → (i : ℕ) → List RackInformation → M ReconcileResult
reconcile_pods_of cfg digits i [] = pure continue_reconcile
reconcile_pods_of cfg digits i (info ∷ infos) = do
  sts ← stateful_set_at i
  reconcile_pods cfg digits sts
  reconcile_pods_of cfg digits (i + 1) infos

unfoldable pub check_rack_pod_labels : Settings → (digits : ℕ → String) → M ReconcileResult
check_rack_pod_labels cfg digits = reconcile_pods_of cfg digits 0 cfg.desired_rack_information
