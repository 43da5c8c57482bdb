-- ===== src/Decommission/Safety.antt =====
-- DecommissionNodes, and the room that the other pods have for what a leaving pod stores.

use cass_operator.Prelude.{
  ℕ, String, ◌+◌, ◌≡◌, refl, List, [], ◌∷◌, arith, All, ◌==◌, ltb, leb, string_eq,
}
use cass_operator.Result.{Outcome, ok, err, ReconcileResult, continue_reconcile, call_back_soon}
use cass_operator.Passing.{◌>>=◌, pure, fail, lift_outcome}
use cass_operator.Passing.Keeps.{
  Ends, Ends->>=, Ends-weaken, Ends-if, Keeps, Keeps-Ends, Keeps->>=, Keeps-pure, Keeps-fail,
  Keeps-if,
}
use cass_operator.Datacenter.{ConditionStatus, status_true}
use cass_operator.Pods.{Pod, is_mgmt_api_running, cass_node_state, state_decommissioning}
use cass_operator.Racks.{RackInformation, calculate_rack_info_for_decomm}
use cass_operator.Racks
use cass_operator.Decommission.World.{
  StatefulSet, Settings, State, M, Call, patch_status, patch_pod, call_decommission,
  patch_stateful_set, get_pvc, delete_pvc, get, put, perform, attempt, patch_label,
}
use cass_operator.Decommission.Capacity.{
  used_at, get_used_storage_for_pods, read_capacity, can_absorb, refuse_scale_down,
  ensure_pods_can_absorb_decomm_data,
}
use cass_operator.Decommission.Ops.{
  update_condition, set_updating, is_last_of_rack, decommission_node_on_rack, scale_down_rack,
  scale_down_racks, decommission_nodes, total_replicas,
}
use cass_operator.Decommission.Room.{HasRoom, can_absorb-HasRoom}

-- A call to leave the cluster is made for a pod whose data every pod had room for, by the loads that
-- the cluster reported and by the capacities at some point of the pass.
abbrev pub IsSafe : Settings → List Pod → Call → Type 0
IsSafe cfg pods (call_decommission p) =
    (calls : List Call) × (used : List (String × ℕ)) × (get_used_storage_for_pods cfg pods
      ≡ ok used)
    × All (HasRoom cfg calls used p) pods
IsSafe cfg pods patch_status = Unit
IsSafe cfg pods (patch_pod p) = Unit
IsSafe cfg pods (patch_stateful_set sts) = Unit
IsSafe cfg pods (get_pvc claim) = Unit
IsSafe cfg pods (delete_pvc claim) = Unit

module _ (cfg : Settings) (pods : List Pod) where
  abbrev Before : State → Type 0
  Before s = (s.dc_pods ≡ pods) × All (IsSafe cfg pods) s.trace

  abbrev After : State → Type 0
  After s = All (IsSafe cfg pods) s.trace

  Keeps-patch_status : Keeps Before (perform cfg patch_status)
  unfolding perform
  Keeps-patch_status = record { at = λ s h. (h.0, (tt, h.1)) }

  Keeps-get : Keeps Before get
  unfolding get
  Keeps-get = record { at = λ s h. h }

  Keeps-read_capacity : (p : Pod) → Keeps Before (read_capacity cfg p)
  unfolding read_capacity
  Keeps-read_capacity p = record { at = λ s h. h }

  Keeps-refuse_scale_down : Keeps Before (refuse_scale_down cfg)
  unfolding refuse_scale_down ◌>>=◌ get put pure fail perform
  Keeps-refuse_scale_down = record { at = λ s h. ground (arith, h) }

  Keeps-update_condition : (status : ConditionStatus) → Keeps Before (update_condition cfg status)
  unfolding update_condition ◌>>=◌ get put pure perform
  Keeps-update_condition status = record { at = λ s h. ground (arith, h) }

  Keeps-set_updating : Keeps Before (set_updating cfg)
  unfolding set_updating ◌>>=◌ get put pure perform
  Keeps-set_updating = record { at = λ s h. ground (arith, h) }

  Keeps-can_absorb :
      (used : List (String × ℕ)) (p : Pod) (qs : List Pod) → Keeps Before (can_absorb cfg used p qs)
  unfolding can_absorb
  Keeps-can_absorb used p [] = Keeps-pure tt
  Keeps-can_absorb used p (q ∷ qs) = Keeps-if (q.name == p.name) _ _ (Keeps-can_absorb used p qs) (
      Keeps->>= (read_capacity cfg q) _ (Keeps-read_capacity q) λ total.
        Keeps-if (ltb total (used_at q.name used + used_at p.name used)) _ _ Keeps-refuse_scale_down
          (Keeps-can_absorb used p qs))

  -- What holds once the room was looked at
  HasLooked : Pod → Outcome (Unit {0}) → State → Type 0
  HasLooked p (ok u) s = Before s × IsSafe cfg pods (call_decommission p)
  HasLooked p (err e) s = Before s

  looked :
      (p : Pod) (used : List (String × ℕ)) (s : State)
      → get_used_storage_for_pods cfg pods ≡ ok used
      → Before s
      → HasLooked p (can_absorb cfg used p pods s).0 (can_absorb cfg used p pods s).1
  unfolding HasLooked
  looked p used s e h = cases (can_absorb cfg used p pods s).0 refl
    where
      kept : Before (can_absorb cfg used p pods s).1
      kept = (Keeps-can_absorb used p pods).at s h

      cases :
          (r : Outcome (Unit {0}))
          → (can_absorb cfg used p pods s).0 ≡ r
          → HasLooked p r (can_absorb cfg used p pods s).1
      cases (ok u) c = (kept, (s.trace, used, e, (can_absorb-HasRoom cfg used p pods s c).1))
      cases (err x) c = kept

  ensure_pods_can_absorb_decomm_data-HasLooked :
      (p : Pod) → Ends Before (ensure_pods_can_absorb_decomm_data cfg p) (HasLooked p)
  unfolding ensure_pods_can_absorb_decomm_data get ◌>>=◌ lift_outcome HasLooked
  ensure_pods_can_absorb_decomm_data-HasLooked p = record { at = λ s h. by_loads s h }
    where
      by_loads :
          (s : State)
          → Before s
          → HasLooked p
              (ensure_pods_can_absorb_decomm_data cfg p s).0
              (ensure_pods_can_absorb_decomm_data cfg p s).1
      by_loads s h = simp h.0 (cases (get_used_storage_for_pods cfg pods) refl)
        where
          cases :
              (r : Outcome (List (String × ℕ)))
              → get_used_storage_for_pods cfg pods ≡ r
              → HasLooked p
                  (((lift_outcome (get_used_storage_for_pods cfg pods) >>= λ used.
                      can_absorb cfg used p pods)
                    s).0)
                  (((lift_outcome (get_used_storage_for_pods cfg pods) >>= λ used.
                      can_absorb cfg used p pods)
                    s).1)
          cases (ok used) c = rw c (looked p used s c h)
          cases (err x) c = rw c h

  Before-After : (s : State) → Before s → After s
  Before-After s h = h.1

  attempt-After :
      (p : Pod) → Ends (HasLooked p (ok tt)) (attempt cfg (call_decommission p)) (λ r. After)
  unfolding HasLooked attempt
  attempt-After p = record { at = λ s h. (h.1, h.0.1) }

  not_looked : (p : Pod) (e : String) (s : State) → HasLooked p (err e) s → After s
  unfolding HasLooked
  not_looked p e s h = h.1

  Keeps-patch_label : (p : Pod) (key value : String) → Keeps After (patch_label cfg p key value)
  unfolding patch_label ◌>>=◌ get put perform
  Keeps-patch_label p key value = record { at = λ s h. (tt, h) }

  decommission_node_on_rack-After :
      (rack : String) (n : ℕ) (ps : List Pod)
      → Ends Before (decommission_node_on_rack cfg rack n ps) (λ r. After)
  unfolding decommission_node_on_rack
  decommission_node_on_rack-After rack n [] =
      Ends-weaken After Before (λ r. After) _ Before-After (Keeps-Ends _ (Keeps-fail _ _))
  decommission_node_on_rack-After rack n (p ∷ ps) =
      Ends-if Before (λ r. After) (is_last_of_rack rack n p) _ _
        (λ _.
          Ends-if Before (λ r. After) (is_mgmt_api_running cfg.now p) _ _
            (λ _.
              Ends->>= Before (HasLooked p) (λ r. After) (ensure_pods_can_absorb_decomm_data cfg p)
                _ (ensure_pods_can_absorb_decomm_data-HasLooked p)
                (λ _.
                  Ends->>= (HasLooked p (ok tt)) (λ r. After) (λ r. After)
                    (attempt cfg (call_decommission p)) _ (attempt-After p)
                    (λ _. Keeps-Ends _ (Keeps-patch_label p cass_node_state state_decommissioning))
                    (λ e s h. h))
                (λ e s h. not_looked p e s h))
            (λ _.
              Ends-weaken After Before (λ r. After) _ Before-After (Keeps-Ends _ (Keeps-fail _ _))))
        (λ _. decommission_node_on_rack-After rack n ps)

  scale_down_rack-After :
      (info : RackInformation) (sts : StatefulSet)
      → Ends Before (scale_down_rack cfg info sts) (λ r. After)
  unfolding scale_down_rack
  scale_down_rack-After info sts =
      Ends->>= Before (λ r. Before) (λ r. After) (update_condition cfg status_true) _
        (Keeps-Ends _ (Keeps-update_condition status_true))
        (λ _.
          Ends->>= Before (λ r. Before) (λ r. After) (set_updating cfg) _
            (Keeps-Ends _ Keeps-set_updating)
            (λ _.
              Ends->>= Before (λ r. Before) (λ r. After) get _ (Keeps-Ends _ Keeps-get)
                (λ s.
                  Ends->>= Before (λ r. After) (λ r. After)
                    (decommission_node_on_rack cfg info.rack_name sts.replicas s.dc_pods) _
                    (decommission_node_on_rack-After info.rack_name sts.replicas s.dc_pods)
                    (λ _. Keeps-Ends _ (Keeps-pure (call_back_soon 10))) (λ e s h. h))
                (λ e. Before-After))
            (λ e. Before-After))
        (λ e. Before-After)

  scale_down_racks-After :
      (infos : List RackInformation) (sets : List StatefulSet)
      → Ends Before (scale_down_racks cfg infos sets) (λ r. After)
  unfolding scale_down_racks
  scale_down_racks-After [] sets =
      Ends-weaken After Before (λ r. After) _ Before-After
        (Keeps-Ends _ (Keeps-pure continue_reconcile))
  scale_down_racks-After (info ∷ infos) [] =
      Ends-weaken After Before (λ r. After) _ Before-After
        (Keeps-Ends _ (Keeps-pure continue_reconcile))
  scale_down_racks-After (info ∷ infos) (sts ∷ sets) =
      Ends-if Before (λ r. After) (ltb info.node_count sts.replicas) _ _
        (λ _. scale_down_rack-After info sts) (λ _. scale_down_racks-After infos sets)

  decommission_nodes-After : Ends Before (decommission_nodes cfg) (λ r. After)
  unfolding decommission_nodes
  decommission_nodes-After =
      Ends->>= Before (λ r. Before) (λ r. After) get _ (Keeps-Ends _ Keeps-get)
        (λ s.
          Ends-if Before (λ r. After) (leb (total_replicas s.stateful_sets) cfg.dc.spec.size) _ _
            (λ _.
              Ends-weaken After Before (λ r. After) _ Before-After
                (Keeps-Ends _ (Keeps-pure continue_reconcile)))
            (λ _.
              by_racks (calculate_rack_info_for_decomm cfg.dc (total_replicas s.stateful_sets)) s))
        (λ e. Before-After)
    where
      by_racks :
          (r : Racks.Outcome (List RackInformation)) (s : State)
          → Ends Before
              (elim r as (λ x. M ReconcileResult) [
                | Racks.too_few_nodes ↦
                    fail "the number of nodes cannot be smaller than the number of racks"
                | Racks.ok infos ↦ scale_down_racks cfg infos s.stateful_sets
              ])
              (λ r. After)
      by_racks Racks.too_few_nodes s =
          Ends-weaken After Before (λ r. After) _ Before-After (Keeps-Ends _ (Keeps-fail _ _))
      by_racks (Racks.ok infos) s = scale_down_racks-After infos s.stateful_sets

-- DecommissionNodes asks a pod to leave the cluster only if every other pod of the datacenter has room for
-- its data, by the loads that the cluster reported; otherwise the call is not made, whatever else fails.
pub decommission_nodes-IsSafe :
    (cfg : Settings) (s : State)
    → s.trace ≡ []
    → All (IsSafe cfg s.dc_pods) (decommission_nodes cfg s).1.trace
decommission_nodes-IsSafe cfg s fresh =
    (decommission_nodes-After cfg s.dc_pods).at s (refl, simp fresh tt)
