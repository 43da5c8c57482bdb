-- ===== src/Decommission/Cleanup.antt =====
-- CheckDecommissioningNodes: the calls that remove what a node had.
use cass_operator.Prelude.{
  ℕ, String, ◌≡◌, refl, true, ◌&&◌, List, [], ◌∷◌, Option, none, some, arith, All, contains, ◌==◌,
  string_eq, nat_eq, inl, inr, Bool-cases, ◌-◌,
}
use cass_operator.Passing.{◌>>=◌, pure}
use cass_operator.Passing.Keeps.{Keeps, Keeps->>=, Keeps-pure, Keeps-fail, Keeps-if}
use cass_operator.Strings.{codes, has_suffix}
use cass_operator.Datacenter.{ConditionStatus, status_true, status_false, scaling_down}
use cass_operator.Conditions.{status_eq, get_condition_status}
use cass_operator.Pods.{Pod, rack_of, node_state, state_decommissioning}
use cass_operator.Decommission.World.{
  StatefulSet, Settings, State, Call, call_decommission, patch_stateful_set, get_pvc, delete_pvc,
  get, put, perform, attempt, sts_last_pod_suffix,
}
use cass_operator.Decommission.Ops.{
  update_condition, set_updating, is_done_decommissioning, has_started_decommissioning,
  update_rack_node_count, shrink_if_last, remove_decommissioned_pod_from_sts, delete_pod_pvcs,
  clean_up_after_decommissioned_pod, tend_decommissioning, tend_first, check_decommissioning_nodes,
}
use cass_operator.Decommission.Earned.{
  has_left, was_last, IsEarned, IsAmong, All-IsAmong, contains-All, stateful_set_of-rack,
  last-was_last,
}

module _ (cfg : Settings) (pods : List Pod) where
  abbrev P : State → Type 0
  P s = All (IsEarned cfg pods) s.trace

  Keeps-perform : (c : Call) → IsEarned cfg pods c → Keeps P (perform cfg c)
  unfolding perform
  Keeps-perform c earned = record { at = λ s h. (earned, h) }

  Keeps-get : Keeps P get
  unfolding get
  Keeps-get = record { at = λ s h. h }

  Keeps-call_decommission :
      (p : Pod)
      → (node_state p == state_decommissioning) ≡ true
      → Keeps P (attempt cfg (call_decommission p))
  unfolding attempt
  Keeps-call_decommission p marked = record { at = λ s h. (marked, h) }

  Keeps-update_condition : (status : ConditionStatus) → Keeps P (update_condition cfg status)
  unfolding update_condition ◌>>=◌ get put pure perform
  Keeps-update_condition status = record { at = λ s h. ground (arith, h) }

  Keeps-set_updating : Keeps P (set_updating cfg)
  unfolding set_updating ◌>>=◌ get put pure perform
  Keeps-set_updating = record { at = λ s h. ground (arith, h) }

  Keeps-set_replicas :
      (sts : StatefulSet) (n : ℕ)
      → IsEarned cfg pods (patch_stateful_set (record sts { replicas = n }))
      → Keeps P (update_rack_node_count cfg sts n)
  unfolding update_rack_node_count ◌>>=◌ get put pure perform
  Keeps-set_replicas sts n earned =
      Keeps->>= (set_updating cfg) _ Keeps-set_updating (λ _. record { at = λ s h. (earned, h) })

  Keeps-delete_pod_pvcs :
      (claims : List String)
      → All (λ c. IsEarned cfg pods (delete_pvc c)) claims
      → Keeps P (delete_pod_pvcs cfg claims)
  unfolding delete_pod_pvcs
  Keeps-delete_pod_pvcs [] earned = Keeps-pure tt
  Keeps-delete_pod_pvcs (c ∷ cs) earned =
      Keeps->>= (perform cfg (get_pvc c)) _ (Keeps-perform (get_pvc c) tt) λ _.
        Keeps->>= (perform cfg (delete_pvc c)) _ (Keeps-perform (delete_pvc c) earned.0)
          (λ _. Keeps-delete_pod_pvcs cs earned.1)

  module _ (p : Pod) (among : IsAmong pods p) (left : has_left cfg p ≡ true) where
    IsEarned-claims :
        (cs : List String)
        → All (λ c. contains c (cfg.claims p) ≡ true) cs
        → All (λ c. IsEarned cfg pods (delete_pvc c)) cs
    IsEarned-claims [] h = tt
    IsEarned-claims (c ∷ cs) h = (
      among (λ q. has_left cfg q && contains c (cfg.claims q)) (rw (left, h.0) refl),
      IsEarned-claims cs h.1,
    )

    Keeps-shrink_if_last :
        (o : Option StatefulSet)
        → elim o as (λ x. Type 0) [ none ↦ Unit | some sts ↦ sts.rack ≡ rack_of p ]
        → Keeps P (shrink_if_last cfg p o)
    unfolding shrink_if_last
    Keeps-shrink_if_last none h = Keeps-fail _ _
    Keeps-shrink_if_last (some sts) h =
        elim (Bool-cases (has_suffix (codes p.name) (sts_last_pod_suffix sts.replicas))) [
          | inl last ↦
              let was = last-was_last sts sts.replicas p refl h last in
              rw last (
                Keeps-set_replicas sts (sts.replicas - 1) (
                  among
                    (λ q. has_left cfg q && was_last (record sts { replicas = sts.replicas - 1 }) q)
                    (rw (left, was) refl)))
          | inr other ↦ rw other (Keeps-pure tt)
        ]

    Keeps-remove_decommissioned_pod_from_sts : Keeps P (remove_decommissioned_pod_from_sts cfg p)
    unfolding remove_decommissioned_pod_from_sts
    Keeps-remove_decommissioned_pod_from_sts =
        Keeps->>= get _ Keeps-get
          (λ s. Keeps-shrink_if_last _ (stateful_set_of-rack (rack_of p) s.stateful_sets))

    Keeps-clean_up_after_decommissioned_pod : Keeps P (clean_up_after_decommissioned_pod cfg p)
    unfolding clean_up_after_decommissioned_pod get put ◌>>=◌ perform
    Keeps-clean_up_after_decommissioned_pod =
        Keeps->>= (remove_decommissioned_pod_from_sts cfg p) _
          Keeps-remove_decommissioned_pod_from_sts
          (λ _.
            Keeps->>= (delete_pod_pvcs cfg (cfg.claims p)) _
              (Keeps-delete_pod_pvcs _ (IsEarned-claims _ (contains-All (cfg.claims p))))
              (λ _. record { at = λ s h. (tt, h) }))

  Keeps-tend_decommissioning :
      (p : Pod)
      → IsAmong pods p
      → (node_state p == state_decommissioning) ≡ true
      → Keeps P (tend_decommissioning cfg p)
  unfolding tend_decommissioning
  Keeps-tend_decommissioning p among marked =
      elim (Bool-cases (is_done_decommissioning p cfg.endpoints)) [
        | inl gone ↦
            let left : has_left cfg p ≡ true = rw (marked, gone) refl in
            rw gone (Keeps-clean_up_after_decommissioned_pod p among left)
        | inr here ↦ rw here (
            Keeps-if (has_started_decommissioning p cfg.endpoints) _ _ (Keeps-pure tt)
              (Keeps-call_decommission p marked))
      ]

  Keeps-tend_first : (ps : List Pod) → All (IsAmong pods) ps → Keeps P (tend_first cfg ps)
  unfolding tend_first
  Keeps-tend_first [] among =
      Keeps->>= (update_condition cfg status_false) _ (Keeps-update_condition status_false)
        (λ _. Keeps-pure _)
  Keeps-tend_first (p ∷ ps) among = elim (Bool-cases (node_state p == state_decommissioning)) [
    | inl marked ↦ rw marked (
        Keeps->>= (tend_decommissioning cfg p) _ (Keeps-tend_decommissioning p among.0 marked)
          (λ _. Keeps-pure _))
    | inr other ↦ rw other (Keeps-tend_first ps among.1)
  ]

-- CheckDecommissioningNodes deletes a claim only for a pod that uses it, and takes a replica off a rack's stateful set
-- only for the pod that is the set's last; in both cases the pod is labelled as decommissioning, and its endpoint is
-- gone or reports that it has left. It asks only pods with that label to leave again. All this whichever calls fail.
pub check_decommissioning_nodes-IsEarned :
    (cfg : Settings) (s : State)
    → s.trace ≡ []
    → All (IsEarned cfg s.dc_pods) (check_decommissioning_nodes cfg s).1.trace
unfolding check_decommissioning_nodes ◌>>=◌ get pure
check_decommissioning_nodes-IsEarned cfg s fresh =
    let none_yet : All (IsEarned cfg s.dc_pods) s.trace = simp fresh tt in
    elim (Bool-cases (get_condition_status scaling_down s.conditions == status_true)) [
      | inl scaling ↦
          rw scaling
            ((Keeps-tend_first cfg s.dc_pods s.dc_pods (All-IsAmong s.dc_pods)).at s none_yet)
      | inr idle ↦ rw idle none_yet
    ]
