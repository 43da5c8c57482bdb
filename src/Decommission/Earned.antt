-- ===== src/Decommission/Earned.antt =====
-- Which calls of CheckDecommissioningNodes a pod of the datacenter has given rise to.
use cass_operator.Prelude.{
  ℕ, zero, suc, String, ◌≡◌, Bool, true, ◌&&◌, ◌||◌, List, [], ◌∷◌, none, some, arith, All, any,
  contains, ◌==◌, string_eq, nat_eq, inl, inr, Bool-cases, ◌-◌,
}
use cass_operator.Strings.{codes, has_suffix}
use cass_operator.Conditions.{status_eq}
use cass_operator.Pods.{Pod, rack_of, node_state, state_decommissioning}
use cass_operator.Decommission.World.{
  StatefulSet, Settings, Call, patch_status, patch_pod, call_decommission, patch_stateful_set,
  get_pvc, delete_pvc, sts_last_pod_suffix,
}
use cass_operator.Decommission.Ops.{is_done_decommissioning, stateful_set_of}

abbrev pub has_left : Settings → Pod → Bool
has_left cfg p = node_state p == state_decommissioning && is_done_decommissioning p cfg.endpoints

-- The pod of the rack that a stateful set with these replicas no longer has; a set that had none keeps none.
abbrev pub was_last : StatefulSet → Pod → Bool
was_last sts p =
    rack_of p == sts.rack
    && (has_suffix (codes p.name) (sts_last_pod_suffix (suc sts.replicas))
        || (sts.replicas == 0 && has_suffix (codes p.name) (sts_last_pod_suffix 0)))

-- A claim is deleted, and a stateful set is patched, for a pod that has left the cluster: one that uses the claim, and
-- the last one of the set; a pod is asked to leave again if it is marked to leave.
abbrev pub IsEarned : Settings → List Pod → Call → Type 0
IsEarned cfg pods (delete_pvc claim) =
    any (λ p. has_left cfg p && contains claim (cfg.claims p)) pods ≡ true
IsEarned cfg pods (patch_stateful_set sts) = any (λ p. has_left cfg p && was_last sts p) pods ≡ true
IsEarned cfg pods (call_decommission p) = (node_state p == state_decommissioning) ≡ true
IsEarned cfg pods patch_status = Unit
IsEarned cfg pods (patch_pod p) = Unit
IsEarned cfg pods (get_pvc claim) = Unit

-- A test that a pod passes is passed by a pod of the list.
abbrev pub IsAmong : List Pod → Pod → Type 0
IsAmong pods p = (f : Pod → Bool) → f p ≡ true → any f pods ≡ true

IsAmong-cons : (q : Pod) (pods ps : List Pod) → All (IsAmong pods) ps → All (IsAmong (q ∷ pods)) ps
IsAmong-cons q pods [] h = tt
IsAmong-cons q pods (p ∷ ps) h =
    ((λ f passes. let later = h.0 f passes in ground arith), IsAmong-cons q pods ps h.1)

pub All-IsAmong : (pods : List Pod) → All (IsAmong pods) pods
All-IsAmong [] = tt
All-IsAmong (p ∷ ps) = ((λ f passes. ground arith), IsAmong-cons p ps ps (All-IsAmong ps))

contains-weaken :
    (c : String) (all cs : List String)
    → All (λ x. contains x all ≡ true) cs
    → All (λ x. contains x (c ∷ all) ≡ true) cs
contains-weaken c all [] h = tt
contains-weaken c all (d ∷ ds) h = let later = h.0 in (ground arith, contains-weaken c all ds h.1)

pub contains-All : (cs : List String) → All (λ x. contains x cs ≡ true) cs
contains-All [] = tt
contains-All (c ∷ cs) =
    (ground (arith, string_eq.same_iff c c), contains-weaken c cs cs (contains-All cs))

pub stateful_set_of-rack :
    (rack : String) (sets : List StatefulSet)
    → elim (stateful_set_of rack sets) as (λ x. Type 0) [ none ↦ Unit | some sts ↦ sts.rack ≡ rack ]
unfolding stateful_set_of
stateful_set_of-rack rack [] = tt
stateful_set_of-rack rack (sts ∷ sets) = elim (Bool-cases (sts.rack == rack)) [
  | inl hit ↦ rw hit ((string_eq.same_iff sts.rack rack).0 hit)
  | inr miss ↦ rw miss (stateful_set_of-rack rack sets)
]

pub last-was_last :
    (sts : StatefulSet) (n : ℕ) (p : Pod)
    → sts.replicas ≡ n
    → sts.rack ≡ rack_of p
    → has_suffix (codes p.name) (sts_last_pod_suffix n) ≡ true
    → was_last (record sts { replicas = n - 1 }) p ≡ true
last-was_last sts zero p e r h = ground (arith, string_eq.same_iff (rack_of p) sts.rack)
last-was_last sts (suc n) p e r h = ground (arith, string_eq.same_iff (rack_of p) sts.rack)
