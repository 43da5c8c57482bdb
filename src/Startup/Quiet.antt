-- ===== src/Startup/Quiet.antt =====
-- The operations of a pass that start no node.

use cass_operator.Prelude.{
  ℕ, String, ◌≡◌, refl, Bool, true, false, List, [], ◌∷◌, Option, none, some, arith, count_if,
  string_eq, insert,
}
use cass_operator.Pods.{Pod, cass_node_state, state_starting}
use cass_operator.Racks.{RackInformation}
use cass_operator.Passing.Keeps.{Keeps, Keeps->>=, Keeps-if, Keeps-pure}
use cass_operator.Startup.World.{
  Settings, State, Call, patch_pod, delete_pod, start, reload_seeds, probe, start_replacing,
  patch_status, perform, is_answered, set_labels, patch_labels, patch_label, with_labels,
}
use cass_operator.Startup.Ops.{
  relabel_readiness, find_started_not_ready_nodes, delete_found, delete_stuck_nodes, reload_each,
  refresh_seeds, settle_starting, find_starting_nodes, stamp_start, label_server_pod_starting,
}
use cass_operator.Startup.Seeds.{label_seed, label_seed_loop, label_seed_pods, check_seed_labels}
use cass_operator.Startup.Pass.{probe_each, is_cluster_healthy, count_pods}
use cass_operator.Startup.Keeps.{startup_rules}

abbrev pub is_start : Call → Bool
is_start (start p) = true
is_start (start_replacing p address) = true
is_start (patch_pod p) = false
is_start (delete_pod p) = false
is_start (reload_seeds p) = false
is_start (probe p) = false
is_start (patch_status t) = false

-- How many nodes were started
abbrev pub starts : State → ℕ
starts s = count_if is_start s.trace

module _ (cfg : Settings) (k : ℕ) where
  abbrev P : State → Type 0
  P s = starts s ≡ k

  pub Keeps-perform : (c : Call) → is_start c ≡ false → Keeps P (perform cfg c)
  unfolding perform
  Keeps-perform c quiet = record { at = λ s h. ground arith }

  pub Keeps-is_answered : (c : Call) → is_start c ≡ false → Keeps P (is_answered cfg c)
  unfolding is_answered
  Keeps-is_answered c quiet = record { at = λ s h. ground arith }

  pub Keeps-set_labels : (p : Pod) (ls : List (String × String)) → Keeps P (set_labels p ls)
  unfolding set_labels
  Keeps-set_labels p ls = record { at = λ s h. h }

  pub Keeps-patch_labels : (p : Pod) (ls : List (String × String)) → Keeps P (patch_labels cfg p ls)
  unfolding patch_labels
  Keeps-patch_labels p ls =
      Keeps->>= (set_labels p ls) _ (Keeps-set_labels p ls)
        (λ _. Keeps-perform (patch_pod (with_labels ls p)) refl)

  pub Keeps-patch_label : (p : Pod) (key value : String) → Keeps P (patch_label cfg p key value)
  unfolding patch_label
  Keeps-patch_label p key value = Keeps-patch_labels p (insert key value p.labels)

  pub Keeps-relabel_readiness : (o : Option Pod) → Keeps P (relabel_readiness cfg o)
  unfolding relabel_readiness
  Keeps-relabel_readiness none = search startup_rules
  Keeps-relabel_readiness (some p) = search (startup_rules, Keeps-patch_label)

  pub Keeps-find_started_not_ready_nodes : Keeps P (find_started_not_ready_nodes cfg)
  unfolding find_started_not_ready_nodes
  Keeps-find_started_not_ready_nodes = search (startup_rules, Keeps-relabel_readiness)

  pub Keeps-delete_found : (o : Option Pod) → Keeps P (delete_found cfg o)
  unfolding delete_found
  Keeps-delete_found none = search startup_rules
  Keeps-delete_found (some p) =
      Keeps->>= (perform cfg (delete_pod p)) _ (Keeps-perform (delete_pod p) refl)
        (λ _. Keeps-pure true)

  pub Keeps-delete_stuck_nodes : Keeps P (delete_stuck_nodes cfg)
  unfolding delete_stuck_nodes
  Keeps-delete_stuck_nodes = search (startup_rules, Keeps-delete_found)

  pub Keeps-reload_each : (ps : List Pod) → Keeps P (reload_each cfg ps)
  unfolding reload_each
  Keeps-reload_each [] = search startup_rules
  Keeps-reload_each (p ∷ ps) =
      Keeps->>= (perform cfg (reload_seeds p)) _ (Keeps-perform (reload_seeds p) refl)
        (λ _. Keeps-reload_each ps)

  pub Keeps-refresh_seeds : Keeps P (refresh_seeds cfg)
  unfolding refresh_seeds
  Keeps-refresh_seeds = search (startup_rules, Keeps-reload_each)

  pub Keeps-settle_starting : (o : Option Pod) → Keeps P (settle_starting cfg o)
  unfolding settle_starting
  Keeps-settle_starting none = search startup_rules
  Keeps-settle_starting (some p) = search (startup_rules, Keeps-patch_label)

  pub Keeps-find_starting_nodes : Keeps P (find_starting_nodes cfg)
  unfolding find_starting_nodes
  Keeps-find_starting_nodes = search (startup_rules, Keeps-settle_starting)

  pub Keeps-label_seed : (b : Bool) (p : Pod) → Keeps P (label_seed cfg b p)
  unfolding label_seed
  Keeps-label_seed b p = search (startup_rules, Keeps-patch_labels)

  pub Keeps-label_seed_loop :
      (ps : List Pod) (n count : ℕ) → Keeps P (label_seed_loop cfg n count ps)
  unfolding label_seed_loop
  Keeps-label_seed_loop [] n count = search startup_rules
  Keeps-label_seed_loop (p ∷ ps) n count =
      Keeps->>= (label_seed cfg _ p) _ (Keeps-label_seed _ p) (λ _. Keeps-label_seed_loop ps n _)

  pub Keeps-label_seed_pods : (rack : RackInformation) → Keeps P (label_seed_pods cfg rack)
  unfolding label_seed_pods
  Keeps-label_seed_pods rack = search (startup_rules, Keeps-label_seed_loop)

  pub Keeps-check_seed_labels :
      (racks : List RackInformation) → Keeps P (check_seed_labels cfg racks)
  unfolding check_seed_labels
  Keeps-check_seed_labels [] = search startup_rules
  Keeps-check_seed_labels (rack ∷ racks) =
      Keeps->>= (label_seed_pods cfg rack) _ (Keeps-label_seed_pods rack) λ n.
        Keeps->>= (check_seed_labels cfg racks) _ (Keeps-check_seed_labels racks)
          λ rest. Keeps-pure _

  pub Keeps-probe_each : (ps : List Pod) → Keeps P (probe_each cfg ps)
  unfolding probe_each
  Keeps-probe_each [] = search startup_rules
  Keeps-probe_each (p ∷ ps) =
      Keeps->>= (is_answered cfg (probe p)) _ (Keeps-is_answered (probe p) refl)
        (λ b. Keeps-if b (probe_each cfg ps) _ (Keeps-probe_each ps) (Keeps-pure false))

  pub Keeps-is_cluster_healthy : Keeps P (is_cluster_healthy cfg)
  unfolding is_cluster_healthy
  Keeps-is_cluster_healthy = search (startup_rules, Keeps-probe_each)

  pub Keeps-count_pods : Keeps P (count_pods cfg)
  unfolding count_pods
  Keeps-count_pods = search startup_rules

  pub Keeps-stamp_start : Keeps P (stamp_start cfg)
  unfolding stamp_start
  Keeps-stamp_start = record { at = λ s h. h }

  pub Keeps-label_server_pod_starting : (p : Pod) → Keeps P (label_server_pod_starting cfg p)
  unfolding label_server_pod_starting
  Keeps-label_server_pod_starting p =
      Keeps->>= (patch_label cfg p cass_node_state state_starting) _
        (Keeps-patch_label p cass_node_state state_starting)
        λ _.
          Keeps->>= (stamp_start cfg) _ Keeps-stamp_start
            (λ _. Keeps-perform (patch_status cfg.now) refl)
