-- ===== src/Startup/Waiting.antt =====
-- The stages of CheckPodsReady before startNodes, and which pods they leave starting.
use cass_operator.Prelude.{
  ℕ, String, ◌≡◌, refl, sym, ◌∙◌, Bool, true, false, not, ◌||◌, List, [], ◌∷◌, Option, none, some,
  arith, All, ◌==◌, if◌then◌else◌, string_eq, insert, lookup-insert, lookup-erase, inl, inr,
  Bool-cases,
}
use cass_operator.Result.{Outcome, ok, err}
use cass_operator.Pods.{
  Pod, node_state, cass_node_state, seed_node_label, state_starting, is_server_starting,
  is_server_ready, did_server_lose_readiness, is_server_started_not_ready, state_started,
  state_started_not_ready,
}
use cass_operator.Pods.Filters.{filter_pod_list_by_labels}
use cass_operator.Passing.{pure, ◌>>=◌}
use cass_operator.Passing.Keeps.{Ends, Ends->>=, Keeps, Keeps-Ends, Keeps->>=, Keeps-pure, Keeps-if}
use cass_operator.Racks.{RackInformation}
use cass_operator.Startup.World.{
  Member, Settings, State, Call, pods_of, with_labels, perform, set_labels, patch_labels,
  patch_label, dc_pods, delete_pod, reload_seeds,
}
use cass_operator.Startup.Ops.{
  first_pod, changed_readiness, relabel_readiness, find_started_not_ready_nodes, delete_found,
  delete_stuck_nodes, reload_each, refresh_seeds, settle_starting,
}
use cass_operator.Startup.Seeds.{
  sort_by_name, seed_labels, label_seed, label_seed_loop, label_seed_pods, check_seed_labels,
}
use cass_operator.Startup.Keeps.{startup_rules}
use cass_operator.Startup.Listed.{All-first_pod, All-filter, All-dc, All-sort_by_name}
use cass_operator.Startup.Shapes.{Shape, shapes, unique, Agrees, unique-Agrees, shapes-relabel}

-- The first pod that is starting is not ready.
abbrev pub waits : List Shape → Bool
waits [] = false
waits (a ∷ v) = if a.starting then not a.ready else waits v

pub settle_starting-waits :
    (cfg : Settings) (ms : List Member) (s : State)
    → waits (shapes ms) ≡ true
    → settle_starting cfg (first_pod is_server_starting (pods_of ms)) s ≡ (ok (true, false), s)
unfolding first_pod settle_starting pure
settle_starting-waits cfg [] s h = cc
settle_starting-waits cfg (m ∷ ms) s h = elim (Bool-cases (is_server_starting m.pod)) [
  | inl up ↦ let not_ready : is_server_ready m.pod ≡ false = ground arith in rw (up, not_ready) refl
  | inr down ↦ let h' = rw down at h in rw down (settle_starting-waits cfg ms s h')
]

value-set :
    (p : Pod) (value : String)
    → is_server_starting (with_labels (insert cass_node_state value p.labels) p)
      ≡ (value == state_starting)
unfolding is_server_starting
value-set p value = ground (arith, lookup-insert cass_node_state cass_node_state value p.labels)

not_starting :
    (state : String)
    → (state == state_started || state == state_started_not_ready) ≡ true
    → (state == state_starting) ≡ false
not_starting state h = elim (Bool-cases (state == state_started)) [
  | inl up ↦ rw ((string_eq.same_iff state state_started).0 up) refl
  | inr other ↦
      let down : (state == state_started_not_ready) ≡ true = rw other at h in
      rw ((string_eq.same_iff state state_started_not_ready).0 down) refl
]

changed-not_starting : (p : Pod) → changed_readiness p ≡ true → is_server_starting p ≡ false
unfolding changed_readiness did_server_lose_readiness is_server_started_not_ready is_server_starting
changed-not_starting p h = not_starting (node_state p) (ground arith)

seed_labels-starting :
    (b : Bool) (p : Pod)
    → is_server_starting (with_labels (seed_labels b p).1 p) ≡ is_server_starting p
unfolding seed_labels is_server_starting
seed_labels-starting b p = ground (
  arith,
  lookup-insert seed_node_label cass_node_state "true" p.labels,
  lookup-erase seed_node_label cass_node_state p.labels,
)

module _ (cfg : Settings) (v : List Shape) (distinct : unique v ≡ true) where
  abbrev pub SameShapes : State → Type 0
  SameShapes s = shapes s.members ≡ v

  IsListed : Outcome (List Pod) → State → Type 0
  IsListed (ok ps) s = SameShapes s × All (Agrees v) ps
  IsListed (err e) s = SameShapes s

  dc_pods-IsListed : Ends SameShapes dc_pods IsListed
  unfolding dc_pods IsListed
  dc_pods-IsListed = record {
    at = λ s h.
        let agree : All (Agrees v) (pods_of s.members) =
          rw h at (unique-Agrees s.members (rw h distinct)) in
        (h, All-dc (Agrees v) s.members agree);
  }

  Keeps-perform : (c : Call) → Keeps SameShapes (perform cfg c)
  unfolding perform
  Keeps-perform c = record { at = λ s h. h }

  Keeps-patch_labels :
      (p : Pod) (ls : List (String × String))
      → Agrees v p
      → is_server_starting (with_labels ls p) ≡ is_server_starting p
      → Keeps SameShapes (patch_labels cfg p ls)
  unfolding patch_labels set_labels ◌>>=◌ perform
  Keeps-patch_labels p ls agrees same = record {
    at = λ s h. shapes-relabel p ls s.members (rw h agrees) same ∙ h;
  }

  Keeps-relabel_readiness :
      (o : Option Pod)
      → elim o as (λ x. Type 0) [ none ↦ Unit | some p ↦ Agrees v p × (changed_readiness p ≡ true) ]
      → Keeps SameShapes (relabel_readiness cfg o)
  unfolding relabel_readiness patch_label
  Keeps-relabel_readiness none h = Keeps-pure false
  Keeps-relabel_readiness (some p) (agrees, changed) =
      let quiet = changed-not_starting p changed in
      Keeps-if (did_server_lose_readiness p) _ _
        (Keeps->>= (patch_labels cfg p (insert cass_node_state state_started_not_ready p.labels)) _
          (Keeps-patch_labels p _ agrees (value-set p state_started_not_ready ∙ sym quiet))
          (λ _. Keeps-pure true))
        (Keeps->>= (patch_labels cfg p (insert cass_node_state state_started p.labels)) _
          (Keeps-patch_labels p _ agrees (value-set p state_started ∙ sym quiet))
          (λ _. Keeps-pure false))

  pub find_started_not_ready_nodes-SameShapes :
      Ends SameShapes (find_started_not_ready_nodes cfg) (λ r. SameShapes)
  unfolding find_started_not_ready_nodes IsListed
  find_started_not_ready_nodes-SameShapes =
      Ends->>= SameShapes IsListed (λ r. SameShapes) dc_pods _ dc_pods-IsListed
        (λ ps. record {
          at = λ s h.
              (Keeps-relabel_readiness (first_pod changed_readiness ps)
                  (All-first_pod (Agrees v) changed_readiness ps h.1)).at
                s h.0;
        })
        (λ e s h. h)

  Keeps-delete_found : (o : Option Pod) → Keeps SameShapes (delete_found cfg o)
  unfolding delete_found
  Keeps-delete_found none = Keeps-pure false
  Keeps-delete_found (some p) =
      Keeps->>= (perform cfg (delete_pod p)) _ (Keeps-perform (delete_pod p)) (λ _. Keeps-pure true)

  pub Keeps-delete_stuck_nodes : Keeps SameShapes (delete_stuck_nodes cfg)
  unfolding delete_stuck_nodes
  Keeps-delete_stuck_nodes = search (startup_rules, Keeps-delete_found)

  Keeps-reload_each : (ps : List Pod) → Keeps SameShapes (reload_each cfg ps)
  unfolding reload_each
  Keeps-reload_each [] = Keeps-pure tt
  Keeps-reload_each (p ∷ ps) =
      Keeps->>= (perform cfg (reload_seeds p)) _ (Keeps-perform (reload_seeds p))
        (λ _. Keeps-reload_each ps)

  pub Keeps-refresh_seeds : Keeps SameShapes (refresh_seeds cfg)
  unfolding refresh_seeds
  Keeps-refresh_seeds = search (startup_rules, Keeps-reload_each)

  Keeps-label_seed : (b : Bool) (p : Pod) → Agrees v p → Keeps SameShapes (label_seed cfg b p)
  unfolding label_seed
  Keeps-label_seed b p agrees =
      Keeps-if (seed_labels b p).0 _ _ (Keeps-patch_labels p _ agrees (seed_labels-starting b p))
        (Keeps-pure tt)

  Keeps-label_seed_loop :
      (ps : List Pod) (n count : ℕ)
      → All (Agrees v) ps
      → Keeps SameShapes (label_seed_loop cfg n count ps)
  unfolding label_seed_loop
  Keeps-label_seed_loop [] n count h = Keeps-pure count
  Keeps-label_seed_loop (p ∷ ps) n count h =
      Keeps->>= (label_seed cfg _ p) _ (Keeps-label_seed _ p h.0)
        (λ _. Keeps-label_seed_loop ps n _ h.1)

  label_seed_pods-SameShapes :
      (rack : RackInformation) → Ends SameShapes (label_seed_pods cfg rack) (λ r. SameShapes)
  unfolding label_seed_pods IsListed filter_pod_list_by_labels
  label_seed_pods-SameShapes rack =
      Ends->>= SameShapes IsListed (λ r. SameShapes) dc_pods _ dc_pods-IsListed
        (λ ps. record {
          at = λ s h.
              (Keeps-label_seed_loop (sort_by_name _) rack.seed_count 0
                  (All-sort_by_name (Agrees v) _ (All-filter (Agrees v) _ ps h.1))).at
                s h.0;
        })
        (λ e s h. h)

  pub check_seed_labels-SameShapes :
      (racks : List RackInformation)
      → Ends SameShapes (check_seed_labels cfg racks) (λ r. SameShapes)
  unfolding check_seed_labels
  check_seed_labels-SameShapes [] = Keeps-Ends _ (Keeps-pure 0)
  check_seed_labels-SameShapes (rack ∷ racks) =
      Ends->>= SameShapes (λ r. SameShapes) (λ r. SameShapes) (label_seed_pods cfg rack) _
        (label_seed_pods-SameShapes rack)
        (λ n.
          Ends->>= SameShapes (λ r. SameShapes) (λ r. SameShapes) (check_seed_labels cfg racks) _
            (check_seed_labels-SameShapes racks) (λ rest. Keeps-Ends _ (Keeps-pure _)) (λ e s h. h))
        (λ e s h. h)
