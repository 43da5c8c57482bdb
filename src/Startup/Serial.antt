-- ===== src/Startup/Serial.antt =====
-- The number of nodes that a pass of CheckPodsReady starts.
use text.Mathlib.TextEquality.{eq_iff}
use cass_operator.Prelude.{
  ℕ, String, ◌≤◌, ◌≡◌, ◌≢◌, refl, Bool, true, false, List, [], ◌∷◌, Option, none, some, arith, ◌==◌,
  string_eq, ◌⊎◌, inl, inr, All, Option-cases, Bool-cases, if◌then◌else◌, ltb,
}
use cass_operator.Result.{Outcome, ok, err, call_back_soon}
use cass_operator.Pods.{Pod, seed_node_label}
use cass_operator.Passing.{lift_outcome, pure}
use cass_operator.Passing.Keeps.{
  Keeps-lift_outcome, Ends, Ends->>=, Ends-if, Ends-weaken, Keeps, Keeps-Ends, Keeps-if, Keeps-pure,
}
use cass_operator.Startup.World.{Settings, State, M, Call, perform, patch_label, dc_pods}
use cass_operator.Startup.Ops.{
  first_pod, find_started_not_ready_nodes, delete_stuck_nodes, refresh_seeds, find_starting_nodes,
  replace_address, start_cassandra,
}
use cass_operator.Startup.Seeds.{check_seed_labels}
use cass_operator.Startup.Pass.{
  start_in_rack, start_in_racks, rack_ready_count, can_start_in, start_one_node_per_rack,
  start_or_wait, start_all_nodes, is_cluster_healthy, start_remaining, start_nodes, label_and_start,
  tend_pods, check_pods_ready,
}
use cass_operator.Startup.Keeps.{Keeps-dc_pods}
use cass_operator.Startup.Quiet.{
  starts, Keeps-patch_label, Keeps-find_started_not_ready_nodes, Keeps-delete_stuck_nodes,
  Keeps-refresh_seeds, Keeps-find_starting_nodes, Keeps-check_seed_labels, Keeps-is_cluster_healthy,
  Keeps-count_pods, Keeps-label_server_pod_starting,
}

-- One node was started at most, after none.
abbrev NoneStarted : State → Type 0
NoneStarted s = starts s ≡ 0

abbrev pub OneStarted : State → Type 0
OneStarted s = starts s ≤ 1

NoneStarted-OneStarted : (s : State) → NoneStarted s → OneStarted s
NoneStarted-OneStarted s h = omega arith

-- An operation that starts no node
Keeps-OneStarted :
    {A : Type 0} (P : State → Type 0) (m : M A)
    → ((s : State) → P s → OneStarted s)
    → ((k : ℕ) → Keeps (λ s. starts s ≡ k) m)
    → Ends P m (λ r. OneStarted)
Keeps-OneStarted P m fewer quiet = record {
  at = λ s h. omega (arith, (quiet (starts s)).at s refl, fewer s h);
}

OneStarted-same : (s : State) → OneStarted s → OneStarted s
OneStarted-same s h = h

-- No node was started, or one was and the rack it stands in has a name.
IsWaiting : Outcome String → State → Type 0
IsWaiting (ok rack) s = NoneStarted s ⊎ (OneStarted s × (rack ≢ ""))
IsWaiting (err e) s = OneStarted s

module _ (cfg : Settings) where
  perform-OneStarted : (c : Call) → Ends NoneStarted (perform cfg c) (λ r. OneStarted)
  unfolding perform
  perform-OneStarted c = record { at = λ s h. ground arith }

  start_cassandra-OneStarted :
      (p : Pod) → Ends NoneStarted (start_cassandra cfg p) (λ r. OneStarted)
  unfolding start_cassandra
  start_cassandra-OneStarted p =
      Ends->>= NoneStarted (λ r. NoneStarted) (λ r. OneStarted)
        (lift_outcome (replace_address cfg p)) _
        (Keeps-Ends _ (Keeps-lift_outcome (replace_address cfg p)))
        (λ address.
          Ends->>= NoneStarted (λ r. OneStarted) (λ r. OneStarted) (perform cfg _) _
            (perform-OneStarted _)
            (λ _.
              Keeps-OneStarted OneStarted _ OneStarted-same
                (λ k. Keeps-label_server_pod_starting cfg k p))
            (λ e. OneStarted-same))
        (λ e. NoneStarted-OneStarted)

  start_in_rack-OneStarted :
      (seed : Bool) (p : Pod) → Ends NoneStarted (start_in_rack cfg seed p) (λ r. OneStarted)
  unfolding start_in_rack
  start_in_rack-OneStarted true p =
      Ends->>= NoneStarted (λ r. NoneStarted) (λ r. OneStarted)
        (patch_label cfg p seed_node_label "true") _
        (Keeps-Ends _ (Keeps-patch_label cfg 0 p seed_node_label "true"))
        (λ _. start_cassandra-OneStarted _) (λ e. NoneStarted-OneStarted)
  start_in_rack-OneStarted false p = start_cassandra-OneStarted p

  start_in_racks-IsWaiting :
      (seed : Bool) (pods : List Pod) (waiting : String) (racks : List String)
      → All (λ r. r ≢ "") racks
      → Ends NoneStarted (start_in_racks cfg seed pods waiting racks) IsWaiting
  unfolding start_in_racks IsWaiting pure
  start_in_racks-IsWaiting seed pods waiting [] named = record { at = λ s h. inl h }
  start_in_racks-IsWaiting seed pods waiting (rack ∷ racks) named =
      Ends-if NoneStarted IsWaiting (ltb 0 (rack_ready_count pods rack)) _ _
        (λ _. start_in_racks-IsWaiting seed pods waiting racks named.1)
        (λ _. elim (Option-cases (first_pod (can_start_in cfg.now rack) pods)) [
          | inl e ↦ rw e (start_in_racks-IsWaiting seed pods rack racks named.1)
          | inr (p, e) ↦ rw e (
              Ends->>= NoneStarted (λ r. OneStarted) IsWaiting (start_in_rack cfg seed p) _
                (start_in_rack-OneStarted seed p) (λ _. record { at = λ s h. inr (h, named.0) })
                (λ e s h. h))
        ])

  start_or_wait-OneStarted :
      (pods : List Pod) (o : Option Pod)
      → Ends NoneStarted (start_or_wait cfg pods o) (λ r. OneStarted)
  unfolding start_or_wait
  start_or_wait-OneStarted pods (some p) =
      Ends->>= NoneStarted (λ r. OneStarted) (λ r. OneStarted) (start_cassandra cfg p) _
        (start_cassandra-OneStarted p)
        (λ _. Keeps-OneStarted OneStarted _ OneStarted-same (λ k. Keeps-pure true))
        (λ e. OneStarted-same)
  start_or_wait-OneStarted pods none =
      Keeps-OneStarted NoneStarted _ NoneStarted-OneStarted (λ k. Keeps-pure _)

  start_all_nodes-OneStarted : Ends NoneStarted (start_all_nodes cfg) (λ r. OneStarted)
  unfolding start_all_nodes
  start_all_nodes-OneStarted =
      Ends->>= NoneStarted (λ r. NoneStarted) (λ r. OneStarted) dc_pods _
        (Keeps-Ends _ Keeps-dc_pods) (λ pods. start_or_wait-OneStarted pods _)
        (λ e. NoneStarted-OneStarted)

  start_remaining-OneStarted : Ends NoneStarted (start_remaining cfg) (λ r. OneStarted)
  unfolding start_remaining
  start_remaining-OneStarted =
      Ends->>= NoneStarted (λ r. NoneStarted) (λ r. OneStarted) (is_cluster_healthy cfg) _
        (Keeps-Ends _ (Keeps-is_cluster_healthy cfg 0))
        (λ healthy.
          Ends-if NoneStarted _ healthy _ _
            (λ _.
              Ends->>= NoneStarted (λ r. OneStarted) (λ r. OneStarted) (start_all_nodes cfg) _
                start_all_nodes-OneStarted
                (λ more.
                  Keeps-OneStarted OneStarted _ OneStarted-same
                    (λ k. Keeps-if more _ _ (Keeps-pure _) (Keeps-count_pods cfg k)))
                (λ e. OneStarted-same))
            (λ _. Keeps-OneStarted NoneStarted _ NoneStarted-OneStarted (λ k. Keeps-pure _)))
        (λ e. NoneStarted-OneStarted)

  IsWaiting-OneStarted : (r : Outcome String) (s : State) → IsWaiting r s → OneStarted s
  unfolding IsWaiting
  IsWaiting-OneStarted (ok rack) s h = ground arith
  IsWaiting-OneStarted (err e) s h = h

  still_none :
      (rack : String) → (rack == "") ≡ true → (s : State) → IsWaiting (ok rack) s → NoneStarted s
  unfolding IsWaiting
  still_none rack nameless s (inl h) = h
  still_none rack nameless s (inr (one, named)) = absurd (named ((eq_iff rack "").0 nameless))

  after_racks :
      (rack : String)
      → Ends
          (IsWaiting (ok rack))
          (if rack == "" then start_remaining cfg else pure (call_back_soon 2))
          (λ r. OneStarted)
  after_racks rack =
      Ends-if _ _ (rack == "") _ _
        (λ nameless.
          Ends-weaken NoneStarted _ _ _ (still_none rack nameless) start_remaining-OneStarted)
        (λ _. Keeps-OneStarted _ _ (IsWaiting-OneStarted (ok rack)) (λ k. Keeps-pure _))

  module _ (named : All (λ r. r ≢ "") cfg.rack_order) where
    start_one_node_per_rack-IsWaiting :
        (n : ℕ) → Ends NoneStarted (start_one_node_per_rack cfg n) IsWaiting
    unfolding start_one_node_per_rack IsWaiting
    start_one_node_per_rack-IsWaiting n =
        Ends->>= NoneStarted (λ r. NoneStarted) IsWaiting dc_pods _ (Keeps-Ends _ Keeps-dc_pods)
          (λ pods. start_in_racks-IsWaiting _ pods "" cfg.rack_order named)
          (λ e s h. NoneStarted-OneStarted s h)

    start_nodes-OneStarted : (n : ℕ) → Ends NoneStarted (start_nodes cfg n) (λ r. OneStarted)
    unfolding start_nodes
    start_nodes-OneStarted n =
        Ends->>= NoneStarted (λ r. NoneStarted) (λ r. OneStarted) (find_starting_nodes cfg) _
          (Keeps-Ends _ (Keeps-find_starting_nodes cfg 0))
          (λ starting.
            Ends-if NoneStarted _ starting.0 _ _
              (λ _. Keeps-OneStarted NoneStarted _ NoneStarted-OneStarted (λ k. Keeps-pure _))
              (λ _.
                Ends->>= NoneStarted IsWaiting (λ r. OneStarted) (start_one_node_per_rack cfg n) _
                  (start_one_node_per_rack-IsWaiting n) after_racks
                  (λ e. IsWaiting-OneStarted (err e))))
          (λ e. NoneStarted-OneStarted)

    label_and_start-OneStarted : Ends NoneStarted (label_and_start cfg) (λ r. OneStarted)
    unfolding label_and_start
    label_and_start-OneStarted =
        Ends->>= NoneStarted (λ r. NoneStarted) (λ r. OneStarted)
          (check_seed_labels cfg cfg.desired_rack_information) _
          (Keeps-Ends _ (Keeps-check_seed_labels cfg 0 cfg.desired_rack_information))
          (λ n.
            Ends->>= NoneStarted (λ r. NoneStarted) (λ r. OneStarted) (refresh_seeds cfg) _
              (Keeps-Ends _ (Keeps-refresh_seeds cfg 0)) (λ _. start_nodes-OneStarted n)
              (λ e. NoneStarted-OneStarted))
          (λ e. NoneStarted-OneStarted)

    tend_pods-OneStarted : Ends NoneStarted (tend_pods cfg) (λ r. OneStarted)
    unfolding tend_pods
    tend_pods-OneStarted =
        Ends->>= NoneStarted (λ r. NoneStarted) (λ r. OneStarted) (find_started_not_ready_nodes cfg)
          _ (Keeps-Ends _ (Keeps-find_started_not_ready_nodes cfg 0))
          (λ lost.
            Ends-if NoneStarted _ lost _ _
              (λ _. Keeps-OneStarted NoneStarted _ NoneStarted-OneStarted (λ k. Keeps-pure _))
              (λ _.
                Ends->>= NoneStarted (λ r. NoneStarted) (λ r. OneStarted) (delete_stuck_nodes cfg) _
                  (Keeps-Ends _ (Keeps-delete_stuck_nodes cfg 0))
                  (λ deleted.
                    Ends-if NoneStarted _ deleted _ _
                      (λ _.
                        Keeps-OneStarted NoneStarted _ NoneStarted-OneStarted (λ k. Keeps-pure _))
                      (λ _. label_and_start-OneStarted))
                  (λ e. NoneStarted-OneStarted)))
          (λ e. NoneStarted-OneStarted)

-- One pass of CheckPodsReady asks one node at most to start, whichever calls fail and whatever the order in which Go
-- ranges over the racks, if no rack of that order has the empty name.
pub starts-check_pods_ready-le :
    (cfg : Settings) (s : State)
    → starts s ≡ 0
    → All (λ r. r ≢ "") cfg.rack_order
    → starts (check_pods_ready cfg s).1 ≤ 1
unfolding check_pods_ready
starts-check_pods_ready-le cfg s fresh named = elim (Bool-cases cfg.stopped) [
  | inl halted ↦ simp halted (NoneStarted-OneStarted s fresh)
  | inr runs ↦ simp runs ((tend_pods-OneStarted cfg named).at s fresh)
]
