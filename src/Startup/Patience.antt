-- ===== src/Startup/Patience.antt =====
-- CheckPodsReady while a node is starting: the stages up to findStartingNodes composed.
use cass_operator.Prelude.{ℕ, ◌≡◌, refl, true, false, List, inl, inr, Bool-cases}
use cass_operator.Result.{ok, call_back_soon}
use cass_operator.Passing.{pure, ◌>>=◌}
use cass_operator.Passing.Keeps.{Ends, Ends->>=, Ends-if, Keeps, Keeps-Ends}
use cass_operator.Startup.World.{Settings, State, M, cluster_pods}
use cass_operator.Startup.Ops.{
  find_started_not_ready_nodes, delete_stuck_nodes, refresh_seeds, find_starting_nodes,
}
use cass_operator.Startup.Seeds.{check_seed_labels}
use cass_operator.Startup.Pass.{start_nodes, label_and_start, tend_pods, check_pods_ready}
use cass_operator.Startup.Quiet
use cass_operator.Startup.Quiet.{starts}
use cass_operator.Startup.Shapes.{Shape, shapes, unique}
use cass_operator.Startup.Waiting
use cass_operator.Startup.Waiting.{waits, settle_starting-waits}

find_starting_nodes-waits :
    (cfg : Settings) (s : State)
    → waits (shapes s.members) ≡ true
    → find_starting_nodes cfg s ≡ (ok (true, false), s)
unfolding find_starting_nodes cluster_pods ◌>>=◌
find_starting_nodes-waits cfg s h = settle_starting-waits cfg s.members s h

start_nodes-waits :
    (cfg : Settings) (n : ℕ) (s : State)
    → waits (shapes s.members) ≡ true
    → start_nodes cfg n s ≡ (ok (call_back_soon 2), s)
unfolding start_nodes ◌>>=◌ pure
start_nodes-waits cfg n s h = rw (find_starting_nodes-waits cfg s h) refl

module _ (cfg : Settings) (v : List Shape) (k : ℕ) (distinct : unique v ≡ true)
    (busy : waits v ≡ true) where
  abbrev Held : State → Type 0
  Held s = Waiting.SameShapes cfg v distinct s × (starts s ≡ k)

  abbrev SameStarts : State → Type 0
  SameStarts s = starts s ≡ k

  Held-same :
      {A : Type 0} (m : M A)
      → Ends (Waiting.SameShapes cfg v distinct) m (λ r. Waiting.SameShapes cfg v distinct)
      → Keeps SameStarts m
      → Ends Held m (λ r. Held)
  Held-same m same quiet = record { at = λ s h. (same.at s h.0, quiet.at s h.1) }

  Held-Keeps :
      {A : Type 0} (m : M A)
      → Keeps (Waiting.SameShapes cfg v distinct) m
      → Keeps SameStarts m
      → Ends Held m (λ r. Held)
  Held-Keeps m same quiet = Held-same m (Keeps-Ends m same) quiet

  Held-pure : {A : Type 0} (a : A) → Ends Held (pure a) (λ r. SameStarts)
  unfolding pure
  Held-pure a = record { at = λ s h. h.1 }

  start_nodes-Held : (n : ℕ) → Ends Held (start_nodes cfg n) (λ r. SameStarts)
  start_nodes-Held n = record { at = λ s h. rw (start_nodes-waits cfg n s (rw h.0 busy)) h.1 }

  label_and_start-Held : Ends Held (label_and_start cfg) (λ r. SameStarts)
  unfolding label_and_start
  label_and_start-Held =
      Ends->>= Held (λ r. Held) (λ r. SameStarts)
        (check_seed_labels cfg cfg.desired_rack_information) _
        (Held-same _
          (Waiting.check_seed_labels-SameShapes cfg v distinct cfg.desired_rack_information)
          (Quiet.Keeps-check_seed_labels cfg k cfg.desired_rack_information))
        (λ n.
          Ends->>= Held (λ r. Held) (λ r. SameStarts) (refresh_seeds cfg) _
            (Held-Keeps _ (Waiting.Keeps-refresh_seeds cfg v distinct)
              (Quiet.Keeps-refresh_seeds cfg k))
            (λ _. start_nodes-Held n) (λ e s h. h.1))
        (λ e s h. h.1)

  tend_pods-Held : Ends Held (tend_pods cfg) (λ r. SameStarts)
  unfolding tend_pods
  tend_pods-Held =
      Ends->>= Held (λ r. Held) (λ r. SameStarts) (find_started_not_ready_nodes cfg) _
        (Held-same _ (Waiting.find_started_not_ready_nodes-SameShapes cfg v distinct)
          (Quiet.Keeps-find_started_not_ready_nodes cfg k))
        (λ lost.
          Ends-if Held _ lost _ _ (λ _. Held-pure _)
            (λ _.
              Ends->>= Held (λ r. Held) (λ r. SameStarts) (delete_stuck_nodes cfg) _
                (Held-Keeps _ (Waiting.Keeps-delete_stuck_nodes cfg v distinct)
                  (Quiet.Keeps-delete_stuck_nodes cfg k))
                (λ deleted.
                  Ends-if Held _ deleted _ _ (λ _. Held-pure _) (λ _. label_and_start-Held))
                (λ e s h. h.1)))
        (λ e s h. h.1)

-- While the first pod of the cluster that is labelled as starting is not ready, a pass of CheckPodsReady asks no node
-- to start, whichever of its calls fail, if the pods have different names.
pub starts-check_pods_ready-waits :
    (cfg : Settings) (s : State)
    → unique (shapes s.members) ≡ true
    → waits (shapes s.members) ≡ true
    → starts (check_pods_ready cfg s).1 ≡ starts s
unfolding check_pods_ready
starts-check_pods_ready-waits cfg s distinct busy = elim (Bool-cases cfg.stopped) [
  | inl halted ↦ simp halted
  | inr runs ↦
      simp runs ((tend_pods-Held cfg (shapes s.members) (starts s) distinct busy).at s (refl, refl))
]
