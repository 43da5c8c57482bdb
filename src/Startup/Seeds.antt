-- ===== src/Startup/Seeds.antt =====
-- The labels of seeds: labelSeedPods and checkSeedLabels.
use cass_operator.Prelude.{
  ℕ, String, ◌+◌, Bool, true, false, not, ◌&&◌, ◌||◌, List, [], ◌∷◌, ◌==◌, ltb, if◌then◌else◌,
  string_eq, nat_eq, insert, erase,
}
use cass_operator.Strings.{Text, codes}
use cass_operator.Pods.{Pod, value_at, is_server_ready, is_server_starting, seed_node_label}
use cass_operator.Pods.Filters.{filter_pod_list_by_labels}
use cass_operator.Racks.{RackInformation}
use cass_operator.Passing.{pure, ◌>>=◌}
use cass_operator.Startup.World.{Settings, M, dc_pods, patch_labels}

-- `<` on strings
text_before : Text → Text → Bool
text_before s [] = false
text_before [] (d ∷ t) = true
text_before (c ∷ s) (d ∷ t) = let rest = text_before s t in ltb c d || (c == d && rest)

unfoldable pub insert_by_name : Pod → List Pod → List Pod
unfolding text_before
insert_by_name p [] = p ∷ []
insert_by_name p (q ∷ qs) =
    if text_before (codes q.name) (codes p.name) then q ∷ insert_by_name p qs else p ∷ q ∷ qs

-- `sort.SliceStable` by name
unfoldable pub sort_by_name : List Pod → List Pod
unfolding insert_by_name
sort_by_name [] = []
sort_by_name (p ∷ ps) = insert_by_name p (sort_by_name ps)

-- The labels a pod is to have, and whether they are new; a starting pod keeps its label.
unfoldable pub seed_labels : (is_seed : Bool) → Pod → Bool × List (String × String)
seed_labels is_seed p =
    let labelled = value_at seed_node_label p.labels == "true" in
    if is_seed && not labelled
    then (true, insert seed_node_label "true" p.labels)
    else if not is_seed && labelled && not (is_server_starting p)
    then (true, erase seed_node_label p.labels)
    else (false, p.labels)

unfoldable pub label_seed : Settings → (is_seed : Bool) → Pod → M (Unit {0})
label_seed cfg is_seed p =
    let (should_update, labels) = seed_labels is_seed p in
    if should_update then patch_labels cfg p labels else pure tt

-- The loop over a rack's pods, `count` seeds having been found
unfoldable pub label_seed_loop : Settings → (seed_count count : ℕ) → List Pod → M ℕ
label_seed_loop cfg seed_count count [] = pure count
label_seed_loop cfg seed_count count (p ∷ ps) =
    let is_seed = is_server_ready p && ltb count seed_count in
    label_seed cfg is_seed p >>= λ _.
    label_seed_loop cfg seed_count (if is_seed then count + 1 else count) ps

unfoldable pub label_seed_pods : Settings → RackInformation → M ℕ
label_seed_pods cfg rack = do
  pods ← dc_pods
  label_seed_loop cfg rack.seed_count 0
      (sort_by_name (filter_pod_list_by_labels pods (cfg.rack_labels rack.rack_name)))

unfoldable pub check_seed_labels : Settings → List RackInformation → M ℕ
check_seed_labels cfg [] = pure 0
check_seed_labels cfg (rack ∷ racks) = do
  n ← label_seed_pods cfg rack
  rest ← check_seed_labels cfg racks
  pure (n + rest)
