-- ===== src/Startup/SeedCount.antt =====
-- How many of a rack's pods labelSeedPods counts as seeds.
use cass_operator.Prelude.{
  ℕ, ◌+◌, ◌≤◌, ◌≡◌, refl, Bool, ◌&&◌, List, [], ◌∷◌, filter, none, arith, count_if, if◌then◌else◌,
  ltb, leb, ◌∙◌, ap,
}
use cass_operator.Result.{ok}
use cass_operator.Pods.{Pod, is_server_ready}
use cass_operator.Pods.Filters.{filter_pod_list_by_labels}
use cass_operator.Racks.{RackInformation}
use cass_operator.Passing.{pure, ◌>>=◌}
use cass_operator.Startup.World.{
  Settings, State, Call, patch_pod, with_labels, M, pods_of, set_labels, patch_labels, perform,
  dc_pods,
}
use cass_operator.Startup.Seeds.{
  insert_by_name, sort_by_name, label_seed, label_seed_loop, label_seed_pods, seed_labels,
}

-- The smaller of the two
abbrev pub min : ℕ → ℕ → ℕ
min a b = if leb a b then a else b

count_if-insert_by_name :
    (q : Pod → Bool) (p : Pod) (ps : List Pod)
    → count_if q (insert_by_name p ps) ≡ (if q p then 1 else 0) + count_if q ps
unfolding insert_by_name
count_if-insert_by_name q p [] = refl
count_if-insert_by_name q p (r ∷ rs) = ground (arith, count_if-insert_by_name q p rs)

count_if-sort_by_name :
    (q : Pod → Bool) (ps : List Pod) → count_if q (sort_by_name ps) ≡ count_if q ps
unfolding sort_by_name
count_if-sort_by_name q [] = refl
count_if-sort_by_name q (p ∷ ps) =
    count_if-insert_by_name q p (sort_by_name ps)
    ∙ ap (◌+◌ (if q p then 1 else 0)) (count_if-sort_by_name q ps)

bind-ok :
    {A B : Type 0} (m : M A) (f : A → M B) (a : A) (s : State)
    → (m s).0 ≡ ok a
    → (m >>= f) s ≡ f a (m s).1
unfolding ◌>>=◌
bind-ok m f a s e = rw e refl

module _ (cfg : Settings)
    (works : (calls : List Call) (c : Call) → cfg.failure calls c ≡ none) where
  label_seed-ok : (b : Bool) (p : Pod) (s : State) → (label_seed cfg b p s).0 ≡ ok tt
  unfolding label_seed patch_labels set_labels perform pure ◌>>=◌
  label_seed-ok b p s =
      ground (arith, works s.trace (patch_pod (with_labels (seed_labels b p).1 p)))

  label_seed_loop-count :
      (ps : List Pod) (n count : ℕ) (s : State)
      → count ≤ n
      → (label_seed_loop cfg n count ps s).0 ≡ ok (min (count + count_if is_server_ready ps) n)
  unfolding label_seed_loop pure
  label_seed_loop-count [] n count s fits = ground arith
  label_seed_loop-count (p ∷ ps) n count s fits =
      let is_seed = is_server_ready p && ltb count n in
      let count' = if is_seed then count + 1 else count in
      let s' = (label_seed cfg is_seed p s).1 in
      let step =
        bind-ok (label_seed cfg is_seed p) (λ _. label_seed_loop cfg n count' ps) tt s
          (label_seed-ok is_seed p s) in
      let fits' : count' ≤ n = ground arith in
      let same : min (count' + count_if is_server_ready ps) n
          ≡ min (count + count_if is_server_ready (p ∷ ps)) n =
        ground arith in
      ap (λ r. r.0) step ∙ label_seed_loop-count ps n count' s' fits' ∙ ap ok same

-- While every call works, labelSeedPods counts as many seeds as the rack has ready pods, but no more than the
-- rack is to have.
pub label_seed_pods-count :
    (cfg : Settings)
    → ((calls : List Call) (c : Call) → cfg.failure calls c ≡ none)
    → (rack : RackInformation) (s : State)
    → (label_seed_pods cfg rack s).0
      ≡ ok (
          min
            (count_if is_server_ready (
              filter_pod_list_by_labels
                (pods_of (filter (λ m. m.in_dc) s.members))
                (cfg.rack_labels rack.rack_name)))
            rack.seed_count)
unfolding label_seed_pods dc_pods ◌>>=◌
label_seed_pods-count cfg works rack s =
    let pods =
      filter_pod_list_by_labels (pods_of (filter (λ m. m.in_dc) s.members))
        (cfg.rack_labels rack.rack_name) in
    let same : 0 + count_if is_server_ready (sort_by_name pods) ≡ count_if is_server_ready pods =
      omega (arith, count_if-sort_by_name is_server_ready pods) in
    label_seed_loop-count cfg works (sort_by_name pods) rack.seed_count 0 s (omega arith)
    ∙ ap (λ k. ok (min k rack.seed_count)) same
