-- ===== src/Emm/Availability.antt =====
-- What an EMM check may do while a rack is down.
use text.Mathlib.TextEquality.{eq_iff}
use cass_operator.Prelude.{
  String, ◌≡◌, ◌≢◌, refl, sym, ap, ◌∙◌, Bool, true, false, List, [], ◌∷◌, map, arith, All, filter,
  count_if, contains, ◌<◌, ◌==◌, ==-refl, string_eq, inl, inr, Bool-cases,
}
use cass_operator.StringSet.{
  StringSet, keys, of_names, has-of_names, of_names-IsPlain, contains-keys,
}
use cass_operator.Pods.{
  Pod, rack_of, is_server_ready, find_all_pods_not_ready,
  find_all_pods_not_ready_and_potentially_bootstrapped, has_pod_potentially_bootstrapped,
}
use cass_operator.Emm.World.{Effect, World, Spi, get_pods, ranged}
use cass_operator.Emm.Service.{
  remove_all, down_pods, racks_with_down_pods, planned_downtime, evacuate_all_data,
  remove_all_not_ready_pods_on_emm_nodes, perform_evacuate_data_pod_replace,
  get_tainted_node_name_set, get_node_name_set,
}
use cass_operator.Emm.Check.{
  Flow, Step, down_rack_of, move_pods, wait_for_rack, guard_racks, protect_racks, check_steps,
  check_node_emm, go_on, lift,
}
use cass_operator.Emm.Check
use cass_operator.Emm.Keeps.{Keeps, Keeps-step->>=, Keeps-lift, keeps_rules}
use cass_operator.Emm.Calm.{core, IsMild, Kept}
use cass_operator.Emm.Calm
use cass_operator.Emm.Harmless.{
  IsHarmless, IsReplaceable, mild-IsHarmless, unique_names, All-weaken, All-contains,
}
use cass_operator.Emm.Replacing.{Keeps-remove_all, Keeps-perform_evacuate_data_pod_replace}

rack_of-core : (ps : List Pod) → map rack_of (map core ps) ≡ map rack_of ps
rack_of-core [] = refl
rack_of-core (p ∷ ps) = ap (◌∷◌ (rack_of p)) (rack_of-core ps)

-- The annotations of a pod do not say whether its rack is down.
down_pods-core :
    (spi : Spi) (ps : List Pod) → map core (down_pods spi ps) ≡ down_pods spi (map core ps)
unfolding down_pods find_all_pods_not_ready_and_potentially_bootstrapped is_server_ready
    has_pod_potentially_bootstrapped
down_pods-core spi [] = refl
down_pods-core spi (p ∷ ps) = ground (arith, down_pods-core spi ps)

abbrev pub racks_down : Spi → List Pod → List String
racks_down spi ps = keys (of_names (map rack_of (down_pods spi ps)))

racks_down-core : (spi : Spi) (ps : List Pod) → racks_down spi (map core ps) ≡ racks_down spi ps
racks_down-core spi ps = rw (← down_pods-core spi ps, rack_of-core (down_pods spi ps)) refl

racks_down-same :
    (spi : Spi) (ps qs : List Pod)
    → map core qs ≡ map core ps
    → racks_down spi qs ≡ racks_down spi ps
racks_down-same spi ps qs e =
    sym (racks_down-core spi qs) ∙ ap (racks_down spi) e ∙ racks_down-core spi ps

count_not_contained :
    (n : String) (ns : List String) → contains n ns ≡ false → count_if (λ m. m == n) ns ≡ 0
count_not_contained n [] h = refl
count_not_contained n (m ∷ ns) h = ground (arith, count_not_contained n ns)

count_contained :
    (n : String) (ns : List String) → contains n ns ≡ true → 0 < count_if (λ m. m == n) ns
count_contained n [] h = absurd (cc)
count_contained n (m ∷ ns) h = ground (arith, count_contained n ns)

-- No pod that is down lacks the label of a rack, and there is one.
racks_named : (ps : List Pod) → All (λ p. rack_of p ≢ "") ps → contains "" (map rack_of ps) ≡ false
racks_named [] h = refl
racks_named (p ∷ ps) h = ground (arith, eq_iff (rack_of p) "", racks_named ps h.1, h.0)

first_named :
    (ns : List String) (r : String)
    → count_if (λ m. m == "") ns ≡ 0
    → 0 < count_if (λ m. m == r) ns
    → (down_rack_of ns == "") ≡ false
unfolding down_rack_of
first_named [] r none some = absurd (omega arith)
first_named (n ∷ ns) r none some = ground arith

-- The first rack in whatever order has a name.
down_rack_of-range :
    (spi : Spi) (t : List Effect) (ps : List Pod)
    → down_pods spi ps ≢ []
    → All (λ p. rack_of p ≢ "") (down_pods spi ps)
    → (down_rack_of (spi.range t (racks_down spi ps)) == "") ≡ false
down_rack_of-range spi t ps some named = by_pods (down_pods spi ps) some named
  where
    by_pods :
        (qs : List Pod)
        → qs ≢ []
        → All (λ p. rack_of p ≢ "") qs
        → (down_rack_of (spi.range t (keys (of_names (map rack_of qs)))) == "") ≡ false
    by_pods [] some named = absurd (some refl)
    by_pods (q ∷ qs) some named =
        let set = of_names (map rack_of (q ∷ qs)) in
        let plain = of_names-IsPlain (map rack_of (q ∷ qs)) in
        let none_empty : contains "" (keys set) ≡ false =
          contains-keys set "" plain
          ∙ (has-of_names (map rack_of (q ∷ qs)) "" ∙ racks_named (q ∷ qs) named) in
        let one : contains (rack_of q) (keys set) ≡ true =
          contains-keys set (rack_of q) plain
          ∙ (has-of_names (map rack_of (q ∷ qs)) (rack_of q)
              ∙ ground (arith, ==-refl (rack_of q))) in
        first_named (spi.range t (keys set)) (rack_of q)
          (spi.range-same t (keys set) "" ∙ count_not_contained "" (keys set) none_empty)
          (rw (spi.range-same t (keys set) (rack_of q))
            (count_contained (rack_of q) (keys set) one))

not_ready_filtered :
    (q : Pod → Bool) (ps : List Pod)
    → All (λ p. is_server_ready p ≡ false) (filter q (find_all_pods_not_ready ps))
unfolding find_all_pods_not_ready
not_ready_filtered q [] = tt
not_ready_filtered q (p ∷ ps) = elim (Bool-cases (is_server_ready p)) [
  | inl up ↦ rw up (not_ready_filtered q ps)
  | inr down ↦ rw down (elim (Bool-cases (q p)) [
    | inl hit ↦ rw hit (down, not_ready_filtered q ps)
    | inr miss ↦ rw miss (not_ready_filtered q ps)
  ])
]

module _ (spi : Spi) (ps : List Pod) (before : List String) (unique : unique_names ps ≡ true) where
  abbrev E : Effect → Type 0
  E = IsHarmless spi ps before

  abbrev mild : (e : Effect) → IsMild e → E e
  mild = mild-IsHarmless spi ps before

  abbrev R : List String → Type 0
  R = All (IsReplaceable ps before)

  abbrev Held : World → Type 0
  Held = Kept E (map core ps) R

  Keeps-tainted : (value : String) → Keeps Held (get_tainted_node_name_set spi value)
  Keeps-tainted = Calm.Keeps-get_tainted_node_name_set E mild (map core ps) R spi

  Keeps-remove_stuck :
      (q : Pod → Bool) (qs : List Pod)
      → Keeps Held (remove_all spi (filter q (find_all_pods_not_ready qs)))
  Keeps-remove_stuck q qs =
      Keeps-remove_all spi ps before (filter q (find_all_pods_not_ready qs))
        (not_ready_filtered q qs)

  Keeps-remove_all_not_ready : Keeps Held (remove_all_not_ready_pods_on_emm_nodes spi)
  unfolding remove_all_not_ready_pods_on_emm_nodes
  Keeps-remove_all_not_ready = search (keeps_rules, Keeps-tainted, Keeps-remove_stuck) depth 8

  Keeps-replace : Keeps Held (perform_evacuate_data_pod_replace spi)
  Keeps-replace = Keeps-perform_evacuate_data_pod_replace spi ps before unique

  Keeps-wait_for_rack : Keeps Held (wait_for_rack spi)
  unfolding wait_for_rack
  Keeps-wait_for_rack = search (keeps_rules, Keeps-replace)

  Keeps-move_pods : (rack : String) → (rack == "") ≡ false → Keeps Held (move_pods spi rack)
  unfolding move_pods
  Keeps-move_pods rack named =
      rw named (search (keeps_rules, Keeps-remove_all_not_ready, Keeps-wait_for_rack))

  Keeps-guard_racks :
      (planned evacuated : StringSet) (racks : List String)
      → (down_rack_of racks == "") ≡ false
      → Keeps Held (guard_racks spi planned evacuated racks)
  unfolding guard_racks
  Keeps-guard_racks planned evacuated racks named =
      Keeps-step->>= _ _
        (Calm.Keeps-fail_when_racks_down E mild (map core ps) R spi planned evacuated racks)
        λ _.
          Keeps-step->>= _ _
            (Calm.Keeps-fail_other_racks E mild (map core ps) R spi planned evacuated
              (down_rack_of racks))
            λ _. Keeps-move_pods (down_rack_of racks) named

  module _ (some : down_pods spi ps ≢ [])
      (named : All (λ p. rack_of p ≢ "") (down_pods spi ps)) where
    Keeps-protect_racks :
        (planned evacuated : StringSet) → Keeps Held (protect_racks spi planned evacuated)
    unfolding protect_racks Check.◌>>=◌ get_pods racks_with_down_pods ranged
    Keeps-protect_racks planned evacuated = record {
      at = λ w h.
          let racks = spi.range w.trace (racks_down spi w.pods) in
          let first : (down_rack_of racks == "") ≡ false =
            rw (racks_down-same spi ps w.pods h.same)
              (down_rack_of-range spi w.trace ps some named) in
          (Keeps-guard_racks planned evacuated racks first).at _
            ((Calm.Keeps-ranged E mild (map core ps) R spi (racks_down spi w.pods)).at w h);
    }

    Keeps-look : (value : String) → Keeps Held (lift (get_tainted_node_name_set spi value))
    Keeps-look value = Keeps-lift _ (Keeps-tainted value)

    Keeps-look_all : Keeps Held (lift (get_node_name_set spi))
    Keeps-look_all = Keeps-lift _ (Calm.Keeps-get_node_name_set E mild (map core ps) R spi)

    Keeps-check_steps : Keeps Held (check_steps spi)
    unfolding check_steps
    Keeps-check_steps =
        Keeps-step->>= _ _ (Calm.Keeps-settle_failures E mild (map core ps) R spi) λ _.
          Keeps-step->>= _ _ (Calm.Keeps-require_initialized E mild (map core ps) R spi) λ _.
            Keeps-step->>= _ _ (Keeps-look planned_downtime) λ planned.
              Keeps-step->>= _ _ (Keeps-look evacuate_all_data) λ evacuated.
                Keeps-step->>= _ _ Keeps-look_all λ nodes.
                  Keeps-step->>= _ _
                    (Calm.Keeps-fail_for_space E mild (map core ps) R spi planned evacuated nodes)
                    λ _.
                      Keeps-step->>= _ _
                        (Calm.Keeps-fail_when_stopped E mild (map core ps) R spi evacuated)
                        λ _. Keeps-protect_racks planned evacuated

abbrev pub start : List Pod → (before : List String) → World
start ps before = record { pods = ps; replace_nodes = before; trace = [] }

-- While a pod that may be a member of the cluster is down, checkNodeEMM drains and deletes only pods that are not ready,
-- and deletes only the claims of such pods, as they were read; and the datacenter is stored with no node to be replaced
-- but those that were to be replaced before and those of such pods; whatever the cluster answers, and in whatever
-- order Go ranges over its maps, if the pods have different names and those that are down a rack.
pub check_node_emm-IsHarmless :
    (spi : Spi) (ps : List Pod) (before : List String)
    → unique_names ps ≡ true
    → down_pods spi ps ≢ []
    → All (λ p. rack_of p ≢ "") (down_pods spi ps)
    → All (IsHarmless spi ps before) (check_node_emm spi (start ps before)).1.trace
unfolding check_node_emm
check_node_emm-IsHarmless spi ps before unique some named =
    ((Keeps-check_steps spi ps before unique some named).at (start ps before) (record {
      calls = tt;
      names =
          All-weaken _ (IsReplaceable ps before) before (λ n h. ground arith) (All-contains before);
      same = refl;
    })).calls
