-- ===== src/Emm/Calm.antt =====
-- The stages of an EMM check before the removal of pods: the predicates on calls that they keep, and what
-- they keep of a pod.
use cass_operator.Prelude.{
  String, ◌≡◌, refl, ◌∙◌, Bool, List, [], ◌∷◌, map, arith, All, insert, erase, ◌||◌, string_eq,
  Option-cases, inl, inr,
}
use cass_operator.Result.{Outcome, ok, err}
use cass_operator.StringSet.{StringSet}
use cass_operator.Pods.{Pod}
use cass_operator.Emm.World.{
  Effect, read_node, list_nodes, read_pvc, drain, delete_pod, update_pod, update_replace_nodes,
  delete_pvc, range_over, World, Spi, get_node, get_all_nodes, get_pod_pvc, ranged,
}
use cass_operator.Emm.Nodes.{
  get_pods_pvcs, get_named_node, get_named_nodes, get_nodes_for_name_set, get_nodes_in_dc,
}
use cass_operator.Emm.Service.{
  get_tainted_node_name_set, get_node_name_set, Visited, after_pod, visit, visit_pods, updated,
  fail_pod, fail_emm, fail_all, fail_set, clean_pod, emm_nodes, cleanup_emm_annotations,
  emm_failure_still_processing, emm_failure_annotation,
}
use cass_operator.Emm.Check.{
  settle_failures, require_initialized, fail_for_space, fail_when_stopped, fail_when_racks_down,
  fail_other_racks,
}
use cass_operator.Emm.Keeps.{Keeps, Keeps->>=, Keeps-pure, keeps_rules}

-- All of a pod but its annotations.
abbrev pub core : Pod → Pod
core p = record p { annotations = [] }

abbrev pub IsMild : Effect → Type 0
IsMild (read_node name) = Unit
IsMild list_nodes = Unit
IsMild (read_pvc p) = Unit
IsMild (range_over names) = Unit
IsMild (update_pod p) = Unit
IsMild (drain p) = ⊥
IsMild (delete_pod p) = ⊥
IsMild (update_replace_nodes names) = ⊥
IsMild (delete_pvc c) = ⊥

pub record Kept (E : Effect → Type 0) (cores : List Pod) (R : List String → Type 0) (w : World)
    : Type 0 where
  pub calls : All E w.trace
  pub names : R w.replace_nodes
  pub same : map core w.pods ≡ cores

module _ (E : Effect → Type 0) (mild : (e : Effect) → IsMild e → E e) (cores : List Pod)
    (R : List String → Type 0) (spi : Spi) where
  abbrev P : World → Type 0
  P = Kept E cores R

  pub Keeps-get_all_nodes : Keeps P (get_all_nodes spi)
  unfolding get_all_nodes
  Keeps-get_all_nodes = record {
    at = λ w h. record { calls = (mild list_nodes tt, h.calls); names = h.names; same = h.same };
  }

  Keeps-get_node : (name : String) → Keeps P (get_node spi name)
  unfolding get_node
  Keeps-get_node name = record {
    at = λ w h. record {
      calls = (mild (read_node name) tt, h.calls);
      names = h.names;
      same = h.same;
    };
  }

  pub Keeps-get_pod_pvc : (p : Pod) → Keeps P (get_pod_pvc spi p)
  unfolding get_pod_pvc
  Keeps-get_pod_pvc p = record {
    at = λ w h. record { calls = (mild (read_pvc p) tt, h.calls); names = h.names; same = h.same };
  }

  pub Keeps-ranged : (names : List String) → Keeps P (ranged spi names)
  unfolding ranged
  Keeps-ranged names = record {
    at = λ w h. record {
      calls = (mild (range_over names) tt, h.calls);
      names = h.names;
      same = h.same;
    };
  }

  Keeps-get_pods_pvcs : (ps : List Pod) → Keeps P (get_pods_pvcs spi ps)
  unfolding get_pods_pvcs
  Keeps-get_pods_pvcs [] = search keeps_rules
  Keeps-get_pods_pvcs (p ∷ ps) =
      Keeps->>= _ _ (Keeps-get_pod_pvc p)
        (λ c. Keeps->>= _ _ (Keeps-get_pods_pvcs ps) (λ cs. Keeps-pure _))

  Keeps-get_named_node : (name : String) → Keeps P (get_named_node spi name)
  unfolding get_named_node
  Keeps-get_named_node name = search (keeps_rules, Keeps-get_node)

  Keeps-get_named_nodes : (names : List String) → Keeps P (get_named_nodes spi names)
  unfolding get_named_nodes
  Keeps-get_named_nodes [] = search keeps_rules
  Keeps-get_named_nodes (name ∷ names) =
      Keeps->>= _ _ (Keeps-get_named_node name)
        (λ c. Keeps->>= _ _ (Keeps-get_named_nodes names) (λ cs. Keeps-pure _))

  Keeps-get_nodes_for_name_set : (set : StringSet) → Keeps P (get_nodes_for_name_set spi set)
  unfolding get_nodes_for_name_set
  Keeps-get_nodes_for_name_set set = search (keeps_rules, Keeps-ranged, Keeps-get_named_nodes)

  Keeps-get_nodes_in_dc : Keeps P (get_nodes_in_dc spi)
  unfolding get_nodes_in_dc
  Keeps-get_nodes_in_dc = search (keeps_rules, Keeps-get_pods_pvcs, Keeps-get_nodes_for_name_set)

  pub Keeps-get_tainted_node_name_set :
      (value : String) → Keeps P (get_tainted_node_name_set spi value)
  unfolding get_tainted_node_name_set
  Keeps-get_tainted_node_name_set value = search (keeps_rules, Keeps-get_nodes_in_dc)

  pub Keeps-get_node_name_set : Keeps P (get_node_name_set spi)
  unfolding get_node_name_set
  Keeps-get_node_name_set = search (keeps_rules, Keeps-get_all_nodes)

  -- A change of a pod in place that is mild.
  pub record IsGentle (f : Pod → List Effect → Outcome Bool × Pod × List Effect) : Type 0 where
    pub calls : (p : Pod) (t : List Effect) → All E t → All E (f p t).2
    pub same : (p : Pod) (t : List Effect) → core (f p t).1 ≡ core p

  after_pod-calls :
      (r : Outcome Bool) (p : Pod) (left : List Pod) (t : List Effect) (rest : Visited)
      → All E t
      → All E rest.2
      → All E (after_pod r p left t rest).2
  unfolding after_pod
  after_pod-calls (err e) p left t rest h k = h
  after_pod-calls (ok c) p left t (err e, ps, t') h k = k
  after_pod-calls (ok c) p left t (ok m, ps, t') h k = k

  after_pod-same :
      (r : Outcome Bool) (p q : Pod) (left : List Pod) (t : List Effect) (rest : Visited)
      → core p ≡ core q
      → map core rest.1 ≡ map core left
      → map core (after_pod r p left t rest).1 ≡ core q ∷ map core left
  unfolding after_pod
  after_pod-same (err e) p q left t rest h k = cc
  after_pod-same (ok c) p q left t (err e, ps, t') h k = cc
  after_pod-same (ok c) p q left t (ok m, ps, t') h k = cc

  module _ (f : Pod → List Effect → Outcome Bool × Pod × List Effect) (gentle : IsGentle f) where
    visit-calls : (ps : List Pod) (t : List Effect) → All E t → All E (visit f ps t).2
    unfolding visit
    visit-calls [] t h = h
    visit-calls (p ∷ ps) t h =
        let (r, p', t') = f p t in
        let kept = gentle.calls p t h in
        after_pod-calls r p' ps t' (visit f ps t') kept (visit-calls ps t' kept)

    visit-same : (ps : List Pod) (t : List Effect) → map core (visit f ps t).1 ≡ map core ps
    unfolding visit
    visit-same [] t = refl
    visit-same (p ∷ ps) t =
        let (r, p', t') = f p t in
        after_pod-same r p' p ps t' (visit f ps t') (gentle.same p t) (visit-same ps t')

    pub Keeps-visit_pods : Keeps P (visit_pods f)
    unfolding visit_pods
    Keeps-visit_pods = record {
      at = λ w h. record {
        calls = visit-calls w.pods w.trace h.calls;
        names = h.names;
        same = visit-same w.pods w.trace ∙ h.same;
      };
    }

  updated-IsGentle :
      (q p : Pod) (t : List Effect)
      → All E t
      → core q ≡ core p
      → All E (updated spi q t).2 × (core (updated spi q t).1 ≡ core p)
  unfolding updated
  updated-IsGentle q p t h same = elim (Option-cases (spi.failure t (update_pod q))) [
    | inl e ↦ rw (e, updated) ((mild (update_pod q) tt, h), same)
    | inr (x, e) ↦ rw (e, updated) ((mild (update_pod q) tt, h), same)
  ]

  fail_pod-IsGentle : (node_name value : String) → IsGentle (fail_pod spi node_name value)
  unfolding fail_pod
  fail_pod-IsGentle node_name value = record {
    calls = λ p t h. ground (
      arith,
      updated-IsGentle
          (record p { annotations = insert emm_failure_annotation value p.annotations }) p t h refl,
    );
    same = λ p t. ground arith;
  }

  clean_pod-IsGentle : (nodes : StringSet) → IsGentle (clean_pod spi nodes)
  unfolding clean_pod
  clean_pod-IsGentle nodes = record {
    calls = λ p t h. ground (
      arith,
      updated-IsGentle (record p { annotations = erase emm_failure_annotation p.annotations }) p t h
          refl,
    );
    same = λ p t. ground arith;
  }

  Keeps-fail_emm : (node_name value : String) → Keeps P (fail_emm spi node_name value)
  unfolding fail_emm
  Keeps-fail_emm node_name value =
      Keeps-visit_pods (fail_pod spi node_name value) (fail_pod-IsGentle node_name value)

  Keeps-fail_all : (value : String) (names : List String) → Keeps P (fail_all spi value names)
  unfolding fail_all
  Keeps-fail_all value [] = search keeps_rules
  Keeps-fail_all value (name ∷ names) =
      Keeps->>= (fail_emm spi name value) _ (Keeps-fail_emm name value) λ changed.
        Keeps->>= (fail_all spi value names) _ (Keeps-fail_all value names)
          λ more. Keeps-pure (changed || more)

  Keeps-fail_set : (value : String) (nodes : StringSet) → Keeps P (fail_set spi value nodes)
  unfolding fail_set
  Keeps-fail_set value nodes = search (keeps_rules, Keeps-ranged, Keeps-fail_all)

  Keeps-emm_nodes : Keeps P (emm_nodes spi)
  unfolding emm_nodes
  Keeps-emm_nodes = search (keeps_rules, Keeps-get_tainted_node_name_set)

  Keeps-clean : (nodes : StringSet) → Keeps P (visit_pods (clean_pod spi nodes))
  Keeps-clean nodes = Keeps-visit_pods (clean_pod spi nodes) (clean_pod-IsGentle nodes)

  Keeps-cleanup_emm_annotations : Keeps P (cleanup_emm_annotations spi)
  unfolding cleanup_emm_annotations
  Keeps-cleanup_emm_annotations = search (keeps_rules, Keeps-emm_nodes, Keeps-clean)

  Keeps-emm_failure_still_processing : Keeps P (emm_failure_still_processing spi)
  unfolding emm_failure_still_processing
  Keeps-emm_failure_still_processing = search (keeps_rules, Keeps-emm_nodes)

  pub Keeps-settle_failures : Keeps P (settle_failures spi)
  unfolding settle_failures
  Keeps-settle_failures =
      search (keeps_rules, Keeps-cleanup_emm_annotations, Keeps-emm_failure_still_processing)

  pub Keeps-require_initialized : Keeps P (require_initialized spi)
  unfolding require_initialized
  Keeps-require_initialized = search keeps_rules

  pub Keeps-fail_for_space :
      (planned evacuated all_nodes : StringSet)
      → Keeps P (fail_for_space spi planned evacuated all_nodes)
  unfolding fail_for_space
  Keeps-fail_for_space planned evacuated all_nodes = search (keeps_rules, Keeps-fail_set)

  pub Keeps-fail_when_stopped : (evacuated : StringSet) → Keeps P (fail_when_stopped spi evacuated)
  unfolding fail_when_stopped
  Keeps-fail_when_stopped evacuated = search (keeps_rules, Keeps-fail_set)

  pub Keeps-fail_when_racks_down :
      (planned evacuated : StringSet) (racks : List String)
      → Keeps P (fail_when_racks_down spi planned evacuated racks)
  unfolding fail_when_racks_down
  Keeps-fail_when_racks_down planned evacuated racks = search (keeps_rules, Keeps-fail_set)

  pub Keeps-fail_other_racks :
      (planned evacuated : StringSet) (down_rack : String)
      → Keeps P (fail_other_racks spi planned evacuated down_rack)
  unfolding fail_other_racks
  Keeps-fail_other_racks planned evacuated down_rack = search (keeps_rules, Keeps-fail_set)
