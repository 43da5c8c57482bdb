-- ===== src/Emm/Replacing.antt =====
-- Removals and replacements of pods that are not ready are harmless.
use cass_operator.Prelude.{
  String, ◌≡◌, refl, sym, ◌∙◌, true, false, ◌||◌, List, [], ◌∷◌, map, arith, All, All-append,
  string_eq, Option, none, some,
}
use cass_operator.Result.{Outcome, ok, err}
use cass_operator.StringSet.{StringSet}
use cass_operator.Pods.{Pod, is_server_ready, is_pod_unschedulable, is_mgmt_api_running}
use cass_operator.Emm.World.{
  Effect, drain, delete_pod, delete_pvc, update_replace_nodes, Pvc, World, Spi, M, perform, pure,
  continue, get_pods, get_pod_pvc, add_replace_node, ◌>>◌,
}
use cass_operator.Emm.World
use cass_operator.Emm.Nodes.{
  remove_pod, replace_pod, replace_found, start_node_replace, get_dc_pod_by_name,
}
use cass_operator.Emm.Service.{
  remove_all, down_pods, evacuate_all_data, perform_evacuate_data_pod_replace, replace_any,
  replace_evacuated, replace_stuck, selected_of_first, get_pod_pvc_selected_node_name,
  get_tainted_node_name_set,
}
use cass_operator.Emm.Keeps.{Keeps, Keeps->>=, Keeps-pure, Keeps-fail, Keeps-if, keeps_rules}
use cass_operator.Emm.Calm.{core, Kept}
use cass_operator.Emm.Calm
use cass_operator.Emm.Harmless.{
  IsHarmless, IsReplaceable, mild-IsHarmless, is_down, fits, fits-same, unique_names,
  unique_names-same, down_pods-fit, get_dc_pod_by_name-not_ready, All-weaken,
}

module _ (spi : Spi) (ps : List Pod) (before : List String) where
  abbrev pub P : World → Type 0
  P = Kept (IsHarmless spi ps before) (map core ps) (All (IsReplaceable ps before))

  Keeps-perform : (e : Effect) → IsHarmless spi ps before e → Keeps P (perform spi e)
  unfolding perform
  Keeps-perform e harmless = record {
    at = λ w h. record { calls = (harmless, h.calls); names = h.names; same = h.same };
  }

  Keeps-remove_pod : (p : Pod) → is_server_ready p ≡ false → Keeps P (remove_pod spi p)
  unfolding remove_pod
  Keeps-remove_pod p down =
      Keeps->>= _ _
        (Keeps-if (is_mgmt_api_running spi.now p) _ _ (Keeps-perform (drain p) down)
          (Keeps-pure tt))
        (λ u. Keeps-perform (delete_pod p) down)

  pub Keeps-remove_all :
      (qs : List Pod) → All (λ p. is_server_ready p ≡ false) qs → Keeps P (remove_all spi qs)
  unfolding remove_all
  Keeps-remove_all [] h = Keeps-pure tt
  Keeps-remove_all (q ∷ qs) h =
      Keeps->>= _ _ (Keeps-remove_pod q h.0) (λ _. Keeps-remove_all qs h.1)

  Keeps-add_replace_node :
      (name : String) → is_down name ps ≡ true → Keeps P (add_replace_node spi name)
  unfolding add_replace_node perform
  Keeps-add_replace_node name down = record {
    at = λ w h.
        let all =
          All-append (IsReplaceable ps before) w.replace_nodes (name ∷ []) h.names
            (ground arith, tt) in
        record { calls = (all, h.calls); names = all; same = h.same };
  }

  module _ (name : String) (fit : fits name ps ≡ true) where
    Keeps-after_pvc :
        (q : Pod) (t : List Effect) (o : Outcome Pvc) (w : World)
        → spi.pvc_of t q ≡ o
        → is_server_ready q ≡ false
        → P w
        → P
            (continue o
              (λ pvc.
                add_replace_node spi name >> (perform spi (delete_pvc pvc) >> remove_pod spi q))
              w).1
    Keeps-after_pvc q t (ok pvc) w e down h =
        (Keeps->>= _ _ (Keeps-add_replace_node name (ground arith)) (λ u.
            Keeps->>= _ _ (Keeps-perform (delete_pvc pvc) (q, t, e, down))
              (λ u. Keeps-remove_pod q down))).at
          w h
    Keeps-after_pvc q t (err e) w r down h = h

    Keeps-replace_pod : (q : Pod) → is_server_ready q ≡ false → Keeps P (replace_pod spi name q)
    unfolding replace_pod World.◌>>=◌ get_pod_pvc
    Keeps-replace_pod q down = record {
      at = λ w h.
          Keeps-after_pvc q w.trace (spi.pvc_of w.trace q) _ refl down
            ((Calm.Keeps-get_pod_pvc _ (mild-IsHarmless spi ps before) _ _ spi q).at w h);
    }

    Keeps-replace_found :
        (o : Option Pod)
        → ((q : Pod) → o ≡ some q → is_server_ready q ≡ false)
        → Keeps P (replace_found spi name o)
    unfolding replace_found
    Keeps-replace_found none down = Keeps-fail _ _
    Keeps-replace_found (some q) down = Keeps-replace_pod q (down q refl)

    Keeps-start_node_replace : Keeps P (start_node_replace spi name)
    unfolding start_node_replace World.◌>>=◌ get_pods
    Keeps-start_node_replace = record {
      at = λ w h.
          let still : fits name w.pods ≡ true = fits-same name ps w.pods h.same ∙ fit in
          (Keeps-replace_found (get_dc_pod_by_name name w.pods)
              (λ q e. get_dc_pod_by_name-not_ready name w.pods q e (ground arith))).at
            w h;
    }

  Keeps-tainted : (value : String) → Keeps P (get_tainted_node_name_set spi value)
  Keeps-tainted =
      Calm.Keeps-get_tainted_node_name_set (IsHarmless spi ps before)
        (mild-IsHarmless spi ps before) (map core ps) (All (IsReplaceable ps before)) spi

  Keeps-selected_of_first : (qs : List Pod) → Keeps P (selected_of_first spi qs)
  unfolding selected_of_first
  Keeps-selected_of_first [] = Keeps-pure _
  Keeps-selected_of_first (q ∷ qs) =
      Keeps->>= _ _
        (Calm.Keeps-get_pod_pvc (IsHarmless spi ps before) (mild-IsHarmless spi ps before)
          (map core ps) (All (IsReplaceable ps before)) spi q)
        (λ pvc. Keeps-pure _)

  Keeps-selected : (name : String) → Keeps P (get_pod_pvc_selected_node_name spi name)
  unfolding get_pod_pvc_selected_node_name
  Keeps-selected name = search (keeps_rules, Keeps-selected_of_first)

  Keeps-replace_stuck :
      (evacuated : StringSet) (p : Pod)
      → fits p.name ps ≡ true
      → Keeps P (replace_stuck spi evacuated p)
  unfolding replace_stuck
  Keeps-replace_stuck evacuated p fit = Keeps->>= _ _ (Keeps-selected p.name) (λ node.
      Keeps-if _ _ _ (Keeps->>= _ _ (Keeps-start_node_replace p.name fit) (λ u. Keeps-pure true))
        (Keeps-pure false))

  Keeps-replace_evacuated :
      (evacuated : StringSet) (qs : List Pod)
      → All (λ q. fits q.name ps ≡ true) qs
      → Keeps P (replace_evacuated spi evacuated qs)
  unfolding replace_evacuated
  Keeps-replace_evacuated evacuated [] fit = Keeps-pure _
  Keeps-replace_evacuated evacuated (q ∷ qs) fit =
      Keeps->>= _ _
        (Keeps-if (is_pod_unschedulable q) _ _ (Keeps-replace_stuck evacuated q fit.0)
          (Keeps-pure false))
        λ replaced.
          Keeps->>= _ _ (Keeps-replace_evacuated evacuated qs fit.1)
            λ more. Keeps-pure (replaced || more)

  Keeps-replace_any :
      (qs : List Pod) → All (λ q. fits q.name ps ≡ true) qs → Keeps P (replace_any spi qs)
  unfolding replace_any
  Keeps-replace_any [] fit = Keeps-pure _
  Keeps-replace_any (q ∷ qs) fit =
      Keeps->>= _ _ (Keeps-tainted evacuate_all_data)
        (λ nodes. Keeps-replace_evacuated nodes (q ∷ qs) fit)

  -- Only pods that are down are replaced, where names are unique.
  pub Keeps-perform_evacuate_data_pod_replace :
      unique_names ps ≡ true → Keeps P (perform_evacuate_data_pod_replace spi)
  unfolding perform_evacuate_data_pod_replace World.◌>>=◌ get_pods
  Keeps-perform_evacuate_data_pod_replace unique = record {
    at = λ w h.
        let fit =
          All-weaken _ (λ q. fits q.name ps ≡ true) _
            (λ q f. sym (fits-same q.name ps w.pods h.same) ∙ f)
            (down_pods-fit spi w.pods (unique_names-same ps w.pods h.same ∙ unique)) in
        (Keeps-replace_any (down_pods spi w.pods) fit).at w h;
  }
