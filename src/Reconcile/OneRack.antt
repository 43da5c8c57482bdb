-- ===== src/Reconcile/OneRack.antt =====
-- What CheckRackScale makes of one rack's stateful set.
use cass_operator.Prelude.{
  ℕ, String, ap, ◌<◌, ◌≤◌, ◌≡◌, refl, ◌∙◌, ◌≢◌, ◌⊎◌, inl, inr, false, List, ◌∷◌, Option, none, some,
  arith, ltb, if◌then◌else◌,
}
use cass_operator.Result.{Outcome, ok, err}
use cass_operator.Passing.{pure, outcome_of, ◌>>=◌, ◌>>◌}
use cass_operator.Passing.Keeps.{Ends, Ends->>=, Ends-if, Keeps, Keeps-Ends, keeps_rules}
use cass_operator.Templates.{StatefulSet}
use cass_operator.Datacenter.{progress_updating}
use cass_operator.Racks.{RackInformation}
use cass_operator.Reconcile.World.{
  Settings, State, Call, nth, set_nth, store_stateful_set, perform, patch_stateful_set,
}
use cass_operator.Reconcile.Progress.{patch_if, update_rack_node_count}
use cass_operator.Reconcile.Scaling.{announce_scale, scale_rack}
use cass_operator.Reconcile.Roles.{IsMade}
use cass_operator.Reconcile.Traced.{IsDone}
use cass_operator.Reconcile.Untouched.{
  HasSets, Reads, get-HasSets, patch_if-HasSets, set_dc_condition-HasSets,
  set_operator_progress_status-HasSets, stateful_set_at-Ends, nth-set_nth, nth-set_nth_other,
}

-- The set was sent, and this did not fail if the whole did not.
abbrev pub IsSent : {A : Type 0} → Settings → Outcome A → StatefulSet → (trace : List Call) → Type 0
IsSent cfg (ok a) sts t = IsDone cfg (patch_stateful_set sts) t
IsSent cfg (err e) sts t = IsMade (patch_stateful_set sts) t

-- A set with fewer replicas than `n` may have got `n`, and was sent then; else it is as it was.
abbrev pub Grows :
    {A : Type 0}
    → Settings
    → (n : ℕ) → Outcome A
    → (before after : Option StatefulSet) → (trace : List Call) → Type 0
Grows cfg n r none after t = after ≡ none
Grows cfg n r (some sts) after t =
    (after ≡ some sts)
    ⊎ ((sts.replicas < n)
        × (after ≡ some (record sts { replicas = n }))
        × IsSent cfg r (record sts { replicas = n }) t)

-- Without an error the set has at least `n` replicas.
abbrev pub Reaches : {A : Type 0} → Outcome A → (n : ℕ) → Option StatefulSet → Type 0
Reaches (ok a) n o = (sts : StatefulSet) × (o ≡ some sts) × (n ≤ sts.replicas)
Reaches (err e) n o = Unit

pub record Stepped {A : Type 0} (cfg : Settings) (i n : ℕ) (sets : List (Option StatefulSet))
    (r : Outcome A) (after : List (Option StatefulSet)) (t : List Call) : Type 0 where
  pub others : (k : ℕ) → i ≢ k → nth k after ≡ nth k sets
  pub grows : Grows cfg n r (nth i sets) (nth i after) t
  pub reaches : Reaches r n (nth i after)

pub Grows-refl :
    {A : Type 0} (cfg : Settings) (n : ℕ) (r : Outcome A) (o : Option StatefulSet) (t : List Call)
    → Grows cfg n r o o t
Grows-refl cfg n r none t = refl
Grows-refl cfg n r (some sts) t = inl refl

module _ (cfg : Settings) (i n : ℕ) (sets : List (Option StatefulSet)) where
  -- A failure before the set is changed
  Stepped-err :
      {A : Type 0} (e : String) (s : State)
      → HasSets sets s
      → Stepped {A = A} cfg i n sets (err e) s.stateful_sets s.trace
  Stepped-err {A = A} e s h = record {
    others = λ k d. rw h refl;
    grows = rw h (Grows-refl {A = A} cfg n (err e) (nth i sets) s.trace);
    reaches = tt;
  }

  announce_scale-HasSets : Keeps (HasSets sets) (announce_scale cfg)
  unfolding announce_scale
  announce_scale-HasSets = search (keeps_rules, get-HasSets, set_dc_condition-HasSets)

  module _ (sts : StatefulSet) (is_here : nth i sets ≡ some sts) where
    stored-Stepped :
        (r : Outcome (Unit {0})) (t : List Call)
        → sts.replicas < n
        → IsSent cfg r (record sts { replicas = n }) t
        → Stepped cfg i n sets r (set_nth i (record sts { replicas = n }) sets) t
    stored-Stepped r t lt sent =
        let here = nth-set_nth i (record sts { replicas = n }) sts sets is_here in
        record {
          others = λ k d. nth-set_nth_other i k _ sets d;
          grows = rw (is_here, here) (inr (lt, refl, sent));
          reaches = reached r here;
        }
      where
        reached :
            (r : Outcome (Unit {0}))
            → nth i (set_nth i (record sts { replicas = n }) sets)
              ≡ some (record sts { replicas = n })
            → Reaches r n (nth i (set_nth i (record sts { replicas = n }) sets))
        reached (ok u) here = (record sts { replicas = n }, here, omega arith)
        reached (err e) here = tt

    store_and_patch-Ends :
        sts.replicas < n
        → Ends
            (HasSets sets)
            (store_stateful_set i (record sts { replicas = n })
              >> perform cfg (patch_stateful_set (record sts { replicas = n })))
            (λ r s. Stepped cfg i n sets r s.stateful_sets s.trace)
    unfolding store_stateful_set perform ◌>>=◌
    store_and_patch-Ends lt = record {
      at = λ s h. rw h (stored-Stepped _ _ lt (answered s.trace _ refl));
    }
      where
        answered :
            (t : List Call) (o : Option String)
            → cfg.failure t (patch_stateful_set (record sts { replicas = n })) ≡ o
            → IsSent cfg
                (outcome_of o)
                (record sts { replicas = n })
                (patch_stateful_set (record sts { replicas = n }) ∷ t)
        answered t none e = inl (refl, e)
        answered t (some x) e = inl refl

    update_rack_node_count-Ends :
        sts.replicas < n
        → Ends
            (HasSets sets)
            (update_rack_node_count cfg i sts n)
            (λ r s. Stepped cfg i n sets r s.stateful_sets s.trace)
    unfolding update_rack_node_count
    update_rack_node_count-Ends lt =
        Ends->>= _ (λ r. HasSets sets) _ _ _
          (Keeps-Ends _ (set_operator_progress_status-HasSets sets cfg progress_updating))
          (λ u. store_and_patch-Ends lt) Stepped-err

    enough-Ends :
        ltb sts.replicas n ≡ false
        → Ends (HasSets sets) (pure tt) (λ r s. Stepped cfg i n sets r s.stateful_sets s.trace)
    unfolding pure
    enough-Ends f = record {
      at = λ s h. record {
        others = λ k d. rw h refl;
        grows = rw h (Grows-refl {A = Unit {0}} cfg n (ok tt) (nth i sets) s.trace);
        reaches = (sts, ap (nth i) h ∙ is_here, ground arith);
      };
    }

    grow-Ends :
        Ends
          (HasSets sets)
          (if ltb sts.replicas n
            then (announce_scale cfg >>= λ updated.
                patch_if cfg updated >> update_rack_node_count cfg i sts n)
            else pure tt)
          (λ r s. Stepped cfg i n sets r s.stateful_sets s.trace)
    grow-Ends =
        Ends-if _ _ (ltb sts.replicas n) _ _
          (λ t.
            Ends->>= _ (λ r. HasSets sets) _ _ _ (Keeps-Ends _ announce_scale-HasSets)
              (λ updated.
                Ends->>= _ (λ r. HasSets sets) _ _ _
                  (Keeps-Ends _ (patch_if-HasSets sets cfg updated))
                  (λ u. update_rack_node_count-Ends (ground arith)) Stepped-err)
              Stepped-err)
          enough-Ends

pub scale_rack-Ends :
    (cfg : Settings) (i : ℕ) (info : RackInformation) (sets : List (Option StatefulSet))
    → Ends
        (HasSets sets)
        (scale_rack cfg i info)
        (λ r s. Stepped cfg i info.node_count sets r s.stateful_sets s.trace)
unfolding scale_rack
scale_rack-Ends cfg i info sets =
    Ends->>= _ (λ r s. HasSets sets s × Reads (nth i sets) r) _ _ _ (stateful_set_at-Ends i sets)
      (λ sts. record { at = λ s h. (grow-Ends cfg i info.node_count sets sts h.1).at s h.0 })
      (λ e s h. Stepped-err cfg i info.node_count sets e s h.0)
