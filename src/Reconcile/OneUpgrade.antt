-- ===== src/Reconcile/OneUpgrade.antt =====
-- How many stateful sets CheckRackPodTemplate updates in a pass, and which.
use cass_operator.Prelude.{
  ℕ, String, ◌+◌, ◌≡◌, refl, inl, ◌&&◌, List, [], ◌∷◌, Option, none, some, ltb, if◌then◌else◌,
  nat_eq,
}
use cass_operator.Result.{ok, ReconcileResult, continue_reconcile, call_back_soon}
use cass_operator.Passing.{pure, fail, lift_outcome, ◌>>=◌, ◌>>◌}
use cass_operator.Passing.Keeps.{
  Ends, Ends->>=, Ends-if, Ends-weaken, Keeps, Keeps-Ends, Keeps-lift_outcome,
}
use cass_operator.Templates.{StatefulSet}
use cass_operator.Racks.{RackInformation}
use cass_operator.Reconcile.World.{
  Settings, State, M, get, perform, nth, stateful_set_at, deref, set_owner,
}
use cass_operator.Reconcile.Upgrade.{
  is_rolling, carry_over, with_canary, roll_out, upgrade_racks, check_rack_pod_template,
  desired_stateful_set, resources_have_same_hash,
}
use cass_operator.Reconcile.Untouched.{HasSets, Reads, stateful_set_at-Ends}
use cass_operator.Reconcile.Updates.{
  updates, Upgraded, HasUpdates, roll_out-Ends, with_canary-replicas, Updated-first,
  Upgraded-earlier,
}

-- Before the first update the sets are as they were, too.
abbrev IsFresh : List (Option StatefulSet) → List StatefulSet → State → Type 0
IsFresh sets us s = HasSets sets s × HasUpdates us s

module _ (cfg : Settings) (sets : List (Option StatefulSet)) (us : List StatefulSet) where
  get-IsFresh : Keeps (IsFresh sets us) get
  unfolding get
  get-IsFresh = record { at = λ s h. h }

  set_owner-IsFresh : (name : String) → Keeps (IsFresh sets us) (perform cfg (set_owner name))
  unfolding perform
  set_owner-IsFresh name = record { at = λ s h. h }

  stateful_set_at-HasUpdates : (i : ℕ) → Keeps (HasUpdates us) (stateful_set_at i)
  unfolding stateful_set_at deref pure fail
  stateful_set_at-HasUpdates i = record { at = λ s h. read (nth i s.stateful_sets) s h }
    where
      read : (o : Option StatefulSet) (s : State) → HasUpdates us s → HasUpdates us (deref o s).1
      read none s h = h
      read (some sts) s h = h

  stateful_set_at-IsFresh :
      (i : ℕ)
      → Ends (IsFresh sets us) (stateful_set_at i) (λ r s. IsFresh sets us s × Reads (nth i sets) r)
  stateful_set_at-IsFresh i = record {
    at = λ s h.
        let (same, read) = (stateful_set_at-Ends i sets).at s h.0 in
        ((same, (stateful_set_at-HasUpdates i).at s h.1), read);
  }

  fresh->>= :
      {A : Type 0} (i : ℕ) (m : M A) (f : A → M ReconcileResult)
      → Keeps (IsFresh sets us) m
      → ((a : A) → Ends (IsFresh sets us) (f a) (Upgraded i sets us))
      → Ends (IsFresh sets us) (m >>= f) (Upgraded i sets us)
  fresh->>= i m f keeps rest =
      Ends->>= _ (λ r. IsFresh sets us) _ _ _ (Keeps-Ends _ keeps) rest (λ e s h. inl h.1)

  ends_here :
      (i : ℕ) (r : ReconcileResult)
      → ((s : State) → HasUpdates us s → Upgraded i sets us (ok r) s)
      → Ends (IsFresh sets us) (pure r) (Upgraded i sets us)
  unfolding pure
  ends_here i r f = record { at = λ s h. f s h.1 }

  module _ (info : RackInformation) (infos : List RackInformation) (i : ℕ)
      (rest : Ends
        (IsFresh sets us)
        (upgrade_racks cfg (i + 1) infos)
        (Upgraded (i + 1) sets us)) where
    same_hash :
        (sts : StatefulSet)
        → nth i sets ≡ some sts
        → Ends
            (IsFresh sets us)
            (if is_rolling sts then pure (call_back_soon 10) else upgrade_racks cfg (i + 1) infos)
            (Upgraded i sets us)
    same_hash sts here =
        Ends-if _ _ (is_rolling sts) _ _ (λ t. ends_here i (call_back_soon 10) (λ s h. h))
          (λ f. record { at = λ s h. Upgraded-earlier i sets (rw here f) us _ _ ((rest).at s h) })

    rack :
        (s : State) (sts : StatefulSet)
        → nth i sets ≡ some sts
        → Ends
            (IsFresh sets us)
            (lift_outcome (desired_stateful_set cfg.around s.dc info.rack_name sts) >>= λ desired.
              perform cfg (set_owner desired.name)
              >> (if resources_have_same_hash sts.annotations desired.annotations
                  then (if is_rolling sts
                      then pure (call_back_soon 10)
                      else upgrade_racks cfg (i + 1) infos)
                  else roll_out cfg i (with_canary s.dc info (carry_over desired sts))))
            (Upgraded i sets us)
    rack s sts here = fresh->>= i _ _ (Keeps-lift_outcome _) (λ desired.
        fresh->>= i _ _ (set_owner-IsFresh desired.name) (λ u.
          Ends-if _ _ (resources_have_same_hash sts.annotations desired.annotations) _
            (roll_out cfg i (with_canary s.dc info (carry_over desired sts)))
            (λ t. same_hash sts here)
            (λ f.
              Ends-weaken _ _ _ _ (λ s h. h.1)
                (roll_out-Ends cfg i sets us (with_canary s.dc info (carry_over desired sts)) (
                  Updated-first i sets sts (with_canary s.dc info (carry_over desired sts)) here
                    (with_canary-replicas s.dc info desired sts))))))

  upgrade_racks-Ends :
      (infos : List RackInformation) (i : ℕ)
      → Ends (IsFresh sets us) (upgrade_racks cfg i infos) (Upgraded i sets us)
  unfolding upgrade_racks
  upgrade_racks-Ends [] i = ends_here i continue_reconcile (λ s h. h)
  upgrade_racks-Ends (info ∷ infos) i = fresh->>= i _ _ get-IsFresh (λ s.
      Ends-if _ _ (s.dc.spec.canary_upgrade && ltb 0 i) _ _
        (λ t. ends_here i continue_reconcile (λ s h. h))
        (λ f.
          Ends->>= _ (λ r s. IsFresh sets us s × Reads (nth i sets) r) _ _ _
            (stateful_set_at-IsFresh i)
            (λ sts. record {
              at = λ s' h.
                  (rack info infos i (upgrade_racks-Ends infos (i + 1)) s sts h.1).at s' h.0;
            })
            (λ e s h. inl h.0.1)))

-- In a pass CheckRackPodTemplate updates no more than one stateful set: if it lets the reconciliation go on or asks to be
-- called again it has updated none, and if it ends the pass it has updated one; that set keeps its number of replicas,
-- and the rollout of every set before it is over; after an error it has updated none or such a one.
pub check_rack_pod_template-Upgraded :
    (cfg : Settings) (s : State)
    → Upgraded 0 s.stateful_sets
        (updates s.trace)
        (check_rack_pod_template cfg s).0
        (check_rack_pod_template cfg s).1
unfolding check_rack_pod_template
check_rack_pod_template-Upgraded cfg s =
    (upgrade_racks-Ends cfg s.stateful_sets (updates s.trace) cfg.desired_rack_information 0).at s
      (refl, refl)
