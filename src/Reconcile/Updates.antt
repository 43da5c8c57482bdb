-- ===== src/Reconcile/Updates.antt =====
-- Which stateful sets are updated, and what leaves that alone.
use cass_operator.Prelude.{
  ℕ, String, ◌+◌, ◌<◌, ◌≤◌, ◌≡◌, refl, ap, ◌⊎◌, inl, inr, Bool, true, false, List, [], ◌∷◌, Option,
  none, some, arith, ◌==◌, Bool-cases, nat_eq,
}
use cass_operator.Result.{
  Outcome, ok, err, ReconcileResult, continue_reconcile, done, call_back_soon, error_out,
}
use cass_operator.Passing.{pure, ◌>>=◌, ◌>>◌}
use cass_operator.Passing.Keeps.{Ends, Ends->>=, Keeps, Keeps-Ends, Keeps-pure, keeps_rules}
use cass_operator.Templates.{StatefulSet}
use cass_operator.Datacenter.{
  Datacenter, ProgressState, progress_updating, Status, ConditionType, ConditionStatus, updating,
  status_true,
}
use cass_operator.Racks.{RackInformation}
use cass_operator.Reconcile.World.{
  Settings, State, M, Call, get, put, perform, nth, store_stateful_set, update_stateful_set,
}
use cass_operator.Reconcile.Progress.{
  change_status, set_dc_condition, patch_if, patch_dc_status, set_operator_progress_status,
  enable_quiet_period,
}
use cass_operator.Reconcile.Upgrade.{is_rolling, carry_over, with_canary, roll_out}

-- The sets that were updated, the last one first
abbrev pub updates : List Call → List StatefulSet
updates [] = []
updates (c ∷ t) = elim c [ update_stateful_set sts ↦ sts ∷ updates t | _ ↦ updates t ]

abbrev pub IsSettled : Option StatefulSet → Type 0
IsSettled none = true ≡ false
IsSettled (some sts) = is_rolling sts ≡ false

-- The set of an index from `i` on is updated; it keeps its replicas, and those before it from `i` on are settled.
pub record Updated (i : ℕ) (sets : List (Option StatefulSet)) (new : StatefulSet) : Type 0 where
  pub index : ℕ
  pub old : StatefulSet
  pub is_from : i ≤ index
  pub was : nth index sets ≡ some old
  pub replicas : new.replicas ≡ old.replicas
  pub earlier : (j : ℕ) → i ≤ j → j < index → IsSettled (nth j sets)

abbrev pub UpdatedOne : (i : ℕ) → List (Option StatefulSet) → List StatefulSet → State → Type 0
UpdatedOne i sets before s =
    (new : StatefulSet) × (updates s.trace ≡ new ∷ before) × Updated i sets new

-- `before` are the updates of earlier stages.
abbrev pub Upgraded :
    (i : ℕ)
    → List (Option StatefulSet)
    → (before : List StatefulSet) → Outcome ReconcileResult
    → State
    → Type 0
Upgraded i sets before (ok continue_reconcile) s = updates s.trace ≡ before
Upgraded i sets before (ok (call_back_soon secs)) s = updates s.trace ≡ before
Upgraded i sets before (ok done) s = UpdatedOne i sets before s
Upgraded i sets before (ok (error_out e)) s = true ≡ false
Upgraded i sets before (err e) s = (updates s.trace ≡ before) ⊎ UpdatedOne i sets before s

abbrev pub HasUpdates : List StatefulSet → State → Type 0
HasUpdates us s = updates s.trace ≡ us

module _ (us : List StatefulSet) (cfg : Settings) where
  pub get-HasUpdates : Keeps (HasUpdates us) get
  unfolding get
  get-HasUpdates = record { at = λ s h. h }

  change_status-HasUpdates :
      (change : Status → Status) → Keeps (HasUpdates us) (change_status change)
  unfolding change_status get put ◌>>=◌
  change_status-HasUpdates change = record { at = λ s h. h }

  set_dc_condition-HasUpdates :
      (type : ConditionType) (status : ConditionStatus)
      → Keeps (HasUpdates us) (set_dc_condition cfg type status)
  unfolding set_dc_condition get put ◌>>=◌ pure
  set_dc_condition-HasUpdates type status = record { at = λ s h. h }

  patch_dc_status-HasUpdates : Keeps (HasUpdates us) (patch_dc_status cfg)
  unfolding patch_dc_status get perform ◌>>=◌
  patch_dc_status-HasUpdates = record { at = λ s h. h }

  patch_if-HasUpdates : (b : Bool) → Keeps (HasUpdates us) (patch_if cfg b)
  unfolding patch_if
  patch_if-HasUpdates true = patch_dc_status-HasUpdates
  patch_if-HasUpdates false = Keeps-pure tt

  store_stateful_set-HasUpdates :
      (i : ℕ) (sts : StatefulSet) → Keeps (HasUpdates us) (store_stateful_set i sts)
  unfolding store_stateful_set
  store_stateful_set-HasUpdates i sts = record { at = λ s h. h }

  set_operator_progress_status-HasUpdates :
      (new : ProgressState) → Keeps (HasUpdates us) (set_operator_progress_status cfg new)
  unfolding set_operator_progress_status
  set_operator_progress_status-HasUpdates new =
      search (keeps_rules, get-HasUpdates, change_status-HasUpdates, patch_dc_status-HasUpdates)

  enable_quiet_period-HasUpdates :
      (seconds : ℕ) → Keeps (HasUpdates us) (enable_quiet_period cfg seconds)
  unfolding enable_quiet_period
  enable_quiet_period-HasUpdates seconds =
      search (keeps_rules, change_status-HasUpdates, patch_dc_status-HasUpdates)

module _ (cfg : Settings) (i : ℕ) (sets : List (Option StatefulSet)) (us : List StatefulSet) where
  -- Nothing is updated yet.
  pub before->>= :
      {A : Type 0} (m : M A) (f : A → M ReconcileResult)
      → Keeps (HasUpdates us) m
      → ((a : A) → Ends (HasUpdates us) (f a) (Upgraded i sets us))
      → Ends (HasUpdates us) (m >>= f) (Upgraded i sets us)
  before->>= m f keeps rest =
      Ends->>= _ (λ r. HasUpdates us) _ _ _ (Keeps-Ends _ keeps) rest (λ e s h. inl h)

  module _ (new : StatefulSet) (updated : Updated i sets new) where
    update-Ends :
        Ends
          (HasUpdates us)
          (perform cfg (update_stateful_set new))
          (λ r s. updates s.trace ≡ new ∷ us)
    unfolding perform
    update-Ends = record { at = λ s h. ap (λ l. new ∷ l) h }

    failed-Upgraded :
        (e : String) (s : State) → HasUpdates (new ∷ us) s → Upgraded i sets us (err e) s
    failed-Upgraded e s h = inr (new, h, updated)

    done-Ends : Ends (HasUpdates (new ∷ us)) (pure done) (Upgraded i sets us)
    unfolding pure
    done-Ends = record { at = λ s h. (new, h, updated) }

    update_and_rest-Ends :
        Ends
          (HasUpdates us)
          (perform cfg (update_stateful_set new) >> (enable_quiet_period cfg 20 >> pure done))
          (Upgraded i sets us)
    update_and_rest-Ends =
        Ends->>= _ (λ r s. updates s.trace ≡ new ∷ us) _ _ _ update-Ends
          (λ u.
            Ends->>= _ (λ r. HasUpdates (new ∷ us)) _ _ _
              (Keeps-Ends _ (enable_quiet_period-HasUpdates (new ∷ us) cfg 20)) (λ u. done-Ends)
              failed-Upgraded)
          failed-Upgraded

    pub roll_out-Ends : Ends (HasUpdates us) (roll_out cfg i new) (Upgraded i sets us)
    unfolding roll_out
    roll_out-Ends = before->>= _ _ (store_stateful_set-HasUpdates us cfg i new) (λ u.
        before->>= _ _ (set_dc_condition-HasUpdates us cfg updating status_true) (λ b.
          before->>= _ _ (patch_if-HasUpdates us cfg b) (λ u.
            before->>= _ _ (set_operator_progress_status-HasUpdates us cfg progress_updating)
              (λ u. update_and_rest-Ends))))

pub with_canary-replicas :
    (dc : Datacenter) (info : RackInformation) (desired sts : StatefulSet)
    → (with_canary dc info (carry_over desired sts)).replicas ≡ sts.replicas
unfolding with_canary carry_over
with_canary-replicas dc info desired sts = elim (Bool-cases dc.spec.canary_upgrade) [
  | inl t ↦ rw t refl
  | inr f ↦ rw f refl
]

pub Updated-first :
    (i : ℕ) (sets : List (Option StatefulSet)) (sts new : StatefulSet)
    → nth i sets ≡ some sts
    → new.replicas ≡ sts.replicas
    → Updated i sets new
Updated-first i sets sts new was same = record {
  index = i;
  old = sts;
  is_from = omega arith;
  was = was;
  replicas = same;
  earlier = λ j le lt. absurd (omega arith);
}

module _ (i : ℕ) (sets : List (Option StatefulSet)) (is_settled : IsSettled (nth i sets)) where
  Updated-earlier : (new : StatefulSet) → Updated (i + 1) sets new → Updated i sets new
  Updated-earlier new u = record {
    index = u.index;
    old = u.old;
    is_from = let le = u.is_from in omega arith;
    was = u.was;
    replicas = u.replicas;
    earlier = λ j le lt. elim (Bool-cases (i == j)) [
      | inl t ↦ let same = (nat_eq.same_iff i j).0 t in rw (← same) is_settled
      | inr f ↦ u.earlier j (ground arith) lt
    ];
  }

  UpdatedOne-earlier :
      (us : List StatefulSet) (s : State) → UpdatedOne (i + 1) sets us s → UpdatedOne i sets us s
  UpdatedOne-earlier us s (new, h, u) = (new, h, Updated-earlier new u)

  pub Upgraded-earlier :
      (us : List StatefulSet) (r : Outcome ReconcileResult) (s : State)
      → Upgraded (i + 1) sets us r s
      → Upgraded i sets us r s
  Upgraded-earlier us (ok continue_reconcile) s h = h
  Upgraded-earlier us (ok (call_back_soon secs)) s h = h
  Upgraded-earlier us (ok done) s h = UpdatedOne-earlier us s h
  Upgraded-earlier us (ok (error_out e)) s h = h
  Upgraded-earlier us (err e) s (inl h) = inl h
  Upgraded-earlier us (err e) s (inr h) = inr (UpdatedOne-earlier us s h)
