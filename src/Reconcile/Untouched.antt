-- ===== src/Reconcile/Untouched.antt =====
-- Operations that leave the stateful sets alone, and what a store does to them.
use cass_operator.Prelude.{
  ℕ, zero, suc, ◌≡◌, refl, ap, ◌≢◌, Bool, true, false, List, [], ◌∷◌, Option, none, some,
}
use cass_operator.Result.{Outcome, ok, err}
use cass_operator.Passing.{pure, fail, ◌>>=◌}
use cass_operator.Passing.Keeps.{Ends, Keeps, keeps_rules, Keeps-pure}
use cass_operator.Templates.{StatefulSet}
use cass_operator.Datacenter.{ConditionType, ConditionStatus, ProgressState, Status}
use cass_operator.Reconcile.World.{
  Settings, State, Call, get, put, perform, attempt, nth, set_nth, stateful_set_at, deref,
}
use cass_operator.Reconcile.Progress.{
  change_status, patch_dc_status, set_operator_progress_status, set_dc_condition, patch_if,
}

abbrev pub HasSets : List (Option StatefulSet) → State → Type 0
HasSets sets s = s.stateful_sets ≡ sets

module _ (sets : List (Option StatefulSet)) (cfg : Settings) where
  pub perform-HasSets : (c : Call) → Keeps (HasSets sets) (perform cfg c)
  unfolding perform
  perform-HasSets c = record { at = λ s h. h }

  pub attempt-HasSets : (c : Call) → Keeps (HasSets sets) (attempt cfg c)
  unfolding attempt
  attempt-HasSets c = record { at = λ s h. h }

  pub get-HasSets : Keeps (HasSets sets) get
  unfolding get
  get-HasSets = record { at = λ s h. h }

  pub change_status-HasSets :
      (change : Status → Status) → Keeps (HasSets sets) (change_status change)
  unfolding change_status get put ◌>>=◌
  change_status-HasSets change = record { at = λ s h. h }

  pub set_dc_condition-HasSets :
      (type : ConditionType) (status : ConditionStatus)
      → Keeps (HasSets sets) (set_dc_condition cfg type status)
  unfolding set_dc_condition get put ◌>>=◌ pure
  set_dc_condition-HasSets type status = record { at = λ s h. h }

  pub patch_dc_status-HasSets : Keeps (HasSets sets) (patch_dc_status cfg)
  unfolding patch_dc_status get perform ◌>>=◌
  patch_dc_status-HasSets = record { at = λ s h. h }

  pub patch_if-HasSets : (b : Bool) → Keeps (HasSets sets) (patch_if cfg b)
  unfolding patch_if
  patch_if-HasSets true = patch_dc_status-HasSets
  patch_if-HasSets false = Keeps-pure tt

  pub set_operator_progress_status-HasSets :
      (new : ProgressState) → Keeps (HasSets sets) (set_operator_progress_status cfg new)
  unfolding set_operator_progress_status
  set_operator_progress_status-HasSets new =
      search (keeps_rules, get-HasSets, change_status-HasSets, patch_dc_status-HasSets)

-- A set that is there is replaced, and no other.
pub nth-set_nth :
    (i : ℕ) (sts old : StatefulSet) (sets : List (Option StatefulSet))
    → nth i sets ≡ some old
    → nth i (set_nth i sts sets) ≡ some sts
nth-set_nth i sts old [] h = absurd (cc)
nth-set_nth zero sts old (o ∷ os) h = refl
nth-set_nth (suc i) sts old (o ∷ os) h = nth-set_nth i sts old os h

pub nth-set_nth_other :
    (i k : ℕ) (sts : StatefulSet) (sets : List (Option StatefulSet))
    → i ≢ k
    → nth k (set_nth i sts sets) ≡ nth k sets
nth-set_nth_other i k sts [] d = refl
nth-set_nth_other zero zero sts (o ∷ os) d = absurd (d refl)
nth-set_nth_other zero (suc k) sts (o ∷ os) d = refl
nth-set_nth_other (suc i) zero sts (o ∷ os) d = refl
nth-set_nth_other (suc i) (suc k) sts (o ∷ os) d = nth-set_nth_other i k sts os (λ e. d (ap suc e))

-- A read succeeds with the set of the index.
abbrev pub Reads : Option StatefulSet → Outcome StatefulSet → Type 0
Reads o (ok sts) = o ≡ some sts
Reads o (err e) = o ≡ none

Reads-same : (a b : Option StatefulSet) (r : Outcome StatefulSet) → a ≡ b → Reads a r → Reads b r
Reads-same a b r e h = rw (← e) h

pub stateful_set_at-Ends :
    (i : ℕ) (sets : List (Option StatefulSet))
    → Ends (HasSets sets) (stateful_set_at i) (λ r s. HasSets sets s × Reads (nth i sets) r)
unfolding stateful_set_at deref pure fail
stateful_set_at-Ends i sets = record {
  at = λ s h.
      let (same, read) = reads (nth i s.stateful_sets) s h in
      (same, Reads-same _ (nth i sets) _ (ap (nth i) h) read);
}
  where
    reads :
        (o : Option StatefulSet) (s : State)
        → HasSets sets s
        → HasSets sets (deref o s).1 × Reads o (deref o s).0
    reads none s h = (h, refl)
    reads (some sts) s h = (h, refl)
