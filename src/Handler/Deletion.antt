-- ===== src/Handler/Deletion.antt =====
-- When a datacenter's finalizer goes.
use cass_operator.Prelude.{String, ◌≡◌, ◌⊎◌, true, false, List, [], ◌∷◌, All, none}
use cass_operator.Result.{
  Outcome, ok, err, ReconcileResult, continue_reconcile, done, call_back_soon, error_out,
}
use cass_operator.Passing.Keeps.{Keeps}
use cass_operator.Datacenter.{Datacenter}
use cass_operator.Reconcile.World.{
  Settings, State, Answer, found, not_found, Call, Claim, perform, delete_claim, update_datacenter,
}
use cass_operator.Reconcile.Roles.{IsMade}

-- Every claim of a listing was told to go, or there was none.
abbrev pub AreGone : (list : List Call → Answer (List Claim)) → State → Type 0
AreGone list s =
    (t : List Call) × ((list t ≡ not_found)
      ⊎ ((claims : List Claim) × (list t ≡ found claims)
          × All (λ c. IsMade (delete_claim c) s.trace) claims))

-- The last call stored the datacenter as it is in memory, and did not fail.
abbrev pub IsStored : Settings → State → Type 0
IsStored cfg s =
    (t : List Call) × (s.trace ≡ update_datacenter s.dc ∷ t)
    × (cfg.failure t (update_datacenter s.dc) ≡ none)

abbrev pub Deleted :
    Settings
    → (list : List Call → Answer (List Claim)) → (before : Datacenter) → Outcome ReconcileResult
    → State
    → Type 0
Deleted cfg list before (ok continue_reconcile) s = (before.is_deleted ≡ false) × (s.dc ≡ before)
Deleted cfg list before (ok done) s = (s.dc.finalizers ≡ []) × IsStored cfg s × AreGone list s
Deleted cfg list before (ok (call_back_soon secs)) s = true ≡ false
Deleted cfg list before (ok (error_out e)) s = true ≡ false
Deleted cfg list before (err e) s = (s.dc.finalizers ≡ before.finalizers) ⊎ AreGone list s

abbrev HasFinalizers : List String → State → Type 0
HasFinalizers fs s = s.dc.finalizers ≡ fs

module _ (fs : List String) (cfg : Settings) where
  perform-HasFinalizers : (c : Call) → Keeps (HasFinalizers fs) (perform cfg c)
  unfolding perform
  perform-HasFinalizers c = record { at = λ s h. h }

  -- The claims deleted so far
  abbrev Going : (claims : List Claim) → State → Type 0
  Going claims s = All (λ c. IsMade (delete_claim c) s.trace) claims

  abbrev WereDeleted : (before claims : List Claim) → Outcome (Unit {0}) → State → Type 0
  WereDeleted before claims (ok u) s = Going before s × Going claims s
  WereDeleted before claims (err e) s = s.dc.finalizers ≡ fs

  module _ (list : List Call → Answer (List Claim)) where
    abbrev ClaimsGo : Outcome (Unit {0}) → State → Type 0
    ClaimsGo (ok u) s = AreGone list s
    ClaimsGo (err e) s = s.dc.finalizers ≡ fs

    abbrev Unlocked : Outcome (Unit {0}) → State → Type 0
    Unlocked (ok u) s = (s.dc.finalizers ≡ []) × IsStored cfg s × AreGone list s
    Unlocked (err e) s = AreGone list s

    abbrev without_finalizers : State → State
    without_finalizers s = record s {
      dc = record s.dc { finalizers = [] };
      trace = update_datacenter (record s.dc { finalizers = [] }) ∷ s.trace;
    }

module _ (cfg : Settings) (list : List Call → Answer (List Claim)) (before : Datacenter) where
  abbrev Unchanged : State → Type 0
  Unchanged s = HasFinalizers before.finalizers s
