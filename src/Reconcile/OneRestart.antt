-- ===== src/Reconcile/OneRestart.antt =====
-- How many pods CheckRollingRestart deletes, and which.
use cass_operator.Prelude.{ℕ, suc, ◌+◌, ◌<◌, ◌≤◌, ◌≡◌, true, false, List, [], ◌∷◌, All}
use cass_operator.Result.{
  Outcome, ok, err, ReconcileResult, continue_reconcile, done, call_back_soon, error_out,
}
use cass_operator.Passing.Keeps.{Keeps}
use cass_operator.Pods.{Pod}
use cass_operator.Reconcile.World.{State, Call, drain, delete_pod}

abbrev is_delete : Call → ℕ
is_delete c = elim c [ delete_pod p ↦ 1 | _ ↦ 0 ]

-- How many pods are deleted
abbrev pub deletes : List Call → ℕ
deletes [] = 0
deletes (c ∷ t) = is_delete c + deletes t

-- `n` pods were deleted before.
abbrev pub Restarted : (n : ℕ) → Outcome ReconcileResult → State → Type 0
Restarted n (ok continue_reconcile) s =
    (deletes s.trace ≡ n)
    × All (λ p. s.dc.status.last_rolling_restart ≤ p.creation_timestamp) s.dc_pods
Restarted n (ok done) s =
    (p : Pod) × (t : List Call) × (s.trace ≡ delete_pod p ∷ drain p ∷ t)
    × (deletes t ≡ n)
    × (p.creation_timestamp < s.dc.status.last_rolling_restart)
Restarted n (ok (call_back_soon secs)) s = true ≡ false
Restarted n (ok (error_out e)) s = true ≡ false
Restarted n (err e) s = deletes s.trace ≤ suc n

abbrev HasDeletes : ℕ → State → Type 0
HasDeletes n s = deletes s.trace ≡ n
