-- ===== src/Result.antt =====
-- operator/internal/result/result_helper.go: how a reconciliation step ends; and Go's pairs of a value
-- and an error. An error is a text.
use cass_operator.Prelude.{ℕ, String, Bool, true, false, Option, none, some}

pub data Outcome {ℓ} (A : Type ℓ) : Type ℓ where
  ok : A → Outcome A
  err : String → Outcome A

pub data ReconcileResult : Type 0 where
  continue_reconcile done : ReconcileResult
  call_back_soon : ℕ → ReconcileResult
  error_out : String → ReconcileResult

-- `reconcile.Result`, with the time in seconds.
pub record Requeue : Type 0 where
  pub requeue : Bool
  pub requeue_after : ℕ

pub completed : ReconcileResult → Bool
completed continue_reconcile = false
completed done = true
completed (call_back_soon secs) = true
completed (error_out e) = true

-- `none` is the panic of a result that is none.
pub output : ReconcileResult → Option (Requeue × Option String)
output continue_reconcile = none
output done = some (record { requeue = false; requeue_after = 0 }, none)
output (call_back_soon secs) = some (record { requeue = true; requeue_after = secs }, none)
output (error_out e) = some (record { requeue = false; requeue_after = 0 }, some e)
