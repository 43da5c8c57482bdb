-- ===== src/Passing.antt =====
-- Go's functions with an error result, as functions of a state: what was changed before an error stays
-- changed.
pub mod Keeps
use cass_operator.Prelude.{String, Option, none, some}
use cass_operator.Result.{Outcome, ok, err}

abbrev pub M : Type 0 → Type 0 → Type 0
M S A = S → Outcome A × S

module _ {S : Type 0} where
  unfoldable pub pure : {A : Type 0} → A → M S A
  pure a s = (ok a, s)

  unfoldable pub fail : {A : Type 0} → String → M S A
  fail e s = (err e, s)

  abbrev pub continue : {A B : Type 0} → Outcome A → (A → M S B) → M S B
  continue (ok a) f s = f a s
  continue (err e) f s = (err e, s)

  -- opening this opens `pure` and `fail` too
  unfoldable pub ◌>>=◌ : {A B : Type 0} → M S A → (A → M S B) → M S B
  unfolding pure fail
  ◌>>=◌ m f s = let (r, s') = m s in continue r f s'

  unfoldable pub lift_outcome : {A : Type 0} → Outcome A → M S A
  unfolding pure fail
  lift_outcome (ok a) = pure a
  lift_outcome (err e) = fail e

infixl 5 ◌>>=◌ ◌>>◌
abbrev pub ◌>>◌ : {S A B : Type 0} → M S A → M S B → M S B
m >> n = m >>= λ _. n

-- A call's error, if any
abbrev pub outcome_of : Option String → Outcome (Unit {0})
outcome_of none = ok tt
outcome_of (some e) = err e
