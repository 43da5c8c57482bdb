-- ===== src/Emm/Keeps.antt =====
-- Predicates on the world that an operation keeps, whatever it answers; one rule for each way to build
-- an operation.
use cass_operator.Prelude.{ℕ, String, Bool, true, false, if◌then◌else◌}
use cass_operator.Result.{Outcome, ok, err, ReconcileResult}
use cass_operator.Emm.World.{World, M, pure, fail, continue, get_pods}
use cass_operator.Emm.World
use cass_operator.Emm.Check.{
  Flow, next, exit, Step, next_with, exit_with, lift, requeue_if, go_on, flow_of,
}
use cass_operator.Emm.Check

pub record Keeps {X : Type 0} (P : World → Type 0) (m : World → X × World) : Type 0 where
  pub at : (w : World) → P w → P (m w).1

module _ {P : World → Type 0} where
  pub Keeps-pure : {A : Type 0} (a : A) → Keeps P (pure a)
  unfolding pure
  Keeps-pure a = record { at = λ w h. h }

  pub Keeps-fail : (A : Type 0) (e : String) → Keeps P (fail {A = A} e)
  unfolding fail
  Keeps-fail A e = record { at = λ w h. h }

  pub Keeps-next_with : {A : Type 0} (a : A) → Keeps P (next_with a)
  unfolding next_with
  Keeps-next_with a = record { at = λ w h. h }

  pub Keeps-exit_with : (A : Type 0) (r : ReconcileResult) → Keeps P (exit_with {A = A} r)
  unfolding exit_with
  Keeps-exit_with A r = record { at = λ w h. h }

  pub Keeps-requeue_if : (b : Bool) (secs : ℕ) → Keeps P (requeue_if b secs)
  unfolding requeue_if
  Keeps-requeue_if true secs = record { at = λ w h. h }
  Keeps-requeue_if false secs = record { at = λ w h. h }

  pub Keeps-get_pods : Keeps P get_pods
  unfolding get_pods
  Keeps-get_pods = record { at = λ w h. h }

  pub Keeps-lift : {A : Type 0} (m : M A) → Keeps P m → Keeps P (lift m)
  unfolding lift
  Keeps-lift m k = record { at = λ w h. k.at w h }

  pub Keeps-if :
      {X : Type 0} (b : Bool) (m n : World → X × World)
      → Keeps P m
      → Keeps P n
      → Keeps P (if b then m else n)
  Keeps-if true m n km kn = km
  Keeps-if false m n km kn = kn

  continue-Keeps :
      {A B : Type 0} (r : Outcome A) (f : A → M B) (w : World)
      → ((a : A) → Keeps P (f a))
      → P w
      → P (continue r f w).1
  continue-Keeps (ok a) f w k h = (k a).at w h
  continue-Keeps (err e) f w k h = h

  pub Keeps->>= :
      {A B : Type 0} (m : M A) (f : A → M B)
      → Keeps P m
      → ((a : A) → Keeps P (f a))
      → Keeps P (World.◌>>=◌ m f)
  unfolding World.◌>>=◌
  Keeps->>= m f km kf = record {
    at = λ w h. let (r, w') = m w in continue-Keeps r f w' kf (km.at w h);
  }

  go_on-Keeps :
      {A B : Type 0} (r : Flow A) (f : A → Step B) (w : World)
      → ((a : A) → Keeps P (f a))
      → P w
      → P (go_on r f w).1
  go_on-Keeps (next a) f w k h = (k a).at w h
  go_on-Keeps (exit r) f w k h = h

  pub Keeps-step->>= :
      {A B : Type 0} (m : Step A) (f : A → Step B)
      → Keeps P m
      → ((a : A) → Keeps P (f a))
      → Keeps P (Check.◌>>=◌ m f)
  unfolding Check.◌>>=◌
  Keeps-step->>= m f km kf = record {
    at = λ w h. let (r, w') = m w in go_on-Keeps r f w' kf (km.at w h);
  }

pub ruleset keeps_rules = (
  Keeps-pure, Keeps-fail, Keeps-next_with, Keeps-exit_with, Keeps-requeue_if, Keeps-get_pods,
  Keeps-lift, Keeps-if, Keeps->>=, Keeps-step->>=,
)
