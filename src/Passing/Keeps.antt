-- ===== src/Passing/Keeps.antt =====
-- What holds of a state when an operation ends, for each way it may end; and predicates that an operation
-- keeps, whatever it answers, with one rule for each way to build an operation.
use cass_operator.Prelude.{String, ◌≡◌, inl, inr, Bool-cases, Bool, true, false, if◌then◌else◌}
use cass_operator.Result.{Outcome, ok, err}
use cass_operator.Passing.{M, pure, fail, continue, lift_outcome, ◌>>=◌}

pub record Ends {S A : Type 0} (P : S → Type 0) (m : M S A) (Q : Outcome A → S → Type 0)
    : Type 0 where
  pub at : (s : S) → P s → Q (m s).0 (m s).1

continue-ends :
    {S A B : Type 0} (R : Outcome A → S → Type 0) (Q : Outcome B → S → Type 0) (f : A → M S B)
    (r : Outcome A) (s : S)
    → ((a : A) → Ends (R (ok a)) (f a) Q)
    → ((e : String) (s : S) → R (err e) s → Q (err e) s)
    → R r s
    → Q (continue r f s).0 (continue r f s).1
continue-ends R Q f (ok a) s rest failed h = (rest a).at s h
continue-ends R Q f (err e) s rest failed h = failed e s h

-- Between two operations stands what the first one ends with.
pub Ends->>= :
    {S A B : Type 0} (P : S → Type 0) (R : Outcome A → S → Type 0) (Q : Outcome B → S → Type 0)
    (m : M S A) (f : A → M S B)
    → Ends P m R
    → ((a : A) → Ends (R (ok a)) (f a) Q)
    → ((e : String) (s : S) → R (err e) s → Q (err e) s)
    → Ends P (m >>= f) Q
unfolding ◌>>=◌
Ends->>= P R Q m f first rest failed = record {
  at = λ s h. let (r, s') = m s in continue-ends R Q f r s' rest failed (first.at s h);
}

pub Ends-weaken :
    {S A : Type 0} (P P' : S → Type 0) (Q : Outcome A → S → Type 0) (m : M S A)
    → ((s : S) → P' s → P s)
    → Ends P m Q
    → Ends P' m Q
Ends-weaken P P' Q m weaker ends = record { at = λ s h. ends.at s (weaker s h) }

pub Ends-if :
    {S A : Type 0} (P : S → Type 0) (Q : Outcome A → S → Type 0) (b : Bool) (m n : M S A)
    → (b ≡ true → Ends P m Q)
    → (b ≡ false → Ends P n Q)
    → Ends P (if b then m else n) Q
Ends-if P Q b m n on_true on_false = elim (Bool-cases b) [
  | inl t ↦ rw t (on_true t)
  | inr f ↦ rw f (on_false f)
]

pub record Keeps {S A : Type 0} (P : S → Type 0) (m : M S A) : Type 0 where
  pub at : (s : S) → P s → P (m s).1

module _ {S : Type 0} {P : S → Type 0} where
  pub Keeps-Ends : {A : Type 0} (m : M S A) → Keeps P m → Ends P m (λ r. P)
  Keeps-Ends m k = record { at = k.at }

  pub Keeps-pure : {A : Type 0} (a : A) → Keeps P (pure a)
  unfolding pure
  Keeps-pure a = record { at = λ s h. h }

  pub Keeps-fail : (A : Type 0) (e : String) → Keeps P (fail {A = A} e)
  unfolding fail
  Keeps-fail A e = record { at = λ s h. h }

  pub Keeps-if :
      {A : Type 0} (b : Bool) (m n : M S A) → Keeps P m → Keeps P n → Keeps P (if b then m else n)
  Keeps-if true m n km kn = km
  Keeps-if false m n km kn = kn

  pub Keeps-lift_outcome : {A : Type 0} (o : Outcome A) → Keeps P (lift_outcome o)
  unfolding lift_outcome
  Keeps-lift_outcome (ok a) = Keeps-pure a
  Keeps-lift_outcome (err e) = Keeps-fail _ e

  continue-Keeps :
      {A B : Type 0} (f : A → M S B) (r : Outcome A) (s : S)
      → ((a : A) → Keeps P (f a))
      → P s
      → P (continue r f s).1
  continue-Keeps f (ok a) s k h = (k a).at s h
  continue-Keeps f (err e) s k h = h

  pub Keeps->>= :
      {A B : Type 0} (m : M S A) (f : A → M S B)
      → Keeps P m
      → ((a : A) → Keeps P (f a))
      → Keeps P (m >>= f)
  unfolding ◌>>=◌
  Keeps->>= m f km kf = record {
    at = λ s h. let (r, s') = m s in continue-Keeps f r s' kf (km.at s h);
  }

pub ruleset keeps_rules = (Keeps-pure, Keeps-fail, Keeps-lift_outcome, Keeps-if, Keeps->>=)
