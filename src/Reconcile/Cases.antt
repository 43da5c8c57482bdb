-- ===== src/Reconcile/Cases.antt =====
-- Rules for operations that branch on an answer, an option or a list.
use cass_operator.Prelude.{◌≡◌, refl, Option, none, some, List, [], ◌∷◌, String}
use cass_operator.Result.{Outcome}
use cass_operator.Passing.Keeps.{Ends, Keeps}
use cass_operator.Reconcile.World.{State, M, Answer, found, not_found, failed}

module _ {A B : Type 0} (P : State → Type 0) where
  pub Ends-answer :
      (Q : Outcome B → State → Type 0) (a : Answer A) (f : A → M B) (m : M B) (g : String → M B)
      → ((x : A) → a ≡ found x → Ends P (f x) Q)
      → (a ≡ not_found → Ends P m Q)
      → ((e : String) → a ≡ failed e → Ends P (g e) Q)
      → Ends P (elim a [ found x ↦ f x | not_found ↦ m | failed e ↦ g e ]) Q
  Ends-answer Q (found x) f m g on_found on_missing on_failed = on_found x refl
  Ends-answer Q not_found f m g on_found on_missing on_failed = on_missing refl
  Ends-answer Q (failed e) f m g on_found on_missing on_failed = on_failed e refl

  pub Keeps-option :
      (o : Option A) (m : M B) (f : A → M B)
      → Keeps P m
      → ((a : A) → Keeps P (f a))
      → Keeps P (elim o [ none ↦ m | some a ↦ f a ])
  Keeps-option none m f km kf = km
  Keeps-option (some a) m f km kf = kf a

  pub Keeps-list :
      (l : List A) (m : M B) (f : A → List A → M B)
      → Keeps P m
      → ((a : A) (t : List A) → Keeps P (f a t))
      → Keeps P (elim l [ [] ↦ m | a ∷ t ↦ f a t ])
  Keeps-list [] m f km kf = km
  Keeps-list (a ∷ t) m f km kf = kf a t
