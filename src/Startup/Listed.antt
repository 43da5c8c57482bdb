-- ===== src/Startup/Listed.antt =====
-- What holds of every pod holds of the pods that a pass picks from them.
use cass_operator.Prelude.{
  ◌≡◌, Bool, true, List, [], ◌∷◌, filter, none, some, arith, All, string_eq, inl, inr, Bool-cases,
}
use cass_operator.Pods.{Pod}
use cass_operator.Startup.World.{Member, pods_of}
use cass_operator.Startup.Ops.{first_pod}
use cass_operator.Startup.Seeds.{insert_by_name, sort_by_name}

module _ (P : Pod → Type 0) where
  pub All-first_pod :
      (q : Pod → Bool) (ps : List Pod)
      → All P ps
      → elim (first_pod q ps) as (λ x. Type 0) [ none ↦ Unit | some p ↦ P p × (q p ≡ true) ]
  unfolding first_pod
  All-first_pod q [] h = tt
  All-first_pod q (p ∷ ps) h = elim (Bool-cases (q p)) [
    | inl hit ↦ rw hit (h.0, hit)
    | inr miss ↦ rw miss (All-first_pod q ps h.1)
  ]

  pub All-filter : (q : Pod → Bool) (ps : List Pod) → All P ps → All P (filter q ps)
  All-filter q [] h = tt
  All-filter q (p ∷ ps) h = elim (Bool-cases (q p)) [
    | inl hit ↦ rw hit (h.0, All-filter q ps h.1)
    | inr miss ↦ rw miss (All-filter q ps h.1)
  ]

  pub All-dc : (ms : List Member) → All P (pods_of ms) → All P (pods_of (filter (λ m. m.in_dc) ms))
  All-dc [] h = tt
  All-dc (m ∷ ms) h = elim (Bool-cases m.in_dc) [
    | inl hit ↦ simp hit (h.0, All-dc ms h.1)
    | inr miss ↦ simp miss (All-dc ms h.1)
  ]

  pub All-insert_by_name : (p : Pod) (ps : List Pod) → P p → All P ps → All P (insert_by_name p ps)
  unfolding insert_by_name
  All-insert_by_name p [] h k = (h, tt)
  All-insert_by_name p (q ∷ qs) h k = ground (arith, All-insert_by_name p qs h k.1)

  pub All-sort_by_name : (ps : List Pod) → All P ps → All P (sort_by_name ps)
  unfolding sort_by_name
  All-sort_by_name [] h = tt
  All-sort_by_name (p ∷ ps) h = All-insert_by_name p (sort_by_name ps) h.0 (All-sort_by_name ps h.1)
