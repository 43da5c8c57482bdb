-- ===== src/Conditions/Laws.antt =====
-- What storing a condition changes, and what the stages leave in a datacenter's status.
use cass_operator.Prelude.{
  ℕ, ◌≡◌, refl, Bool, List, [], ◌∷◌, ◌++◌, none, some, arith, ◌==◌, if◌then◌else◌,
}
use cass_operator.Datacenter.{Condition, ConditionType, ConditionStatus}
use cass_operator.Conditions.{
  type_eq, status_eq, type_beq_iff, status_beq_iff, get_condition, get_condition_status, overwrite,
  store_condition, set_condition, set_status, new_datacenter_condition,
}

get_condition-overwrite :
    (t : ConditionType) (c : Condition) (cs : List Condition)
    → get_condition t (overwrite c cs).1
      ≡ (if c.type == t then (if (overwrite c cs).0 then some c else none) else get_condition t cs)
unfolding get_condition overwrite
get_condition-overwrite t c [] = ground arith
get_condition-overwrite t c (d ∷ ds) = ground (
  arith,
  get_condition-overwrite t c ds,
  type_beq_iff d.type c.type,
  type_beq_iff c.type t,
  type_beq_iff d.type t,
)

get_condition-append :
    (t : ConditionType) (c : Condition) (cs : List Condition)
    → get_condition t (cs ++ (c ∷ []))
      ≡ elim (get_condition t cs) [ none ↦ if c.type == t then some c else none | some d ↦ some d ]
unfolding get_condition
get_condition-append t c [] = refl
get_condition-append t c (d ∷ ds) = ground (arith, get_condition-append t c ds)

-- The status keeps the stored condition as the one of its type, and every other type's condition.
pub get_condition-store_condition :
    (t : ConditionType) (c : Condition) (cs : List Condition)
    → get_condition t (store_condition c cs) ≡ (if c.type == t then some c else get_condition t cs)
unfolding store_condition
get_condition-store_condition t c cs =
    ground (arith, get_condition-overwrite t c cs, get_condition-append t c (overwrite c cs).1)

pub get_condition_status-get_condition :
    (t : ConditionType) (cs : List Condition)
    → get_condition_status t cs
      ≡ elim (get_condition t cs) [ none ↦ ConditionStatus.status_unknown | some c ↦ c.status ]
unfolding get_condition get_condition_status
get_condition_status-get_condition t [] = refl
get_condition_status-get_condition t (c ∷ cs) =
    ground (arith, get_condition_status-get_condition t cs)

get_condition_status-store_condition :
    (t : ConditionType) (c : Condition) (cs : List Condition)
    → get_condition_status t (store_condition c cs)
      ≡ (if c.type == t then c.status else get_condition_status t cs)
get_condition_status-store_condition t c cs = ground (
  arith,
  get_condition-store_condition t c cs,
  get_condition_status-get_condition t cs,
  get_condition_status-get_condition t (store_condition c cs),
)

-- A status that is set is the one then read, and no other type's is changed.
pub get_condition_status-set_status :
    (now : ℕ) (t u : ConditionType) (s : ConditionStatus) (done : Bool × List Condition)
    → get_condition_status t (set_status now u s done).1
      ≡ (if u == t then s else get_condition_status t done.1)
unfolding set_status set_condition new_datacenter_condition
get_condition_status-set_status now t u s (updated, cs) =
    let c = record (new_datacenter_condition u s) { last_transition_time = now } in
    ground (
      arith,
      get_condition_status-store_condition t c cs,
      type_beq_iff u t,
      status_beq_iff (get_condition_status u cs) s,
    )

-- Setting the status that is there changes nothing.
pub set_status-same :
    (now : ℕ) (t : ConditionType) (s : ConditionStatus) (done : Bool × List Condition)
    → get_condition_status t done.1 ≡ s
    → set_status now t s done ≡ done
unfolding set_status set_condition new_datacenter_condition
set_status-same now t s (updated, cs) same =
    ground (arith, status_beq_iff (get_condition_status t cs) s)
