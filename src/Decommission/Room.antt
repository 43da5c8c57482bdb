-- ===== src/Decommission/Room.antt =====
-- What EnsurePodsCanAbsorbDecommData has found where it finds no fault.
use text.Mathlib.TextEquality.{eq_iff}
use cass_operator.Prelude.{
  ℕ, String, ◌+◌, ◌≤◌, ◌≡◌, refl, List, [], ◌∷◌, Option, none, some, arith, All, ◌⊎◌, inl, inr,
  ◌==◌, ltb, string_eq, Bool-cases,
}
use cass_operator.Result.{Outcome, ok, err}
use cass_operator.Passing.{◌>>=◌, pure, fail}
use cass_operator.Pods.{Pod}
use cass_operator.Decommission.World.{Settings, State, Call, get, put, perform}
use cass_operator.Decommission.Capacity.{used_at, read_capacity, can_absorb, refuse_scale_down}

-- The pod is the one that leaves, or has room for the data of that one beside its own.
abbrev pub HasRoom :
    Settings → (calls : List Call) → (used : List (String × ℕ)) → (leaving : Pod) → Pod → Type 0
HasRoom cfg calls used leaving p =
    (p.name ≡ leaving.name)
    ⊎ ((total : ℕ) × (cfg.capacity calls p ≡ ok (some total))
        × (used_at p.name used + used_at leaving.name used ≤ total))

module _ (cfg : Settings) (used : List (String × ℕ)) (leaving : Pod) where
  refuse_scale_down-fails : (s : State) → (refuse_scale_down cfg s).0 ≡ ok tt → ⊥
  unfolding refuse_scale_down get put ◌>>=◌ pure fail perform
  refuse_scale_down-fails s e = ground arith

  read_capacity-cases :
      (p : Pod) (s : State)
      → ((total : ℕ) × (cfg.capacity s.trace p ≡ ok (some total))
          × (read_capacity cfg p s ≡ (ok total, s)))
        ⊎ ((e : String) × (read_capacity cfg p s ≡ (err e, s)))
  unfolding read_capacity
  read_capacity-cases p s = cases (cfg.capacity s.trace p) refl
    where
      cases :
          (r : Outcome (Option ℕ))
          → cfg.capacity s.trace p ≡ r
          → ((total : ℕ) × (cfg.capacity s.trace p ≡ ok (some total))
              × (read_capacity cfg p s ≡ (ok total, s)))
            ⊎ ((e : String) × (read_capacity cfg p s ≡ (err e, s)))
      cases (ok (some total)) c = inl (total, c, rw c refl)
      cases (ok none) c = inr ("could not determine storage capacity", rw c refl)
      cases (err e) c = inr (e, rw c refl)

  -- If EnsurePodsCanAbsorbDecommData finds no fault, each pod has room, and nothing was changed.
  pub can_absorb-HasRoom :
      (ps : List Pod) (s : State)
      → (can_absorb cfg used leaving ps s).0 ≡ ok tt
      → ((can_absorb cfg used leaving ps s).1 ≡ s) × All (HasRoom cfg s.trace used leaving) ps
  unfolding can_absorb ◌>>=◌ pure
  can_absorb-HasRoom [] s e = (refl, tt)
  can_absorb-HasRoom (p ∷ ps) s e = elim (Bool-cases (p.name == leaving.name)) [
    | inl same ↦
        let e' = rw same at e in
        let (kept, rooms) = can_absorb-HasRoom ps s e' in
        rw same (kept, (inl ((eq_iff p.name leaving.name).0 same), rooms))
    | inr other ↦
        let e' = rw other at e in
        rw other (elim (read_capacity-cases p s) [
          | inr (x, fails) ↦ absurd (let e2 = rw fails at e' in cc)
          | inl (total, c, reads) ↦
              let e2 = rw reads at e' in
              rw reads
                (elim (Bool-cases (ltb total (used_at p.name used + used_at leaving.name used))) [
                  | inl few ↦ absurd (refuse_scale_down-fails s (rw few at e2))
                  | inr enough ↦
                      let e3 = rw enough at e2 in
                      let (kept, rooms) = can_absorb-HasRoom ps s e3 in
                      rw enough (kept, (inr (total, c, ground arith), rooms))
                ])
        ])
  ]
