-- ===== src/Construct/Places.antt =====
-- The last container of a name in a list, after one was put back or changed.
use cass_operator.Prelude.{
  String, ◌≡◌, refl, ◌∙◌, Bool, true, false, List, [], ◌∷◌, ◌++◌, Option, none, some, arith, ◌==◌,
  ==-refl, if◌then◌else◌, string_eq, Bool-cases, Option-cases, inl, inr,
}
use cass_operator.Templates.{Container}
use cass_operator.Construct.Security.{change_last}
use cass_operator.Construct.Containers.{last_named, put_last?, put_last}

-- Which container is the last of its name, after one was put back or changed.
last_named-append :
    (name : String) (cs : List Container) (c : Container)
    → last_named name (cs ++ (c ∷ [])) ≡ (if c.name == name then some c else last_named name cs)
unfolding last_named
last_named-append name [] c = ground arith
last_named-append name (d ∷ ds) c = ground (arith, last_named-append name ds c)

put_last?-none :
    (new : Container) (cs : List Container)
    → put_last? new cs ≡ none
    → last_named new.name cs ≡ none
unfolding put_last? last_named
put_last?-none new [] h = refl
put_last?-none new (c ∷ cs) h = ground (arith, put_last?-none new cs)

abbrev Puts : Container → Option (List Container) → Type 0
Puts new none = Unit
Puts new (some cs) = last_named new.name cs ≡ some new

last_named-put_last? : (new : Container) (cs : List Container) → Puts new (put_last? new cs)
unfolding put_last? last_named
last_named-put_last? new [] = tt
last_named-put_last? new (c ∷ cs) = elim (Option-cases (put_last? new cs)) [
  | inr (ds, e) ↦
      let h : last_named new.name ds ≡ some new = rw e at (last_named-put_last? new cs) in
      rw e (rw h refl)
  | inl e ↦ elim (Bool-cases (c.name == new.name)) [
    | inl here ↦ rw (e, here, put_last?-none new cs e, ==-refl new.name) refl
    | inr no_name ↦ rw (e, no_name) tt
  ]
]

pub last_named-put_last :
    (new : Container) (cs : List Container) → last_named new.name (put_last true new cs) ≡ some new
unfolding put_last
last_named-put_last new cs = elim (Option-cases (put_last? new cs)) [
  | inr (ds, e) ↦
      let put : last_named new.name ds ≡ some new = rw e at (last_named-put_last? new cs) in
      rw (e, put_last) put
  | inl e ↦ rw (e, put_last) (last_named-append new.name cs new ∙ rw (==-refl new.name) refl)
]

-- A container of another name
last_named-put_last?_other :
    (name : String) (new : Container) (cs ds : List Container)
    → (new.name == name) ≡ false
    → put_last? new cs ≡ some ds
    → last_named name ds ≡ last_named name cs
unfolding put_last? last_named
last_named-put_last?_other name new [] ds h e = absurd (cc)
last_named-put_last?_other name new (c ∷ cs) ds h e = elim (Option-cases (put_last? new cs)) [
  | inr (ds', e') ↦
      let ih = last_named-put_last?_other name new cs ds' h e' in
      let whole : c ∷ ds' ≡ ds = ground arith in rw (← whole, ih) refl
  | inl e' ↦ elim (Bool-cases (c.name == new.name)) [
    | inl here ↦
        let whole : new ∷ cs ≡ ds = ground arith in
        let same = (string_eq.same_iff c.name new.name).0 here in
        let off : (c.name == name) ≡ false = rw same h in rw (← whole) (ground arith)
    | inr no_name ↦ absurd (ground arith)
  ]
]

pub last_named-put_last_other :
    (name : String) (wanted : Bool) (new : Container) (cs : List Container)
    → (new.name == name) ≡ false
    → last_named name (put_last wanted new cs) ≡ last_named name cs
unfolding put_last
last_named-put_last_other name wanted new cs h = elim (Option-cases (put_last? new cs)) [
  | inr (ds, e) ↦ rw (e, put_last) (last_named-put_last?_other name new cs ds h e)
  | inl e ↦ rw (e, put_last) (absent wanted)
]
  where
    absent :
        (wanted : Bool)
        → last_named name (if wanted then cs ++ (new ∷ []) else cs) ≡ last_named name cs
    absent true = last_named-append name cs new ∙ rw h refl
    absent false = refl

-- The container of the name is changed where it stands.
abbrev pub Changes :
    String → (Container → Container) → List Container → Option (List Container) → Type 0
Changes name change cs none = last_named name cs ≡ none
Changes name change cs (some ds) =
    (c : Container) × (last_named name cs ≡ some c) × (last_named name ds ≡ some (change c))

module _ (name : String) (change : Container → Container)
    (same : (c : Container) → (change c).name ≡ c.name) where
  pub last_named-change_last :
      (cs : List Container) → Changes name change cs (change_last name change cs)
  unfolding change_last last_named
  last_named-change_last [] = refl
  last_named-change_last (b ∷ bs) = elim (Option-cases (change_last name change bs)) [
    | inr (ds, e) ↦
        let ih : Changes name change bs (some ds) = rw e at (last_named-change_last bs) in
        rw e (ih.0, rw ih.1 refl, rw ih.2 refl)
    | inl e ↦
        let ih : last_named name bs ≡ none = rw e at (last_named-change_last bs) in
        elim (Bool-cases (b.name == name)) [
          | inl here ↦
              let there : ((change b).name == name) ≡ true = rw (same b) here in
              rw (e, here) (b, rw (ih, here) refl, rw (ih, there) refl)
          | inr no_name ↦ rw (e, no_name) (rw (ih, no_name) refl)
        ]
  ]
