-- ===== src/StringSet.antt =====
-- The sets of names of operator/pkg/utils/k8s_utils.go, Go's `map[string]bool`.
use text.Mathlib.TextEquality.{eq_iff}
use cass_operator.Prelude.{
  String, ◌≡◌, refl, Bool, true, false, not, ◌&&◌, ◌||◌, List, [], ◌∷◌, none, some, arith, lookup,
  insert, lookup-insert, contains, ◌==◌, if◌then◌else◌, string_eq, Bool-cases, inl, inr,
}

abbrev pub StringSet : Type 0
StringSet = List (String × Bool)

-- `set[k]`
abbrev pub has : StringSet → String → Bool
has s k = elim (lookup k s) [ none ↦ false | some v ↦ v ]

abbrev pub keys : StringSet → List String
keys [] = []
keys ((k, v) ∷ s) = k ∷ keys s

-- `for k := range keys { set[k] = true }`
unfoldable pub add_all : List String → StringSet → StringSet
add_all [] s = s
add_all (k ∷ ks) s = add_all ks (insert k true s)

-- The sets of names of pods and nodes are built so.
unfoldable pub of_names : List String → StringSet
unfolding add_all
of_names ks = add_all ks []

unfoldable pub union_string_set : StringSet → StringSet → StringSet
unfolding add_all
union_string_set a b = add_all (keys b) (add_all (keys a) [])

subtracted : StringSet → StringSet → StringSet → StringSet
subtracted [] b result = result
subtracted ((k, v) ∷ a) b result = subtracted a b (if has b k then result else insert k true result)

unfoldable pub subtract_string_set : StringSet → StringSet → StringSet
unfolding subtracted
subtract_string_set a b = subtracted a b []

intersected : StringSet → StringSet → StringSet → StringSet
intersected [] b result = result
intersected ((k, v) ∷ a) b result =
    intersected a b (if v && has b k then insert k true result else result)

unfoldable pub intersection_string_set : StringSet → StringSet → StringSet
unfolding intersected
intersection_string_set a b = intersected a b []

-- What the sets hold.

has-insert : (k j : String) (s : StringSet) → has (insert k true s) j ≡ (k == j || has s j)
has-insert k j s = ground (arith, lookup-insert k j true s)

pub has-add_all :
    (ks : List String) (s : StringSet) (j : String)
    → has (add_all ks s) j ≡ (contains j ks || has s j)
unfolding add_all
has-add_all [] s j = refl
has-add_all (k ∷ ks) s j = ground (arith, has-add_all ks (insert k true s) j, has-insert k j s)

pub has-of_names : (ks : List String) (j : String) → has (of_names ks) j ≡ contains j ks
unfolding of_names
has-of_names ks j = ground (arith, has-add_all ks [] j)

-- A name is in the union of two sets exactly when it is a key of one.
pub has-union_string_set :
    (a b : StringSet) (j : String)
    → has (union_string_set a b) j ≡ (contains j (keys b) || contains j (keys a))
unfolding union_string_set
has-union_string_set a b j =
    ground (arith, has-add_all (keys b) (add_all (keys a) []) j, has-add_all (keys a) [] j)

has-subtracted :
    (a b result : StringSet) (j : String)
    → has (subtracted a b result) j ≡ ((contains j (keys a) && not (has b j)) || has result j)
unfolding subtracted
has-subtracted [] b result j = refl
has-subtracted ((k, v) ∷ a) b result j = ground (
  arith,
  has-subtracted a b (if has b k then result else insert k true result) j,
  has-insert k j result,
  eq_iff k j,
)

-- A name is in the difference of two sets exactly when it is a key of the first and not in the second.
pub has-subtract_string_set :
    (a b : StringSet) (j : String)
    → has (subtract_string_set a b) j ≡ (contains j (keys a) && not (has b j))
unfolding subtract_string_set
has-subtract_string_set a b j = ground (arith, has-subtracted a b [] j)

abbrev pub true_keys : StringSet → List String
true_keys [] = []
true_keys ((k, v) ∷ s) = let rest = true_keys s in if v then k ∷ rest else rest

has-intersected :
    (a b result : StringSet) (j : String)
    → has (intersected a b result) j ≡ ((contains j (true_keys a) && has b j) || has result j)
unfolding intersected
has-intersected [] b result j = refl
has-intersected ((k, true) ∷ a) b result j = ground (
  arith,
  has-intersected a b (if has b k then insert k true result else result) j,
  has-insert k j result,
  eq_iff k j,
)
has-intersected ((k, false) ∷ a) b result j = has-intersected a b result j

-- A name is in the intersection of two sets exactly when it is a key with `true` of the first, and in
-- the second.
pub has-intersection_string_set :
    (a b : StringSet) (j : String)
    → has (intersection_string_set a b) j ≡ (contains j (true_keys a) && has b j)
unfolding intersection_string_set
has-intersection_string_set a b j = ground (arith, has-intersected a b [] j)

-- The sets that the program builds hold no `false`.
abbrev pub IsPlain : StringSet → Type 0
IsPlain [] = Unit
IsPlain ((k, v) ∷ s) = (v ≡ true) × IsPlain s

insert-IsPlain : (k : String) (s : StringSet) → IsPlain s → IsPlain (insert k true s)
insert-IsPlain k [] h = (refl, tt)
insert-IsPlain k ((j, v) ∷ s) h = elim (Bool-cases (j == k)) [
  | inl hit ↦ rw hit (refl, h.1)
  | inr miss ↦ rw miss (h.0, insert-IsPlain k s h.1)
]

pub add_all-IsPlain : (ks : List String) (s : StringSet) → IsPlain s → IsPlain (add_all ks s)
unfolding add_all
add_all-IsPlain [] s h = h
add_all-IsPlain (k ∷ ks) s h = add_all-IsPlain ks (insert k true s) (insert-IsPlain k s h)

pub of_names-IsPlain : (ks : List String) → IsPlain (of_names ks)
unfolding of_names
of_names-IsPlain ks = add_all-IsPlain ks [] tt

pub union_string_set-IsPlain : (a b : StringSet) → IsPlain (union_string_set a b)
unfolding union_string_set
union_string_set-IsPlain a b =
    add_all-IsPlain (keys b) (add_all (keys a) []) (add_all-IsPlain (keys a) [] tt)

subtracted-IsPlain : (a b result : StringSet) → IsPlain result → IsPlain (subtracted a b result)
unfolding subtracted
subtracted-IsPlain [] b result h = h
subtracted-IsPlain ((k, v) ∷ a) b result h = elim (Bool-cases (has b k)) [
  | inl old ↦ rw old (subtracted-IsPlain a b result h)
  | inr new ↦ rw new (subtracted-IsPlain a b (insert k true result) (insert-IsPlain k result h))
]

pub subtract_string_set-IsPlain : (a b : StringSet) → IsPlain (subtract_string_set a b)
unfolding subtract_string_set
subtract_string_set-IsPlain a b = subtracted-IsPlain a b [] tt

-- Of such a set the keys are the members.
pub contains-keys : (s : StringSet) (j : String) → IsPlain s → contains j (keys s) ≡ has s j
contains-keys [] j h = refl
contains-keys ((k, v) ∷ s) j h = ground (arith, contains-keys s j h.1)

pub contains-true_keys :
    (s : StringSet) (j : String) → IsPlain s → contains j (true_keys s) ≡ has s j
contains-true_keys [] j h = refl
contains-true_keys ((k, true) ∷ s) j h = ground (arith, contains-true_keys s j h.1)
contains-true_keys ((k, false) ∷ s) j h = cc
