-- ===== src/Watches/Lists.antt =====
-- The string lists of operator/pkg/utils/utilities.go.
use cass_operator.Prelude.{
  ℕ, zero, suc, ◌+◌, ◌≡◌, refl, true, false, ◌&&◌, ◌||◌, List, [], ◌∷◌, ◌++◌, Option, none, some,
  arith, ◌==◌, if◌then◌else◌, contains, count_if, Eq,
}

module _ {A : Type 0} ⦃e : Eq A⦄ where
  -- IndexOfString; `none` is -1.
  unfoldable pub index_of_string : List A → A → Option ℕ
  index_of_string [] v = none
  index_of_string (w ∷ ws) v =
      let rest = index_of_string ws v in
      if w == v then some 0 else elim rest [ none ↦ none | some i ↦ some (suc i) ]

  -- The elements behind the index move up by one.
  abbrev pub remove_at : ℕ → List A → List A
  remove_at i [] = []
  remove_at zero (w ∷ ws) = ws
  remove_at (suc i) (w ∷ ws) = w ∷ remove_at i ws

  unfoldable pub remove_value_from_string_array : List A → A → List A
  remove_value_from_string_array ws v = elim (index_of_string ws v) [
    | none ↦ ws
    | some i ↦ remove_at i ws
  ]

  unfoldable pub append_values_to_string_array_if_not_present : List A → (values : List A) → List A
  append_values_to_string_array_if_not_present ws [] = ws
  append_values_to_string_array_if_not_present ws (v ∷ vs) =
      append_values_to_string_array_if_not_present
        (elim (index_of_string ws v) [ none ↦ ws ++ (v ∷ []) | some i ↦ ws ]) vs

  pub index_of_string-contains :
      (ws : List A) (v : A)
      → contains v ws ≡ elim (index_of_string ws v) [ none ↦ false | some i ↦ true ]
  unfolding index_of_string
  index_of_string-contains [] v = refl
  index_of_string-contains (w ∷ ws) v =
      ground (arith, index_of_string-contains ws v, e.same_iff w v)

  abbrev pub occurrences : A → List A → ℕ
  occurrences v ws = count_if (λ w. w == v) ws

  -- Removing a value takes its first occurrence, and touches no other value.
  pub occurrences-remove_value :
      (ws : List A) (v u : A)
      → occurrences u ws
        ≡ occurrences u (remove_value_from_string_array ws v)
          + (if v == u && contains v ws then 1 else 0)
  unfolding remove_value_from_string_array index_of_string
  occurrences-remove_value [] v u = ground arith
  occurrences-remove_value (w ∷ ws) v u = ground (
    arith,
    occurrences-remove_value ws v u,
    index_of_string-contains ws v,
    e.same_iff w v,
    e.same_iff v u,
    e.same_iff w u,
  )

  contains-concat :
      (ws : List A) (v u : A) → contains u (ws ++ (v ∷ [])) ≡ (contains u ws || v == u)
  contains-concat [] v u = ground arith
  contains-concat (w ∷ ws) v u = ground (arith, contains-concat ws v u)

  pub contains-append_value :
      (ws : List A) (v u : A)
      → contains u (append_values_to_string_array_if_not_present ws (v ∷ []))
        ≡ (contains u ws || v == u)
  unfolding append_values_to_string_array_if_not_present
  contains-append_value ws v u =
      ground (arith, contains-concat ws v u, index_of_string-contains ws v, e.same_iff v u)
