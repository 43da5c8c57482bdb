-- ===== src/Labels/Laws.antt =====
-- What merging labels into a resource's leaves there.
use cass_operator.Prelude.{
  String, ◌≡◌, refl, ◌∙◌, sym, ap, true, false, [], ◌∷◌, Option, none, some, arith, ◌==◌, lookup,
  insert, lookup-insert, if◌then◌else◌, string_eq, Bool-cases, Option-cases, inl, inr,
}
use cass_operator.Datacenter.{Datacenter}
use cass_operator.Pods.{rack_label}
use cass_operator.Pods.Filters.{map_contains}
use cass_operator.Labels.{
  Labels, merge_map, maps_equal, merge_in_labels_if_different,
  should_update_labels_for_rack_resource, add_managed_by_label, get_rack_labels,
  get_datacenter_labels, get_cluster_labels, managed_by_label, managed_by_label_value,
  datacenter_label, cluster_label,
}

-- A map's keys are distinct.
abbrev pub IsMap : Labels → Type 0
IsMap [] = Unit
IsMap ((k, v) ∷ m) = (lookup k m ≡ none) × IsMap m

insert-none :
    (k j v : String) (m : Labels)
    → (k == j) ≡ false
    → lookup j m ≡ none
    → lookup j (insert k v m) ≡ none
insert-none k j v m h e = ground (arith, lookup-insert k j v m)

pub insert-IsMap : (k v : String) (m : Labels) → IsMap m → IsMap (insert k v m)
insert-IsMap k v [] h = (refl, tt)
insert-IsMap k v ((j, w) ∷ m) h = elim (Bool-cases (j == k)) [
  | inl e ↦ let same = (string_eq.same_iff j k).0 e in rw e (rw (← same) h.0, h.1)
  | inr e ↦ rw e (
    insert-none k j v m (ground (arith, string_eq.same_iff j k, string_eq.same_iff k j)) h.0,
    insert-IsMap k v m h.1,
  )
]

pub merge_map-IsMap : (a b : Labels) → IsMap a → IsMap (merge_map a b)
unfolding merge_map
merge_map-IsMap a [] h = h
merge_map-IsMap a ((k, v) ∷ b) h = merge_map-IsMap (insert k v a) b (insert-IsMap k v a h)

-- The source wins.
pub lookup-merge_map :
    (a b : Labels) (j : String)
    → IsMap b
    → lookup j (merge_map a b) ≡ elim (lookup j b) [ none ↦ lookup j a | some v ↦ some v ]
unfolding merge_map
lookup-merge_map a [] j h = refl
lookup-merge_map a ((k, v) ∷ b) j h =
    ground (
      arith,
      lookup-merge_map (insert k v a) b j h.1,
      lookup-insert k j v a,
      string_eq.same_iff k j,
    )

-- One map has all entries of the other.
contains-weaken :
    (k v : String) (a b : Labels)
    → lookup k b ≡ none
    → map_contains a b ≡ true
    → map_contains ((k, v) ∷ a) b ≡ true
unfolding map_contains
contains-weaken k v a [] n h = refl
contains-weaken k v a ((j, w) ∷ b) n h =
    ground (arith, string_eq.same_iff k j, string_eq.same_iff j k, contains-weaken k v a b)

map_contains_refl : (a : Labels) → IsMap a → map_contains a a ≡ true
unfolding map_contains
map_contains_refl [] h = refl
map_contains_refl ((k, v) ∷ a) h = ground (
  arith,
  string_eq.same_iff k k,
  string_eq.same_iff v v,
  contains-weaken k v a a h.0 (map_contains_refl a h.1),
)

pub lookup-map_contains :
    (a b : Labels)
    → ((k v : String) → lookup k b ≡ some v → lookup k a ≡ some v)
    → IsMap b
    → map_contains a b ≡ true
unfolding map_contains
lookup-map_contains a [] h m = refl
lookup-map_contains a ((k, v) ∷ b) h m =
    let here = h k v (ground (arith, string_eq.same_iff k k)) in
    let later =
      lookup-map_contains a b (λ j w e. h j w (ground (arith, string_eq.same_iff k j, m.0))) m.1 in
    ground (arith, string_eq.same_iff v v)

map_contains-lookup :
    (a b : Labels) (k v : String)
    → map_contains a b ≡ true
    → lookup k b ≡ some v
    → lookup k a ≡ some v
unfolding map_contains
map_contains-lookup a [] k v h e = absurd (cc)
map_contains-lookup a ((j, w) ∷ b) k v h e = elim (Option-cases (lookup j a)) [
  | inl missing ↦ let bad : false ≡ true = rw (missing, map_contains) at h in absurd (cc bad)
  | inr (u, there) ↦
      let h' : (if u == w then map_contains a b else false) ≡ true =
        rw (there, map_contains) at h in
      let same : (u == w) ≡ true = ground arith in
      let rest : map_contains a b ≡ true = ground arith in
      elim (Bool-cases (j == k)) [
        | inl here ↦
            let e' : some w ≡ some v = rw here at e in
            rw (← (string_eq.same_iff j k).0 here)
              (there ∙ ap some ((string_eq.same_iff u w).0 same) ∙ e')
        | inr on ↦ let e' : lookup k b ≡ some v = rw on at e in map_contains-lookup a b k v rest e'
      ]
]

some-or-none :
    (a b : Labels) (j : String)
    → map_contains a b ≡ true
    → map_contains b a ≡ true
    → lookup j a ≡ lookup j b
some-or-none a b j h k = by_right (lookup j b) refl (lookup j a) refl
  where
    by_right :
        (r : Option String)
        → lookup j b ≡ r
        → (l : Option String) → lookup j a ≡ l
        → lookup j a ≡ lookup j b
    by_right (some v) e l d = map_contains-lookup a b j v h e ∙ sym e
    by_right none e none d = d ∙ sym e
    by_right none e (some v) d = let f = map_contains-lookup b a j v k d in cc

maps_equal-lookup : (a b : Labels) (j : String) → maps_equal a b ≡ true → lookup j a ≡ lookup j b
unfolding maps_equal
maps_equal-lookup a b j h = some-or-none a b j (ground arith) (ground arith)

lookup-maps_equal :
    (a b : Labels)
    → ((j : String) → lookup j a ≡ lookup j b)
    → IsMap a
    → IsMap b
    → maps_equal a b ≡ true
unfolding maps_equal
lookup-maps_equal a b h ma mb =
    let forth = lookup-map_contains a b (λ k v e. h k ∙ e) mb in
    let back = lookup-map_contains b a (λ k v e. sym (h k) ∙ e) ma in ground arith

abbrev pub merged : Labels → Labels → String → Option String
merged existing new j = elim (lookup j new) [ none ↦ lookup j existing | some v ↦ some v ]

module _ (existing new : Labels) (m : IsMap existing) (n : IsMap new) where
  abbrev updated : Labels
  updated = merge_map (merge_map [] existing) new

  lookup-updated : (j : String) → lookup j updated ≡ merged existing new j
  lookup-updated j =
      ground
        (arith, lookup-merge_map (merge_map [] existing) new j n, lookup-merge_map [] existing j m)

  pub lookup-merge_in_labels_if_different :
      (j : String) → lookup j (merge_in_labels_if_different existing new).1 ≡ merged existing new j
  unfolding merge_in_labels_if_different
  lookup-merge_in_labels_if_different j = elim (Bool-cases (maps_equal existing updated)) [
    | inl e ↦ rw e (maps_equal-lookup existing updated j e ∙ lookup-updated j)
    | inr e ↦ rw e (lookup-updated j)
  ]

  updated-IsMap : IsMap updated
  updated-IsMap = merge_map-IsMap (merge_map [] existing) new (merge_map-IsMap [] existing tt)

  pub merge_in_labels_if_different-IsMap : IsMap (merge_in_labels_if_different existing new).1
  unfolding merge_in_labels_if_different
  merge_in_labels_if_different-IsMap = elim (Bool-cases (maps_equal existing updated)) [
    | inl e ↦ rw e m
    | inr e ↦ rw e updated-IsMap
  ]

-- Labels that have the new ones need no update.
pub merge_in_labels_if_different-settled :
    (existing new : Labels)
    → IsMap existing
    → IsMap new
    → ((j : String) → merged existing new j ≡ lookup j existing)
    → (merge_in_labels_if_different existing new).0 ≡ false
unfolding merge_in_labels_if_different
merge_in_labels_if_different-settled existing new m n h =
    rw
      (lookup-maps_equal existing (merge_map (merge_map [] existing) new)
        (λ j. sym (lookup-updated existing new m n j ∙ h j)) m (updated-IsMap existing new m n))
      refl

rack_labels-IsMap :
    (dc : Datacenter) (rack : String) → IsMap (add_managed_by_label (get_rack_labels dc rack))
unfolding add_managed_by_label get_rack_labels get_datacenter_labels get_cluster_labels
rack_labels-IsMap dc rack =
    let cluster : IsMap ((cluster_label, dc.spec.cluster_name) ∷ []) = (refl, tt) in
    insert-IsMap managed_by_label managed_by_label_value (get_rack_labels dc rack) (
      insert-IsMap rack_label rack (get_datacenter_labels dc)
        (insert-IsMap datacenter_label dc.name (get_cluster_labels dc) cluster))

merged_again :
    (existing new : Labels) (j : String) (m : IsMap existing) (n : IsMap new)
    → merged (merge_in_labels_if_different existing new).1 new j
      ≡ lookup j (merge_in_labels_if_different existing new).1
merged_again existing new j m n =
    ground (arith, lookup-merge_in_labels_if_different existing new m n j)

-- After shouldUpdateLabelsForRackResource a label has the rack's value if it is one of the rack's, and otherwise the value
-- it had; and its own result needs no update.
pub should_update_labels_for_rack_resource_lem :
    (labels : Labels) (dc : Datacenter) (rack j : String)
    → IsMap labels
    → (lookup j (should_update_labels_for_rack_resource labels dc rack).1
        ≡ merged labels (add_managed_by_label (get_rack_labels dc rack)) j)
      × ((should_update_labels_for_rack_resource
            (should_update_labels_for_rack_resource labels dc rack).1
            dc
            rack).0
          ≡ false)
unfolding should_update_labels_for_rack_resource
should_update_labels_for_rack_resource_lem labels dc rack j m =
    let new = add_managed_by_label (get_rack_labels dc rack) in
    let n = rack_labels-IsMap dc rack in
    (
      lookup-merge_in_labels_if_different labels new m n j,
      merge_in_labels_if_different-settled _ new (merge_in_labels_if_different-IsMap labels new m n)
          n (λ i. merged_again labels new i m n),
    )
