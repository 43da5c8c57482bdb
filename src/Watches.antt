-- ===== src/Watches.antt =====
-- Which watchers a secret has: operator/pkg/dynamicwatch/watch.go, and the string lists of
-- operator/pkg/utils/utilities.go. The watchers are named in an annotation as a JSON list; `Codec` is
-- encoding/json on a list of strings.
pub mod Lists
pub mod Names
pub mod Laws
pub mod Update
pub mod Patches
pub mod Settled
mod Examples
use cass_operator.Prelude.{
  ℕ, String, ◌≡◌, ◌≢◌, Bool, true, false, not, ◌&&◌, ◌||◌, List, [], ◌∷◌, ◌++◌, map, filter, Option,
  none, some, ◌==◌, if◌then◌else◌, string_eq, lookup, insert, erase, length, contains, Eq,
}
use cass_operator.Strings.{Text, text_eq}
use cass_operator.Watches.Lists.{
  remove_value_from_string_array, append_values_to_string_array_if_not_present,
}
use cass_operator.Watches.Names.{
  NamespacedName, namespaced_name_to_string, namespaced_name_from_string,
}

abbrev pub watched_by_annotation : String
watched_by_annotation = "cassandra.datastax.com/watched-by"

abbrev pub watched_label : String
watched_label = "cassandra.datastax.com/watched"

-- What the code relies on: the text of a list is not empty, and reads as the list again. The text `null`
-- reads as Go's nil slice, which is an empty list here.
pub record Codec : Type 0 where
  pub marshal : List Text → Text
  pub unmarshal : Text → Option (List Text)
  pub is_null : Text → Bool
  pub marshal-ne : (ws : List Text) → marshal ws ≢ []
  pub unmarshal-marshal : (ws : List Text) → unmarshal (marshal ws) ≡ some ws

pub record Resource : Type 0 where
  pub name : NamespacedName
  pub annotations : List (String × Text)
  pub labels : List (String × String)

abbrev pub texts_beq : List Text → List Text → Bool
texts_beq [] [] = true
texts_beq [] (w ∷ ws) = false
texts_beq (v ∷ vs) [] = false
texts_beq (v ∷ vs) (w ∷ ws) = v == w && texts_beq vs ws

-- A text that is no list counts as the empty one.
unfoldable pub get_watcher_names : Codec → Resource → List Text
get_watcher_names json r = elim (lookup watched_by_annotation r.annotations) [
  | none ↦ []
  | some content ↦
      if content == [] then [] else elim (json.unmarshal content) [ none ↦ [] | some ws ↦ ws ]
]

unfoldable pub has_watched_label : Resource → Bool
has_watched_label r = elim (lookup watched_label r.labels) [ none ↦ false | some v ↦ v == "true" ]

unfoldable pub with_watchers : Codec → Resource → List Text → Resource
with_watchers json r [] = record r {
  annotations = erase watched_by_annotation r.annotations;
  labels = erase watched_label r.labels;
}
with_watchers json r (w ∷ ws) = record r {
  annotations = insert watched_by_annotation (json.marshal (w ∷ ws)) r.annotations;
  labels = insert watched_label "true" r.labels;
}

abbrev differ : Bool → Bool → Bool
differ a b = if a then not b else b

-- The names read are Go's nil slice, which `reflect.DeepEqual` tells from an empty one.
unfoldable pub has_nil_watchers : Codec → Resource → Bool
has_nil_watchers json r = elim (lookup watched_by_annotation r.annotations) [
  | none ↦ false
  | some content ↦ json.is_null content
]

-- Whether the watchers or the label changed
unfoldable pub update_watcher_names : Codec → Resource → List Text → Bool × Resource
update_watcher_names json r names =
    let r' = with_watchers json r names in
    (
      not (texts_beq (get_watcher_names json r) (get_watcher_names json r'))
          || differ (has_nil_watchers json r) (has_nil_watchers json r')
          || differ (has_watched_label r) (has_watched_label r'),
      r',
    )

unfoldable pub remove_watcher : Codec → Resource → (watcher : Text) → Bool × Resource
remove_watcher json r watcher =
    update_watcher_names json r (remove_value_from_string_array (get_watcher_names json r) watcher)

unfoldable pub add_watcher : Codec → Resource → (watcher : Text) → Bool × Resource
add_watcher json r watcher =
    update_watcher_names json r
      (append_values_to_string_array_if_not_present (get_watcher_names json r) (watcher ∷ []))

unfoldable pub find_watchers : Codec → Resource → List NamespacedName
find_watchers json r = map namespaced_name_from_string (get_watcher_names json r)
