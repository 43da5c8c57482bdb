-- ===== src/Watches/Laws.antt =====
-- What adding and removing a watcher does to the watchers of a resource.

use cass_operator.Prelude.{
  ◌≡◌, ap, ◌∙◌, true, false, ◌&&◌, ◌||◌, List, [], ◌∷◌, arith, ◌==◌, ◌+◌, if◌then◌else◌, contains,
  lookup-insert, lookup-erase, string_eq,
}
use cass_operator.Strings.{Text, text_eq, text_beq_iff}
use cass_operator.Watches.Lists.{
  occurrences, remove_value_from_string_array, append_values_to_string_array_if_not_present,
  occurrences-remove_value, contains-append_value,
}
use cass_operator.Watches.{
  Codec, Resource, get_watcher_names, has_watched_label, with_watchers, update_watcher_names,
  add_watcher, remove_watcher, watched_by_annotation, watched_label,
}

module _ (json : Codec) (r : Resource) where
  -- The names that are written are the names then read, and the label says whether there are any.
  get_watcher_names-with_watchers :
      (ws : List Text) → get_watcher_names json (with_watchers json r ws) ≡ ws
  unfolding get_watcher_names with_watchers
  get_watcher_names-with_watchers [] =
      ground (arith, lookup-erase watched_by_annotation watched_by_annotation r.annotations)
  get_watcher_names-with_watchers (w ∷ ws) = ground (
    arith,
    lookup-insert watched_by_annotation watched_by_annotation (json.marshal (w ∷ ws)) r.annotations,
    json.unmarshal-marshal (w ∷ ws),
    json.marshal-ne (w ∷ ws),
    text_beq_iff (json.marshal (w ∷ ws)) [],
  )

  -- After addWatcher a resource is watched by the watcher and by all that watched it before.
  pub get_watcher_names-add_watcher :
      (v w : Text)
      → contains v (get_watcher_names json (add_watcher json r w).1)
        ≡ (contains v (get_watcher_names json r) || w == v)
  unfolding add_watcher update_watcher_names
  get_watcher_names-add_watcher v w =
      ap (contains v) (
        get_watcher_names-with_watchers
          (append_values_to_string_array_if_not_present (get_watcher_names json r) (w ∷ [])))
      ∙ contains-append_value (get_watcher_names json r) w v

  -- removeWatcher takes one mention of the watcher off a resource that it watches, and no other watcher's.
  pub get_watcher_names-remove_watcher :
      (v w : Text)
      → occurrences v (get_watcher_names json r)
        ≡ occurrences v (get_watcher_names json (remove_watcher json r w).1)
          + (if w == v && contains w (get_watcher_names json r) then 1 else 0)
  unfolding remove_watcher update_watcher_names
  get_watcher_names-remove_watcher v w =
      let written =
        get_watcher_names-with_watchers
          (remove_value_from_string_array (get_watcher_names json r) w) in
      rw written (occurrences-remove_value (get_watcher_names json r) w v)

  -- A resource has the label that listings look for exactly as long as it has watchers.
  pub has_watched_label-update_watcher_names :
      (ws : List Text)
      → has_watched_label (update_watcher_names json r ws).1
        ≡ elim ws [ [] ↦ false | v ∷ vs ↦ true ]
  unfolding has_watched_label update_watcher_names with_watchers
  has_watched_label-update_watcher_names [] =
      ground (arith, lookup-erase watched_label watched_label r.labels)
  has_watched_label-update_watcher_names (w ∷ ws) =
      ground (arith, lookup-insert watched_label watched_label "true" r.labels)
