-- ===== src/Watches/Update.antt =====
-- UpdateWatch and RemoveWatcher of operator/pkg/dynamicwatch/watch.go: which resources are read, changed and
-- patched. Nothing is sent before all is read.
use cass_operator.Prelude.{String, Bool, true, false, List, [], ◌∷◌, ◌++◌, map, Option, none, some}
use cass_operator.Result.{Outcome, ok, err}
use cass_operator.Strings.{Text, text_eq}
use cass_operator.Reconcile.World.{Answer, found, not_found, failed}
use cass_operator.Watches.Lists.{index_of_string}
use cass_operator.Watches.Names.{NamespacedName, namespaced_name_to_string}
use cass_operator.Watches.{Codec, Resource, remove_watcher, add_watcher}

-- A resource as it was read and as it is to be; what is sent is the difference of the two.
pub record ToUpdate : Type 0 where
  pub original : Resource
  pub item : Resource

-- The patches that were sent, the last one first
abbrev pub Trace : Type 0
Trace = List ToUpdate

-- `list` is the listing by the watched label.
pub record Cluster : Type 0 where
  pub list : (namespace : Text) → Answer (List Resource)
  pub get_watched : NamespacedName → Answer Resource
  pub failure : Trace → ToUpdate → Option String

unfoldable pub list_all_watched : Cluster → (namespace : Text) → Outcome (List Resource)
list_all_watched cluster namespace = elim (cluster.list namespace) [
  | found items ↦ ok items
  | not_found ↦ ok []
  | failed e ↦ err e
]

abbrev pub add_if_changed : Resource → Bool × Resource → List ToUpdate → List ToUpdate
add_if_changed r (true, r') us = record { original = r; item = r' } ∷ us
add_if_changed r (false, r') us = us

-- What is listed though it is not watched any more
unfoldable pub stale_updates :
    Codec → (watcher : Text) → (watched : List Text) → List Resource → List ToUpdate
stale_updates json watcher watched [] = []
stale_updates json watcher watched (r ∷ rs) =
    let rest = stale_updates json watcher watched rs in
    elim (index_of_string watched (namespaced_name_to_string r.name)) [
      | none ↦ add_if_changed r (remove_watcher json r watcher) rest
      | some i ↦ rest
    ]

abbrev pub after_read :
    Codec → (watcher : Text) → Answer Resource → Outcome (List ToUpdate) → Outcome (List ToUpdate)
after_read json watcher (found r) (ok us) = ok (add_if_changed r (add_watcher json r watcher) us)
after_read json watcher (found r) (err e) = err e
after_read json watcher not_found rest = err "invalid memory address or nil pointer dereference"
after_read json watcher (failed e) rest = err e

-- The log of a resource that is not there reads the name of the nil pointer that getWatched returned, so that
-- Go faults.
unfoldable pub watched_updates :
    Codec → Cluster → (watcher : Text) → List NamespacedName → Outcome (List ToUpdate)
watched_updates json cluster watcher [] = ok []
watched_updates json cluster watcher (name ∷ names) =
    after_read json watcher (cluster.get_watched name) (watched_updates json cluster watcher names)

abbrev pub first_error : (first rest : Option String) → Option String
first_error none rest = rest
first_error (some e) rest = some e

-- Every patch is tried; the first error is the result.
unfoldable pub persist : Cluster → Trace → List ToUpdate → Option String × Trace
persist cluster t [] = (none, t)
persist cluster t (u ∷ us) =
    let (e, t') = persist cluster (u ∷ t) us in (first_error (cluster.failure t u) e, t')

abbrev pub send :
    Cluster → (stale : List ToUpdate) → Outcome (List ToUpdate) → Option String × Trace
send cluster stale (err e) = (some e, [])
send cluster stale (ok us) = persist cluster [] (stale ++ us)

abbrev pub update_listed :
    Codec
    → Cluster
    → (watcher : Text) → List NamespacedName
    → Outcome (List Resource)
    → Option String × Trace
update_listed json cluster watcher watched (err e) = (some e, [])
update_listed json cluster watcher watched (ok items) =
    send cluster (stale_updates json watcher (map namespaced_name_to_string watched) items)
      (watched_updates json cluster watcher watched)

unfoldable pub update_watch :
    Codec → Cluster → (watcher : NamespacedName) → List NamespacedName → Option String × Trace
update_watch json cluster watcher watched =
    update_listed json cluster (namespaced_name_to_string watcher) watched
      (list_all_watched cluster watcher.namespace)

unfoldable pub remove_all_watches :
    Codec → Cluster → (watcher : NamespacedName) → Option String × Trace
remove_all_watches json cluster watcher = update_watch json cluster watcher []
