-- ===== src/Watches/Examples.antt =====
-- The theorems on watches at a secret that nobody watches yet.
use cass_operator.Prelude.{
  false, ℕ, zero, suc, ap, ◌≡◌, ◌≢◌, refl, true, ◌+◌, List, [], ◌∷◌, Option, none, some, contains,
  string_eq,
}
use cass_operator.Strings.{Text, text_eq, codes}
use cass_operator.Watches.Names.{
  NamespacedName, namespaced_name_to_string, namespaced_name_from_string,
  from-namespaced_name_to_string,
}
use cass_operator.Watches.Lists.{
  occurrences, index_of_string, append_values_to_string_array_if_not_present,
  remove_value_from_string_array,
}
use cass_operator.Watches.{
  Codec, Resource, get_watcher_names, add_watcher, remove_watcher, update_watcher_names,
  has_watched_label, with_watchers,
}
use cass_operator.Result.{ok}
use cass_operator.Reconcile.World.{found}
use cass_operator.Watches.Update.{
  Cluster, list_all_watched, update_watch, watched_updates, persist, stale_updates,
}
use cass_operator.Watches.Settled.{Settled, update_watch-Settled}
use cass_operator.Watches.Laws.{
  get_watcher_names-add_watcher, get_watcher_names-remove_watcher,
  has_watched_label-update_watcher_names,
}

abbrev watcher : NamespacedName
watcher = record { namespace = codes "ns"; name = codes "dc1" }

from-namespaced_name_to_string_example : namespaced_name_from_string (codes "ns/dc1") ≡ watcher
unfolding namespaced_name_to_string
from-namespaced_name_to_string_example = from-namespaced_name_to_string watcher refl refl

-- A codec that marks the end of each text, for which the laws hold
marks : List Text → Text
marks [] = []
marks ([] ∷ ws) = 0 ∷ marks ws
marks ((c ∷ w) ∷ ws) = suc c ∷ marks (w ∷ ws)

add_code : ℕ → List Text → List Text
add_code c [] = (c ∷ []) ∷ []
add_code c (w ∷ ws) = (c ∷ w) ∷ ws

unmarked : Text → List Text
unfolding add_code
unmarked [] = []
unmarked (zero ∷ s) = [] ∷ unmarked s
unmarked (suc c ∷ s) = add_code c (unmarked s)

unmarked-marks : (ws : List Text) → unmarked (marks ws) ≡ ws
unfolding marks unmarked
unmarked-marks [] = refl
unmarked-marks ([] ∷ ws) = ap (◌∷◌ []) (unmarked-marks ws)
unmarked-marks ((c ∷ w) ∷ ws) = rw (unmarked-marks (w ∷ ws)) refl

read_marks : Text → Option (List Text)
unfolding unmarked
read_marks [] = none
read_marks (c ∷ s) = some (unmarked s)

read_marks-marks : (ws : List Text) → read_marks (1 ∷ marks ws) ≡ some ws
unfolding read_marks
read_marks-marks ws = ap some (unmarked-marks ws)

marked-ne : (ws : List Text) → (◌∷◌ 1 (marks ws)) ≢ []
marked-ne ws e = cc

abbrev json : Codec
json = record {
  marshal = λ ws. 1 ∷ marks ws;
  unmarshal = read_marks;
  is_null = λ s. false;
  marshal-ne = marked-ne;
  unmarshal-marshal = read_marks-marks;
}

abbrev secret : Resource
secret = record { name = watcher; annotations = []; labels = [] }

get_watcher_names-add_watcher_example :
    contains (codes "ns/dc1") (get_watcher_names json (add_watcher json secret (codes "ns/dc1")).1)
    ≡ true
unfolding get_watcher_names
get_watcher_names-add_watcher_example =
    get_watcher_names-add_watcher json secret (codes "ns/dc1") (codes "ns/dc1")

get_watcher_names-remove_watcher_example :
    occurrences (codes "ns/dc1") (get_watcher_names json secret)
    ≡ occurrences
        (codes "ns/dc1")
        (get_watcher_names json (remove_watcher json secret (codes "ns/dc1")).1)
      + 0
unfolding get_watcher_names
get_watcher_names-remove_watcher_example =
    get_watcher_names-remove_watcher json secret (codes "ns/dc1") (codes "ns/dc1")

has_watched_label-update_watcher_names_example :
    has_watched_label (update_watcher_names json secret (codes "ns/dc1" ∷ [])).1 ≡ true
has_watched_label-update_watcher_names_example =
    has_watched_label-update_watcher_names json secret (codes "ns/dc1" ∷ [])

abbrev other : Resource
unfolding add_watcher update_watcher_names with_watchers
other =
    (add_watcher json
      (record secret { name = record { namespace = codes "ns"; name = codes "s2" } })
      (codes "ns/dc1")).1

-- The secret `s2` was watched, and `ns/dc1` is to be instead.
abbrev some_cluster : Cluster
some_cluster = record {
  list = λ namespace. found (other ∷ []);
  get_watched = λ name. found secret;
  failure = λ t u. none;
}

some_cluster-succeeds : (update_watch json some_cluster watcher (watcher ∷ [])).0 ≡ none
unfolding update_watch list_all_watched watched_updates persist stale_updates index_of_string
    namespaced_name_to_string other append_values_to_string_array_if_not_present get_watcher_names
    remove_watcher read_marks marks remove_value_from_string_array
some_cluster-succeeds = refl

update_watch-Settled_example :
    (rs : List Resource) × (list_all_watched some_cluster watcher.namespace ≡ ok rs)
    × Settled json some_cluster
        (namespaced_name_to_string watcher)
        (codes "ns/dc1")
        (watcher ∷ [])
        rs
        (update_watch json some_cluster watcher (watcher ∷ [])).1
update_watch-Settled_example =
    update_watch-Settled json some_cluster watcher (codes "ns/dc1") (watcher ∷ [])
      some_cluster-succeeds
