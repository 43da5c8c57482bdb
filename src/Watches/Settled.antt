-- ===== src/Watches/Settled.antt =====
-- Which watchers the resources have after UpdateWatch.
use cass_operator.Prelude.{
  ℕ, ◌+◌, ◌≡◌, refl, sym, inl, inr, Bool, true, false, ◌&&◌, ◌||◌, List, [], ◌∷◌, ◌++◌, map, Option,
  none, some, ◌==◌, if◌then◌else◌, contains, All,
}
use cass_operator.Result.{Outcome, ok, err}
use cass_operator.Strings.{Text, text_eq}
use cass_operator.Reconcile.World.{Answer, found, not_found, failed}
use cass_operator.Watches.Lists.{index_of_string, occurrences}
use cass_operator.Watches.Names.{NamespacedName, namespaced_name_to_string}
use cass_operator.Watches.{Codec, Resource, get_watcher_names, remove_watcher, add_watcher}
use cass_operator.Watches.Laws.{get_watcher_names-add_watcher, get_watcher_names-remove_watcher}
use cass_operator.Watches.Patches.{update_watcher_names-unchanged, Sent, Left, persist-none}
use cass_operator.Watches.Update.{
  ToUpdate, Trace, Cluster, list_all_watched, add_if_changed, stale_updates, after_read,
  watched_updates, persist, send, update_listed, update_watch,
}

module _ (cluster : Cluster) where
  module _ (json : Codec) (t : Trace) where
    abbrev AllSent : List ToUpdate → Type 0
    AllSent us = All (λ u. Sent cluster u t) us

    -- What has been changed is patched, if all changes of a list are.
    add_if_changed-Left :
        (r : Resource) (p : Bool × Resource) (us : List ToUpdate)
        → (p.0 ≡ false → get_watcher_names json p.1 ≡ get_watcher_names json r)
        → AllSent (add_if_changed r p us)
        → (l : Left cluster t r) × (get_watcher_names json l.resource ≡ get_watcher_names json p.1)
    add_if_changed-Left r (true, r') us kept sent =
        (record { resource = r'; is_sent = inr sent.0 }, refl)
    add_if_changed-Left r (false, r') us kept sent =
        (record { resource = r; is_sent = inl refl }, sym (kept refl))

    add_if_changed-rest :
        (r : Resource) (p : Bool × Resource) (us : List ToUpdate)
        → AllSent (add_if_changed r p us)
        → AllSent us
    add_if_changed-rest r (true, r') us sent = sent.1
    add_if_changed-rest r (false, r') us sent = sent

    module _ (w v : Text) where
      -- One mention of the watcher `w` is taken off, if there is one, and none of another.
      abbrev IsReleased : (index : Option ℕ) → Resource → Type 0
      IsReleased none r =
          (l : Left cluster t r) × (occurrences v (get_watcher_names json r)
            ≡ occurrences v (get_watcher_names json l.resource)
              + (if w == v && contains w (get_watcher_names json r) then 1 else 0))
      IsReleased (some i) r = Unit

      -- The resource was there, and has the watcher `w` in addition.
      abbrev IsWatched : NamespacedName → Type 0
      IsWatched name =
          (r : Resource) × (cluster.get_watched name ≡ found r)
          × (l : Left cluster t r) × (contains v (get_watcher_names json l.resource)
              ≡ (contains v (get_watcher_names json r) || w == v))

      remove_watcher-IsReleased :
          (r : Resource) (us : List ToUpdate)
          → AllSent (add_if_changed r (remove_watcher json r w) us)
          → IsReleased none r
      unfolding remove_watcher
      remove_watcher-IsReleased r us sent =
          let left =
            add_if_changed-Left r (remove_watcher json r w) us
              (update_watcher_names-unchanged json r _) sent in
          (left.0, rw left.1 (get_watcher_names-remove_watcher json r v w))

      index-IsReleased :
          (o : Option ℕ) (r : Resource) (us : List ToUpdate)
          → AllSent (elim o [ none ↦ add_if_changed r (remove_watcher json r w) us | some i ↦ us ])
          → IsReleased o r × AllSent us
      index-IsReleased none r us sent = (
        remove_watcher-IsReleased r us sent,
        add_if_changed-rest r (remove_watcher json r w) us sent,
      )
      index-IsReleased (some i) r us sent = (tt, sent)

      abbrev AllReleased : (watched : List Text) → List Resource → Type 0
      AllReleased watched rs =
          All (λ r. IsReleased (index_of_string watched (namespaced_name_to_string r.name)) r) rs

      stale_updates-IsReleased :
          (watched : List Text) (rs : List Resource)
          → AllSent (stale_updates json w watched rs)
          → AllReleased watched rs
      unfolding stale_updates
      stale_updates-IsReleased watched [] sent = tt
      stale_updates-IsReleased watched (r ∷ rs) sent =
          let first =
            index-IsReleased (index_of_string watched (namespaced_name_to_string r.name)) r
              (stale_updates json w watched rs) sent in
          (first.0, stale_updates-IsReleased watched rs first.1)

      add_watcher-IsWatched :
          (name : NamespacedName) (r : Resource) (us : List ToUpdate)
          → cluster.get_watched name ≡ found r
          → AllSent (add_if_changed r (add_watcher json r w) us)
          → IsWatched name
      unfolding add_watcher
      add_watcher-IsWatched name r us e sent =
          let left =
            add_if_changed-Left r (add_watcher json r w) us
              (update_watcher_names-unchanged json r _) sent in
          (r, e, left.0, rw left.1 (get_watcher_names-add_watcher json r v w))

      abbrev AllWatched : List NamespacedName → Outcome (List ToUpdate) → Type 0
      AllWatched names (ok us) = AllSent us → All IsWatched names
      AllWatched names (err e) = Unit

      after_read-AllWatched :
          (name : NamespacedName) (names : List NamespacedName) (a : Answer Resource)
          (o : Outcome (List ToUpdate))
          → cluster.get_watched name ≡ a
          → AllWatched names o
          → AllWatched (name ∷ names) (after_read json w a o)
      after_read-AllWatched name names (found r) (ok us) e rest = λ sent. (
        add_watcher-IsWatched name r us e sent,
        rest (add_if_changed-rest r (add_watcher json r w) us sent),
      )
      after_read-AllWatched name names (found r) (err x) e rest = tt
      after_read-AllWatched name names not_found o e rest = tt
      after_read-AllWatched name names (failed x) o e rest = tt

      watched_updates-AllWatched :
          (names : List NamespacedName) → AllWatched names (watched_updates json cluster w names)
      unfolding watched_updates
      watched_updates-AllWatched [] = λ sent. tt
      watched_updates-AllWatched (name ∷ names) =
          after_read-AllWatched name names (cluster.get_watched name) _ refl
            (watched_updates-AllWatched names)

module _ (json : Codec) (cluster : Cluster) (w v : Text) (watched : List NamespacedName) where
  abbrev pub Settled : List Resource → Trace → Type 0
  Settled rs t =
      AllReleased cluster json t w v (map namespaced_name_to_string watched) rs
      × All (IsWatched cluster json t w v) watched

  split-All :
      (t : Trace) (us us' : List ToUpdate)
      → All (λ u. Sent cluster u t) (us ++ us')
      → All (λ u. Sent cluster u t) us × All (λ u. Sent cluster u t) us'
  split-All t [] us' h = (tt, h)
  split-All t (u ∷ us) us' h = let rest = split-All t us us' h.1 in ((h.0, rest.0), rest.1)

  send-Settled :
      (rs : List Resource) (o : Outcome (List ToUpdate))
      → ((t : Trace) → AllWatched cluster json t w v watched o)
      → (send cluster (stale_updates json w (map namespaced_name_to_string watched) rs) o).0 ≡ none
      → Settled rs
          (send cluster (stale_updates json w (map namespaced_name_to_string watched) rs) o).1
  send-Settled rs (err e) all h = absurd (cc)
  send-Settled rs (ok us) all h =
      let stale = stale_updates json w (map namespaced_name_to_string watched) rs in
      let t = (persist cluster [] (stale ++ us)).1 in
      let sent = split-All t stale us (persist-none cluster [] (stale ++ us) h) in
      (
        stale_updates-IsReleased cluster json t w v (map namespaced_name_to_string watched) rs
            sent.0,
        all t sent.1,
      )

  update_listed-Settled :
      (o : Outcome (List Resource))
      → (update_listed json cluster w watched o).0 ≡ none
      → (rs : List Resource) × (o ≡ ok rs) × Settled rs (update_listed json cluster w watched o).1
  update_listed-Settled (err e) h = absurd (cc)
  update_listed-Settled (ok rs) h = (
    rs,
    refl,
    send-Settled rs (watched_updates json cluster w watched)
        (λ t. watched_updates-AllWatched cluster json t w v watched) h,
  )

-- If UpdateWatch ends without an error, then the listing worked, each listed resource that is not to be watched has lost one mention of the
-- watcher, if it had one, and no mention of another; and each resource that is to be watched was there and has the
-- watcher in addition to those that it had: the resource that was read is so already, or a patch that makes it so was
-- sent and did not fail.
pub update_watch-Settled :
    (json : Codec) (cluster : Cluster) (watcher : NamespacedName) (v : Text)
    (watched : List NamespacedName)
    → (update_watch json cluster watcher watched).0 ≡ none
    → (rs : List Resource) × (list_all_watched cluster watcher.namespace ≡ ok rs)
      × Settled json cluster
          (namespaced_name_to_string watcher)
          v
          watched
          rs
          (update_watch json cluster watcher watched).1
unfolding update_watch
update_watch-Settled json cluster watcher v watched h =
    update_listed-Settled json cluster (namespaced_name_to_string watcher) v watched
      (list_all_watched cluster watcher.namespace) h
