-- ===== src/Watches/Patches.antt =====
-- Which patches UpdateWatch has sent, and what is left of a resource.
use cass_operator.Prelude.{
  String, ◌≡◌, refl, sym, ◌⊎◌, true, false, List, [], ◌∷◌, Option, none, some, arith, All,
}
use cass_operator.Strings.{Text, text_eq, text_beq_iff}
use cass_operator.Watches.{Codec, Resource, get_watcher_names, update_watcher_names, texts_beq}
use cass_operator.Watches.Update.{ToUpdate, Trace, Cluster, first_error, persist}

texts_beq-same : (vs ws : List Text) → texts_beq vs ws ≡ true → vs ≡ ws
texts_beq-same [] [] h = refl
texts_beq-same [] (w ∷ ws) h = cc
texts_beq-same (v ∷ vs) [] h = cc
texts_beq-same (v ∷ vs) (w ∷ ws) h = ground (arith, texts_beq-same vs ws, text_beq_iff v w)

-- A change that is none leaves the watchers as they are.
pub update_watcher_names-unchanged :
    (json : Codec) (r : Resource) (ws : List Text)
    → (update_watcher_names json r ws).0 ≡ false
    → get_watcher_names json (update_watcher_names json r ws).1 ≡ get_watcher_names json r
unfolding update_watcher_names
update_watcher_names-unchanged json r ws h = sym (
    texts_beq-same (get_watcher_names json r)
      (get_watcher_names json (update_watcher_names json r ws).1) (ground arith))

-- A patch was sent and did not fail.
pub data Sent (cluster : Cluster) (u : ToUpdate) : Trace → Type 0 where
  here : {t : Trace} → cluster.failure t u ≡ none → Sent cluster u (u ∷ t)
  later : {c : ToUpdate} {t : Trace} → Sent cluster u t → Sent cluster u (c ∷ t)

-- The resource as it is, or as it was patched to be
pub record Left (cluster : Cluster) (t : Trace) (r : Resource) : Type 0 where
  pub resource : Resource
  pub is_sent : (resource ≡ r) ⊎ Sent cluster (record { original = r; item = resource }) t

module _ (cluster : Cluster) where
  persist-Sent :
      (t : Trace) (us : List ToUpdate) (u : ToUpdate)
      → Sent cluster u t
      → Sent cluster u (persist cluster t us).1
  unfolding persist
  persist-Sent t [] u h = h
  persist-Sent t (c ∷ us) u h = persist-Sent (c ∷ t) us u (later h)

  first_error-none :
      (e rest : Option String) → first_error e rest ≡ none → (e ≡ none) × (rest ≡ none)
  first_error-none none rest h = (refl, h)
  first_error-none (some e) rest h = (h, absurd (cc))

  pub persist-none :
      (t : Trace) (us : List ToUpdate)
      → (persist cluster t us).0 ≡ none
      → All (λ u. Sent cluster u (persist cluster t us).1) us
  unfolding persist
  persist-none t [] h = tt
  persist-none t (u ∷ us) h =
      let split = first_error-none (cluster.failure t u) (persist cluster (u ∷ t) us).0 h in
      (persist-Sent (u ∷ t) us u (here split.0), persist-none (u ∷ t) us split.1)
