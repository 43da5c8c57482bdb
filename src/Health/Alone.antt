-- ===== src/Health/Alone.antt =====
-- What the health document holds that Update writes: it is read from another field of the config map than it
-- was written to.
use cass_operator.Prelude.{
  String, ◌≡◌, refl, ap, [], ◌∷◌, Option, none, some, ◌==◌, lookup, if◌then◌else◌, string_eq,
}
use cass_operator.Result.{Outcome, ok, err}
use cass_operator.Passing.{pure, lift_outcome}
use cass_operator.Passing.Keeps.{Ends, Ends->>=, Keeps, Keeps-Ends, Keeps-pure, Keeps-if, Keeps->>=}
use cass_operator.Datacenter.{Datacenter}
use cass_operator.Labels.{Labels}
use cass_operator.Reconcile.World.{Answer, found, not_found, failed}
use cass_operator.Health.Document.{
  Health, empty_health, update_health, build_catalog, create_instance_health, with_instance,
  index_of,
}
use cass_operator.Health.{
  ConfigMap, present, parsed, Call, create_config_map, update_config_map, Trace, Settings,
  health_check_name, perform, finish, new_config_map, save_health_check_to_config_map,
  create_health_check_config_map, create_catalog_config_map, load_health_from_config_map,
  get_config_map, overwritten, store, upsert_config_map, load, get_health_data, update,
}

-- The document with the entry of the datacenter alone
abbrev pub alone : Datacenter → Health
alone dc = update_health empty_health dc

-- The text of the document, if it has one, and no binary data
abbrev pub IsDocumentOf : Settings → Health → ConfigMap → Type 0
IsDocumentOf cfg health m =
    (lookup "health" m.values ≡ elim (cfg.marshal health) [ err e ↦ none | ok raw ↦ some raw ])
    × (m.binary_data ≡ [])

abbrev pub Sends : Settings → Health → Call → Type 0
Sends cfg health (create_config_map m) =
    if m.name == health_check_name then IsDocumentOf cfg health m else Unit
Sends cfg health (update_config_map m) =
    if m.name == health_check_name then IsDocumentOf cfg health m else Unit

abbrev pub AllSend : Settings → Health → Trace → Type 0
AllSend cfg health [] = Unit
AllSend cfg health (c ∷ t) = Sends cfg health c × AllSend cfg health t

-- Every config map that is read under the name has no binary document.
abbrev pub NoBinary : Settings → Type 0
NoBinary cfg =
    (t : Trace) (m : ConfigMap)
    → cfg.read t health_check_name ≡ found m
    → lookup "health" m.binary_data ≡ none

module _ (cfg : Settings) where
  module _ (health : Health) where
    perform-AllSend : (c : Call) → Sends cfg health c → Keeps (AllSend cfg health) (perform cfg c)
    unfolding perform
    perform-AllSend c sent = record { at = λ t h. (sent, h) }

    get_config_map-AllSend : (name : String) → Keeps (AllSend cfg health) (get_config_map cfg name)
    unfolding get_config_map
    get_config_map-AllSend name = record { at = λ t h. h }

    abbrev IsSendable : ConfigMap → Type 0
    IsSendable m = if m.name == health_check_name then IsDocumentOf cfg health m else Unit

    store-AllSend :
        (m : ConfigMap) (existing : Option ConfigMap)
        → IsSendable m
        → Keeps (AllSend cfg health) (store cfg m existing)
    unfolding store overwritten
    store-AllSend m none h = perform-AllSend (create_config_map m) h
    store-AllSend m (some existing) h =
        Keeps-if _ _ _ (Keeps-pure tt)
          (perform-AllSend (update_config_map (overwritten existing m)) h)

    upsert_config_map-AllSend :
        (m : ConfigMap) → IsSendable m → Keeps (AllSend cfg health) (upsert_config_map cfg m)
    unfolding upsert_config_map
    upsert_config_map-AllSend m h =
        Keeps->>= _ _ (get_config_map-AllSend m.name) (λ existing. store-AllSend m existing h)

    create_catalog_config_map-IsSendable :
        (catalog : Labels) → IsSendable (create_catalog_config_map cfg catalog)
    unfolding create_catalog_config_map finish new_config_map
    create_catalog_config_map-IsSendable catalog = tt

    saved-IsSendable :
        (o : Outcome String)
        → (lookup "health"
              (save_health_check_to_config_map o
                (new_config_map health_check_name cfg.namespace)).values
            ≡ elim o [ err e ↦ none | ok raw ↦ some raw ])
          × ((save_health_check_to_config_map o
                (new_config_map health_check_name cfg.namespace)).binary_data
              ≡ [])
    unfolding new_config_map save_health_check_to_config_map
    saved-IsSendable (ok raw) = (refl, refl)
    saved-IsSendable (err x) = (refl, refl)

    saved-name :
        (o : Outcome String)
        → (save_health_check_to_config_map o (new_config_map health_check_name cfg.namespace)).name
          ≡ health_check_name
    unfolding new_config_map save_health_check_to_config_map
    saved-name (ok raw) = refl
    saved-name (err x) = refl

    create_health_check_config_map-IsSendable :
        IsSendable (create_health_check_config_map cfg health)
    unfolding create_health_check_config_map finish
    create_health_check_config_map-IsSendable =
        rw (saved-name (cfg.marshal health)) (saved-IsSendable (cfg.marshal health))

  -- What Update reads is the empty document.
  abbrev ReadEmpty : Health → Outcome Health → Trace → Type 0
  ReadEmpty health (ok h) t = (h ≡ empty_health) × AllSend cfg health t
  ReadEmpty health (err e) t = AllSend cfg health t

  abbrev IsEmptyMap : Option ConfigMap → Type 0
  IsEmptyMap none = Unit
  IsEmptyMap (some m) = lookup "health" m.binary_data ≡ none

  abbrev ReadMap : Health → Outcome (Option ConfigMap) → Trace → Type 0
  ReadMap health (ok m) t = IsEmptyMap m × AllSend cfg health t
  ReadMap health (err e) t = AllSend cfg health t

  module _ (no_binary : NoBinary cfg) (health : Health) where
    present-ReadMap :
        (t : Trace) (r : Answer ConfigMap)
        → cfg.read t health_check_name ≡ r
        → AllSend cfg health t
        → ReadMap health (present r) t
    present-ReadMap t (found m) e h = (no_binary t m e, h)
    present-ReadMap t not_found e h = (tt, h)
    present-ReadMap t (failed x) e h = h

    get_config_map-ReadMap :
        Ends (AllSend cfg health) (get_config_map cfg health_check_name) (ReadMap health)
    unfolding get_config_map
    get_config_map-ReadMap = record {
      at = λ t h. present-ReadMap t (cfg.read t health_check_name) refl h;
    }

    load-empty : (m : Option ConfigMap) → IsEmptyMap m → load cfg m ≡ ok empty_health
    unfolding load load_health_from_config_map
    load-empty none h = refl
    load-empty (some m) h = ap (parsed cfg) h

    load-ReadEmpty :
        (m : Option ConfigMap)
        → Ends (ReadMap health (ok m)) (lift_outcome (load cfg m)) (ReadEmpty health)
    unfolding lift_outcome pure
    load-ReadEmpty m = record { at = λ t h. rw (load-empty m h.0) (refl, h.1) }

    get_health_data-ReadEmpty : Ends (AllSend cfg health) (get_health_data cfg) (ReadEmpty health)
    unfolding get_health_data
    get_health_data-ReadEmpty =
        Ends->>= _ (ReadMap health) _ _ _ get_config_map-ReadMap load-ReadEmpty (λ e t h. h)

  module _ (no_binary : NoBinary cfg) (dc : Datacenter) where
    upsert-AllSend :
        (h : Health)
        → Ends
            (ReadEmpty (alone dc) (ok h))
            (upsert_config_map cfg (create_health_check_config_map cfg (update_health h dc)))
            (λ r. AllSend cfg (alone dc))
    upsert-AllSend h = record {
      at = λ t read. rw read.0 (
          (upsert_config_map-AllSend (alone dc) (create_health_check_config_map cfg (alone dc))
              (create_health_check_config_map-IsSendable (alone dc))).at
            t read.1);
    }

    update-Ends : Ends (AllSend cfg (alone dc)) (update cfg dc) (λ r. AllSend cfg (alone dc))
    unfolding update
    update-Ends =
        Ends->>= _ (λ r. AllSend cfg (alone dc)) _ _ _
          (Keeps-Ends _ (
            upsert_config_map-AllSend (alone dc) (create_catalog_config_map cfg build_catalog)
              (create_catalog_config_map-IsSendable (alone dc) build_catalog)))
          (λ u.
            Ends->>= _ (ReadEmpty (alone dc)) _ _ _ (get_health_data-ReadEmpty no_binary (alone dc))
              upsert-AllSend (λ e t h. h))
          (λ e t h. h)

-- If no config map that is read under the name of the health document has binary data of key health, then each config map
-- that Update sends under that name has no binary data either, and its document, if it can be marshalled, has
-- the entry of the datacenter and no other, whatever document was stored.
pub update-IsAlone :
    (cfg : Settings) (dc : Datacenter)
    → NoBinary cfg
    → AllSend cfg (alone dc) (update cfg dc []).1
      × ((alone dc).instance_health ≡ create_instance_health dc ∷ [])
unfolding update_health with_instance index_of
update-IsAlone cfg dc no_binary = ((update-Ends cfg no_binary dc).at [] tt, refl)
