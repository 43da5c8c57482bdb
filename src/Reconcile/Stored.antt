-- ===== src/Reconcile/Stored.antt =====
-- What CheckConfigSecret has done where it lets the reconciliation go on.
use cass_operator.Prelude.{
  String, ◌≡◌, refl, ◌⊎◌, inl, inr, Bool, true, false, List, [], ◌∷◌, Option, none, some, ◌==◌,
  if◌then◌else◌, string_eq,
}
use cass_operator.Result.{Outcome, ok, err, ReconcileResult, continue_reconcile}
use cass_operator.Passing.{pure, lift_outcome, ◌>>=◌, ◌>>◌, outcome_of}
use cass_operator.Passing.Keeps.{Ends, Ends->>=, Ends-if, Keeps-Ends}
use cass_operator.Datacenter.{Datacenter}
use cass_operator.Construct.Config.{get_datacenter_config_secret_name}
use cass_operator.Reconcile.World.{Settings, State, M, Call, Secret, get, perform, create_secret}
use cass_operator.Reconcile.ConfigSecret.{
  check_datacenter_name_annotation, get_config_from_config_secret, get_datacenter_config_secret,
  with_config, store_config, is_stored, check_config_secret,
}
use cass_operator.Reconcile.KeptSecret.{
  IsRead, IsKept, HasDatacenter, Anything, Retrieved, retrieve_secret-Retrieved,
  check_datacenter_name_annotation-HasDatacenter, Lifted, lift_outcome-Lifted, Kept,
  get_datacenter_config_secret-Kept,
}

-- The last call created the secret, and succeeded.
abbrev pub IsCreated : Settings → State → Secret → Type 0
IsCreated cfg s secret =
    (t : List Call) × (s.trace ≡ create_secret secret ∷ t)
    × (cfg.failure t (create_secret secret) ≡ none)

pub record Stored (cfg : Settings) (dc : Datacenter) (s : State) : Type 0 where
  pub secret : Secret
  pub config : String
  pub is_read : IsRead cfg dc.spec.config_secret secret
  pub is_config : get_config_from_config_secret cfg dc secret ≡ ok config
  pub is_kept :
      ((kept : Secret) × IsRead cfg (get_datacenter_config_secret_name dc) kept
        × (is_stored config kept ≡ true))
      ⊎ ((kept : Secret) × IsKept cfg dc (get_datacenter_config_secret_name dc) kept
          × IsCreated cfg s (with_config config kept))

abbrev pub IsSettled : Settings → Datacenter → Outcome ReconcileResult → State → Type 0
IsSettled cfg dc (ok r) s = (dc.spec.config_secret ≡ "") ⊎ Stored cfg dc s
IsSettled cfg dc (err e) s = Unit

module _ (cfg : Settings) where
  abbrev Created : Secret → Outcome (Unit {0}) → State → Type 0
  Created secret (ok u) s = IsCreated cfg s secret
  Created secret (err e) s = Unit

  perform-Created :
      (secret : Secret) → Ends Anything (perform cfg (create_secret secret)) (Created secret)
  unfolding perform
  perform-Created secret = record {
    at = λ s h. by_answer s (cfg.failure s.trace (create_secret secret)) refl;
  }
    where
      by_answer :
          (s : State) (o : Option String)
          → cfg.failure s.trace (create_secret secret) ≡ o
          → Created secret (outcome_of o) (record s { trace = create_secret secret ∷ s.trace })
      by_answer s none e = (s.trace, refl, e)
      by_answer s (some text) e = tt

  anything : {A : Type 0} (m : M A) → Ends Anything m (λ r. Anything)
  anything m = record { at = λ s h. tt }

  store_config-Created :
      (hash : Secret → String) (config : String) (kept : Secret) (exists : Bool)
      → Ends Anything (store_config cfg hash config kept exists) (Created (with_config config kept))
  unfolding store_config
  store_config-Created hash config kept exists =
      Ends->>= _ (λ r. Anything) _ _ _ (anything _)
        (λ u. Ends->>= _ (λ r. Anything) _ _ _ (anything _) (λ u. perform-Created _) (λ e s h. tt))
        (λ e s h. tt)

  module _ (dc : Datacenter) (hash : Secret → String) where
    abbrev StoredOr : Outcome (Unit {0}) → State → Type 0
    StoredOr (ok u) s = Stored cfg dc s
    StoredOr (err e) s = Unit

    module _ (secret : Secret) (config : String) (is_read : IsRead cfg dc.spec.config_secret secret)
        (is_config : get_config_from_config_secret cfg dc secret ≡ ok config) where
      fresh-not_stored :
          (kept : Secret)
          → kept ≡ record {
            name = get_datacenter_config_secret_name dc;
            annotations = [];
            contents = [];
          }
          → is_stored config kept ≡ false
      fresh-not_stored kept h = rw h refl

      stored :
          (s : State)
          → ((kept : Secret) × IsRead cfg (get_datacenter_config_secret_name dc) kept
              × (is_stored config kept ≡ true))
            ⊎ ((kept : Secret) × IsKept cfg dc (get_datacenter_config_secret_name dc) kept
                × IsCreated cfg s (with_config config kept))
          → Stored cfg dc s
      stored s kept = record {
        secret = secret;
        config = config;
        is_read = is_read;
        is_config = is_config;
        is_kept = kept;
      }

      Created-StoredOr :
          (kept : Secret) (r : Outcome (Unit {0})) (s : State)
          → IsKept cfg dc (get_datacenter_config_secret_name dc) kept
          → Created (with_config config kept) r s
          → StoredOr r s
      Created-StoredOr kept (ok u) s k h = stored s (inr (kept, k, h))
      Created-StoredOr kept (err e) s k h = tt

      pure-StoredOr :
          (kept : Secret)
          → IsKept cfg dc (get_datacenter_config_secret_name dc) kept
          → is_stored config kept ≡ true
          → Ends Anything (pure tt) StoredOr
      unfolding pure
      pure-StoredOr kept (inl read) t = record { at = λ s u. stored s (inl (kept, read, t)) }
      pure-StoredOr kept (inr empty) t = let f = fresh-not_stored kept empty in absurd (cc)

      store_config-StoredOr :
          (kept : Secret × Bool)
          → IsKept cfg dc (get_datacenter_config_secret_name dc) kept.0
          → Ends Anything
              (if is_stored config kept.0
                then pure tt
                else store_config cfg hash config kept.0 kept.1)
              StoredOr
      store_config-StoredOr kept h =
          Ends-if _ _ (is_stored config kept.0) _ _ (λ t. pure-StoredOr kept.0 h t)
            (λ f. record {
              at = λ s u.
                  Created-StoredOr kept.0 _ _ h
                    ((store_config-Created hash config kept.0 kept.1).at s u);
            })

      goes_on-IsSettled : Ends (StoredOr (ok tt)) (pure continue_reconcile) (IsSettled cfg dc)
      unfolding pure
      goes_on-IsSettled = record { at = λ s h. inr h }

      keep_config-IsSettled :
          Ends
            (HasDatacenter dc)
            (get_datacenter_config_secret cfg (get_datacenter_config_secret_name dc) >>= λ kept.
              (if is_stored config kept.0
                then pure tt
                else store_config cfg hash config kept.0 kept.1)
              >> pure continue_reconcile)
            (IsSettled cfg dc)
      keep_config-IsSettled =
          Ends->>= _ (Kept cfg dc (get_datacenter_config_secret_name dc)) _ _ _
            (get_datacenter_config_secret-Kept cfg dc (get_datacenter_config_secret_name dc))
            (λ kept. record {
              at = λ s h.
                  (Ends->>= _ StoredOr _ _ _ (store_config-StoredOr kept h) (λ u. goes_on-IsSettled)
                      (λ e s h. tt)).at
                    s tt;
            })
            (λ e s h. tt)

    with_secret-IsSettled :
        (secret : Secret)
        → IsRead cfg dc.spec.config_secret secret
        → Ends
            (HasDatacenter dc)
            (check_datacenter_name_annotation cfg secret
              >> (lift_outcome (get_config_from_config_secret cfg dc secret) >>= λ config.
                  get_datacenter_config_secret cfg (get_datacenter_config_secret_name dc)
                  >>= λ kept.
                      (if is_stored config kept.0
                        then pure tt
                        else store_config cfg hash config kept.0 kept.1)
                      >> pure continue_reconcile))
            (IsSettled cfg dc)
    with_secret-IsSettled secret read =
        Ends->>= _ (λ r. HasDatacenter dc) _ _ _
          (Keeps-Ends _ (check_datacenter_name_annotation-HasDatacenter cfg dc secret))
          (λ u.
            Ends->>= _ (Lifted cfg dc (get_config_from_config_secret cfg dc secret)) _ _ _
              (lift_outcome-Lifted cfg dc (get_config_from_config_secret cfg dc secret))
              (λ config. record {
                at = λ s h. (keep_config-IsSettled secret config read h.0).at s h.1;
              })
              (λ e s h. tt))
          (λ e s h. tt)

    no_secret-IsSettled :
        (dc.spec.config_secret == "") ≡ true
        → Ends (HasDatacenter dc) (pure continue_reconcile) (IsSettled cfg dc)
    unfolding pure
    no_secret-IsSettled t = record {
      at = λ s h. inl ((string_eq.same_iff dc.spec.config_secret "").0 t);
    }

-- If CheckConfigSecret lets the reconciliation go on, then the datacenter names no secret, or its configuration was read
-- from the secret that it names, and the datacenter's own secret, as it was read, had that configuration already, or the
-- last call of the stage was to create the datacenter's own secret, which was read under its name or is new under
-- it, with that configuration, and succeeded.
pub check_config_secret-IsSettled :
    (cfg : Settings) (hash : Secret → String) (s : State)
    → IsSettled cfg s.dc (check_config_secret cfg hash s).0 (check_config_secret cfg hash s).1
unfolding check_config_secret get ◌>>=◌
check_config_secret-IsSettled cfg hash s =
    (Ends-if (HasDatacenter s.dc) (IsSettled cfg s.dc) (s.dc.spec.config_secret == "") _ _
        (no_secret-IsSettled cfg s.dc hash)
        (λ f.
          Ends->>= _ (Retrieved cfg s.dc s.dc.spec.config_secret) _ _ _
            (retrieve_secret-Retrieved cfg s.dc s.dc.spec.config_secret)
            (λ secret. record {
              at = λ s' h. (with_secret-IsSettled cfg s.dc hash secret h.0).at s' h.1;
            })
            (λ e s h. tt))).at
      s refl
