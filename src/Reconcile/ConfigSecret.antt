-- ===== src/Reconcile/ConfigSecret.antt =====
-- The configuration in a secret: CheckConfigSecret of reconcile_configsecret.go.
use cass_operator.Prelude.{
  String, Bool, true, false, [], ◌∷◌, none, some, ◌==◌, lookup, insert, if◌then◌else◌, string_eq,
}
use cass_operator.Result.{Outcome, err, ReconcileResult, continue_reconcile}
use cass_operator.Passing.{pure, fail, lift_outcome, ◌>>=◌, ◌>>◌}
use cass_operator.Datacenter.{Datacenter}
use cass_operator.Construct.Config.{
  get_config_as_json, get_datacenter_config_secret_name, config_hash_annotation,
}
use cass_operator.Reconcile.World.{
  Settings, M, found, not_found, failed, Secret, get, put, perform, attempt, set_owner,
  patch_datacenter, patch_secret, update_secret, create_secret,
}
use cass_operator.Reconcile.Secrets.{retrieve_secret}

abbrev pub datacenter_annotation : String
datacenter_annotation = "cassandra.datastax.com/datacenter"

abbrev pub annotate : (name : String) → Secret → Secret
annotate name secret = record secret {
  annotations = insert datacenter_annotation name secret.annotations;
}

-- A patch that fails is logged by the caller. Go faults here on a secret without any annotation, whose map is nil.
unfoldable pub check_datacenter_name_annotation : Settings → Secret → M (Unit {0})
check_datacenter_name_annotation cfg secret = do
  s ← get
  elim (lookup datacenter_annotation secret.annotations) [
    | none ↦ elim secret.annotations [
      | [] ↦ fail "assignment to entry in nil map"
      | a ∷ m ↦ attempt cfg (patch_secret (annotate s.dc.name secret))
    ]
    | some v ↦
        if v == s.dc.name then pure tt else attempt cfg (patch_secret (annotate s.dc.name secret))
  ]

unfoldable pub get_config_from_config_secret : Settings → Datacenter → Secret → Outcome String
get_config_from_config_secret cfg dc secret = elim (lookup "config" secret.contents) [
  | none ↦ err "invalid config secret: config property is required"
  | some config ↦ get_config_as_json cfg.around dc (some config)
]

-- The secret that the operator keeps, and whether it is there
unfoldable pub get_datacenter_config_secret : Settings → (name : String) → M (Secret × Bool)
get_datacenter_config_secret cfg name = do
  s ← get
  elim (cfg.get_secret s.trace name) [
    | found secret ↦ pure (secret, true)
    | failed e ↦ fail e
    | not_found ↦ (do
      perform cfg (set_owner name)
      pure (record { name = name; annotations = []; contents = [] }, false))
  ]

-- The hash is that of the secret before it takes the new configuration. Go faults here on a datacenter
-- without any annotation.
unfoldable pub update_config_hash_annotation :
    Settings → (hash : Secret → String) → Secret → M (Unit {0})
update_config_hash_annotation cfg hash secret = do
  s ← get
  elim s.dc.annotations [
    | [] ↦ fail "assignment to entry in nil map"
    | a ∷ m ↦ (do
      let dc = record s.dc { annotations = insert config_hash_annotation (hash secret) (a ∷ m) }
      put (record s { dc = dc })
      perform cfg (patch_datacenter dc))
  ]

abbrev pub with_config : (config : String) → Secret → Secret
with_config config secret = record secret { contents = insert "config" config secret.contents }

-- Go faults here on a secret that is there without any entry, whose map is nil.
unfoldable pub update_existing : Settings → (config : String) → Secret → M (Unit {0})
update_existing cfg config secret = elim secret.contents [
  | [] ↦ fail "assignment to entry in nil map"
  | c ∷ cs ↦ perform cfg (update_secret (with_config config secret))
]

-- A secret that is there is updated, and then created as well.
unfoldable pub store_config :
    Settings
    → (hash : Secret → String) → (config : String) → Secret
    → (exists : Bool) → M (Unit {0})
store_config cfg hash config secret exists = do
  update_config_hash_annotation cfg hash secret
  if exists then update_existing cfg config secret else pure tt
  perform cfg (create_secret (with_config config secret))

abbrev pub is_stored : (config : String) → Secret → Bool
is_stored config secret = elim (lookup "config" secret.contents) [
  | none ↦ false
  | some stored ↦ stored == config
]

unfoldable pub check_config_secret : Settings → (hash : Secret → String) → M ReconcileResult
check_config_secret cfg hash = do
  s ← get
  if s.dc.spec.config_secret == "" then pure continue_reconcile else (do
    secret ← retrieve_secret cfg s.dc.spec.config_secret
    check_datacenter_name_annotation cfg secret
    config ← lift_outcome (get_config_from_config_secret cfg s.dc secret)
    kept ← get_datacenter_config_secret cfg (get_datacenter_config_secret_name s.dc)
    if is_stored config kept.0 then pure tt else store_config cfg hash config kept.0 kept.1
    pure continue_reconcile)
