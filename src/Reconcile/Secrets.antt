-- ===== src/Reconcile/Secrets.antt =====
-- Secrets of users and of nodes: operator/pkg/reconciliation/secrets.go with CheckSuperuserSecretCreation and
-- CheckInternodeCredentialCreation of reconcile_racks.go. Random passwords, certificates and key stores are
-- arguments: operator/pkg/utils/crypto.go makes them by library calls.
use cass_operator.Prelude.{
  String, append, Bool, List, [], ◌∷◌, ◌++◌, Option, none, some, ◌==◌, lookup, if◌then◌else◌,
  string_eq,
}
use cass_operator.Result.{Outcome, ok, err, ReconcileResult, continue_reconcile}
use cass_operator.Passing.{pure, fail, lift_outcome, ◌>>=◌, ◌>>◌}
use cass_operator.Datacenter.{Datacenter, CassandraUser}
use cass_operator.Reconcile.World.{
  Settings, State, M, found, not_found, failed, Secret, get, perform, create_secret,
}

unfoldable pub retrieve_secret : Settings → (name : String) → M Secret
retrieve_secret cfg name = do
  s ← get
  elim (cfg.get_secret s.trace name) [
    | found secret ↦ pure secret
    | not_found ↦ fail "the secret is not found"
    | failed e ↦ fail e
  ]

unfoldable pub should_generate_superuser_secret : Datacenter → Bool
should_generate_superuser_secret dc = dc.spec.superuser_secret_name == ""

unfoldable pub get_superuser_secret_name : Datacenter → String
get_superuser_secret_name dc =
    if dc.spec.superuser_secret_name == ""
    then append dc.spec.cluster_name "-superuser"
    else dc.spec.superuser_secret_name

-- `none` where the secret is the user's own
unfoldable pub build_default_superuser_secret :
    (password : Outcome String) → Datacenter → Outcome (Option Secret)
build_default_superuser_secret password dc =
    if should_generate_superuser_secret dc
    then elim password [
      | err e ↦ err e
      | ok text ↦ ok (
          some (record {
            name = get_superuser_secret_name dc;
            annotations = [];
            contents =
                ("username", append dc.spec.cluster_name "-superuser") ∷ ("password", text) ∷ [];
          }))
    ]
    else ok none

unfoldable pub retrieve_superuser_secret_or_create_default :
    Settings → (password : Outcome String) → M (Unit {0})
retrieve_superuser_secret_or_create_default cfg password = do
  s ← get
  elim (cfg.get_secret s.trace (get_superuser_secret_name s.dc)) [
    | found secret ↦ pure tt
    | failed e ↦ fail e
    | not_found ↦ lift_outcome (build_default_superuser_secret password s.dc) >>= λ built.
        elim built [
          | none ↦ fail "the secret is not found"
          | some secret ↦ perform cfg (create_secret secret)
        ]
  ]

unfoldable pub check_superuser_secret_creation :
    Settings → (password : Outcome String) → M ReconcileResult
check_superuser_secret_creation cfg password = do
  retrieve_superuser_secret_or_create_default cfg password
  pure continue_reconcile

-- The certificate authority's key and certificate, and the key store made of them
pub record Certificates : Type 0 where
  pub key_and_certificate : Outcome (String × String)
  pub keystore : String × String → Outcome String

-- A key store that is there, or whose read succeeds, is kept.
unfoldable pub create_ca_bootstrapping_secret : Settings → (jks : String) → M (Unit {0})
create_ca_bootstrapping_secret cfg jks = do
  s ← get
  let name = append s.dc.name "-keystore"
  let secret : Secret = record {
    name = name;
    annotations = [];
    contents = ("node-keystore.jks", jks) ∷ [];
  }
  elim (cfg.get_secret s.trace name) [
    | found old ↦ pure tt
    | not_found ↦ perform cfg (create_secret secret)
    | failed e ↦ perform cfg (create_secret secret)
  ]

unfoldable pub create_internode_credential :
    Settings → Certificates → (name : String) → M (Unit {0})
create_internode_credential cfg certificates name = do
  pair ← lift_outcome certificates.key_and_certificate
  perform cfg (
      create_secret (record {
        name = name;
        annotations = [];
        contents = ("key", pair.0) ∷ ("cert", pair.1) ∷ [];
      }))
  jks ← lift_outcome (certificates.keystore pair)
  create_ca_bootstrapping_secret cfg jks

unfoldable pub check_internode_credential_creation : Settings → Certificates → M ReconcileResult
check_internode_credential_creation cfg certificates = do
  s ← get
  let name = append s.dc.name "-ca-keystore"
  elim (cfg.get_secret s.trace name) [
    | found secret ↦ pure continue_reconcile
    | failed e ↦ fail e
    | not_found ↦ create_internode_credential cfg certificates name >>= λ _. pure continue_reconcile
  ]

-- The errors of a user's secret; `is_utf8` is utf8.Valid.
key_errors : (is_utf8 : String → Bool) → Secret → (key : String) → List String
key_errors is_utf8 secret key = elim (lookup key secret.contents) [
  | none ↦ append "Missing key: " key ∷ []
  | some value ↦ if is_utf8 value then [] else append "Key did not have valid utf8 value: " key ∷ []
]

unfoldable pub validate_cassandra_user_secret_content :
    (is_utf8 : String → Bool) → Secret → List String
unfolding key_errors
validate_cassandra_user_secret_content is_utf8 secret =
    key_errors is_utf8 secret "username" ++ key_errors is_utf8 secret "password"

unfoldable pub validate_superuser_secret :
    (is_utf8 : String → Bool) → Settings → State → List String
validate_superuser_secret is_utf8 cfg s =
    elim (cfg.get_secret s.trace (get_superuser_secret_name s.dc)) [
      | found secret ↦ validate_cassandra_user_secret_content is_utf8 secret
      | failed e ↦ append "Validation of superuser secret failed due to an error: " e ∷ []
      | not_found ↦
          if should_generate_superuser_secret s.dc
          then []
          else append "Could not load superuser secret for CassandraCluster: "
              (get_superuser_secret_name s.dc)
            ∷ []
    ]

unfoldable pub validate_users :
    (is_utf8 : String → Bool) → Settings → State → List CassandraUser → List String
validate_users is_utf8 cfg s [] = []
validate_users is_utf8 cfg s (user ∷ users) =
    elim (cfg.get_secret s.trace user.secret_name) [
      | found secret ↦ validate_cassandra_user_secret_content is_utf8 secret
      | not_found ↦ "Validation of user secret failed due to an error: not found" ∷ []
      | failed e ↦ append "Validation of user secret failed due to an error: " e ∷ []
    ]
    ++ validate_users is_utf8 cfg s users

unfoldable pub validate_cassandra_user_secrets :
    (is_utf8 : String → Bool) → Settings → State → List String
validate_cassandra_user_secrets is_utf8 cfg s = validate_users is_utf8 cfg s s.dc.spec.users
