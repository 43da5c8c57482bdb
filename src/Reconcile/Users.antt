-- ===== src/Reconcile/Users.antt =====
-- The users of the database: CreateUsers of reconcile_racks.go.
use cass_operator.Prelude.{ℕ, String, ◌+◌, Bool, true, List, [], ◌∷◌, ◌++◌, ltb, if◌then◌else◌}
use cass_operator.Result.{Outcome, ok, ReconcileResult, continue_reconcile}
use cass_operator.Passing.{pure, fail, ◌>>=◌, ◌>>◌}
use cass_operator.Datacenter.{Status, Datacenter, CassandraUser}
use cass_operator.Pods.{value_at}
use cass_operator.Reconcile.World.{Settings, M, get, perform, attempt, create_role, update_watches}
use cass_operator.Reconcile.Progress.{change_status, patch_dc_status}
use cass_operator.Reconcile.Secrets.{
  retrieve_secret, get_superuser_secret_name, retrieve_superuser_secret_or_create_default,
}

unfoldable pub should_upsert_users : (now : ℕ) → Datacenter → Bool
should_upsert_users now dc = ltb (dc.status.users_upserted + 240) now

unfoldable pub get_users : Datacenter → List CassandraUser
get_users dc =
    dc.spec.users ++ (record { secret_name = get_superuser_secret_name dc; superuser = true } ∷ [])

-- The first pod takes the call.
unfoldable pub upsert_user : Settings → CassandraUser → M (Unit {0})
upsert_user cfg user = do
  secret ← retrieve_secret cfg user.secret_name
  s ← get
  elim s.dc_pods [
    | [] ↦ fail "index out of range"
    | p ∷ ps ↦ perform cfg (
        create_role p (value_at "username" secret.contents) (value_at "password" secret.contents)
          user.superuser)
  ]

unfoldable pub upsert_users : Settings → List CassandraUser → M (Unit {0})
upsert_users cfg [] = pure tt
upsert_users cfg (user ∷ users) = do upsert_user cfg user; upsert_users cfg users

-- The outcome is dropped.
unfoldable pub ignore : {A : Type 0} → M A → M (Unit {0})
ignore m s = let (r, s') = m s in (ok tt, s')

abbrev pub with_users_upserted : (now : ℕ) → Status → Status
with_users_upserted now status = record status { users_upserted = now; super_user_upserted = now }

-- The watches and the default secret are tried for; their errors do not count.
unfoldable pub create_users : Settings → (password : Outcome String) → M ReconcileResult
create_users cfg password = do
  s ← get
  if s.dc.spec.stopped then pure continue_reconcile else (do
    attempt cfg update_watches
    ignore (retrieve_superuser_secret_or_create_default cfg password)
    upsert_users cfg (get_users s.dc)
    change_status (with_users_upserted cfg.now)
    patch_dc_status cfg
    pure continue_reconcile)
