-- ===== src/Reconcile/Served.antt =====
-- Whose roles CreateUsers has created where it lets the reconciliation go on.
use cass_operator.Prelude.{String, ◌≡◌, refl, Bool, true, false, List, [], if◌then◌else◌}
use cass_operator.Result.{Outcome, ok, err, ReconcileResult, continue_reconcile}
use cass_operator.Passing.{pure, ◌>>=◌, ◌>>◌}
use cass_operator.Passing.Keeps.{Ends, Ends->>=, Keeps-Ends}
use cass_operator.Datacenter.{CassandraUser}
use cass_operator.Reconcile.World.{Settings, State, get, attempt, update_watches}
use cass_operator.Reconcile.Progress.{change_status, patch_dc_status}
use cass_operator.Reconcile.Secrets.{retrieve_superuser_secret_or_create_default}
use cass_operator.Reconcile.Users.{
  get_users, upsert_users, ignore, with_users_upserted, create_users,
}
use cass_operator.Reconcile.Roles.{
  AllHaveRoles, AllUpserted, change_status-AllHaveRoles, patch_dc_status-AllHaveRoles,
  upsert_users-AllUpserted,
}

abbrev pub Served :
    Settings → List CassandraUser → (stopped : Bool) → Outcome ReconcileResult → State → Type 0
Served cfg users true r s = r ≡ ok continue_reconcile
Served cfg users false (ok r) s = AllHaveRoles cfg users s
Served cfg users false (err e) s = Unit

module _ (cfg : Settings) (users : List CassandraUser) where
  goes_on-Served : Ends (AllHaveRoles cfg users) (pure continue_reconcile) (Served cfg users false)
  unfolding pure
  goes_on-Served = record { at = λ s h. h }

  serve-Served :
      (password : Outcome String)
      → Ends
          (AllHaveRoles cfg [])
          (attempt cfg update_watches
            >> (ignore (retrieve_superuser_secret_or_create_default cfg password)
                >> (upsert_users cfg users
                    >> (change_status (with_users_upserted cfg.now)
                        >> (patch_dc_status cfg >> pure continue_reconcile)))))
          (Served cfg users false)
  serve-Served password =
      Ends->>= _ (λ r. AllHaveRoles cfg []) _ _ _ (record { at = λ s h. tt })
        (λ u.
          Ends->>= _ (λ r. AllHaveRoles cfg []) _ _ _ (record { at = λ s h. tt })
            (λ u.
              Ends->>= _ (AllUpserted cfg [] users) _ _ _ (upsert_users-AllUpserted cfg users [])
                (λ u. record {
                  at = λ s h.
                      (Ends->>= _ (λ r. AllHaveRoles cfg users) _ _ _
                          (Keeps-Ends _ (change_status-AllHaveRoles cfg users _))
                          (λ u.
                            Ends->>= _ (λ r. AllHaveRoles cfg users) _ _ _
                              (Keeps-Ends _ (patch_dc_status-AllHaveRoles cfg users))
                              (λ u. goes_on-Served) (λ e s h. tt))
                          (λ e s h. tt)).at
                        s h.1;
                })
                (λ e s h. tt))
            (λ e s h. tt))
        (λ e s h. tt)

-- If the datacenter is not stopped and CreateUsers lets the reconciliation go on, then for every user of GetUsers a
-- pod was told to create the role of the user's secret as it was read, with the user's right;
-- if the datacenter is stopped, the reconciliation goes on.
pub create_users-Served :
    (cfg : Settings) (password : Outcome String) (s : State)
    → Served cfg
        (get_users s.dc)
        s.dc.spec.stopped
        (create_users cfg password s).0
        (create_users cfg password s).1
unfolding create_users get ◌>>=◌ pure
create_users-Served cfg password s = by_stop s.dc.spec.stopped
  where
    by_stop :
        (stopped : Bool)
        → let (r, s') =
            (if stopped
                then pure continue_reconcile
                else attempt cfg update_watches
                  >> (ignore (retrieve_superuser_secret_or_create_default cfg password)
                      >> (upsert_users cfg (get_users s.dc)
                          >> (change_status (with_users_upserted cfg.now)
                              >> (patch_dc_status cfg >> pure continue_reconcile)))))
              s in
          Served cfg (get_users s.dc) stopped r s'
    by_stop true = refl
    by_stop false = (serve-Served cfg (get_users s.dc) password).at s tt
