-- ===== src/Reconcile/Roles.antt =====
-- Roles that the management API was told to create.
use cass_operator.Prelude.{
  String, ◌≡◌, refl, ◌⊎◌, inl, inr, true, false, List, [], ◌∷◌, Option, none, some, All,
}
use cass_operator.Result.{Outcome, ok, err}
use cass_operator.Passing.{pure, fail, ◌>>=◌, outcome_of}
use cass_operator.Passing.Keeps.{Ends, Ends->>=, Keeps, Keeps-Ends}
use cass_operator.Datacenter.{CassandraUser, Status}
use cass_operator.Pods.{Pod, value_at}
use cass_operator.Reconcile.World.{
  Settings, State, Call, found, Secret, get, put, perform, attempt, create_role,
}
use cass_operator.Reconcile.Progress.{change_status, patch_dc_status}
use cass_operator.Reconcile.Cases.{Ends-answer}
use cass_operator.Reconcile.Secrets.{retrieve_secret}
use cass_operator.Reconcile.Users.{upsert_user, upsert_users}

abbrev pub IsMade : Call → List Call → Type 0
IsMade c [] = true ≡ false
IsMade c (d ∷ t) = (d ≡ c) ⊎ IsMade c t

-- A pod was told to create the role of the user's secret.
abbrev pub HasRole : Settings → List Call → CassandraUser → Type 0
HasRole cfg trace user =
    (secret : Secret) × (t : List Call) × (cfg.get_secret t user.secret_name ≡ found secret)
    × (p : Pod) × IsMade
        (create_role p (value_at "username" secret.contents) (value_at "password" secret.contents)
          user.superuser)
        trace

abbrev pub AllHaveRoles : Settings → List CassandraUser → State → Type 0
AllHaveRoles cfg users s = All (HasRole cfg s.trace) users

module _ (cfg : Settings) (user : CassandraUser) where
  HasRole-later : (c : Call) (t : List Call) → HasRole cfg t user → HasRole cfg (c ∷ t) user
  HasRole-later c t (secret, read, is_read, p, made) = (secret, read, is_read, p, inr made)

module _ (cfg : Settings) where
  All-later :
      (users : List CassandraUser) (c : Call) (t : List Call)
      → All (HasRole cfg t) users
      → All (HasRole cfg (c ∷ t)) users
  All-later [] c t h = tt
  All-later (user ∷ users) c t h = (HasRole-later cfg user c t h.0, All-later users c t h.1)

  module _ (users : List CassandraUser) where
    perform-AllHaveRoles : (c : Call) → Keeps (AllHaveRoles cfg users) (perform cfg c)
    unfolding perform
    perform-AllHaveRoles c = record { at = λ s h. All-later users c s.trace h }

    pub change_status-AllHaveRoles :
        (change : Status → Status) → Keeps (AllHaveRoles cfg users) (change_status change)
    unfolding change_status get put ◌>>=◌
    change_status-AllHaveRoles change = record { at = λ s h. h }

    pub patch_dc_status-AllHaveRoles : Keeps (AllHaveRoles cfg users) (patch_dc_status cfg)
    unfolding patch_dc_status get perform ◌>>=◌
    patch_dc_status-AllHaveRoles = record { at = λ s h. All-later users _ s.trace h }

    attempt-AllHaveRoles : (c : Call) → Keeps (AllHaveRoles cfg users) (attempt cfg c)
    unfolding attempt
    attempt-AllHaveRoles c = record { at = λ s h. All-later users c s.trace h }

  module _ (users : List CassandraUser) (user : CassandraUser) where
    abbrev Read : Outcome Secret → State → Type 0
    Read (ok secret) s =
        AllHaveRoles cfg users s
        × ((t : List Call) × (cfg.get_secret t user.secret_name ≡ found secret))
    Read (err e) s = Unit

    fail-Read : (e : String) (P : State → Type 0) → Ends P (fail e) Read
    unfolding fail
    fail-Read e P = record { at = λ s h. tt }

    pure-Read :
        (secret : Secret) (t : List Call)
        → cfg.get_secret t user.secret_name ≡ found secret
        → Ends (AllHaveRoles cfg users) (pure secret) Read
    unfolding pure
    pure-Read secret t e = record { at = λ s h. (h, (t, e)) }

    get-AllHaveRoles : Keeps (AllHaveRoles cfg users) get
    unfolding get
    get-AllHaveRoles = record { at = λ s h. h }

    retrieve_secret-Read : Ends (AllHaveRoles cfg users) (retrieve_secret cfg user.secret_name) Read
    unfolding retrieve_secret
    retrieve_secret-Read =
        Ends->>= _ (λ r. AllHaveRoles cfg users) _ _ _ (Keeps-Ends _ get-AllHaveRoles)
          (λ s.
            Ends-answer _ _ (cfg.get_secret s.trace user.secret_name) _ _ _
              (λ secret e. pure-Read secret s.trace e) (λ e. fail-Read "the secret is not found" _)
              (λ text e. fail-Read text _))
          (λ e s h. tt)

    abbrev pub Upserted : Outcome (Unit {0}) → State → Type 0
    Upserted (ok u) s = AllHaveRoles cfg (user ∷ users) s
    Upserted (err e) s = Unit

    create_role-Upserted :
        (secret : Secret) (t : List Call) (p : Pod)
        → cfg.get_secret t user.secret_name ≡ found secret
        → Ends
            (AllHaveRoles cfg users)
            (perform cfg (
              create_role p
                (value_at "username" secret.contents)
                (value_at "password" secret.contents)
                user.superuser))
            Upserted
    unfolding perform
    create_role-Upserted secret t p e = record {
      at = λ s h. by_answer s h (cfg.failure s.trace call);
    }
      where
        call : Call
        call =
            create_role p (value_at "username" secret.contents)
              (value_at "password" secret.contents) user.superuser

        by_answer :
            (s : State)
            → AllHaveRoles cfg users s
            → (o : Option String) → Upserted (outcome_of o) (record s { trace = call ∷ s.trace })
        by_answer s h none = ((secret, t, e, p, inl refl), All-later users call s.trace h)
        by_answer s h (some text) = tt

    fail-Upserted : (e : String) (P : State → Type 0) → Ends P (fail e) Upserted
    unfolding fail
    fail-Upserted e P = record { at = λ s h. tt }

    with_pods-Upserted :
        (secret : Secret) (t : List Call) (ps : List Pod)
        → cfg.get_secret t user.secret_name ≡ found secret
        → Ends
            (AllHaveRoles cfg users)
            (elim ps [
              | [] ↦ fail "index out of range"
              | p ∷ ps ↦ perform cfg (
                  create_role p
                    (value_at "username" secret.contents)
                    (value_at "password" secret.contents)
                    user.superuser)
            ])
            Upserted
    with_pods-Upserted secret t [] e = fail-Upserted _ _
    with_pods-Upserted secret t (p ∷ ps) e = create_role-Upserted secret t p e

    upsert_user-Upserted : Ends (AllHaveRoles cfg users) (upsert_user cfg user) Upserted
    unfolding upsert_user
    upsert_user-Upserted =
        Ends->>= _ Read _ _ _ retrieve_secret-Read
          (λ secret. record {
            at = λ s h.
                (Ends->>= _ (λ r. AllHaveRoles cfg users) _ _ _ (Keeps-Ends _ get-AllHaveRoles)
                    (λ s'. with_pods-Upserted secret h.1.0 s'.dc_pods h.1.1) (λ e s h. tt)).at
                  s h.0;
          })
          (λ e s h. tt)

  abbrev pub AllUpserted : (before users : List CassandraUser) → Outcome (Unit {0}) → State → Type 0
  AllUpserted before users (ok u) s = AllHaveRoles cfg before s × AllHaveRoles cfg users s
  AllUpserted before users (err e) s = Unit

  reorder :
      (before users : List CassandraUser) (user : CassandraUser) (r : Outcome (Unit {0}))
      (s : State)
      → AllUpserted (user ∷ before) users r s
      → AllUpserted before (user ∷ users) r s
  reorder before users user (ok u) s h = (h.0.1, (h.0.0, h.1))
  reorder before users user (err e) s h = tt

  pub upsert_users-AllUpserted :
      (users before : List CassandraUser)
      → Ends (AllHaveRoles cfg before) (upsert_users cfg users) (AllUpserted before users)
  unfolding upsert_users pure
  upsert_users-AllUpserted [] before = record { at = λ s h. (h, tt) }
  upsert_users-AllUpserted (user ∷ users) before =
      Ends->>= _ (Upserted before user) _ _ _ (upsert_user-Upserted before user)
        (λ u. record {
          at = λ s h.
              reorder before users user _ _
                ((upsert_users-AllUpserted users (user ∷ before)).at s h);
        })
        (λ e s h. tt)
