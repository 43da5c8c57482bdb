-- ===== src/Reconcile/KeptSecret.antt =====
-- What the reads of CheckConfigSecret leave as it is, and what they find.
use cass_operator.Prelude.{
  String, ◌≡◌, refl, ◌⊎◌, inl, inr, Bool, true, List, [], ◌==◌, lookup, string_eq,
}
use cass_operator.Result.{Outcome, ok, err}
use cass_operator.Passing.{pure, fail, lift_outcome}
use cass_operator.Passing.Keeps.{
  Ends, Ends->>=, Ends-weaken, Keeps, Keeps-Ends, Keeps-pure, Keeps-fail, Keeps-if, Keeps->>=,
}
use cass_operator.Datacenter.{Datacenter}
use cass_operator.Reconcile.World.{
  Settings, State, Call, found, Secret, get, perform, attempt, patch_secret, set_owner,
}
use cass_operator.Reconcile.Cases.{Ends-answer, Keeps-option, Keeps-list}
use cass_operator.Reconcile.Secrets.{retrieve_secret}
use cass_operator.Reconcile.ConfigSecret.{
  datacenter_annotation, annotate, check_datacenter_name_annotation, get_datacenter_config_secret,
}

-- A read at some time found the secret.
abbrev pub IsRead : Settings → (name : String) → Secret → Type 0
IsRead cfg name secret = (t : List Call) × (cfg.get_secret t name ≡ found secret)

abbrev pub HasDatacenter : Datacenter → State → Type 0
HasDatacenter dc s = s.dc ≡ dc

abbrev pub Anything : State → Type 0
Anything s = Unit

module _ (cfg : Settings) (dc : Datacenter) where
  -- The state that is read
  abbrev Got : Outcome State → State → Type 0
  Got (ok s') s = (s'.dc ≡ dc) × (s.dc ≡ dc)
  Got (err e) s = Unit

  get-Got : Ends (HasDatacenter dc) get Got
  unfolding get
  get-Got = record { at = λ s h. (h, h) }

  abbrev pub Retrieved : (name : String) → Outcome Secret → State → Type 0
  Retrieved name (ok secret) s = IsRead cfg name secret × (s.dc ≡ dc)
  Retrieved name (err e) s = Unit

  pure-Retrieved :
      (name : String) (secret : Secret) (s : State)
      → IsRead cfg name secret
      → Ends (Got (ok s)) (pure secret) (Retrieved name)
  unfolding pure
  pure-Retrieved name secret s read = record { at = λ s h. (read, h.1) }

  fail-Retrieved : (name e : String) (P : State → Type 0) → Ends P (fail e) (Retrieved name)
  unfolding fail
  fail-Retrieved name e P = record { at = λ s h. tt }

  pub retrieve_secret-Retrieved :
      (name : String) → Ends (HasDatacenter dc) (retrieve_secret cfg name) (Retrieved name)
  unfolding retrieve_secret
  retrieve_secret-Retrieved name =
      Ends->>= _ Got _ _ _ get-Got
        (λ s.
          Ends-answer _ _ (cfg.get_secret s.trace name) _ _ _
            (λ secret e. pure-Retrieved name secret s (s.trace, e))
            (λ e. fail-Retrieved name "the secret is not found" _)
            (λ text e. fail-Retrieved name text _))
        (λ e s h. tt)

  perform-HasDatacenter : (c : Call) → Keeps (HasDatacenter dc) (perform cfg c)
  unfolding perform
  perform-HasDatacenter c = record { at = λ s h. h }

  attempt-HasDatacenter : (c : Call) → Keeps (HasDatacenter dc) (attempt cfg c)
  unfolding attempt
  attempt-HasDatacenter c = record { at = λ s h. h }

  get-HasDatacenter : Keeps (HasDatacenter dc) get
  unfolding get
  get-HasDatacenter = record { at = λ s h. h }

  pub check_datacenter_name_annotation-HasDatacenter :
      (secret : Secret) → Keeps (HasDatacenter dc) (check_datacenter_name_annotation cfg secret)
  unfolding check_datacenter_name_annotation
  check_datacenter_name_annotation-HasDatacenter secret = Keeps->>= _ _ get-HasDatacenter (λ s.
      Keeps-option _ (lookup datacenter_annotation secret.annotations) _ _
        (Keeps-list _ secret.annotations _ _ (Keeps-fail _ _)
          (λ a m. attempt-HasDatacenter (patch_secret (annotate s.dc.name secret))))
        (λ v.
          Keeps-if (v == s.dc.name) _ _ (Keeps-pure tt)
            (attempt-HasDatacenter (patch_secret (annotate s.dc.name secret)))))

  -- The value of a computation that does not touch the state
  abbrev pub Lifted : {A : Type 0} → Outcome A → Outcome A → State → Type 0
  Lifted o (ok a) s = (o ≡ ok a) × (s.dc ≡ dc)
  Lifted o (err e) s = Unit

  pub lift_outcome-Lifted :
      {A : Type 0} (o : Outcome A) → Ends (HasDatacenter dc) (lift_outcome o) (Lifted o)
  unfolding lift_outcome pure fail
  lift_outcome-Lifted (ok a) = record { at = λ s h. (refl, h) }
  lift_outcome-Lifted (err e) = record { at = λ s h. tt }

  -- The secret of the name as it was read, or a new one of that name
  abbrev pub IsKept : (name : String) → Secret → Type 0
  IsKept name kept =
      IsRead cfg name kept ⊎ (kept ≡ record { name = name; annotations = []; contents = [] })

  abbrev pub Kept : (name : String) → Outcome (Secret × Bool) → State → Type 0
  Kept name (ok kept) s = IsKept name kept.0
  Kept name (err e) s = Unit

  pure-Kept :
      (name : String) (kept : Secret × Bool) (P : State → Type 0)
      → IsKept name kept.0
      → Ends P (pure kept) (Kept name)
  unfolding pure
  pure-Kept name kept P h = record { at = λ s _. h }

  fail-Kept : (name e : String) (P : State → Type 0) → Ends P (fail e) (Kept name)
  unfolding fail
  fail-Kept name e P = record { at = λ s h. tt }

  pub get_datacenter_config_secret-Kept :
      (name : String) → Ends (HasDatacenter dc) (get_datacenter_config_secret cfg name) (Kept name)
  unfolding get_datacenter_config_secret
  get_datacenter_config_secret-Kept name =
      Ends->>= _ Got _ _ _ get-Got
        (λ s.
          Ends-weaken (HasDatacenter dc) _ _ _ (λ s h. h.1)
            (Ends-answer _ _ (cfg.get_secret s.trace name) _ _ _
              (λ secret e. pure-Kept name (secret, true) _ (inl (s.trace, e)))
              (λ e.
                Ends->>= _ (λ r. HasDatacenter dc) _ _ _
                  (Keeps-Ends _ (perform-HasDatacenter (set_owner name)))
                  (λ u. pure-Kept name _ _ (inr refl)) (λ e s h. tt))
              (λ text e. fail-Kept name text _)))
        (λ e s h. tt)
