-- ===== src/Reconcile/Traced.antt =====
-- Calls that were made, and operations that forget none.
use cass_operator.Prelude.{
  ℕ, ◌≡◌, ◌⊎◌, inl, inr, Bool, true, false, List, [], ◌∷◌, Option, none, some,
}
use cass_operator.Passing.{pure, fail, ◌>>=◌}
use cass_operator.Passing.Keeps.{Keeps, Keeps->>=, Keeps-pure, keeps_rules}
use cass_operator.Templates.{StatefulSet}
use cass_operator.Datacenter.{ConditionType, ConditionStatus, ProgressState, Status}
use cass_operator.Racks.{RackInformation}
use cass_operator.Reconcile.World.{
  Settings, State, Call, get, put, perform, stateful_set_at, store_stateful_set, deref, nth,
}
use cass_operator.Reconcile.Progress.{
  change_status, patch_dc_status, set_operator_progress_status, set_dc_condition, patch_if,
  update_rack_node_count,
}
use cass_operator.Reconcile.Scaling.{announce_scale, scale_rack, scale_racks}
use cass_operator.Reconcile.Roles.{IsMade}

-- The call was made, and did not fail.
abbrev pub IsDone : Settings → Call → List Call → Type 0
IsDone cfg c [] = true ≡ false
IsDone cfg c (d ∷ t) = ((d ≡ c) × (cfg.failure t d ≡ none)) ⊎ IsDone cfg c t

pub IsDone-IsMade : (cfg : Settings) (c : Call) (t : List Call) → IsDone cfg c t → IsMade c t
IsDone-IsMade cfg c [] h = h
IsDone-IsMade cfg c (d ∷ t) (inl h) = inl h.0
IsDone-IsMade cfg c (d ∷ t) (inr h) = inr (IsDone-IsMade cfg c t h)

module _ (cfg : Settings) (Q : List Call → Type 0)
    (grows : (c : Call) (t : List Call) → Q t → Q (c ∷ t)) where
  abbrev P : State → Type 0
  P s = Q s.trace

  perform-Traced : (c : Call) → Keeps P (perform cfg c)
  unfolding perform
  perform-Traced c = record { at = λ s h. grows c s.trace h }

  get-Traced : Keeps P get
  unfolding get
  get-Traced = record { at = λ s h. h }

  change_status-Traced : (change : Status → Status) → Keeps P (change_status change)
  unfolding change_status get put ◌>>=◌
  change_status-Traced change = record { at = λ s h. h }

  set_dc_condition-Traced :
      (type : ConditionType) (status : ConditionStatus) → Keeps P (set_dc_condition cfg type status)
  unfolding set_dc_condition get put ◌>>=◌ pure
  set_dc_condition-Traced type status = record { at = λ s h. h }

  patch_dc_status-Traced : Keeps P (patch_dc_status cfg)
  unfolding patch_dc_status get perform ◌>>=◌
  patch_dc_status-Traced = record { at = λ s h. grows _ s.trace h }

  patch_if-Traced : (b : Bool) → Keeps P (patch_if cfg b)
  unfolding patch_if
  patch_if-Traced true = patch_dc_status-Traced
  patch_if-Traced false = Keeps-pure tt

  set_operator_progress_status-Traced :
      (new : ProgressState) → Keeps P (set_operator_progress_status cfg new)
  unfolding set_operator_progress_status
  set_operator_progress_status-Traced new =
      search (keeps_rules, get-Traced, change_status-Traced, patch_dc_status-Traced)

  store_stateful_set-Traced : (i : ℕ) (sts : StatefulSet) → Keeps P (store_stateful_set i sts)
  unfolding store_stateful_set
  store_stateful_set-Traced i sts = record { at = λ s h. h }

  deref-Traced : (o : Option StatefulSet) → Keeps P (deref o)
  unfolding deref pure fail
  deref-Traced none = record { at = λ s h. h }
  deref-Traced (some sts) = record { at = λ s h. h }

  stateful_set_at-Traced : (i : ℕ) → Keeps P (stateful_set_at i)
  unfolding stateful_set_at
  stateful_set_at-Traced i = record { at = λ s h. (deref-Traced (nth i s.stateful_sets)).at s h }

  announce_scale-Traced : Keeps P (announce_scale cfg)
  unfolding announce_scale
  announce_scale-Traced = search (keeps_rules, get-Traced, set_dc_condition-Traced)

  update_rack_node_count-Traced :
      (i : ℕ) (sts : StatefulSet) (count : ℕ) → Keeps P (update_rack_node_count cfg i sts count)
  unfolding update_rack_node_count
  update_rack_node_count-Traced i sts count =
      search (
        keeps_rules, set_operator_progress_status-Traced, store_stateful_set-Traced, perform-Traced,
      )

  scale_rack-Traced : (i : ℕ) (info : RackInformation) → Keeps P (scale_rack cfg i info)
  unfolding scale_rack
  scale_rack-Traced i info =
      search
        (
          keeps_rules, stateful_set_at-Traced, announce_scale-Traced, patch_if-Traced,
          update_rack_node_count-Traced,
        )
        depth 8

  pub scale_racks-Traced :
      (infos : List RackInformation) (i : ℕ) → Keeps P (scale_racks cfg i infos)
  unfolding scale_racks
  scale_racks-Traced [] i = Keeps-pure _
  scale_racks-Traced (info ∷ infos) i =
      Keeps->>= _ _ (scale_rack-Traced i info) (λ u. scale_racks-Traced infos _)
