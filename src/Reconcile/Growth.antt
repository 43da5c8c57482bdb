-- ===== src/Reconcile/Growth.antt =====
-- What CheckRackScale makes of the racks' stateful sets, whichever of its calls fail.
use cass_operator.Prelude.{
  ℕ, zero, suc, String, ◌+◌, ◌<◌, ◌≡◌, refl, ◌∙◌, List, [], ◌∷◌, Option, none, some, arith,
  get_elem?, inl, inr,
}
use cass_operator.Result.{Outcome, ok, err}
use cass_operator.Passing.{pure}
use cass_operator.Passing.Keeps.{Ends, Ends->>=}
use cass_operator.Templates.{StatefulSet}
use cass_operator.Racks.{RackInformation}
use cass_operator.Reconcile.World.{Settings, State, Call, nth, patch_stateful_set}
use cass_operator.Reconcile.Scaling.{scale_racks, check_rack_scale}
use cass_operator.Reconcile.Traced.{IsDone, IsDone-IsMade, scale_racks-Traced}
use cass_operator.Reconcile.Untouched.{HasSets}
use cass_operator.Reconcile.OneRack.{Grows, Grows-refl, Reaches, Stepped, scale_rack-Ends}

-- The racks from an index on
abbrev pub Scaled :
    {A : Type 0}
    → Settings
    → Option RackInformation
    → Outcome A
    → (before after : Option StatefulSet) → (trace : List Call) → Type 0
Scaled cfg none r before after t = after ≡ before
Scaled cfg (some info) r before after t =
    Grows cfg info.node_count r before after t × Reaches r info.node_count after

-- What was sent stays sent, whatever follows.
Grows-later :
    {A : Type 0} (cfg : Settings) (n : ℕ) (r : Outcome A) (before after : Option StatefulSet)
    (t t' : List Call)
    → ((c : Call) → IsDone cfg c t → IsDone cfg c t')
    → Grows {A = Unit {0}} cfg n (ok tt) before after t
    → Grows cfg n r before after t'
Grows-later cfg n r none after t t' later h = h
Grows-later cfg n r (some sts) after t t' later (inl h) = inl h
Grows-later cfg n (ok a) (some sts) after t t' later (inr (lt, e, sent)) =
    inr (lt, e, later (patch_stateful_set (record sts { replicas = n })) sent)
Grows-later cfg n (err x) (some sts) after t t' later (inr (lt, e, sent)) =
    inr (
      lt,
      e,
      IsDone-IsMade cfg _ t' (later (patch_stateful_set (record sts { replicas = n })) sent),
    )

-- The racks of a loop that begins at `i`, and the sets before that index
record Looped {A : Type 0} (cfg : Settings) (i : ℕ) (infos : List RackInformation)
    (before : List (Option StatefulSet)) (r : Outcome A) (after : List (Option StatefulSet))
    (t : List Call) : Type 0 where
  pub below : (k : ℕ) → k < i → nth k after ≡ nth k before
  pub from : (j k : ℕ) → k ≡ i + j → Scaled cfg (get_elem? infos j) r (nth k before) (nth k after) t

Looped-err :
    {A : Type 0} (cfg : Settings) (i : ℕ) (info : RackInformation) (infos : List RackInformation)
    (e : String) (before after : List (Option StatefulSet)) (t : List Call)
    → Stepped {A = Unit {0}} cfg i info.node_count before (err e) after t
    → Looped {A = A} cfg i (info ∷ infos) before (err e) after t
Looped-err {A} cfg i info infos e before after t stepped = record {
  below = λ k lt. stepped.others k (ground arith);
  from = from;
}
  where
    unchanged :
        (o : Option RackInformation) (k : ℕ)
        → nth k after ≡ nth k before
        → Scaled {A = A} cfg o (err e) (nth k before) (nth k after) t
    unchanged none k same = same
    unchanged (some info) k same =
        (rw same (Grows-refl {A = A} cfg info.node_count (err e) (nth k before) t), tt)

    from :
        (j k : ℕ)
        → k ≡ i + j
        → Scaled {A = A} cfg (get_elem? (info ∷ infos) j) (err e) (nth k before) (nth k after) t
    from zero k h = let same : k ≡ i = omega arith in rw same (stepped.grows, tt)
    from (suc j) k h = unchanged (get_elem? infos j) k (stepped.others k (ground arith))

Looped-step :
    {A : Type 0} (cfg : Settings) (i : ℕ) (info : RackInformation) (infos : List RackInformation)
    (r : Outcome A) (before middle after : List (Option StatefulSet)) (t t' : List Call)
    → ((c : Call) → IsDone cfg c t → IsDone cfg c t')
    → Stepped {A = Unit {0}} cfg i info.node_count before (ok tt) middle t
    → Looped cfg (i + 1) infos middle r after t'
    → Looped cfg i (info ∷ infos) before r after t'
Looped-step {A} cfg i info infos r before middle after t t' later stepped rest = record {
  below = λ k lt. rest.below k (omega arith) ∙ stepped.others k (ground arith);
  from = from;
}
  where
    stays : nth i after ≡ nth i middle
    stays = rest.below i (omega arith)

    reached : (r : Outcome A) → Reaches r info.node_count (nth i after)
    reached (ok a) = (stepped.reaches.0, stays ∙ stepped.reaches.1, stepped.reaches.2)
    reached (err e) = tt

    grown : Grows cfg info.node_count r (nth i before) (nth i after) t'
    grown =
        rw stays
          (Grows-later cfg info.node_count r (nth i before) (nth i middle) t t' later stepped.grows)

    from :
        (j k : ℕ)
        → k ≡ i + j
        → Scaled cfg (get_elem? (info ∷ infos) j) r (nth k before) (nth k after) t'
    from zero k h = let same : k ≡ i = omega arith in rw same (grown, reached r)
    from (suc j) k h = rw (← stepped.others k (ground arith)) (rest.from j k (omega arith))

scale_racks-Ends :
    (cfg : Settings) (infos : List RackInformation) (i : ℕ) (sets : List (Option StatefulSet))
    → Ends
        (HasSets sets)
        (scale_racks cfg i infos)
        (λ r s. Looped cfg i infos sets r s.stateful_sets s.trace)
unfolding scale_racks pure
scale_racks-Ends cfg [] i sets = record {
  at = λ s h. record { below = λ k lt. rw h refl; from = λ j k e. rw h refl };
}
scale_racks-Ends cfg (info ∷ infos) i sets =
    Ends->>= _ (λ r s. Stepped cfg i info.node_count sets r s.stateful_sets s.trace) _ _ _
      (scale_rack-Ends cfg i info sets)
      (λ u. record {
        at = λ s h.
            Looped-step cfg i info infos _ sets s.stateful_sets _ s.trace _
              (λ c d.
                (scale_racks-Traced cfg (IsDone cfg c) (λ c' t d'. inr d') infos (i + 1)).at s d)
              h ((scale_racks-Ends cfg infos (i + 1) s.stateful_sets).at s refl);
      })
      (λ e s h. Looped-err cfg i info infos e sets s.stateful_sets s.trace h)

-- Whichever calls fail, CheckRackScale leaves each stateful set as it is or gives it the node count of its rack, and this
-- only where it has fewer replicas and the set so changed was sent as a patch; if CheckRackScale does not end in an error,
-- such a patch was made without a failure, and the set of every rack has as many replicas as the rack has nodes, or more.
pub check_rack_scale-Scaled :
    (cfg : Settings) (s : State) (k : ℕ)
    → Scaled cfg
        (get_elem? cfg.desired_rack_information k)
        (check_rack_scale cfg s).0
        (nth k s.stateful_sets)
        (nth k (check_rack_scale cfg s).1.stateful_sets)
        (check_rack_scale cfg s).1.trace
unfolding check_rack_scale
check_rack_scale-Scaled cfg s k =
    ((scale_racks-Ends cfg cfg.desired_rack_information 0 s.stateful_sets).at s refl).from k k
      (omega arith)
