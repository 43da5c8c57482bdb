-- ===== src/Startup/Keeps.antt =====
-- The operations of a pass that read the pods, and the rules for what operations keep.

use cass_operator.Passing.Keeps.{
  Keeps, Keeps-pure, Keeps-fail, Keeps-lift_outcome, Keeps-if, Keeps->>=,
}
use cass_operator.Startup.World.{State, cluster_pods, dc_pods}

module _ {P : State → Type 0} where
  pub Keeps-cluster_pods : Keeps P cluster_pods
  unfolding cluster_pods
  Keeps-cluster_pods = record { at = λ s h. h }

  pub Keeps-dc_pods : Keeps P dc_pods
  unfolding dc_pods
  Keeps-dc_pods = record { at = λ s h. h }

pub ruleset startup_rules = (
  Keeps-pure, Keeps-fail, Keeps-lift_outcome, Keeps-if, Keeps->>=, Keeps-cluster_pods,
  Keeps-dc_pods,
)
