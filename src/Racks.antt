-- ===== src/Racks.antt =====
-- How nodes and seeds are spread over the racks: `SplitRacks` of
-- operator/pkg/apis/cassandra/v1beta1/cassandradatacenter_types.go, `CalculateRackInformation` of
-- operator/pkg/reconciliation/reconcile_racks.go and `CalculateRackInfoForDecomm` of
-- operator/pkg/reconciliation/decommission_node.go.
pub mod Split
pub mod Information
mod Examples
use cass_operator.Prelude.{
  ℕ, zero, suc, String, ◌+◌, ◌-◌, ◌/◌, ◌%◌, ◌≡◌, Bool, List, [], ◌∷◌, map, Option, none, ltb,
  length, if◌then◌else◌,
}
use cass_operator.Datacenter.{Datacenter, Rack, get_racks}

-- One round for each rack, from index `i` on.
split_from : (per_rack extra i rounds : ℕ) → List ℕ
split_from per_rack extra i zero = []
split_from per_rack extra i (suc k) =
    (if ltb i extra then per_rack + 1 else per_rack) ∷ split_from per_rack extra (i + 1) k

-- Go's division faults on zero racks, which no caller passes: `get_racks` is never empty.
unfoldable pub split_racks : (node_count rack_count : ℕ) → List ℕ
unfolding split_from
split_racks node_count rack_count =
    split_from (node_count / rack_count) (node_count % rack_count) 0 rack_count

pub record RackInformation : Type 0 where
  pub rack_name : String
  pub node_count : ℕ
  pub seed_count : ℕ

pub data Outcome {ℓ} (A : Type ℓ) : Type ℓ where
  ok : A → Outcome A
  too_few_nodes : Outcome A

-- The loop over the racks that reads the two topologies at the rack's index; the topologies have an
-- entry for each rack, so that the short cases are not met.
assign : List Rack → List ℕ → List ℕ → List RackInformation
assign [] nodes seeds = []
assign (r ∷ rs) [] seeds = []
assign (r ∷ rs) (n ∷ ns) [] = []
assign (r ∷ rs) (n ∷ ns) (s ∷ ss) =
    record { rack_name = r.name; node_count = n; seed_count = s } ∷ assign rs ns ss

-- Three seeds, or every node where there are fewer, or one for each rack of four or more.
pub seed_total : (node_count rack_count : ℕ) → ℕ
seed_total node_count rack_count =
    if ltb node_count 3 then node_count else if ltb 3 rack_count then rack_count else 3

pub calculate_rack_information : Datacenter → Outcome (List RackInformation)
calculate_rack_information dc =
    let racks = get_racks dc in
    let rack_count = length racks in
    let node_count = if dc.spec.stopped then 0 else dc.spec.size in
    if ltb dc.spec.size rack_count
    then too_few_nodes
    else ok (
        assign racks (split_racks node_count rack_count)
          (split_racks (seed_total node_count rack_count) rack_count))

-- A scale-down takes one node at a time. No seed count is written, so it is Go's zero.
assign_nodes : List Rack → List ℕ → List RackInformation
assign_nodes [] nodes = []
assign_nodes (r ∷ rs) [] = []
assign_nodes (r ∷ rs) (n ∷ ns) =
    record { rack_name = r.name; node_count = n; seed_count = 0 } ∷ assign_nodes rs ns

-- `current_size` is at least 1, since the caller has found it above the wanted size.
pub calculate_rack_info_for_decomm :
    Datacenter → (current_size : ℕ) → Outcome (List RackInformation)
calculate_rack_info_for_decomm dc current_size =
    let racks = get_racks dc in
    let rack_count = length racks in
    let desired_size = current_size - 1 in
    if ltb desired_size rack_count
    then too_few_nodes
    else ok (assign_nodes racks (split_racks desired_size rack_count))
