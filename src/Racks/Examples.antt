-- ===== src/Racks/Examples.antt =====
-- The theorems on the racks at a datacenter of three racks and seven nodes.
use cass_operator.Prelude.{ℕ, String, ◌≡◌, refl, List, [], ◌∷◌, All}
use cass_operator.Datacenter.{Datacenter, get_racks}
use cass_operator.Racks.{
  RackInformation, ok, split_racks, assign, seed_total, calculate_rack_information,
}
use cass_operator.Racks.Split.{sum}
use cass_operator.Racks.Information.{
  names, node_counts, seed_counts, IsSeeded, calculate_rack_information_totals,
  calculate_rack_information-IsSeeded,
}
use cass_operator.Fixtures.{rack, datacenter}

abbrev seven_nodes : Datacenter
seven_nodes = datacenter "cassandra" "4.0.0" 7 (rack "r1" ∷ rack "r2" ∷ rack "r3" ∷ [])

abbrev info : String → (node_count seed_count : ℕ) → RackInformation
info name n s = record { rack_name = name; node_count = n; seed_count = s }

abbrev seven_spread : List RackInformation
seven_spread = info "r1" 3 1 ∷ info "r2" 2 1 ∷ info "r3" 2 1 ∷ []

seven_nodes_spread : calculate_rack_information seven_nodes ≡ ok seven_spread
unfolding calculate_rack_information split_racks assign seed_total get_racks
seven_nodes_spread = refl

calculate_rack_information-IsSeeded_example : All IsSeeded seven_spread
calculate_rack_information-IsSeeded_example =
    calculate_rack_information-IsSeeded seven_nodes seven_nodes_spread refl

calculate_rack_information_totals_example :
    (names seven_spread ≡ "r1" ∷ "r2" ∷ "r3" ∷ [])
    × (sum (node_counts seven_spread) ≡ 7)
    × (sum (seed_counts seven_spread) ≡ seed_total 7 3)
unfolding get_racks
calculate_rack_information_totals_example =
    calculate_rack_information_totals seven_nodes seven_nodes_spread
