-- ===== src/Racks/Information.antt =====
-- What `calculate_rack_information` and `calculate_rack_info_for_decomm` hand to the reconciler.
use native.Mathlib.Nat.{le-div_iff_mul-le}
use cass_operator.Prelude.{
  ℕ, zero, suc, String, ◌+◌, ◌/◌, ◌%◌, ◌≤◌, ◌<◌, ◌≡◌, refl, ap, ◌∙◌, false, List, [], ◌∷◌, map,
  arith, ltb, length, All, if◌then◌else◌,
}
use cass_operator.Datacenter.{Datacenter, Rack, get_racks, get_racks_pos}
use cass_operator.Racks.{
  RackInformation, ok, split_from, split_racks, assign, seed_total, calculate_rack_information,
}
use cass_operator.Racks.Split.{sum, share, length-split_racks, sum-split_racks, share_mono}

abbrev pub names : List RackInformation → List String
names = map (λ r. r.rack_name)

abbrev pub node_counts : List RackInformation → List ℕ
node_counts = map (λ r. r.node_count)

abbrev pub seed_counts : List RackInformation → List ℕ
seed_counts = map (λ r. r.seed_count)

abbrev rack_names : List Rack → List String
rack_names = map (λ r. r.name)

-- Nothing is lost where the topologies have an entry for each rack.
assign_columns :
    (rs : List Rack) (ns ss : List ℕ)
    → length ns ≡ length rs
    → length ss ≡ length rs
    → (names (assign rs ns ss) ≡ rack_names rs)
      × (node_counts (assign rs ns ss) ≡ ns)
      × (seed_counts (assign rs ns ss) ≡ ss)
unfolding assign
assign_columns [] [] [] h g = (refl, refl, refl)
assign_columns [] [] (s ∷ ss) h g = absurd (omega arith)
assign_columns [] (n ∷ ns) ss h g = absurd (omega arith)
assign_columns (r ∷ rs) [] ss h g = absurd (omega arith)
assign_columns (r ∷ rs) (n ∷ ns) [] h g = absurd (omega arith)
assign_columns (r ∷ rs) (n ∷ ns) (s ∷ ss) h g =
    let (p, q, t) = assign_columns rs ns ss (omega arith) (omega arith) in
    (ap (◌∷◌ r.name) p, ap (◌∷◌ n) q, ap (◌∷◌ s) t)

abbrev wanted_nodes : Datacenter → ℕ
wanted_nodes dc = if dc.spec.stopped then 0 else dc.spec.size

calculated :
    (dc : Datacenter) {infos : List RackInformation}
    → calculate_rack_information dc ≡ ok infos
    → let rack_count = length (get_racks dc) in
      infos
      ≡ assign
          (get_racks dc)
          (split_racks (wanted_nodes dc) rack_count)
          (split_racks (seed_total (wanted_nodes dc) rack_count) rack_count)
unfolding calculate_rack_information
calculated dc h = ground arith

-- The racks that CalculateRackInformation returns are those of the datacenter, in its order; their
-- nodes add up to the datacenter's size, or to none if it is stopped, and their seeds to the total.
pub calculate_rack_information_totals :
    (dc : Datacenter) {infos : List RackInformation}
    → calculate_rack_information dc ≡ ok infos
    → (names infos ≡ rack_names (get_racks dc))
      × (sum (node_counts infos) ≡ wanted_nodes dc)
      × (sum (seed_counts infos) ≡ seed_total (wanted_nodes dc) (length (get_racks dc)))
calculate_rack_information_totals dc h =
    let r = length (get_racks dc) in
    let pos = get_racks_pos dc in
    let n = wanted_nodes dc in
    let (p, q, t) =
      assign_columns (get_racks dc) (split_racks n r) (split_racks (seed_total n r) r)
        (length-split_racks n r) (length-split_racks (seed_total n r) r) in
    rw (calculated dc h)
      (p, ap sum q ∙ sum-split_racks n r pos, ap sum t ∙ sum-split_racks (seed_total n r) r pos)

-- A rack's seeds are nodes of it, and there is at least one.
abbrev pub IsSeeded : RackInformation → Type 0
IsSeeded info = (0 < info.seed_count) × (info.seed_count ≤ info.node_count)

abbrev part : (per_rack extra i : ℕ) → ℕ
part q e i = if ltb i e then q + 1 else q

assign-All :
    (rs : List Rack) (q e q' e' i k : ℕ)
    → ((j : ℕ) → (0 < part q' e' j) × (part q' e' j ≤ part q e j))
    → All IsSeeded (assign rs (split_from q e i k) (split_from q' e' i k))
unfolding assign split_from
assign-All [] q e q' e' i k h = tt
assign-All (r ∷ rs) q e q' e' i zero h = tt
assign-All (r ∷ rs) q e q' e' i (suc k) h = (h i, assign-All rs q e q' e' (i + 1) k h)

share_pos : (n r i : ℕ) → 0 < r → r ≤ n → 0 < share n r i
share_pos n r i pos h =
    let quotient : 1 ≤ n / r = (le-div_iff_mul-le pos).1 (omega arith) in ground arith

seed_total_bounds : (n r : ℕ) → r ≤ n → (r ≤ seed_total n r) × (seed_total n r ≤ n)
unfolding seed_total
seed_total_bounds n r h = ground arith

enough_nodes :
    (dc : Datacenter) {infos : List RackInformation}
    → calculate_rack_information dc ≡ ok infos
    → dc.spec.stopped ≡ false
    → length (get_racks dc) ≤ wanted_nodes dc
unfolding calculate_rack_information
enough_nodes dc h running = ground arith

-- Unless the datacenter is stopped, each rack that CalculateRackInformation returns has at least one
-- seed, and no more seeds than nodes.
pub calculate_rack_information-IsSeeded :
    (dc : Datacenter) {infos : List RackInformation}
    → calculate_rack_information dc ≡ ok infos
    → dc.spec.stopped ≡ false
    → All IsSeeded infos
unfolding split_racks
calculate_rack_information-IsSeeded dc h running =
    let r = length (get_racks dc) in
    let n = wanted_nodes dc in
    let pos = get_racks_pos dc in
    let enough : r ≤ n = enough_nodes dc h running in
    let (lower, upper) = seed_total_bounds n r enough in
    rw (calculated dc h) (
      assign-All (get_racks dc) (n / r) (n % r) (seed_total n r / r) (seed_total n r % r) 0 r λ j.
        (share_pos (seed_total n r) r j pos lower, share_mono (seed_total n r) n r j pos upper))
