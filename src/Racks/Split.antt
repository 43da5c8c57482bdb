-- ===== src/Racks/Split.antt =====
-- The even split of `split_racks`.
use native.Mathlib.Nat.{div-add-mod, div-add-mod', mod-lt, le-div_iff_mul-le}
use native.Mathlib.Decide.{dec_lt}
use cass_operator.Prelude.{
  ℕ, zero, suc, ◌+◌, ◌-◌, ◌*◌, ◌/◌, ◌%◌, ◌≤◌, ◌<◌, ◌≡◌, refl, ap, ◌∙◌, List, [], ◌∷◌, some, arith,
  ltb, length, get_elem?, if◌then◌else◌,
}
use cass_operator.Racks.{split_from, split_racks}

abbrev pub sum : List ℕ → ℕ
sum [] = 0
sum (n ∷ ns) = n + sum ns

length-split_from : (q e i k : ℕ) → length (split_from q e i k) ≡ k
unfolding split_from
length-split_from q e i zero = refl
length-split_from q e i (suc k) = ap_suc (length-split_from q e (i + 1) k)
  where
    ap_suc : {a b : ℕ} → a ≡ b → suc a ≡ suc b
    ap_suc p = omega arith

-- What the split gives the rack of index `i`.
abbrev pub share : (node_count rack_count i : ℕ) → ℕ
share n r i = if ltb i (n % r) then n / r + 1 else n / r

get_elem?-split_from :
    (q e i k j : ℕ)
    → j < k
    → get_elem? (split_from q e i k) j ≡ some (if ltb (i + j) e then q + 1 else q)
unfolding split_from
get_elem?-split_from q e i zero j h = elim h [ ]
get_elem?-split_from q e i (suc k) zero h = ground arith
get_elem?-split_from q e i (suc k) (suc j) h =
    ground (arith, get_elem?-split_from q e (i + 1) k j (omega arith))

sum-split_from : (q e i k : ℕ) → e ≤ i + k → sum (split_from q e i k) ≡ k * q + (e - i)
unfolding split_from
sum-split_from q e i zero g = omega arith
sum-split_from q e i (suc k) g = ground (arith, sum-split_from q e (i + 1) k (omega arith))

pub length-split_racks : (n r : ℕ) → length (split_racks n r) ≡ r
unfolding split_racks
length-split_racks n r = length-split_from (n / r) (n % r) 0 r

pub get_elem?-split_racks : (n r i : ℕ) → i < r → get_elem? (split_racks n r) i ≡ some (share n r i)
unfolding split_racks
get_elem?-split_racks n r i h = get_elem?-split_from (n / r) (n % r) 0 r i h ∙ ground arith

-- For at least one rack, the counts that SplitRacks returns add up to the number of nodes.
pub sum-split_racks : (n r : ℕ) → 0 < r → sum (split_racks n r) ≡ n
unfolding split_racks
sum-split_racks n r h =
    omega (arith, sum-split_from (n / r) (n % r) 0 r (omega (arith, mod-lt n h)), div-add-mod n r)

-- A rack never has fewer nodes than a later one, nor more than one node more than any other.
pub share_balanced :
    (n r i j : ℕ) → i ≤ j → (share n r j ≤ share n r i) × (share n r i ≤ share n r j + 1)
share_balanced n r i j h = ground arith

-- A rack keeps its share where the racks of the new split have the old quotient each, and as many
-- nodes more as the old split had left over.
pub share-le :
    (q e n r i : ℕ) → 0 < r → q * r + e ≤ n → (if ltb i e then q + 1 else q) ≤ share n r i
share-le q e n r i pos h = elim (dec_lt q (n / r)) [
  | yes more ↦ ground arith
  | no same ↦
      let quotient : q ≤ n / r = (le-div_iff_mul-le pos).1 (omega arith) in
      let equal : q ≡ n / r = omega arith in
      ground (arith, div-add-mod' n r, ap (λ (t : ℕ). t * r) equal)
]

-- The share of each rack grows with the number of nodes.
pub share_mono : (m n r i : ℕ) → 0 < r → m ≤ n → share m r i ≤ share n r i
share_mono m n r i pos h = share-le (m / r) (m % r) n r i pos (omega (arith, div-add-mod' m r))

-- Splits of `m` nodes over `r` racks and of `n` nodes over more racks: where each new rack comes with
-- at least as many nodes as the smallest old rack has, no old rack loses a node.
pub share_growth : (m n r k i : ℕ) → 0 < r → m + m / r * k ≤ n → share m r i ≤ share n (r + k) i
share_growth m n r k i pos h =
    share-le (m / r) (m % r) n (r + k) i (omega arith) (omega (arith, div-add-mod' m r))
