-- ===== src/Webhook/Growth.antt =====
-- Changes of the topology that pass.
use native.Mathlib.Nat.{mod-lt}
use text.Mathlib.TextEquality.{eq_iff}
use cass_operator.Prelude.{
  ℕ, zero, suc, ◌+◌, ◌-◌, ◌*◌, ◌/◌, ◌≤◌, ◌<◌, ◌≡◌, refl, List, [], ◌∷◌, none, some, arith, length,
  get_elem?, get_elem?-lt, string_eq,
}
use cass_operator.Datacenter.{Datacenter, Rack, get_racks, get_racks_pos}
use cass_operator.Racks.{split_racks}
use cass_operator.Racks.Split.{share, length-split_racks, get_elem?-split_racks, share_growth}
use cass_operator.Webhook.{
  last_of, compare_racks, check_new_racks, validate_datacenter_field_changes,
}

last_of-get_elem? :
    (ns : List ℕ) (k n : ℕ) → length ns ≡ suc k → get_elem? ns k ≡ some n → last_of ns ≡ n
unfolding last_of
last_of-get_elem? [] k n h e = cc
last_of-get_elem? (m ∷ []) zero n h e = ground arith
last_of-get_elem? (m ∷ []) (suc k) n h e = cc
last_of-get_elem? (m ∷ p ∷ ms) zero n h e = absurd (omega arith)
last_of-get_elem? (m ∷ p ∷ ms) (suc k) n h e = last_of-get_elem? (p ∷ ms) k n (omega arith) e

-- The smallest share is the quotient.
last_of-split_racks : (n r : ℕ) → 0 < r → last_of (split_racks n r) ≡ n / r
last_of-split_racks n zero h = elim h [ ]
last_of-split_racks n (suc r) h = ground (
  arith,
  last_of-get_elem? (split_racks n (suc r)) r (share n (suc r) r) (length-split_racks n (suc r))
      (get_elem?-split_racks n (suc r) r (omega arith)),
  mod-lt n h,
)

accepted_growth :
    (old_size new_size r k : ℕ)
    → 0 < r
    → check_new_racks old_size new_size r (suc k) ≡ none
    → old_size + old_size / r * suc k ≤ new_size
unfolding check_new_racks
accepted_growth old_size new_size r k pos h = ground (arith, last_of-split_racks old_size r pos)

shares_grow :
    (old_size new_size r r' i a b : ℕ)
    → 0 < r
    → r < r'
    → check_new_racks old_size new_size r (r' - r) ≡ none
    → get_elem? (split_racks old_size r) i ≡ some a
    → get_elem? (split_racks new_size r') i ≡ some b
    → a ≤ b
shares_grow old_size new_size r r' i a b pos more passed ea eb =
    let k = r' - r - 1 in
    let new_racks : r' - r ≡ suc k = omega arith in
    let inside : i < r =
      omega (arith, get_elem?-lt (split_racks old_size r) i a ea, length-split_racks old_size r) in
    let grown = accepted_growth old_size new_size r k pos (rw new_racks at passed) in
    let total : r + suc k ≡ r' = omega arith in
    let below = rw total at (share_growth old_size new_size r (suc k) i pos grown) in
    ground (
      arith,
      get_elem?-split_racks old_size r i inside,
      get_elem?-split_racks new_size r' i (omega arith),
    )

racks_kept :
    (old new : List Rack) (i : ℕ) (rack : Rack)
    → length old ≤ length new
    → compare_racks old new ≡ none
    → get_elem? old i ≡ some rack
    → (kept : Rack) × (get_elem? new i ≡ some kept)
      × (kept.name ≡ rack.name)
      × (kept.zone ≡ rack.zone)
unfolding compare_racks
racks_kept [] new i rack h p e = absurd (cc)
racks_kept (o ∷ os) [] i rack h p e = absurd (omega arith)
racks_kept (o ∷ os) (n ∷ ns) zero rack h p e =
    (n, refl, ground (arith, eq_iff o.name n.name), ground (arith, eq_iff o.zone n.zone))
racks_kept (o ∷ os) (n ∷ ns) (suc i) rack h p e =
    racks_kept os ns i rack (omega arith) (ground arith) e

module _ (old_dc new_dc : Datacenter)
    (accepted : validate_datacenter_field_changes old_dc new_dc ≡ none) where
  checked :
      (check_new_racks old_dc.spec.size new_dc.spec.size
          (length (get_racks old_dc))
          (length (get_racks new_dc) - length (get_racks old_dc))
        ≡ none)
      × (compare_racks (get_racks old_dc) (get_racks new_dc) ≡ none)
      × (length (get_racks old_dc) ≤ length (get_racks new_dc))
  unfolding validate_datacenter_field_changes
  checked = (ground arith, ground arith, ground arith)

  -- When an accepted update adds racks, no rack that was there loses a node: the share that SplitRacks
  -- gives it in the new size over the new racks is at least its share in the old ones.
  pub validate_datacenter_field_changes_growth :
      (i a b : ℕ)
      → length (get_racks old_dc) < length (get_racks new_dc)
      → get_elem? (split_racks old_dc.spec.size (length (get_racks old_dc))) i ≡ some a
      → get_elem? (split_racks new_dc.spec.size (length (get_racks new_dc))) i ≡ some b
      → a ≤ b
  validate_datacenter_field_changes_growth i a b more ea eb =
      shares_grow old_dc.spec.size new_dc.spec.size (length (get_racks old_dc))
        (length (get_racks new_dc)) i a b (get_racks_pos old_dc) more checked.0 ea eb

  -- An accepted update keeps each rack at its index, with its name and its zone.
  pub validate_datacenter_field_changes_racks :
      (i : ℕ) (rack : Rack)
      → get_elem? (get_racks old_dc) i ≡ some rack
      → (kept : Rack) × (get_elem? (get_racks new_dc) i ≡ some kept)
        × (kept.name ≡ rack.name)
        × (kept.zone ≡ rack.zone)
  validate_datacenter_field_changes_racks i rack e =
      racks_kept (get_racks old_dc) (get_racks new_dc) i rack checked.2 checked.1 e
