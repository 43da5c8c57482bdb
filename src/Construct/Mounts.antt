-- ===== src/Construct/Mounts.antt =====
-- Which volumes the mounts of the Cassandra container stand on.
use cass_operator.Prelude.{
  String, ◌≡◌, refl, ◌∙◌, ap, Bool, true, not, ◌||◌, List, [], ◌∷◌, ◌++◌, map, filter, any, arith,
  All, All-append, ◌==◌, string_eq,
}
use cass_operator.Templates.{Volume, VolumeMount, PodTemplateSpec, VolumeClaim, no_source}
use cass_operator.Datacenter.{Datacenter, AdditionalVolume}
use cass_operator.Labels.{Labels}
use cass_operator.Construct.StatefulSets.{volume_claims}
use cass_operator.Construct.Combine.{combine, combine_volume_slices, combine_volume_mount_slices}
use cass_operator.Construct.Volumes.{
  mount, volume_defaults, add_volumes, symmetric_difference, generate_storage_config_empty_volumes,
  generate_storage_config_volumes_mount,
}
use cass_operator.Construct.Containers.{cassandra_mounts}

-- Whether a name is one of the names
abbrev pub named : {A : Type 0} → (A → String) → List A → String → Bool
named name xs k = any (λ x. name x == k) xs

pub named-append :
    {A : Type 0} (name : A → String) (xs ys : List A) (k : String)
    → named name (xs ++ ys) k ≡ (named name xs k || named name ys k)
named-append name [] ys k = refl
named-append name (x ∷ xs) ys k = ground (arith, named-append name xs ys k)

named-same :
    {A : Type 0} (name : A → String) (xs : List A) (j k : String)
    → (j == k) ≡ true
    → any (λ x. j == name x) xs ≡ named name xs k
named-same name [] j k h = refl
named-same name (x ∷ xs) j k h = ground (
  arith,
  string_eq.same_iff j k,
  string_eq.same_iff j (name x),
  string_eq.same_iff (name x) k,
  string_eq.same_iff k (name x),
  named-same name xs j k h,
)

-- What is dropped from a list has a name of the other list.
named-filter :
    {A B : Type 0} (name : A → String) (other : B → String) (xs : List A) (ys : List B) (k : String)
    → (named other ys k || named name (filter (λ x. not (any (λ y. name x == other y) ys)) xs) k)
      ≡ (named other ys k || named name xs k)
named-filter name other [] ys k = refl
named-filter name other (x ∷ xs) ys k =
    ground (arith, named-filter name other xs ys k, named-same other ys (name x) k)

pub named-combine :
    {A : Type 0} (name : A → String) (defaults overrides : List A) (k : String)
    → named name (combine name defaults overrides) k
      ≡ (named name overrides k || named name defaults k)
unfolding combine
named-combine name defaults overrides k =
    named-append name overrides _ k ∙ named-filter name name defaults overrides k

named-eq :
    {A : Type 0} (name : A → String) (xs : List A) (j k : String)
    → (j == k) ≡ true
    → named name xs j ≡ named name xs k
named-eq name xs j k h = ap (named name xs) ((string_eq.same_iff j k).0 h)

named-difference :
    {A B : Type 0} (name : A → String) (other : B → String) (xs : List A) (ys : List B) (k : String)
    → (named other ys k || named name (filter (λ x. not (any (λ y. other y == name x) ys)) xs) k)
      ≡ (named other ys k || named name xs k)
named-difference name other [] ys k = refl
named-difference name other (x ∷ xs) ys k =
    ground (arith, named-difference name other xs ys k, named-eq other ys (name x) k)

-- What a pod finds its volumes by: its own volumes and the claims of its stateful set
abbrev pub is_resolved : List Volume → List VolumeClaim → String → Bool
is_resolved volumes claims k = named (λ v. v.name) volumes k || named (λ c. c.name) claims k

abbrev pub AreResolved : List Volume → List VolumeClaim → List VolumeMount → Type 0
AreResolved volumes claims ms = All (λ m. is_resolved volumes claims m.name ≡ true) ms

module _ {A : Type 0} (P : A → Type 0) where
  All-filter : (p : A → Bool) (xs : List A) → All P xs → All P (filter p xs)
  All-filter p [] h = tt
  All-filter p (x ∷ xs) h = ground (arith, All-filter p xs h.1)

All-combine :
    (P : VolumeMount → Type 0) (defaults overrides : List VolumeMount)
    → All P defaults
    → All P overrides
    → All P (combine_volume_mount_slices defaults overrides)
unfolding combine_volume_mount_slices
All-combine P defaults overrides h k = All-append P overrides _ k (All-filter P _ defaults h)

abbrev additional : Datacenter → List AdditionalVolume
additional dc = dc.spec.storage_config.additional_volumes

-- The claims of a stateful set have these names.
pub named-volume_claims :
    (dc : Datacenter) (labels : Labels) (spec : String) (k : String)
    → named (λ c. c.name) (volume_claims dc labels spec) k
      ≡ ("server-data" == k || named (λ s. s.name) (additional dc) k)
unfolding volume_claims
named-volume_claims dc labels spec k = ap (λ b. "server-data" == k || b) (names (additional dc))
  where
    names :
        (vs : List AdditionalVolume)
        → named {A = VolumeClaim}
            (λ c. c.name)
            (map (λ s. record { name = s.name; labels = labels; spec = s.pvc_spec }) vs)
            k
          ≡ named (λ s. s.name) vs k
    names [] = refl
    names (v ∷ vs) = ap (λ b. v.name == k || b) (names vs)

named-empty_volumes :
    (dc : Datacenter) (k : String)
    → named (λ v. v.name) (generate_storage_config_empty_volumes dc) k
      ≡ named (λ s. s.name) (additional dc) k
unfolding generate_storage_config_empty_volumes
named-empty_volumes dc k = names (additional dc)
  where
    names :
        (vs : List AdditionalVolume)
        → named {A = Volume}
            (λ v. v.name)
            (map (λ s. record { name = s.name; source = no_source }) vs)
            k
          ≡ named (λ s. s.name) vs k
    names [] = refl
    names (v ∷ vs) = ap (λ b. v.name == k || b) (names vs)

All-named-cons :
    (w : AdditionalVolume) (ws vs : List AdditionalVolume)
    → All (λ s. named (λ s. s.name) ws s.name ≡ true) vs
    → All (λ s. named (λ s. s.name) (w ∷ ws) s.name ≡ true) vs
All-named-cons w ws [] h = tt
All-named-cons w ws (v ∷ vs) h = let later = h.0 in (ground arith, All-named-cons w ws vs h.1)

All-named : (vs : List AdditionalVolume) → All (λ s. named (λ s. s.name) vs s.name ≡ true) vs
All-named [] = tt
All-named (v ∷ vs) =
    (ground (arith, string_eq.same_iff v.name v.name), All-named-cons v vs vs (All-named vs))

module _ (dc : Datacenter) (base : PodTemplateSpec) (labels : Labels) (spec : String) where
  abbrev claims : List VolumeClaim
  claims = volume_claims dc labels spec

  abbrev volumes : List Volume
  volumes = (add_volumes dc base).volumes

  named-volumes :
      (k : String)
      → (named (λ s. s.name) (additional dc) k || named (λ v. v.name) volumes k) ≡ (
          named (λ s. s.name) (additional dc) k
          || (named (λ v. v.name) base.volumes k || named (λ v. v.name) (volume_defaults dc) k))
  unfolding add_volumes symmetric_difference combine_volume_slices
  named-volumes k =
      let dropped =
        named-difference (λ (v : Volume). v.name) (λ (v : Volume). v.name)
          (combine (λ v. v.name) (volume_defaults dc) base.volumes)
          (generate_storage_config_empty_volumes dc) k in
      rw (← named-empty_volumes dc k) (
        dropped
        ∙ ap (λ b. named (λ v. v.name) (generate_storage_config_empty_volumes dc) k || b)
            (named-combine (λ v. v.name) (volume_defaults dc) base.volumes k))

  -- The default volumes, the template's own and the claims are all found.
  is_resolved-volumes :
      (k : String)
      → (is_resolved base.volumes claims k || named (λ v. v.name) (volume_defaults dc) k) ≡ true
      → is_resolved volumes claims k ≡ true
  is_resolved-volumes k h = ground (arith, named-volumes k, named-volume_claims dc labels spec k)

  resolved-additional :
      (vs : List AdditionalVolume)
      → All (λ s. named (λ s. s.name) (additional dc) s.name ≡ true) vs
      → AreResolved volumes claims (map (λ s. mount s.name s.mount_path) vs)
  resolved-additional [] h = tt
  resolved-additional (v ∷ vs) h =
      (ground (arith, named-volume_claims dc labels spec v.name), resolved-additional vs h.1)

  -- The mounts of the Cassandra container are found if those of the template's own container are.
  pub cassandra_mounts-AreResolved :
      (given : List VolumeMount)
      → All
          (λ m.
            (is_resolved base.volumes claims m.name
              || named (λ v. v.name) (volume_defaults dc) m.name)
            ≡ true)
          given
      → AreResolved volumes claims (cassandra_mounts dc given)
  unfolding cassandra_mounts generate_storage_config_volumes_mount volume_defaults volume_claims
  cassandra_mounts-AreResolved given h =
      All-combine Found _ _
        (All-combine Found _ _
          (All-combine Found _ _
            (is_resolved-volumes "server-config" (default "server-config" refl), tt)
            (
              is_resolved-volumes "server-logs" (default "server-logs" refl),
              (
                is_resolved-volumes "server-data" (ground arith),
                (
                  is_resolved-volumes "encryption-cred-storage"
                      (default "encryption-cred-storage" refl),
                  tt,
                ),
              ),
            ))
          (found given h))
        (resolved-additional (additional dc) (All-named (additional dc)))
    where
      Found : VolumeMount → Type 0
      Found m = is_resolved volumes claims m.name ≡ true

      default :
          (k : String)
          → named (λ v. v.name) (volume_defaults dc) k ≡ true
          → (is_resolved base.volumes claims k || named (λ v. v.name) (volume_defaults dc) k) ≡ true
      default k e = ground arith

      found :
          (ms : List VolumeMount)
          → All
              (λ m.
                (is_resolved base.volumes claims m.name
                  || named (λ v. v.name) (volume_defaults dc) m.name)
                ≡ true)
              ms
          → All Found ms
      found [] h = tt
      found (m ∷ ms) h = (is_resolved-volumes m.name h.0, found ms h.1)
