-- ===== src/Images/Found.antt =====
-- Which image GetCassandraImage finds for a version.
use mathlib.Core.List.{append-nil}
use cass_operator.Prelude.{
  ℕ, String, ◌≡◌, ◌≢◌, refl, sym, ap, ◌∙◌, true, ◌⊎◌, inl, inr, List, [], ◌∷◌, ◌++◌, none, some,
  arith, lookup, ◌==◌, Bool-cases, Option-cases, string_eq,
}
use cass_operator.Strings.{Text, text_eq, text_beq_iff, codes, trim_suffix}
use cass_operator.Images.{
  Environment, Image, base_image_os_image, image_lookup_map, get_image, should_use_ubi, fallback,
  apply_default_registry_override, ImageResult, found, get_cassandra_image,
  is_dse_version_supported, is_oss_version_supported, version_to_oss_cassandra,
  version_to_ubi_oss_cassandra, version_to_dse, version_to_ubi_dse,
}
use cass_operator.Images.Registry.{table_image, get_image-table}

-- The image under the version of a table, or the version's tag in a repository where the table has none
abbrev pub IsImageOf :
    Environment
    → (table : List (String × Image)) → (repository suffix version : String) → Text
    → Type 0
IsImageOf env table repository suffix version image =
    ((i : Image) × (lookup version table ≡ some i) × (image ≡ get_image env i))
    ⊎ ((lookup version table ≡ none)
        × (image ≡ codes repository ++ (codes version ++ codes suffix)))

-- The tables and the suffix are those of the base image.
abbrev pub IsFound :
    Environment
    → (plain ubi : List (String × Image)) → (repository version : String) → ImageResult
    → Type 0
IsFound env plain ubi repository version r =
    (image : Text) × (r ≡ found image)
    × (image ≢ [])
    × (((env.base_image_os ≡ []) × IsImageOf env plain repository "" version image)
        ⊎ ((env.base_image_os ≢ []) × IsImageOf env ubi repository "-ubi7" version image))

append-ne : (s : Text) (c : ℕ) (t : Text) → (s ++ (c ∷ t)) ≢ []
append-ne [] c t e = cc
append-ne (d ∷ s) c t e = cc

apply_default_registry_override-ne :
    (env : Environment) (image : Text) → image ≢ [] → apply_default_registry_override env image ≢ []
unfolding apply_default_registry_override
apply_default_registry_override-ne env image ne =
    elim (Bool-cases (trim_suffix env.registry_override (codes "/") == [])) [
      | inl t ↦ rw t ne
      | inr f ↦ rw f (append-ne _ _ _)
    ]

table_image-ne : (i : Image) → i ≢ base_image_os_image → table_image i ≢ []
unfolding image_lookup_map
table_image-ne i h e = ground arith

get_image-ne : (env : Environment) (i : Image) → i ≢ base_image_os_image → get_image env i ≢ []
get_image-ne env i h =
    rw (get_image-table env i h)
      (apply_default_registry_override-ne env (table_image i) (table_image-ne i h))

-- No table has the image that the environment names.
abbrev HasNoBase : List (String × Image) → Type 0
HasNoBase table =
    (version : String) (i : Image) → lookup version table ≡ some i → i ≢ base_image_os_image

version_to_dse-HasNoBase : HasNoBase version_to_dse
unfolding version_to_dse
version_to_dse-HasNoBase version i h e = ground arith

version_to_ubi_dse-HasNoBase : HasNoBase version_to_ubi_dse
unfolding version_to_ubi_dse
version_to_ubi_dse-HasNoBase version i h e = ground arith

version_to_oss_cassandra-HasNoBase : HasNoBase version_to_oss_cassandra
unfolding version_to_oss_cassandra
version_to_oss_cassandra-HasNoBase version i h e = ground arith

version_to_ubi_oss_cassandra-HasNoBase : HasNoBase version_to_ubi_oss_cassandra
unfolding version_to_ubi_oss_cassandra
version_to_ubi_oss_cassandra-HasNoBase version i h e = ground arith

-- The image of the table, or the tag
abbrev found_in :
    Environment → List (String × Image) → (version : String) → (tag : Text) → ImageResult
found_in env table version tag = elim (lookup version table) [
  | none ↦ found tag
  | some i ↦ found (get_image env i)
]

module _ (env : Environment) (repository version : String)
    (repository-ne : (t : Text) → (codes repository ++ t) ≢ []) where
  IsImageOf-found_in :
      (table : List (String × Image)) (suffix : String) (tag : Text)
      → HasNoBase table
      → tag ≡ codes repository ++ (codes version ++ codes suffix)
      → (image : Text) × (found_in env table version tag ≡ found image)
        × (image ≢ [])
        × IsImageOf env table repository suffix version image
  IsImageOf-found_in table suffix tag no_base is_tag = elim (Option-cases (lookup version table)) [
    | inl e ↦ (tag, rw (e, found_in) refl, rw is_tag (repository-ne _), inr (e, is_tag))
    | inr (i, e) ↦ (
      get_image env i,
      rw (e, found_in) refl,
      get_image-ne env i (no_base version i e),
      inl (i, e, refl),
    )
  ]

  IsFound-found_in :
      (plain ubi : List (String × Image)) (r : ImageResult)
      → HasNoBase plain
      → HasNoBase ubi
      → (env.base_image_os ≡ []
          → r ≡ found_in env plain version (codes repository ++ codes version))
      → (env.base_image_os ≢ []
          → r ≡ found_in env ubi version (codes repository ++ (codes version ++ codes "-ubi7")))
      → IsFound env plain ubi repository version r
  IsFound-found_in plain ubi r plain_has ubi_has is_plain is_ubi =
      elim (Bool-cases (env.base_image_os == [])) [
        | inl t ↦
            let none_set : env.base_image_os ≡ [] = (text_beq_iff env.base_image_os []).0 t in
            let h =
              IsImageOf-found_in plain "" (codes repository ++ codes version) plain_has
                (ap (λ t. codes repository ++ t) (sym (append-nil (codes version)))) in
            (h.0, is_plain none_set ∙ h.1, h.2, inl (none_set, h.3))
        | inr f ↦
            let set : env.base_image_os ≢ [] =
              λ e. let t = (text_beq_iff env.base_image_os []).1 e in cc in
            let h = IsImageOf-found_in ubi "-ubi7" _ ubi_has refl in
            (h.0, is_ubi set ∙ h.1, h.2, inr (set, h.3))
      ]

module _ (env : Environment) (version : String) where
  pub dse_image :
      is_dse_version_supported version ≡ true
      → IsFound env version_to_dse version_to_ubi_dse "datastax/dse-server:" version
          (get_cassandra_image env "dse" version)
  unfolding get_cassandra_image should_use_ubi fallback
  dse_image supported =
      IsFound-found_in env "datastax/dse-server:" version (λ t e. cc) version_to_dse
        version_to_ubi_dse (get_cassandra_image env "dse" version) version_to_dse-HasNoBase
        version_to_ubi_dse-HasNoBase (λ e. ground arith)
        (λ e. ground (arith, text_beq_iff env.base_image_os []))

  pub cassandra_image :
      is_oss_version_supported version ≡ true
      → IsFound env version_to_oss_cassandra version_to_ubi_oss_cassandra
          "datastax/cassandra-mgmtapi:" version
          (get_cassandra_image env "cassandra" version)
  unfolding get_cassandra_image should_use_ubi fallback
  cassandra_image supported =
      IsFound-found_in env "datastax/cassandra-mgmtapi:" version (λ t e. cc)
        version_to_oss_cassandra version_to_ubi_oss_cassandra
        (get_cassandra_image env "cassandra" version) version_to_oss_cassandra-HasNoBase
        version_to_ubi_oss_cassandra-HasNoBase (λ e. ground arith)
        (λ e. ground (arith, text_beq_iff env.base_image_os []))
