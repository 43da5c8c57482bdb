-- ===== src/Webhook/Accepted.antt =====
-- What a datacenter satisfies that passes `validate_single_datacenter`.

use cass_operator.Prelude.{
  String, ◌≡◌, ◌⊎◌, inl, inr, true, false, ◌&&◌, ◌||◌, List, none, arith, contains, string_eq, ◌<◌,
}
use cass_operator.Strings.{codes, has_prefix}
use cass_operator.Datacenter.{Datacenter}
use cass_operator.Images.{
  Environment, is_dse_version_supported, is_oss_version_supported, get_cassandra_image,
  version_to_oss_cassandra, version_to_ubi_oss_cassandra, version_to_dse, version_to_ubi_dse,
}
use cass_operator.Images.Found.{IsFound, dse_image, cassandra_image}
use cass_operator.Webhook.{any_workload, validate_single_datacenter}

module _ (top_level_keys : String → List String) (dc : Datacenter) where
  pub validate_single_datacenter_cassandra :
      validate_single_datacenter top_level_keys dc ≡ none
      → dc.spec.server_type ≡ "cassandra"
      → (is_oss_version_supported dc.spec.server_version ≡ true)
        × (any_workload dc.spec.dse_workloads ≡ false)
        × ((contains "jvm-options" (top_level_keys dc.spec.config)
              && has_prefix (codes dc.spec.server_version) (codes "4."))
            ≡ false)
        × ((contains "jvm-server-options" (top_level_keys dc.spec.config)
              && has_prefix (codes dc.spec.server_version) (codes "3."))
            ≡ false)
        × ((contains "dse-yaml" (top_level_keys dc.spec.config)
              && (has_prefix (codes dc.spec.server_version) (codes "3.")
                  || has_prefix (codes dc.spec.server_version) (codes "4.")))
            ≡ false)
  unfolding validate_single_datacenter
  validate_single_datacenter_cassandra passed type = let p = rw type at passed in ground arith

  -- A DSE datacenter that passes has a supported version and no section `jvm-options`.
  pub validate_single_datacenter_dse :
      validate_single_datacenter top_level_keys dc ≡ none
      → dc.spec.server_type ≡ "dse"
      → (is_dse_version_supported dc.spec.server_version ≡ true)
        × (contains "jvm-options" (top_level_keys dc.spec.config) ≡ false)
  unfolding validate_single_datacenter
  validate_single_datacenter_dse passed type = let p = rw type at passed in ground arith

  -- A datacenter that puts several nodes on a worker passes only with a request and a limit for both
  -- processor and memory.
  pub validate_single_datacenter_resources :
      validate_single_datacenter top_level_keys dc ≡ none
      → dc.spec.allow_multiple_nodes_per_worker ≡ true
      → (0 < dc.spec.resources.requests_cpu)
        × (0 < dc.spec.resources.limits_cpu)
        × (0 < dc.spec.resources.requests_memory)
        × (0 < dc.spec.resources.limits_memory)
  unfolding validate_single_datacenter
  validate_single_datacenter_resources passed several = ground arith

-- For a datacenter of server type cassandra or dse that passes validation, GetCassandraImage finds in every environment an
-- image that is not the empty text: the image that the server's table has for the version, where a set base image means
-- the table of UBI images, or, if the table has none, the version's tag in the server's repository.
pub validate_single_datacenter-get_cassandra_image :
    (env : Environment) (top_level_keys : String → List String) (dc : Datacenter)
    → validate_single_datacenter top_level_keys dc ≡ none
    → (dc.spec.server_type ≡ "cassandra") ⊎ (dc.spec.server_type ≡ "dse")
    → ((dc.spec.server_type ≡ "cassandra")
        × IsFound env version_to_oss_cassandra version_to_ubi_oss_cassandra
            "datastax/cassandra-mgmtapi:" dc.spec.server_version
            (get_cassandra_image env dc.spec.server_type dc.spec.server_version))
      ⊎ ((dc.spec.server_type ≡ "dse")
          × IsFound env version_to_dse version_to_ubi_dse "datastax/dse-server:"
              dc.spec.server_version
              (get_cassandra_image env dc.spec.server_type dc.spec.server_version))
validate_single_datacenter-get_cassandra_image env keys dc passed (inl type) = inl (
  type,
  rw type (
      cassandra_image env dc.spec.server_version
        (validate_single_datacenter_cassandra keys dc passed type).0),
)
validate_single_datacenter-get_cassandra_image env keys dc passed (inr type) = inr (
  type,
  rw type
      (dse_image env dc.spec.server_version (validate_single_datacenter_dse keys dc passed type).0),
)
