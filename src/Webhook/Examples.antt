-- ===== src/Webhook/Examples.antt =====
-- The theorems on admission at datacenters of a few racks.
use cass_operator.Prelude.{
  String, ◌≡◌, ◌≤◌, ◌⊎◌, refl, List, [], ◌∷◌, none, some, arith, inl, get_elem?, string_eq,
}
use cass_operator.Datacenter.{same_storage, Datacenter, Rack, get_racks}
use cass_operator.Racks.{split_racks}
use cass_operator.Images.{
  version_to_oss_cassandra, version_to_ubi_oss_cassandra, version_to_dse, version_to_ubi_dse,
  Environment, digit_follows, is_dse_version_supported, is_oss_version_supported,
  get_cassandra_image,
}
use cass_operator.Images.Found.{IsFound}
use cass_operator.Webhook.{validate_single_datacenter, validate_datacenter_field_changes}
use cass_operator.Webhook.Growth.{
  validate_datacenter_field_changes_growth, validate_datacenter_field_changes_racks,
}
use cass_operator.Webhook.Accepted.{validate_single_datacenter-get_cassandra_image}
use cass_operator.Fixtures.{rack, datacenter}

abbrev two_racks : Datacenter
two_racks = datacenter "cassandra" "4.0.0" 5 (rack "r1" ∷ rack "r2" ∷ [])

abbrev three_racks : Datacenter
three_racks = datacenter "cassandra" "4.0.0" 7 (rack "r1" ∷ rack "r2" ∷ rack "r3" ∷ [])

grown : validate_datacenter_field_changes two_racks three_racks ≡ none
unfolding validate_datacenter_field_changes get_racks split_racks same_storage
grown = refl

-- The first rack has three of five nodes, and three of seven after.
validate_datacenter_field_changes_growth_example : 3 ≤ 3
unfolding get_racks split_racks same_storage
validate_datacenter_field_changes_growth_example =
    validate_datacenter_field_changes_growth two_racks three_racks grown 0 3 3 (omega arith) refl
      refl

validate_datacenter_field_changes_racks_example :
    (kept : Rack) × (get_elem? (get_racks three_racks) 1 ≡ some kept)
    × (kept.name ≡ "r2")
    × (kept.zone ≡ "")
unfolding get_racks same_storage
validate_datacenter_field_changes_racks_example =
    validate_datacenter_field_changes_racks two_racks three_racks grown 1 (rack "r2") refl

-- A configuration with no keys
abbrev no_keys : String → List String
no_keys config = []

abbrev dse_datacenter : Datacenter
dse_datacenter = datacenter "dse" "6.8.4" 3 []

passes : validate_single_datacenter no_keys two_racks ≡ none
unfolding validate_single_datacenter is_oss_version_supported digit_follows
passes = refl

dse_passes : validate_single_datacenter no_keys dse_datacenter ≡ none
unfolding validate_single_datacenter is_dse_version_supported digit_follows
dse_passes = refl

abbrev bare : Environment
bare = record { registry_override = []; base_image_os = []; pull_secrets = "" }

validate_single_datacenter-get_cassandra_image_example :
    ((two_racks.spec.server_type ≡ "cassandra")
      × IsFound bare version_to_oss_cassandra version_to_ubi_oss_cassandra
          "datastax/cassandra-mgmtapi:" "4.0.0"
          (get_cassandra_image bare "cassandra" "4.0.0"))
    ⊎ ((two_racks.spec.server_type ≡ "dse")
        × IsFound bare version_to_dse version_to_ubi_dse "datastax/dse-server:" "4.0.0"
            (get_cassandra_image bare "cassandra" "4.0.0"))
validate_single_datacenter-get_cassandra_image_example =
    validate_single_datacenter-get_cassandra_image bare no_keys two_racks passes (inl refl)
