-- ===== src/Construct/Volumes.antt =====
-- The volumes of a pod: addVolumes of construct_podtemplatespec.go.
use cass_operator.Prelude.{
  String, append, false, not, List, [], ◌∷◌, map, filter, any, ◌==◌, string_eq,
}
use cass_operator.Templates.{Volume, VolumeMount, empty_dir, secret, no_source, PodTemplateSpec}
use cass_operator.Datacenter.{Datacenter}
use cass_operator.Construct.Combine.{combine_volume_slices}

abbrev pub mount : (name path : String) → VolumeMount
mount name path = record { name = name; mount_path = path; read_only = false }

unfoldable pub generate_storage_config_volumes_mount : Datacenter → List VolumeMount
generate_storage_config_volumes_mount dc =
    map (λ s. mount s.name s.mount_path) dc.spec.storage_config.additional_volumes

unfoldable pub generate_storage_config_empty_volumes : Datacenter → List Volume
generate_storage_config_empty_volumes dc =
    map (λ s. record { name = s.name; source = no_source })
      dc.spec.storage_config.additional_volumes

-- The volumes of the first list whose name the second has not
unfoldable pub symmetric_difference : List Volume → List Volume → List Volume
symmetric_difference list1 list2 = filter (λ v. not (any (λ s. s.name == v.name) list2)) list1

unfoldable pub volume_defaults : Datacenter → List Volume
volume_defaults dc =
    record { name = "server-config"; source = empty_dir }
    ∷ record { name = "server-logs"; source = empty_dir }
    ∷ record { name = "encryption-cred-storage"; source = secret (append dc.name "-keystore") }
    ∷ []

unfoldable pub add_volumes : Datacenter → PodTemplateSpec → PodTemplateSpec
add_volumes dc base = record base {
  volumes =
      symmetric_difference (combine_volume_slices (volume_defaults dc) base.volumes)
        (generate_storage_config_empty_volumes dc);
}
