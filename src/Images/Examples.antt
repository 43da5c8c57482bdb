-- ===== src/Images/Examples.antt =====
-- The theorems on images and versions at a registry and a few images.
use cass_operator.Prelude.{◌≡◌, ◌↔◌, ◌⊎◌, ◌≢◌, true, []}
use cass_operator.Strings.{codes, trim_suffix}
use cass_operator.Images.{Environment, busy_box, get_image, is_oss_version_supported}
use cass_operator.Images.Versions.{Holds, is_oss_version_supported_iff}
use cass_operator.Images.Registry.{get_image-busy_box}

abbrev overriding : Environment
overriding = record {
  registry_override = codes "localhost:5000/";
  base_image_os = [];
  pull_secrets = "";
}

has_registry : trim_suffix overriding.registry_override (codes "/") ≢ []
unfolding trim_suffix
has_registry e = cc

get_image-busy_box_example : get_image overriding busy_box ≡ codes "localhost:5000/"
unfolding trim_suffix
get_image-busy_box_example = get_image-busy_box overriding has_registry

is_oss_version_supported_iff_example :
    (is_oss_version_supported "3.11.9" ≡ true)
    ↔ (Holds (codes "3.11.") (codes "3.11.9") ⊎ Holds (codes "4.0.") (codes "3.11.9"))
is_oss_version_supported_iff_example = is_oss_version_supported_iff "3.11.9"
