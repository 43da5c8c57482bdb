-- ===== src/Labels/Examples.antt =====
-- The theorem on a rack's labels at a pod that lacks the rack's name.
use cass_operator.Prelude.{◌≡◌, refl, false, [], ◌∷◌, lookup, string_eq}
use cass_operator.Datacenter.{Datacenter}
use cass_operator.Fixtures.{datacenter, rack}
use cass_operator.Labels.{
  Labels, cluster_label, should_update_labels_for_rack_resource, add_managed_by_label,
  get_rack_labels,
}
use cass_operator.Labels.Laws.{merged, should_update_labels_for_rack_resource_lem}

abbrev some_datacenter : Datacenter
some_datacenter = datacenter "cassandra" "3.11.6" 3 (rack "r1" ∷ [])

abbrev some_labels : Labels
some_labels = (cluster_label, "old") ∷ ("app", "x") ∷ []

should_update_labels_for_rack_resource_lem_example :
    (lookup "app" (should_update_labels_for_rack_resource some_labels some_datacenter "r1").1
      ≡ merged some_labels (add_managed_by_label (get_rack_labels some_datacenter "r1")) "app")
    × ((should_update_labels_for_rack_resource
          (should_update_labels_for_rack_resource some_labels some_datacenter "r1").1
          some_datacenter
          "r1").0
        ≡ false)
should_update_labels_for_rack_resource_lem_example =
    should_update_labels_for_rack_resource_lem some_labels some_datacenter "r1" "app"
      (refl, (refl, tt))
