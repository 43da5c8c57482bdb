-- ===== src/Construct/Wiring.antt =====
-- Whether each mount of the Cassandra container of a built stateful set stands on a volume.
use cass_operator.Prelude.{
  String, ◌≡◌, refl, ◌∙◌, Bool, true, ◌||◌, List, [], ◌∷◌, some, arith, All, ◌==◌, string_eq,
}
use cass_operator.Result.{Outcome, ok, err}
use cass_operator.Templates.{VolumeMount, Container, PodTemplateSpec, VolumeClaim}
use cass_operator.Datacenter.{Datacenter}
use cass_operator.Labels.{Labels}
use cass_operator.Construct.Config.{Surroundings}
use cass_operator.Construct.Volumes.{volume_defaults, add_volumes}
use cass_operator.Construct.Containers.{
  last_named, put_last, cassandra_container, cassandra_mounts, with_containers, build_containers,
  build_init_containers, or_empty, logger_container,
}
use cass_operator.Construct.PodTemplate.{
  base_template, build_pod_template_spec, with_scheduling, with_pod_settings,
}
use cass_operator.Construct.StatefulSets.{volume_claims}
use cass_operator.Construct.Mounts.{
  named, is_resolved, AreResolved, named-volume_claims, cassandra_mounts-AreResolved,
}
use cass_operator.Construct.Places.{last_named-put_last, last_named-put_last_other}

-- A pod has a Cassandra container, each of whose mounts names a volume of the pod or a claim.
abbrev pub IsWired : List VolumeClaim → PodTemplateSpec → Type 0
IsWired claims t =
    (c : Container) × (last_named "cassandra" t.containers ≡ some c)
    × AreResolved t.volumes claims c.volume_mounts

cassandra_container-mounts :
    (around : Surroundings) (dc : Datacenter) (given c : Container)
    → cassandra_container around dc given ≡ ok c
    → (c.name ≡ "cassandra") × (c.volume_mounts ≡ cassandra_mounts dc given.volume_mounts)
unfolding cassandra_container
cassandra_container-mounts around dc given c h = ground arith

module _ (around : Surroundings) (dc : Datacenter) (base : PodTemplateSpec)
    (claims : List VolumeClaim) where
  abbrev given : Container
  given = or_empty (last_named "cassandra" base.containers)

  with_containers-IsWired :
      (c : Container)
      → c.name ≡ "cassandra"
      → AreResolved base.volumes claims c.volume_mounts
      → IsWired claims (with_containers around dc base c)
  unfolding with_containers logger_container
  with_containers-IsWired c named resolved = (
    c,
    last_named-put_last_other "cassandra" _ _ (put_last true c base.containers) refl
        ∙ rw (← named) (last_named-put_last c base.containers),
    resolved,
  )

  build_containers-IsWired :
      (t : PodTemplateSpec)
      → AreResolved base.volumes claims (cassandra_mounts dc given.volume_mounts)
      → build_containers around dc base ≡ ok t
      → IsWired claims t
  unfolding build_containers
  build_containers-IsWired t resolved h = by_container (cassandra_container around dc given) refl
    where
      by_container :
          (r : Outcome Container) → cassandra_container around dc given ≡ r → IsWired claims t
      by_container (err e) r = absurd (ground arith)
      by_container (ok c) r =
          let (named, mounts) = cassandra_container-mounts around dc given c r in
          let whole : with_containers around dc base c ≡ t = ground arith in
          rw (← whole) (with_containers-IsWired c named (rw mounts resolved))

build_init_containers-kept :
    (around : Surroundings) (dc : Datacenter) (rack : String) (base t : PodTemplateSpec)
    → build_init_containers around dc rack base ≡ ok t
    → (t.volumes ≡ base.volumes) × (t.containers ≡ base.containers)
unfolding build_init_containers
build_init_containers-kept around dc rack base t h = ground arith

-- The volumes that a mount of the template may name: its own, the default ones and those of the storage
-- section
abbrev pub is_known : Datacenter → String → Bool
is_known dc k =
    named (λ v. v.name) (base_template dc).volumes k
    || (named (λ v. v.name) (volume_defaults dc) k
        || ("server-data" == k || named (λ s. s.name) dc.spec.storage_config.additional_volumes k))

abbrev template_mounts : Datacenter → List VolumeMount
template_mounts dc = (or_empty (last_named "cassandra" (base_template dc).containers)).volume_mounts

abbrev pub MountsKnown : Datacenter → Type 0
MountsKnown dc = All (λ m. is_known dc m.name ≡ true) (template_mounts dc)

module _ (dc : Datacenter) (labels : Labels) (spec : String) where
  known-resolved :
      (ms : List VolumeMount)
      → All (λ m. is_known dc m.name ≡ true) ms
      → All
          (λ m.
            (is_resolved (base_template dc).volumes (volume_claims dc labels spec) m.name
              || named (λ v. v.name) (volume_defaults dc) m.name)
            ≡ true)
          ms
  known-resolved [] h = tt
  known-resolved (m ∷ ms) h =
      (ground (arith, named-volume_claims dc labels spec m.name), known-resolved ms h.1)

pub build_pod_template_spec-IsWired :
    (around : Surroundings) (dc : Datacenter) (affinity : Labels) (rack : String)
    (t : PodTemplateSpec) (labels : Labels) (spec : String)
    → MountsKnown dc
    → build_pod_template_spec around dc affinity rack ≡ ok t
    → IsWired (volume_claims dc labels spec) t
unfolding build_pod_template_spec with_scheduling with_pod_settings add_volumes
build_pod_template_spec-IsWired around dc affinity rack t labels spec known h =
    by_init (build_init_containers around dc rack start) refl
  where
    scheduled : PodTemplateSpec
    scheduled = with_scheduling dc affinity rack (with_pod_settings around dc (base_template dc))

    start : PodTemplateSpec
    start = add_volumes dc scheduled

    by_init :
        (r : Outcome PodTemplateSpec)
        → build_init_containers around dc rack start ≡ r
        → IsWired (volume_claims dc labels spec) t
    by_init (err e) r = absurd (ground arith)
    by_init (ok base) r =
        let kept = build_init_containers-kept around dc rack start base r in
        let rest : build_containers around dc base ≡ ok t = rw (r, build_pod_template_spec) at h in
        let start_resolved =
          cassandra_mounts-AreResolved dc scheduled labels spec
            (or_empty (last_named "cassandra" start.containers)).volume_mounts
            (known-resolved dc labels spec (template_mounts dc) known) in
        build_containers-IsWired around dc base (volume_claims dc labels spec) t
          (rw (kept.0, kept.1) start_resolved) rest
