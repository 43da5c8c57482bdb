-- ===== src/Construct/Secured.antt =====
-- Whether the mounts still stand on volumes once the management API is secured and vSphere served.
use cass_operator.Prelude.{
  ℕ, String, ◌≡◌, refl, ap, Bool, true, false, ◌||◌, List, [], ◌∷◌, ◌++◌, map, Option, none, some,
  arith, All-append, ◌==◌, if◌then◌else◌, string_eq, Option-cases, inl, inr,
}
use cass_operator.Result.{Outcome, ok, err}
use cass_operator.Templates.{
  Volume, VolumeMount, Container, PodTemplateSpec, VolumeClaim, StatefulSet, secret,
}
use cass_operator.Datacenter.{Datacenter, ManualAuth}
use cass_operator.Labels.{Labels, merge_map}
use cass_operator.Construct.Config.{Surroundings}
use cass_operator.Construct.Security.{
  change_last, Provider, insecure, manual, secure_container, add_server_security,
  add_management_api_server_security, build_management_api_security_provider, secret_volume_name,
}
use cass_operator.Construct.PodTemplate.{build_pod_template_spec}
use cass_operator.Construct.StatefulSets.{
  new_stateful_set, assemble, volume_claims, claim_labels, add_stateful_set_changes,
  add_hash_annotation, rack_node_affinity_labels, add_labels, with_node_selector,
}
use cass_operator.Construct.Mounts.{named, named-append, AreResolved}
use cass_operator.Construct.Places.{Changes, last_named-change_last}
use cass_operator.Construct.Wiring.{IsWired, MountsKnown, build_pod_template_spec-IsWired}

-- One volume more
more-AreResolved :
    (volumes : List Volume) (v : Volume) (claims : List VolumeClaim) (ms : List VolumeMount)
    → AreResolved volumes claims ms
    → AreResolved (volumes ++ (v ∷ [])) claims ms
more-AreResolved volumes v claims [] h = tt
more-AreResolved volumes v claims (m ∷ ms) h = (
  ground (arith, named-append (λ (v : Volume). v.name) volumes (v ∷ []) m.name),
  more-AreResolved volumes v claims ms h.1,
)

secure_container-AreResolved :
    (config : ManualAuth) (claims : List VolumeClaim) (volumes : List Volume) (v : Volume)
    (c : Container)
    → v.name ≡ "management-api-server-certs-volume"
    → AreResolved volumes claims c.volume_mounts
    → AreResolved (volumes ++ (v ∷ [])) claims (secure_container config c).volume_mounts
unfolding secure_container
secure_container-AreResolved config claims volumes v c named h =
    All-append _ c.volume_mounts _ (more-AreResolved volumes v claims c.volume_mounts h) (
      ground (
        arith,
        named-append (λ (v : Volume). v.name) volumes (v ∷ []) "management-api-server-certs-volume",
        string_eq.same_iff v.name "management-api-server-certs-volume",
      ),
      tt,
    )

abbrev secured : ManualAuth → List Container → PodTemplateSpec → PodTemplateSpec
secured config cs t = record t {
  containers = cs;
  volumes =
      t.volumes
      ++ (record { name = secret_volume_name; source = secret config.server_secret_name } ∷ []);
}

secure_container-name :
    (config : ManualAuth) (c : Container) → (secure_container config c).name ≡ c.name
unfolding secure_container
secure_container-name config c = refl

add_server_security-IsWired :
    (p : Provider) (claims : List VolumeClaim) (t t' : PodTemplateSpec)
    → IsWired claims t
    → add_server_security p t ≡ ok t'
    → IsWired claims t'
unfolding add_server_security
add_server_security-IsWired insecure claims t t' wired h =
    let same : t ≡ t' = ground arith in rw (← same) wired
add_server_security-IsWired (manual config) claims t t' wired h =
    elim (Option-cases (change_last "cassandra" (secure_container config) t.containers)) [
      | inl e ↦ absurd (ground arith)
      | inr (cs, e) ↦
          let placed : Changes "cassandra" (secure_container config) t.containers (some cs) =
            rw e at (
              last_named-change_last "cassandra" (secure_container config)
                (secure_container-name config) t.containers) in
          let whole : secured config cs t ≡ t' = ground arith in
          let one : wired.0 ≡ placed.0 = cc (wired.1, placed.1) in
          rw (← whole) (
            secure_container config placed.0,
            placed.2,
            secure_container-AreResolved config claims t.volumes _ placed.0 refl
                (rw (← one) wired.2),
          )
    ]

secured-IsWired :
    (dc : Datacenter) (claims : List VolumeClaim) (t : PodTemplateSpec)
    → IsWired claims t
    → IsWired claims (add_management_api_server_security dc t)
unfolding add_management_api_server_security
secured-IsWired dc claims t wired = by_provider (build_management_api_security_provider dc)
  where
    by_answer :
        (p : Provider) (r : Outcome PodTemplateSpec)
        → add_server_security p t ≡ r
        → IsWired claims (elim r as (λ x. PodTemplateSpec) [ err e ↦ t | ok t' ↦ t' ])
    by_answer p (err e) h = wired
    by_answer p (ok t') h = add_server_security-IsWired p claims t t' wired h

    by_provider :
        (r : Outcome Provider)
        → IsWired claims (elim r as (λ x. PodTemplateSpec) [
          | err e ↦ t
          | ok p ↦ elim (add_server_security p t) as (λ x. PodTemplateSpec) [
            | err e ↦ t
            | ok t' ↦ t'
          ]
        ])
    by_provider (err e) = wired
    by_provider (ok p) = by_answer p (add_server_security p t) refl

named-add_labels :
    (around : Surroundings) (dc : Datacenter) (claims : List VolumeClaim) (k : String)
    → named {A = VolumeClaim}
        (λ c. c.name)
        (map {A = VolumeClaim}
          (λ c. record c { labels = add_labels around dc.name c.labels })
          claims)
        k
      ≡ named (λ c. c.name) claims k
named-add_labels around dc [] k = refl
named-add_labels around dc (c ∷ cs) k = ap (λ b. c.name == k || b) (named-add_labels around dc cs k)

labelled-AreResolved :
    (around : Surroundings) (dc : Datacenter) (volumes : List Volume) (claims : List VolumeClaim)
    (ms : List VolumeMount)
    → AreResolved volumes claims ms
    → AreResolved volumes
        (map {A = VolumeClaim}
          (λ c. record c { labels = add_labels around dc.name c.labels })
          claims)
        ms
labelled-AreResolved around dc volumes claims [] h = tt
labelled-AreResolved around dc volumes claims (m ∷ ms) h = (
  ground (arith, named-add_labels around dc claims m.name),
  labelled-AreResolved around dc volumes claims ms h.1,
)

abbrev pub StatefulSetIsWired : StatefulSet → Type 0
StatefulSetIsWired sts = IsWired sts.volume_claim_templates sts.template

add_stateful_set_changes-IsWired :
    (around : Surroundings) (dc : Datacenter) (sts : StatefulSet)
    → StatefulSetIsWired sts
    → StatefulSetIsWired (add_stateful_set_changes around dc sts)
unfolding add_stateful_set_changes
add_stateful_set_changes-IsWired around dc sts (c, there, resolved) = (
  c,
  there,
  labelled-AreResolved around dc sts.template.volumes sts.volume_claim_templates c.volume_mounts
      resolved,
)

with_node_selector-IsWired :
    (dc : Datacenter) (claims : List VolumeClaim) (t : PodTemplateSpec)
    → IsWired claims t
    → IsWired claims (with_node_selector dc t)
with_node_selector-IsWired dc claims t wired = by_selector dc.spec.node_selector
  where
    by_selector :
        (ls : Labels)
        → IsWired claims (elim ls as (λ x. PodTemplateSpec) [
          | [] ↦ t
          | l ∷ ls ↦ record t { node_selector = merge_map [] (l ∷ ls) }
        ])
    by_selector [] = wired
    by_selector (l ∷ ls) = wired

finished-IsWired :
    (around : Surroundings) (dc : Datacenter) (sts : StatefulSet) (b : Bool)
    → StatefulSetIsWired sts
    → StatefulSetIsWired
        (add_hash_annotation around (if b then add_stateful_set_changes around dc sts else sts))
unfolding add_hash_annotation
finished-IsWired around dc sts true wired = add_stateful_set_changes-IsWired around dc sts wired
finished-IsWired around dc sts false wired = wired

assembled-IsWired :
    (dc : Datacenter) (rack : String) (replicas : ℕ) (claims : List VolumeClaim)
    (t : PodTemplateSpec)
    → IsWired claims t
    → StatefulSetIsWired (assemble dc rack replicas claims t)
unfolding assemble
assembled-IsWired dc rack replicas claims t wired = wired

-- A datacenter whose template mounts in its Cassandra container no volume but its own, the default ones and those of
-- the storage section, gets a stateful set whose last container called cassandra is there and mounts only volumes of the
-- pod and claims of the set: with every kind of management API security, and with the changes for vSphere or without.
pub new_stateful_set-IsWired :
    (around : Surroundings) (rack : String) (dc : Datacenter) (replicas : ℕ) (defunct : Bool)
    (sts : StatefulSet)
    → MountsKnown dc
    → new_stateful_set around rack dc replicas defunct ≡ ok sts
    → StatefulSetIsWired sts
unfolding new_stateful_set
new_stateful_set-IsWired around rack dc replicas defunct sts known h =
    by_claim dc.spec.storage_config.cassandra_data_volume_claim_spec refl
  where
    by_claim :
        (o : Option String)
        → dc.spec.storage_config.cassandra_data_volume_claim_spec ≡ o
        → StatefulSetIsWired sts
    by_claim none e = absurd (ground arith)
    by_claim (some spec) e = by_template (build_pod_template_spec around dc labels rack) refl
      where
        labels : Labels
        labels = rack_node_affinity_labels dc rack

        claims : List VolumeClaim
        claims = volume_claims dc (claim_labels dc rack defunct) spec

        by_template :
            (r : Outcome PodTemplateSpec)
            → build_pod_template_spec around dc labels rack ≡ r
            → StatefulSetIsWired sts
        by_template (err x) r = absurd (ground arith)
        by_template (ok t) r =
            let wired = secured-IsWired dc claims (with_node_selector dc t) (
              with_node_selector-IsWired dc claims t (
                build_pod_template_spec-IsWired around dc labels rack t
                  (claim_labels dc rack defunct) spec known r)) in
            let base_sts =
              assemble dc rack replicas claims
                (add_management_api_server_security dc (with_node_selector dc t)) in
            let built : ok (
                  add_hash_annotation around (
                    if around.psp_enabled
                    then add_stateful_set_changes around dc base_sts
                    else base_sts))
                ≡ ok sts =
              rw (e, r, new_stateful_set) at h in
            let whole : add_hash_annotation around (
                  if around.psp_enabled
                  then add_stateful_set_changes around dc base_sts
                  else base_sts)
                ≡ sts =
              cc in
            rw (← whole) (
              finished-IsWired around dc base_sts around.psp_enabled
                (assembled-IsWired dc rack replicas claims _ wired))
