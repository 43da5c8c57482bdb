-- ===== src/Construct/TemplateLabels.antt =====
-- The labels of a rack's pod template through the steps that build it.

use cass_operator.Prelude.{String, ◌≡◌, refl, ◌∙◌, [], ◌∷◌, arith, string_eq}
use cass_operator.Result.{Outcome, ok, err}
use cass_operator.Templates.{PodTemplateSpec}
use cass_operator.Datacenter.{Datacenter}
use cass_operator.Labels.{Labels, merge_map}
use cass_operator.Construct.Config.{Surroundings}
use cass_operator.Construct.Containers.{build_init_containers, build_containers, with_containers}
use cass_operator.Construct.PodTemplate.{
  build_pod_template_spec, base_template, pod_labels, with_scheduling, with_pod_settings,
}
use cass_operator.Construct.Volumes.{add_volumes}
use cass_operator.Construct.Security.{
  Provider, insecure, manual, add_server_security, add_management_api_server_security,
  build_management_api_security_provider,
}
use cass_operator.Construct.StatefulSets.{with_node_selector}

build_init_containers-labels :
    (around : Surroundings) (dc : Datacenter) (rack : String) (base t : PodTemplateSpec)
    → build_init_containers around dc rack base ≡ ok t
    → t.labels ≡ base.labels
unfolding build_init_containers
build_init_containers-labels around dc rack base t h = ground arith

build_containers-labels :
    (around : Surroundings) (dc : Datacenter) (base t : PodTemplateSpec)
    → build_containers around dc base ≡ ok t
    → t.labels ≡ base.labels
unfolding build_containers with_containers
build_containers-labels around dc base t h = ground arith

pub build_pod_template_spec-labels :
    (around : Surroundings) (dc : Datacenter) (affinity : Labels) (rack : String)
    (t : PodTemplateSpec)
    → build_pod_template_spec around dc affinity rack ≡ ok t
    → t.labels ≡ merge_map (base_template dc).labels (pod_labels dc rack)
unfolding build_pod_template_spec with_scheduling with_pod_settings add_volumes
build_pod_template_spec-labels around dc affinity rack t h =
    by_init (build_init_containers around dc rack start) refl
  where
    start : PodTemplateSpec
    start =
        add_volumes dc
          (with_scheduling dc affinity rack (with_pod_settings around dc (base_template dc)))

    by_init :
        (r : Outcome PodTemplateSpec)
        → build_init_containers around dc rack start ≡ r
        → t.labels ≡ merge_map (base_template dc).labels (pod_labels dc rack)
    by_init (err e) r = absurd (ground arith)
    by_init (ok base) r =
        let rest : build_containers around dc base ≡ ok t = rw (r, build_pod_template_spec) at h in
        build_containers-labels around dc base t rest
        ∙ build_init_containers-labels around dc rack start base r

add_server_security-labels :
    (p : Provider) (t t' : PodTemplateSpec) → add_server_security p t ≡ ok t' → t'.labels ≡ t.labels
unfolding add_server_security
add_server_security-labels insecure t t' h = ground arith
add_server_security-labels (manual config) t t' h = ground arith

pub add_management_api_server_security-labels :
    (dc : Datacenter) (t : PodTemplateSpec)
    → (add_management_api_server_security dc t).labels ≡ t.labels
unfolding add_management_api_server_security
add_management_api_server_security-labels dc t =
    by_provider (build_management_api_security_provider dc)
  where
    by_answer :
        (p : Provider) (r : Outcome PodTemplateSpec)
        → add_server_security p t ≡ r
        → (elim r as (λ x. PodTemplateSpec) [ err e ↦ t | ok t' ↦ t' ]).labels ≡ t.labels
    by_answer p (err e) h = refl
    by_answer p (ok t') h = add_server_security-labels p t t' h

    by_provider :
        (r : Outcome Provider)
        → (elim r as (λ x. PodTemplateSpec) [
          | err e ↦ t
          | ok p ↦ elim (add_server_security p t) as (λ x. PodTemplateSpec) [
            | err e ↦ t
            | ok t' ↦ t'
          ]
        ]).labels
          ≡ t.labels
    by_provider (err e) = refl
    by_provider (ok p) = by_answer p (add_server_security p t) refl

pub with_node_selector-labels :
    (dc : Datacenter) (t : PodTemplateSpec) → (with_node_selector dc t).labels ≡ t.labels
with_node_selector-labels dc t = by_selector dc.spec.node_selector
  where
    by_selector :
        (ls : Labels)
        → (elim ls as (λ x. PodTemplateSpec) [
          | [] ↦ t
          | l ∷ ls ↦ record t { node_selector = merge_map [] (l ∷ ls) }
        ]).labels
          ≡ t.labels
    by_selector [] = refl
    by_selector (l ∷ ls) = refl
