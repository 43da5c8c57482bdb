-- ===== src/Construct.antt =====
-- What the operator builds for a rack: operator/pkg/reconciliation/construct_podtemplatespec.go and
-- construct_statefulset.go, with what they call of operator/pkg/httphelper/security.go,
-- operator/pkg/serverconfig/configgen.go and operator/pkg/psp/labels_annotations.go.
pub mod Combine
pub mod Config
pub mod Security
pub mod Volumes
pub mod Containers
pub mod PodTemplate
pub mod StatefulSets
pub mod Services
pub mod Mounts
pub mod Places
pub mod Wiring
pub mod Secured
pub mod TemplateLabels
pub mod Selected
mod Examples
