-- ===== src/Reconcile/Services.antt =====
-- The stages before the racks: CheckHeadlessServices of operator/pkg/reconciliation/reconcile_services.go and
-- CheckAdditionalSeedEndpoints of operator/pkg/reconciliation/reconcile_endpoints.go.
use cass_operator.Prelude.{String, List, [], ◌∷◌, ◌++◌, if◌then◌else◌}
use cass_operator.Result.{ReconcileResult, continue_reconcile}
use cass_operator.Passing.{pure, fail, lift_outcome, ◌>>=◌, ◌>>◌}
use cass_operator.Templates.{Service, Endpoints}
use cass_operator.Datacenter.{Datacenter, progress_updating, is_node_port_enabled}
use cass_operator.Labels.{merge_map}
use cass_operator.Construct.Services.{
  new_service_for_cassandra_datacenter, new_seed_service_for_cassandra_datacenter,
  new_all_pods_service_for_cassandra_datacenter,
  new_additional_seed_service_for_cassandra_datacenter,
  new_node_port_service_for_cassandra_datacenter, Resolver, new_endpoints_for_additional_seeds,
}
use cass_operator.Reconcile.World.{
  Settings, M, Call, Answer, found, not_found, failed, get, perform, set_owner, create_service,
  update_service, create_endpoints, update_endpoints,
}
use cass_operator.Reconcile.Progress.{set_operator_progress_status}
use cass_operator.Reconcile.Upgrade.{resources_have_same_hash}

-- The services that the datacenter is to have
unfoldable pub services_of : (hash : Service → String) → Datacenter → List Service
services_of hash dc =
    (new_service_for_cassandra_datacenter hash dc
      ∷ new_seed_service_for_cassandra_datacenter hash dc
      ∷ new_all_pods_service_for_cassandra_datacenter hash dc
      ∷ [])
    ++ (elim dc.spec.additional_seeds [
      | [] ↦ []
      | s ∷ ss ↦ new_additional_seed_service_for_cassandra_datacenter hash dc ∷ []
    ]
        ++ (if is_node_port_enabled dc
            then new_node_port_service_for_cassandra_datacenter dc ∷ []
            else []))

-- Labels and annotations that were added later are kept, and so is the address.
unfoldable pub preserve : (current desired : Service) → Service
preserve current desired = record desired {
  labels = merge_map (merge_map [] current.labels) desired.labels;
  annotations = merge_map (merge_map [] current.annotations) desired.annotations;
  cluster_ip = current.cluster_ip;
}

-- `current` reads a service; the result has the service if it is missing.
unfoldable pub check_service :
    Settings
    → (current : List Call → (name : String) → Answer Service) → (desired : Service)
    → M (List Service)
check_service cfg current desired = do
  perform cfg (set_owner desired.name)
  s ← get
  elim (current s.trace desired.name) [
    | found service ↦
        if resources_have_same_hash service.annotations desired.annotations
        then pure []
        else (do perform cfg (update_service (preserve service desired)); pure [])
    | not_found ↦ pure (desired ∷ [])
    | failed e ↦ fail e
  ]

unfoldable pub check_services :
    Settings
    → (current : List Call → (name : String) → Answer Service) → List Service
    → M (List Service)
check_services cfg current [] = pure []
check_services cfg current (desired ∷ services) = do
  missing ← check_service cfg current desired
  more ← check_services cfg current services
  pure (missing ++ more)

unfoldable pub create_headless_services : Settings → List Service → M ReconcileResult
create_headless_services cfg [] = pure continue_reconcile
create_headless_services cfg (service ∷ services) = do
  set_operator_progress_status cfg progress_updating
  perform cfg (create_service service)
  create_headless_services cfg services

-- Services are created when all were looked at.
unfoldable pub check_headless_services :
    Settings
    → (hash : Service → String) → (current : List Call → (name : String) → Answer Service)
    → M ReconcileResult
check_headless_services cfg hash current = do
  s ← get
  missing ← check_services cfg current (services_of hash s.dc)
  create_headless_services cfg missing

unfoldable pub create_endpoints_for_additional_seed_service :
    Settings → Endpoints → M ReconcileResult
create_endpoints_for_additional_seed_service cfg endpoints = do
  set_operator_progress_status cfg progress_updating
  perform cfg (create_endpoints endpoints)
  pure continue_reconcile

unfoldable pub preserve_endpoints : (current desired : Endpoints) → Endpoints
preserve_endpoints current desired = record desired {
  labels = merge_map (merge_map [] current.labels) desired.labels;
  annotations = merge_map (merge_map [] current.annotations) desired.annotations;
}

unfoldable pub check_endpoints :
    Settings
    → (current : List Call → (name : String) → Answer Endpoints) → (desired : Endpoints)
    → M ReconcileResult
check_endpoints cfg current desired = do
  perform cfg (set_owner desired.name)
  s ← get
  elim (current s.trace desired.name) [
    | found endpoints ↦
        if resources_have_same_hash endpoints.annotations desired.annotations
        then pure continue_reconcile
        else (do
          perform cfg (update_endpoints (preserve_endpoints endpoints desired))
          pure continue_reconcile)
    | not_found ↦ create_endpoints_for_additional_seed_service cfg desired
    | failed e ↦ fail e
  ]

unfoldable pub check_additional_seed_endpoints :
    Settings
    → Resolver
    → (hash : Endpoints → String) → (current : List Call → (name : String) → Answer Endpoints)
    → M ReconcileResult
check_additional_seed_endpoints cfg net hash current = do
  s ← get
  elim s.dc.spec.additional_seeds [
    | [] ↦ pure continue_reconcile
    | seed ∷ seeds ↦ (do
      desired ← lift_outcome (new_endpoints_for_additional_seeds net hash s.dc)
      check_endpoints cfg current desired)
  ]
