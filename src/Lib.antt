-- ===== src/Lib.antt =====
-- A model of cass-operator, the Kubernetes operator for Apache Cassandra and DSE: what a reconciliation
-- decides and does, and what is proved of it.
--
-- The program. A CassandraDatacenter resource says how many nodes a datacenter is to have, on which
-- racks, at which version. The admission webhook checks the resource and its changes. The reconciler
-- then runs passes: it spreads the nodes over racks, keeps one stateful set for each, starts Cassandra in
-- the pods through the management API, and records conditions in the resource's status. A pass is a
-- sequence of stages; each ends with a result that lets the pass go on or ends it. On vSphere the EMM
-- checks run in between: taints on workers ask for evacuation or planned downtime.
--
-- The modules.
--   Prelude: the names the modules share; lists and Go maps over the native numbers.
--   Strings: Go's strings functions over code points.
--   StringSet: the sets of names of operator/pkg/utils/k8s_utils.go.
--   Templates: the parts of Kubernetes' pod templates and stateful sets.
--   Datacenter: the resource of operator/pkg/apis/cassandra/v1beta1/cassandradatacenter_types.go.
--   Result: operator/internal/result/result_helper.go.
--   Conditions: conditions of that resource and the stages of
--     operator/pkg/reconciliation/reconcile_racks.go that decide on them (CheckForInvalidState,
--     CheckClearActionConditions, CheckConditionInitializedAndReady, CheckCassandraNodeStatuses).
--   Racks: SplitRacks, CalculateRackInformation, CalculateRackInfoForDecomm.
--   Pods: pods and the tests and filters on them (isServerReady, isMgmtApiRunning and so on).
--   Startup: CheckPodsReady. World has the state, which is the pods in memory and the calls made, and
--     the monad; Ops and Seeds have the operations, Pass the whole stage; Keeps has rules for what
--     operations keep, Quiet those that start no node; Serial and SeedCount are about starts and seeds,
--     Shapes, Listed, Waiting and Patience about passes while a node is starting.
--   Emm: operator/pkg/psp/emm.go with its implementation in operator/pkg/reconciliation/check_nodes.go.
--     World has the state and the calls, Nodes the reads, removals and replacements of check_nodes.go,
--     Service the operations of EMMServiceImpl, Check the stages of checkNodeEMM and checkPVCHealth;
--     Keeps, Calm, Harmless, Replacing and Availability have the proofs.
--   Passing: functions of a state that may fail, and rules for what they keep.
--   Decommission: operator/pkg/reconciliation/decommission_node.go. World has the state and the calls,
--     Capacity the test for room, Ops the stages; Room, Safety, Earned and Cleanup the proofs.
--   Labels: labels and names, operator/pkg/oplabels/labels.go, MergeMap of
--     operator/pkg/utils/utilities.go and shouldUpdateLabelsForRackResource and its like.
--   Construct: what is built for a rack. Combine has defaults and overrides with the container ports,
--     Config the configuration, Security, Volumes, Containers and PodTemplate the pods, StatefulSets the
--     set, Services the services and endpoints: operator/pkg/reconciliation/construct_podtemplatespec.go and construct_statefulset.go, with
--     parts of operator/pkg/httphelper/security.go and operator/pkg/serverconfig/configgen.go. Mounts,
--     Places, Wiring and Secured are about mounts and volumes, TemplateLabels
--     and Selected about labels and selectors.
--   Reconcile: the other stages of ReconcileAllRacks. World has the state and the calls, Progress changes
--     of the status; Start is how a pass comes to its racks; Creation, Scaling, Upgrade and CaughtUp are about stateful sets, NodeStatus, Restart,
--     Secrets, ConfigSecret and Users about nodes, secrets and users; Services has the stages before the
--     racks, of reconcile_services.go and reconcile_endpoints.go. Untouched, Cases and Traced have rules for
--     proofs; OneRack and Growth are about scaling, Updates, OneUpgrade and Canary about upgrades,
--     OneRestart about restarts, Waiting about waiting for the controller, KeptSecret and Stored about
--     the configuration, Roles and Served about users.
--   Handler: operator/pkg/reconciliation/handler.go and reconcile_datacenter.go; Deletion is about the end
--     of a datacenter.
--   Health: operator/pkg/psp/psp_status.go, the health document and the catalog in config maps; Document
--     has the document, Laws and Alone what it holds after an update.
--   Policies: operator/pkg/psp/networkpolicies.go; InPlace is about the policy that a pass leaves.
--   Watches: operator/pkg/dynamicwatch/watch.go and the string lists of operator/pkg/utils/utilities.go;
--     Update has UpdateWatch, Settled what it leaves, with Patches.
--   Images: operator/pkg/images/images.go; Registry and Versions are about overrides and versions, Found
--     about the images that are found.
--   Webhook: operator/pkg/apis/cassandra/v1beta1/webhook.go.
--   Fixtures, and a module Examples below a component: test data, and the theorems at concrete inputs.
--
-- Conventions. A function with an error result is a function into a result type; a function that calls
-- the cluster is a state-passing function whose state has the trace of the calls made, and the answer
-- to a call is a function of that trace, so that calls may fail in any pattern. A change made in
-- memory before a failing call stays. A Go map is an association list, and the order in which Go
-- ranges over it is any order of the list, which in Emm may be another one each time. A `nil` map is
-- an empty one. Sizes and ports are natural numbers, which the resource's schema grants; Go computes
-- with int and int32, whose bounds no size comes near. The time is an argument, in seconds. All loops
-- are structural recursions on the list they range over, so that no fuel is needed.
--
-- Not modelled: the sequence of the stages in ReconcileAllRacks, but for its start, and in
-- calculateReconciliationActions; the validation of certificates and the management API's transport;
-- generated code, and the build. Logs and events are left out, and that MergeMap writes the affinity
-- labels of a rack into the rack's own map, from which the same labels are computed again. Hashes,
-- JSON, YAML, random passwords, certificates and key stores are parameters.
pub mod Prelude
pub mod Templates
pub mod Datacenter
pub mod Strings
pub mod StringSet
pub mod Result
pub mod Passing
pub mod Pods
pub mod Labels
pub mod Health
pub mod Policies
pub mod Images
pub mod Construct
pub mod Emm
pub mod Racks
pub mod Webhook
pub mod Conditions
pub mod Startup
pub mod Fixtures
pub mod Decommission
pub mod Reconcile
pub mod Handler
pub mod Watches
