-- ===== src/Emm.antt =====
-- EMM operations, operator/pkg/psp/emm.go: the node taints by which a user evacuates a worker or takes
-- it down. `World` has the state and the calls, `Nodes` what the reconciler does for it, `Service` the
-- operations of `EMMServiceImpl`, and `Check` the decisions of `checkNodeEMM` and `checkPVCHealth`.
pub mod World
pub mod Nodes
pub mod Service
pub mod Check
pub mod Keeps
pub mod Calm
pub mod Harmless
pub mod Replacing
pub mod Availability
mod Examples
