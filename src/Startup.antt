-- ===== src/Startup.antt =====
-- How the pods of a datacenter are brought up: CheckPodsReady of
-- operator/pkg/reconciliation/reconcile_racks.go and the functions it calls.
pub mod World
pub mod Ops
pub mod Seeds
pub mod Pass
pub mod Keeps
pub mod Serial
pub mod SeedCount
pub mod Quiet
mod Examples
pub mod Shapes
pub mod Waiting
pub mod Patience
pub mod Listed
