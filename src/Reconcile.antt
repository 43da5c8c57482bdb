-- ===== src/Reconcile.antt =====
-- The stages of ReconcileAllRacks that look after the racks' stateful sets, the datacenter's status, its
-- users and its configuration: operator/pkg/reconciliation/reconcile_racks.go and
-- reconcile_configsecret.go. The stages for starting and for removing nodes are the modules Startup and
-- Decommission, those on conditions alone Conditions.
pub mod World
pub mod Progress
pub mod Creation
pub mod Scaling
pub mod Upgrade
pub mod Services
pub mod NodeStatus
pub mod Restart
pub mod CaughtUp
pub mod Start
pub mod Secrets
pub mod ConfigSecret
pub mod Users
pub mod Untouched
pub mod OneRack
pub mod Growth
pub mod OneRestart
pub mod Updates
pub mod OneUpgrade
pub mod Waiting
pub mod Canary
pub mod Cases
pub mod KeptSecret
pub mod Stored
pub mod Roles
pub mod Traced
pub mod Served
mod Examples
