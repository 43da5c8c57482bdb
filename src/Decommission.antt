-- ===== src/Decommission.antt =====
-- How a datacenter loses nodes, one at a time: operator/pkg/reconciliation/decommission_node.go.
pub mod World
pub mod Capacity
pub mod Ops
pub mod Room
pub mod Safety
pub mod Earned
pub mod Cleanup
mod Examples
