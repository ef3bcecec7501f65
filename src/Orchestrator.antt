-- ===== src/Orchestrator.antt =====
-- internal/orchestrator
pub mod Distributor
pub mod Allocation
pub mod Ring
pub mod Nodes
pub mod Aggregator
pub mod Server
