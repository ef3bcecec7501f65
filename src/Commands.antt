-- ===== src/Commands.antt =====
-- cmd: the programs around the components.
pub mod Accounts
pub mod DevOrchestrator
pub mod Cli
pub mod WorkerServer
