-- ===== src/Runtime.antt =====
-- internal/runtime: test plans as they are written, checked, and put on the wire.
pub mod Duration
pub mod Scenario
pub mod Parser
pub mod Wire
pub mod Received
