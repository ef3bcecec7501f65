-- ===== src/Worker.antt =====
-- internal/worker: the side of a worker.
pub mod Reporter
pub mod Spans
pub mod Collector
pub mod VirtualUser
pub mod Engine
pub mod Pool
