-- ===== src/Api.antt =====
-- internal/api: what a submitted run must pass before it is dispatched, and its place in the queue.
pub mod Allowlist
pub mod Queue
pub mod Dispatcher
pub mod Metrics
pub mod Session
pub mod Recorder
pub mod Reply
pub mod Auth
pub mod Routes
pub mod Stream
pub mod Passwords
pub mod Accounts
pub mod Runs
