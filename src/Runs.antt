-- ===== src/Runs.antt =====
-- src/honua_migrate/runs: the durable execution of a migration plan.
pub mod Contracts
pub mod Interface
pub mod Effect
pub mod Checkpoints
pub mod Store
pub mod Execute
pub mod Resume
pub mod Ends
pub mod Rules
pub mod Preserve
pub mod Journal
pub mod Consent
pub mod Trail
pub mod Resumable
pub mod Noted
pub mod Crash
pub mod Success
pub mod Stuck
pub mod Actions
mod Tests
