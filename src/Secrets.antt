-- ===== src/Secrets.antt =====
-- Credential safety of artifacts: contract_validation.py and the redaction of a configuration in
-- runs/orchestration.py, both under src/honua_migrate.
pub mod Keys
pub mod Artifact
mod Safe
mod Tests
