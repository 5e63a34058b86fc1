-- ===== src/Runs/Interface.antt =====
-- What the run engine calls: the contract validation, and the adapter of a service with the
-- file system around it. Both are parameters of the engine.
use honua_migrate.Base.{String, Bool, Option}
use honua_migrate.Runs.Contracts.{Result, Action, Run}

-- contract_validation.py and `redact_config`, over a type of configurations and one of evidence.
pub record Contracts : Type 1 where
  pub Config : Type 0
  pub Evidence : Type 0
  -- `run.get("config") != redact_config(config)` negated
  pub same_config : Config → Config → Bool
  pub redact_config : Config → Result Config
  -- the truth value of the evidence mapping
  pub has_entries : Evidence → Bool
  pub evidence_safe : Evidence → Result (Unit {0})
  -- `_JOB_ID.fullmatch` and `assert_artifact_safe` of a job identity
  pub is_job_id : String → Bool
  pub job_id_safe : String → Result (Unit {0})
  -- `validate_contract("run", payload)`
  pub validate_run : Run Config Evidence → Result (Unit {0})

-- How the opening of the lock file ends.
pub data LockOpen : Type 0 where
  opened unsafe os_error : LockOpen

-- An `ExecutionReceipt`, its evidence read through `dict(receipt.evidence or {})`.
pub record Receipt (Evidence : Type 0) : Type 0 where
  pub job_id : Option String
  pub evidence : Evidence

-- The service's executor and the file system, over an unknown state.
pub record Adapter (Evidence : Type 0) : Type 1 where
  pub State : Type 0
  pub inspect : Action → State → Result (Option (Receipt Evidence)) × State
  pub execute : Action → State → Result (Receipt Evidence) × State
  -- whether the next write of the artifact reaches the disk
  pub write_file : State → Bool × State
  pub open_lock : State → LockOpen × State
