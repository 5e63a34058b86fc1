-- ===== src/Runs/Contracts.antt =====
-- honua_migrate/contracts.py: exit codes, errors, and the records of a plan and of a run.
use Prim.Native.Nat.{ℕ}
use honua_migrate.Base.{◌≡◌, refl, String, Bool, Option, List}

abbrev pub exit_input_error : ℕ
exit_input_error = 2

abbrev pub exit_validation_error : ℕ
exit_validation_error = 3

abbrev pub exit_unavailable : ℕ
exit_unavailable = 4

abbrev pub exit_partial : ℕ
exit_partial = 10

abbrev pub exit_remote_error : ℕ
exit_remote_error = 20

abbrev pub exit_apply_refused : ℕ
exit_apply_refused = 40

-- What a `try` of the program tells apart: a `MigrationError` with its exit code, an
-- `InterruptedError`, and any other `Exception`.
pub data Exc : Type 0 where
  migration : ℕ → Exc
  interrupted : Exc
  other : Exc

pub data Result {ℓ} (A : Type ℓ) : Type ℓ where
  ok : A → Result A
  err : Exc → Result A

abbrev pub then_result {ℓ κ} : {A : Type ℓ} {B : Type κ} → Result A → (A → Result B) → Result B
then_result (ok a) f = f a
then_result (err e) f = err e

-- Inversion of a chain that ends well.
pub then_result-eq-ok {ℓ κ} :
    {A : Type ℓ} {B : Type κ} (r : Result A) (f : A → Result B) {b : B}
    → then_result r f ≡ ok b
    → (x : A) × (r ≡ ok x) × (f x ≡ ok b)
then_result-eq-ok (ok x) f h = (x, refl, h)
then_result-eq-ok (err e) f h = cc

pub ok-injective : {A : Type 0} {x y : A} → ok x ≡ ok y → y ≡ x
ok-injective h = cc

pub data SafetyMode : Type 0 where
  read_only plan apply : SafetyMode

-- The outcomes that the run schema admits.
pub data Outcome : Type 0 where
  pending running succeeded partial failed cancelled : Outcome

-- The `status` of a checkpoint as the code sees it: the two known texts, any other hashable
-- value, and a list or an object, of which `in {…}` raises a `TypeError`.
pub data Status : Type 0 where
  started succeeded unknown unhashable : Status

-- The value under `job_id` in a checkpoint: no key, null, a value that is no text, or a text.
pub data JobField : Type 0 where
  absent null not_text : JobField
  text : String → JobField

-- A checkpoint object. `none` stands for a missing key, or for a value of another type.
pub record Checkpoint (Evidence : Type 0) : Type 0 where
  pub action_id : Option String
  pub write : Option Bool
  pub idempotent : Option Bool
  pub status : Status
  pub job_id : JobField
  pub evidence : Option Evidence

-- An action that `_validated_actions` has passed, with its flags' defaults filled in.
pub record Action : Type 0 where
  pub id : String
  pub write : Bool
  pub idempotent : Bool

-- `MigrationRun.to_dict()`, less the constant contract version.
pub record Run (Config Evidence : Type 0) : Type 0 where
  pub id : String
  pub plan_id : String
  pub plan_digest : String
  pub service : String
  pub safety_mode : SafetyMode
  pub config : Config
  pub job_ids : List String
  pub checkpoints : List (Checkpoint Evidence)
  pub outcome : Outcome
