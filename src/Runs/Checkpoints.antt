-- ===== src/Runs/Checkpoints.antt =====
-- runs/orchestration.py: checkpoints, `_complete`, and the validation of a plan's actions and of
-- a loaded run.
use honua_migrate.Base.{
  ℕ, String, Bool, true, false, not, ◌&&◌, ◌||◌, Option, none, some, List, [], ◌∷◌, ◌++◌, map, ◌==◌,
  contains, string_eq, bool_eq, nat_eq, option_eq, any, length, is_empty, if◌then◌else◌,
}
use honua_migrate.Runs.Contracts.{
  migration, other, Result, ok, err, then_result, Outcome, Status, JobField, Checkpoint, Action,
  Run, exit_validation_error, exit_apply_refused,
}
use honua_migrate.Runs.Interface.{Contracts, Receipt}

-- The values that `raw.get("write", True)` can give: the default, a Boolean, or anything else.
pub data FlagField : Type 0 where
  missing : FlagField
  flag : Bool → FlagField
  not_bool : FlagField

-- An entry of the plan's actions; the identity is `none` where it is no text.
pub data RawAction : Type 0 where
  not_object : RawAction
  object : Option String → FlagField → FlagField → RawAction

abbrev pub invalid {ℓ} : {A : Type ℓ} → Result A
invalid = err (migration exit_validation_error)

abbrev pub flag_value : Bool → FlagField → Option Bool
flag_value default missing = some default
flag_value default (flag b) = some b
flag_value default not_bool = none

abbrev pub read_flags : String → Option Bool → Option Bool → Result Action
read_flags id (some write) (some idempotent) =
    ok (record { id = id; write = write; idempotent = idempotent })
read_flags id _ _ = invalid

-- The body of the loop of `_validated_actions`, up to the two appends.
unfoldable pub read_action : RawAction → List String → Result Action
read_action not_object identifiers = invalid
read_action (object none write idempotent) identifiers = invalid
read_action (object (some id) write idempotent) identifiers =
    if id == "" || contains identifiers id
    then invalid
    else read_flags id (flag_value true write) (flag_value false idempotent)

unfoldable pub validated_actions : List RawAction → List String → Result (List Action)
unfolding read_action
validated_actions [] identifiers = ok []
validated_actions (raw ∷ raws) identifiers =
    then_result (read_action raw identifiers)
      λ a. then_result (validated_actions raws (a.id ∷ identifiers)) λ rest. ok (a ∷ rest)

abbrev pub is_started : Status → Bool
is_started Status.started = true
is_started _ = false

abbrev pub is_succeeded : Status → Bool
is_succeeded Status.succeeded = true
is_succeeded _ = false

-- `job_id not in job_ids` guards the append.
unfoldable pub add_job : List String → String → List String
add_job jobs j = if contains jobs j then jobs else jobs ++ (j ∷ [])

unfoldable pub same_texts : List String → List String → Bool
same_texts [] [] = true
same_texts (s ∷ ss) (t ∷ ts) = s == t && same_texts ss ts
same_texts _ _ = false

module _ (c : Contracts) where
  open c use {Config, Evidence}

  unfoldable pub checkpoint : Action → Status → Checkpoint Evidence
  checkpoint a status = record {
    action_id = some a.id;
    write = some a.write;
    idempotent = some a.idempotent;
    status = status;
    job_id = JobField.absent;
    evidence = none;
  }

  unfoldable pub replace_in :
      List (Checkpoint Evidence) → String → Checkpoint Evidence → List (Checkpoint Evidence)
  replace_in [] id new = new ∷ []
  replace_in (current ∷ rest) id new =
      if current.action_id == some id then new ∷ rest else current ∷ replace_in rest id new

  unfoldable pub replace_checkpoint :
      Run Config Evidence → Action → Checkpoint Evidence → Run Config Evidence
  unfolding replace_in
  replace_checkpoint run a new = record run { checkpoints = replace_in run.checkpoints a.id new }

  -- A dict from action identities to checkpoints: the entry of an identity is its first.
  unfoldable pub find : String → List (Checkpoint Evidence) → Option (Checkpoint Evidence)
  find id [] = none
  find id (cp ∷ rest) = if cp.action_id == some id then some cp else find id rest

  -- The job identity of a receipt, checked and noted in the checkpoint and in the run.
  unfoldable pub note_job :
      Run Config Evidence
      → Checkpoint Evidence
      → Option String
      → Result (Run Config Evidence × Checkpoint Evidence)
  unfolding add_job
  note_job run cp none = ok (run, cp)
  note_job run cp (some j) =
      if c.is_job_id j
      then then_result (c.job_id_safe j) (λ _.
        ok (record run { job_ids = add_job run.job_ids j }, record cp { job_id = JobField.text j }))
      else invalid

  unfoldable pub note_evidence : Evidence → Checkpoint Evidence → Checkpoint Evidence
  note_evidence evidence cp =
      if c.has_entries evidence then record cp { evidence = some evidence } else cp

  unfoldable pub complete :
      Run Config Evidence → Action → Receipt Evidence → Result (Run Config Evidence)
  unfolding checkpoint note_job note_evidence replace_checkpoint
  complete run a receipt = then_result (c.evidence_safe receipt.evidence) λ _.
      then_result (note_job run (checkpoint a Status.succeeded) receipt.job_id)
        λ (run', cp). ok (replace_checkpoint run' a (note_evidence receipt.evidence cp))

  unfoldable pub represent_job : List String → JobField → Result (List String)
  unfolding add_job
  represent_job jobs JobField.absent = ok jobs
  represent_job jobs JobField.null = ok jobs
  represent_job jobs JobField.not_text = invalid
  represent_job jobs (JobField.text j) =
      if c.is_job_id j then then_result (c.job_id_safe j) (λ _. ok (add_job jobs j)) else invalid

  abbrev pub has_job : JobField → Bool
  has_job JobField.absent = false
  has_job _ = true

  -- The long disjunction of `_validated_checkpoints`, `last` telling whether the index is the last.
  unfoldable pub check_one :
      Action → Checkpoint Evidence → List String → Bool → Status → Result (Unit {0})
  check_one a raw found last status =
      if not (raw.action_id == some a.id) || contains found a.id then invalid else elim status [
        | Status.unhashable ↦ err other
        | Status.unknown ↦ invalid
        | Status.started ↦
            if not (raw.write == some a.write)
              || not (raw.idempotent == some a.idempotent)
              || not last
              || has_job raw.job_id
            then invalid
            else ok tt
        | Status.succeeded ↦
            if not (raw.write == some a.write) || not (raw.idempotent == some a.idempotent)
            then invalid
            else ok tt
      ]

  -- The loop of `_validated_checkpoints` over the checkpoints and the actions at the same indices.
  -- It returns the identities met, in order, and the job identities represented.
  unfoldable pub check_loop :
      List Action
      → List (Checkpoint Evidence)
      → List String
      → List String
      → Result (List String × List String)
  unfolding check_one represent_job
  check_loop actions [] found jobs = ok (found, jobs)
  check_loop [] (raw ∷ raws) found jobs = invalid
  check_loop (a ∷ actions) (raw ∷ raws) found jobs =
      then_result (check_one a raw found (is_empty raws) raw.status) λ _.
        then_result (represent_job jobs raw.job_id)
          λ jobs'. check_loop actions raws (found ++ (a.id ∷ [])) jobs'

  abbrev pub refuse_if : Bool → Result (Unit {0})
  refuse_if true = invalid
  refuse_if false = ok tt

  abbrev pub last_started : List Status → Bool
  last_started [] = false
  last_started (s ∷ []) = is_started s
  last_started (s ∷ t ∷ rest) = last_started (t ∷ rest)

  -- The tests of the outcome against the statuses; `n` is the number of actions.
  unfoldable pub check_outcome : Outcome → List Status → ℕ → Result (Unit {0})
  check_outcome Outcome.pending statuses n = refuse_if (not (is_empty statuses))
  check_outcome Outcome.running statuses n = refuse_if (is_empty statuses)
  check_outcome Outcome.partial statuses n = refuse_if (not (last_started statuses))
  check_outcome Outcome.succeeded statuses n =
      refuse_if (not (length statuses == n) || any (λ s. not (is_succeeded s)) statuses)
  check_outcome Outcome.failed statuses n = err (migration exit_apply_refused)
  check_outcome Outcome.cancelled statuses n = err (migration exit_apply_refused)

  -- `_validated_checkpoints`. The dict that it returns maps each identity to its checkpoint, which
  -- is the entry of the run's list at the same place.
  unfoldable pub validated_checkpoints :
      List Action → Run Config Evidence → Result (List (Checkpoint Evidence))
  unfolding check_loop check_outcome same_texts
  validated_checkpoints actions run =
      then_result (check_loop actions run.checkpoints [] []) λ (found, jobs).
        then_result
          (check_outcome run.outcome (map (λ cp. cp.status) run.checkpoints) (length actions))
          λ _. if same_texts run.job_ids jobs then ok run.checkpoints else invalid
