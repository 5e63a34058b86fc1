-- ===== src/Readiness/Report.antt =====
-- services/target_readiness.py: the report of a preflight, and its messages.
use honua_migrate.Base.{
  ℕ, Bool, true, false, String, ◌<>◌, Option, none, some, if◌then◌else◌, string_eq, ◌==◌,
}
use honua_migrate.Runs.Contracts.{exit_unavailable, exit_remote_error, exit_apply_refused}
use honua_migrate.Readiness.Manifest.{Licensing, disabled, Observed, nothing_observed}

pub data Outcome : Type 0 where
  ready unreachable unauthenticated forbidden : Outcome
  incompatible_version unavailable_capability unknown : Outcome

-- `_EXIT`
unfoldable pub exit_of : Outcome → ℕ
exit_of ready = 0
exit_of unreachable = exit_remote_error
exit_of unauthenticated = exit_apply_refused
exit_of forbidden = exit_apply_refused
exit_of incompatible_version = exit_unavailable
exit_of unavailable_capability = exit_apply_refused
exit_of unknown = exit_unavailable

unfoldable pub is_ready : Outcome → Bool
is_ready ready = true
is_ready _ = false

-- The report, less its constants, the elapsed time and the target.
pub record Report : Type 0 where
  pub outcome : Outcome
  pub is_import_ready : Bool
  pub exit_code : ℕ
  pub code : String
  pub message : String
  pub http_status : Option ℕ
  pub server_reason : Option String
  pub problem_kind : Option String
  pub capability_declared : Bool
  pub capability_available : Option Bool
  pub identity : Observed

abbrev pub code_of : Outcome → String
code_of ready = "ready"
code_of unreachable = "unreachable"
code_of unauthenticated = "unauthenticated"
code_of forbidden = "forbidden"
code_of incompatible_version = "incompatible-version"
code_of unavailable_capability = "unavailable-capability"
code_of unknown = "unknown"

-- `_report` with the defaults of what a call leaves out
unfoldable pub report :
    Outcome → String → Option ℕ → Option String → Option String → Observed → Report
unfolding exit_of is_ready
report outcome message status reason kind seen = record {
  outcome = outcome;
  is_import_ready = is_ready outcome;
  exit_code = exit_of outcome;
  code = code_of outcome;
  message = message;
  http_status = status;
  server_reason = reason;
  problem_kind = kind;
  capability_declared = false;
  capability_available = none;
  identity = seen;
}

unfoldable pub timed_out : Observed → Report
unfolding report
timed_out seen =
    record (report unreachable
      "The target timed out before a readiness response. Check HONUA_URL and retry with a larger --timeout-seconds. No import was started."
      none none none seen) { code = "timeout" }

unfoldable pub not_reached : Observed → Report
unfolding report
not_reached seen =
    report unreachable
      "The target could not be reached before the timeout. Check HONUA_URL, DNS, and that the server is running. No import was started."
      none none none seen

abbrev pub reason_or : Option String → String → String
reason_or none default = default
reason_or (some s) default = if s == "" then default else s

unfoldable pub payment_required : Option ℕ → Option String → Option String → Report
unfolding report string_eq
payment_required status code kind =
    let reason = reason_or code "payment-required" in
    report unavailable_capability
      ("The target refused import.geoservices before a manifest was read (server reason: "
        <> (reason <> "). No import was started, and this CLI will not change licensing."))
      status (some reason) kind nothing_observed

unfoldable pub auth_report : Outcome → Option ℕ → Option String → Option String → Observed → Report
unfolding report
auth_report forbidden status code kind seen =
    report forbidden
      "The target authenticated the caller but refused access to GeoServices import. Use an admin API key that is allowed to call the import API. No import was started."
      status code kind seen
auth_report outcome status code kind seen =
    report outcome
      "The target did not authenticate this request. Set HONUA_API_KEY to a Honua admin API key and retry. No import was started."
      status code kind seen

unfoldable pub unknown_report : Option ℕ → Option String → Option String → Observed → Report
unfolding report
unknown_report status code kind seen =
    report unknown
      "Target readiness could not be determined from the server response. Import was not started. Retry when the capability manifest is available; do not treat this as success."
      status code kind seen

unfoldable pub incompatible_report : Option ℕ → Option String → Option String → Observed → Report
unfolding report
incompatible_report status code kind seen =
    report incompatible_version
      "The target server contract is not compatible with this CLI (expected capability manifest honua.capability_manifest.v1 and API v1). Point HONUA_URL at a compatible server. No import was started."
      status code kind seen

abbrev pub is_valid : Option Bool → Bool
is_valid (some b) = b
is_valid none = false

abbrev is_disabled : Licensing → Bool
is_disabled disabled = true
is_disabled _ = false

unfoldable pub unavailable_message : Observed → Option String → String
unfolding string_eq
unavailable_message seen server_reason =
    let reason = reason_or server_reason "unspecified" in
    if is_disabled seen.licensing
    then "The server has licensing disabled and reports import.geoservices is not available ("
      <> (reason <> "). This CLI does not add a license requirement. No import was started.")
    else if is_valid seen.license_valid
    then "The target license is valid, but import.geoservices is not entitled (server reason: "
      <> (reason
          <> "). Ask the server operator to grant that capability or use a deployment whose licensing mode is disabled. This CLI will not change licensing or assume a product tier. No import was started.")
    else "The target license is not valid (validation state "
      <> (reason_or seen.validation_state "not valid"
          <> ("). Renew or replace the license configured on the server. This is a license-validity failure, not a client-side edition check. Server reason: "
              <> (reason <> ". No import was started.")))

-- With the flags of the capability
abbrev pub declared : Bool → Report → Report
declared available r = record r {
  capability_declared = true;
  capability_available = some available;
}

unfoldable pub unavailable_report : Option ℕ → Option String → Option String → Observed → Report
unfolding report unavailable_message
unavailable_report status reason kind seen =
    declared false
      (report unavailable_capability (unavailable_message seen reason) status reason kind seen)

unfoldable pub ready_report : Option ℕ → Observed → Report
unfolding report
ready_report status seen = declared true (
    report ready
      (if is_disabled seen.licensing
        then "The server reports import.geoservices is available. Licensing is disabled on this deployment, so no license is required."
        else "The server reports import.geoservices is available.")
      status none none seen)
