-- ===== src/Readiness/Manifest.antt =====
-- services/target_readiness.py: what is read from a capability manifest.
use honua_migrate.Base.{
  Bool, true, false, ◌&&◌, List, [], ◌∷◌, ◌++◌, String, ◌==◌, string_eq, nat_eq, Option, none, some,
  if◌then◌else◌, map,
}
use honua_migrate.Base.Text.{codes, lower, same_codes}
use honua_migrate.Json.{Json, bool, str, obj, end, get, members, is_mapping}
use honua_migrate.Runs.Contracts.{Result, ok, then_result}
use honua_migrate.Readiness.Words.{
  is_token, is_state, is_revision, public_text, public_code, schema_version, Parts, problem_type,
}

abbrev pub capability_id : String
capability_id = "import.geoservices"

-- `value if isinstance(value, dict) else {}`
unfoldable pub as_mapping : Json → Json
as_mapping value = if is_mapping value then value else obj end

pub data Licensing : Type 0 where
  unknown enabled disabled : Licensing

-- What `_observed` gives; `nothing_observed` holds the defaults of `_report`.
pub record Observed : Type 0 where
  pub schema : Option String
  pub api_version : Option String
  pub deployment_revision : Option String
  pub server_version : Option String
  pub licensing : Licensing
  pub validation_state : Option String
  pub license_valid : Option Bool

abbrev pub nothing_observed : Observed
nothing_observed = record {
  schema = none;
  api_version = none;
  deployment_revision = none;
  server_version = none;
  licensing = unknown;
  validation_state = none;
  license_valid = none;
}

abbrev pub first_of : Option String → Option String → Option String
first_of (some s) t = some s
first_of none t = t

abbrev pub says_disabled : Option String → Bool
says_disabled none = false
says_disabled (some s) = same_codes (map lower (codes s)) (codes "disabled")

abbrev is_no_mapping : Json → Bool
is_no_mapping (obj end) = true
is_no_mapping _ = false

-- `licensing`, of the policies and the validation state
unfoldable pub licensing_of : Json → Option String → Licensing
unfolding same_codes lower
licensing_of policies state =
    if says_disabled state then disabled else if is_no_mapping policies then unknown else enabled

abbrev pub bool? : Json → Option Bool
bool? (bool b) = some b
bool? _ = none

unfoldable pub observed : Json → String → Observed
unfolding get as_mapping public_text is_token is_state is_revision schema_version licensing_of
observed body secret =
    let server = as_mapping (get "server" body) in
    let policies = as_mapping (get "policies" body) in
    let state = public_text is_state (get "licenseValidationState" policies) secret in
    record {
      schema = schema_version (get "schemaVersion" body) secret;
      api_version = public_text is_token (get "apiVersion" server) secret;
      deployment_revision =
          first_of (public_text is_revision (get "deploymentRevision" server) secret)
            (public_text is_revision (get "serverRevision" server) secret);
      server_version = public_text is_token (get "serverVersion" server) secret;
      licensing = licensing_of policies state;
      validation_state = state;
      license_valid = bool? (get "licenseValid" policies);
    }

-- What a server declares of the capability, with its reason
pub record Declaration : Type 0 where
  pub available : Bool
  pub reason : Option String

abbrev pub names : String → String → Json → Bool
names key name item = is_mapping item && is_text (get key item)
  where
    is_text : Json → Bool
    is_text (str s) = s == name
    is_text _ = false

abbrev pub with_flag : Option Bool → Option String → List Declaration → List Declaration
with_flag none reason rest = rest
with_flag (some b) reason rest = record { available = b; reason = reason } ∷ rest

-- The declarations among some items: those with this name under `key` and a Boolean under `flag`.
unfoldable pub declared_in : String → String → List Json → String → List Declaration
unfolding get public_code string_eq
declared_in key flag [] secret = []
declared_in key flag (item ∷ items) secret =
    let rest = declared_in key flag items secret in
    if names key capability_id item
    then with_flag (bool? (get flag item)) (public_code (get "reasonCode" item) secret) rest
    else rest

unfoldable pub declarations : Json → String → List Declaration
unfolding declared_in get members as_mapping
declarations body secret =
    declared_in "id" "available" (members (get "capabilities" body)) secret
    ++ declared_in "key" "active" (members (get "entitlements" (as_mapping (get "policies" body))))
        secret

-- The code and the type of a problem document
pub record Problem : Type 0 where
  pub code : Option String
  pub kind : Option String

module _ (urlsplit : String → Option Parts) (urlunsplit : String → String → String → String) where
  unfoldable pub problem : Json → String → Result Problem
  unfolding get public_code problem_type
  problem body secret =
      if is_mapping body
      then then_result (problem_type urlsplit urlunsplit (get "type" body) secret) (λ kind.
        ok (record {
          code =
              first_of (public_code (get "code" body) secret)
                (public_code (get "code" (as_mapping (get "error" body))) secret);
          kind = kind;
        }))
      else ok (record { code = none; kind = none })
