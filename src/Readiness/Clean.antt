-- ===== src/Readiness/Clean.antt =====
-- What the reports of services/target_readiness.py take over from the server has no API key in it.
use honua_migrate.Base.{
  ◌≡◌, refl, ℕ, ◌⊎◌, inl, inr, Bool, true, false, Bool-cases, subst, arith, List, [], ◌∷◌, String,
  string_eq, Option, none, some, if◌then◌else◌, All, All-append,
}
use mathlib.Core.Option.{some-injective}
use honua_migrate.Json.{Json, null, bool, int, str, arr, obj, get, members}
use honua_migrate.Runs.Contracts.{Result, ok, err, Exc}
use honua_migrate.Readiness.Words.{
  hides_secret, public_text, public_code, schema_version, is_schema, is_token, is_revision,
  is_state,
}
use honua_migrate.Readiness.Manifest.{
  Observed, as_mapping, observed, Declaration, declared_in, declarations, first_of,
  nothing_observed, bool?, names, with_flag, capability_id,
}
use honua_migrate.Readiness.Report
use honua_migrate.Readiness.Report.{
  Report, Outcome, report, auth_report, unauthenticated, forbidden, payment_required,
  unknown_report, incompatible_report, unavailable_report, ready_report, reason_or,
}
use honua_migrate.Readiness.Preflight.{
  first_denied, unlicensed, unless_denied, capability, versioned,
}

module _ (secret : String) where
  abbrev pub Hidden : Option String → Type 0
  Hidden none = Unit
  Hidden (some s) = hides_secret s secret ≡ false

  pub record Clean (seen : Observed) : Type 0 where
    pub schema : Hidden seen.schema
    pub api_version : Hidden seen.api_version
    pub deployment_revision : Hidden seen.deployment_revision
    pub server_version : Hidden seen.server_version
    pub validation_state : Hidden seen.validation_state

  -- The texts of the server in a report, but for the type of the problem
  pub record CleanReport (r : Report) : Type 0 where
    pub reason : (r.server_reason ≡ some "payment-required") ⊎ Hidden r.server_reason
    pub identity : Clean r.identity

  pub public_text-Hidden :
      (matches : String → Bool) (v : Json) → Hidden (public_text matches v secret)
  unfolding public_text
  public_text-Hidden matches (str s) = ground arith
  public_text-Hidden matches null = tt
  public_text-Hidden matches (bool b) = tt
  public_text-Hidden matches (int n) = tt
  public_text-Hidden matches (arr xs) = tt
  public_text-Hidden matches (obj fs) = tt

  pub public_code-Hidden : (v : Json) → Hidden (public_code v secret)
  unfolding public_code
  public_code-Hidden v = public_text-Hidden _ v

  pub first_of-Hidden : (s t : Option String) → Hidden s → Hidden t → Hidden (first_of s t)
  first_of-Hidden none t h k = k
  first_of-Hidden (some s) t h k = h

  pub observed-Clean : (body : Json) → Clean (observed body secret)
  unfolding observed schema_version
  observed-Clean body =
      let server : Json = as_mapping (get "server" body) in
      let policies : Json = as_mapping (get "policies" body) in
      record {
        schema = public_text-Hidden is_schema (get "schemaVersion" body);
        api_version = public_text-Hidden is_token (get "apiVersion" server);
        deployment_revision =
            first_of-Hidden (public_text is_revision (get "deploymentRevision" server) secret)
              (public_text is_revision (get "serverRevision" server) secret)
              (public_text-Hidden is_revision (get "deploymentRevision" server))
              (public_text-Hidden is_revision (get "serverRevision" server));
        server_version = public_text-Hidden is_token (get "serverVersion" server);
        validation_state = public_text-Hidden is_state (get "licenseValidationState" policies);
      }

  pub nothing-Clean : Clean nothing_observed
  nothing-Clean = record {
    schema = tt;
    api_version = tt;
    deployment_revision = tt;
    server_version = tt;
    validation_state = tt;
  }

  abbrev pub HiddenReason : Declaration → Type 0
  HiddenReason d = Hidden d.reason

  pub declared_in-Hidden :
      (key flag : String) (items : List Json) → All HiddenReason (declared_in key flag items secret)
  unfolding declared_in
  declared_in-Hidden key flag [] = tt
  declared_in-Hidden key flag (item ∷ items) =
      step (names key capability_id item) (bool? (get flag item))
        (declared_in-Hidden key flag items)
    where
      step :
          (b : Bool) (o : Option Bool)
          → All HiddenReason (declared_in key flag items secret)
          → All HiddenReason (
              if b
              then with_flag o
                  (public_code (get "reasonCode" item) secret)
                  (declared_in key flag items secret)
              else declared_in key flag items secret)
      step false o rest = rest
      step true none rest = rest
      step true (some a) rest = (public_code-Hidden (get "reasonCode" item), rest)

  pub declarations-Hidden : (body : Json) → All HiddenReason (declarations body secret)
  unfolding declarations
  declarations-Hidden body =
      All-append HiddenReason
        (declared_in "id" "available" (members (get "capabilities" body)) secret) _
        (declared_in-Hidden "id" "available" (members (get "capabilities" body)))
        (declared_in-Hidden "key" "active"
          (members (get "entitlements" (as_mapping (get "policies" body)))))

  -- Of the report that is returned, if one is
  unfoldable pub CleanResult : Result Report → Type 0
  CleanResult (ok r) = CleanReport r
  CleanResult (err e) = Unit

  pub kept : (r : Report) → CleanReport r → CleanResult (ok r)
  unfolding CleanResult
  kept r c = c

  pub raised : (e : Exc) → CleanResult (err e)
  unfolding CleanResult
  raised e = tt

  pub one_of :
      {A : Type 0} (P : A → Type 0) (b : Bool) (r s : A) → P r → P s → P (if b then r else s)
  one_of P true r s h k = h
  one_of P false r s h k = k

  pub report-Clean :
      (outcome : Outcome) (message : String) (status : Option ℕ) (reason kind : Option String)
      (seen : Observed)
      → Hidden reason
      → Clean seen
      → CleanReport (report outcome message status reason kind seen)
  unfolding report
  report-Clean outcome message status reason kind seen h c = record { reason = inr h; identity = c }

  pub unreached-Clean :
      (seen : Observed)
      → Clean seen
      → CleanReport (Report.timed_out seen) × CleanReport (Report.not_reached seen)
  unfolding Report.timed_out Report.not_reached report
  unreached-Clean seen c =
      (record { reason = inr tt; identity = c }, record { reason = inr tt; identity = c })

  module _ (seen : Observed) (c : Clean seen) (status : Option ℕ) (kind : Option String) where
    pub unknown-Clean :
        (reason : Option String)
        → Hidden reason
        → CleanReport (unknown_report status reason kind seen)
    unfolding unknown_report
    unknown-Clean reason h = report-Clean _ _ status reason kind seen h c

    pub incompatible-Clean :
        (reason : Option String)
        → Hidden reason
        → CleanReport (incompatible_report status reason kind seen)
    unfolding incompatible_report
    incompatible-Clean reason h = report-Clean _ _ status reason kind seen h c

    pub unavailable-Clean :
        (reason : Option String)
        → Hidden reason
        → CleanReport (unavailable_report status reason kind seen)
    unfolding unavailable_report report
    unavailable-Clean reason h = record { reason = inr h; identity = c }

    pub ready-Clean : CleanReport (ready_report status seen)
    unfolding ready_report report
    ready-Clean = record { reason = inr tt; identity = c }

    pub auth-Clean :
        (reason : Option String)
        → Hidden reason
        → CleanReport (auth_report unauthenticated status reason kind seen)
          × CleanReport (auth_report forbidden status reason kind seen)
    unfolding auth_report report
    auth-Clean reason h =
        (record { reason = inr h; identity = c }, record { reason = inr h; identity = c })

  pub first_denied-Hidden :
      (ds : List Declaration) (reason : Option String)
      → All HiddenReason ds
      → first_denied ds ≡ some reason
      → Hidden reason
  first_denied-Hidden [] reason h e = cc
  first_denied-Hidden (d ∷ ds) reason (h, hs) e = elim (Bool-cases d.available) [
    | inl a ↦ first_denied-Hidden ds reason hs (rw a at e)
    | inr a ↦ subst Hidden (some-injective _ _ (rw a at e)) h
  ]

  module _ (seen : Observed) (c : Clean seen) (n : ℕ) (known kind : Option String)
      (k : Hidden known) where
    pub unless_denied-Clean :
        (o : Option (Option String))
        → ((reason : Option String) → o ≡ some reason → Hidden reason)
        → CleanReport (unless_denied o n seen known kind)
    unfolding unless_denied
    unless_denied-Clean (some reason) h =
        unavailable-Clean seen c (some n) kind _ (first_of-Hidden reason known (h reason refl) k)
    unless_denied-Clean none h =
        one_of CleanReport (unlicensed seen) (unavailable_report (some n) known kind seen)
          (ready_report (some n) seen) (unavailable-Clean seen c (some n) kind known k)
          (ready-Clean seen c (some n) kind)

    pub capability-Clean :
        (ds : List Declaration)
        → All HiddenReason ds
        → CleanReport (capability n ds seen known kind)
    unfolding capability
    capability-Clean [] h = unknown-Clean seen c (some n) kind known k
    capability-Clean (d ∷ ds) h =
        unless_denied-Clean (first_denied (d ∷ ds))
          λ reason e. first_denied-Hidden (d ∷ ds) reason h e

    pub versioned-Clean :
        (manifest : Json) → CleanReport (versioned n manifest secret seen known kind)
    unfolding versioned
    versioned-Clean manifest =
        one_of CleanReport _ _ _
          (one_of CleanReport _ _ _ (unknown-Clean seen c (some n) kind known k)
            (incompatible-Clean seen c (some n) kind known k))
          (capability-Clean (declarations manifest secret) (declarations-Hidden manifest))
