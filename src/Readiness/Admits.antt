-- ===== src/Readiness/Admits.antt =====
-- What services/target_readiness.py asks of a manifest before it reports ready.
use honua_migrate.Base.{
  ◌≡◌, refl, ℕ, inl, inr, Bool, true, false, ◌||◌, Bool-cases, arith, List, [], ◌∷◌, String, ◌==◌,
  eq_of_==, nat_eq, string_eq, option_eq, Option, none, some, if◌then◌else◌, all, is_empty,
}
use honua_migrate.Json.{Json, null, bool, int, str, arr, obj, get}
use honua_migrate.Runs.Contracts.{Result, ok, err}
use honua_migrate.Readiness.Words.{public_text, schema_version}
use honua_migrate.Readiness.Manifest.{Observed, as_mapping, observed, Declaration, declarations}
use honua_migrate.Readiness.Report
use honua_migrate.Readiness.Report.{
  Report, Outcome, report, exit_of, auth_report, unauthenticated, forbidden, payment_required,
  unknown_report, incompatible_report, unavailable_report, ready_report,
}
use honua_migrate.Readiness.Preflight.{
  is_true, is_available, first_denied, unlicensed, unless_denied, capability, versioned,
}

-- A report with the exit code of success
abbrev pub Passes : Result Report → Type 0
Passes (ok r) = r.exit_code ≡ 0
Passes (err e) = ⊥

pub past :
    (b : Bool) (r s : Result Report)
    → (Passes r → ⊥)
    → Passes (if b then r else s)
    → (b ≡ false) × Passes s
past true r s refused p = absurd (refused p)
past false r s refused p = (refl, p)

-- The reports that refuse
pub unknown-refused :
    (status : Option ℕ) (code kind : Option String) (seen : Observed)
    → Passes (ok (unknown_report status code kind seen))
    → ⊥
unfolding unknown_report report exit_of
unknown-refused status code kind seen = λ e. omega (arith, e)

pub auth-refused :
    (status : Option ℕ) (code kind : Option String) (seen : Observed)
    → (Passes (ok (auth_report unauthenticated status code kind seen)) → ⊥)
      × (Passes (ok (auth_report forbidden status code kind seen)) → ⊥)
unfolding auth_report report exit_of
auth-refused status code kind seen = ((λ e. omega (arith, e)), (λ e. omega (arith, e)))

pub payment-refused :
    (status : Option ℕ) (code kind : Option String)
    → Passes (ok (payment_required status code kind))
    → ⊥
unfolding payment_required report exit_of
payment-refused status code kind = λ e. omega (arith, e)

incompatible-refused :
    (status : Option ℕ) (code kind : Option String) (seen : Observed)
    → Passes (ok (incompatible_report status code kind seen))
    → ⊥
unfolding incompatible_report report exit_of
incompatible-refused status code kind seen = λ e. omega (arith, e)

unavailable-refused :
    (status : Option ℕ) (code kind : Option String) (seen : Observed)
    → Passes (ok (unavailable_report status code kind seen))
    → ⊥
unfolding unavailable_report report exit_of
unavailable-refused status code kind seen = λ e. omega (arith, e)

pub unreached-refused :
    (seen : Observed)
    → (Passes (ok (Report.timed_out seen)) → ⊥) × (Passes (ok (Report.not_reached seen)) → ⊥)
unfolding Report.timed_out Report.not_reached report exit_of
unreached-refused seen = ((λ e. omega (arith, e)), (λ e. omega (arith, e)))

first_denied-all : (ds : List Declaration) → first_denied ds ≡ none → all is_available ds ≡ true
first_denied-all [] e = refl
first_denied-all (d ∷ ds) e = ground (arith, e, first_denied-all ds)

-- What a manifest must declare for an import
pub record Declares (ds : List Declaration) (seen : Observed) : Type 0 where
  pub declared : is_empty ds ≡ false
  pub available : all is_available ds ≡ true
  pub licensed : unlicensed seen ≡ false

capability-Declares :
    (status : ℕ) (ds : List Declaration) (seen : Observed) (known kind : Option String)
    → Passes (ok (capability status ds seen known kind))
    → Declares ds seen
unfolding capability unless_denied
capability-Declares status [] seen known kind p = absurd (unknown-refused _ _ _ _ p)
capability-Declares status (d ∷ ds) seen known kind p = step (first_denied (d ∷ ds)) refl p
  where
    step :
        (o : Option (Option String))
        → first_denied (d ∷ ds) ≡ o
        → Passes (ok (unless_denied o status seen known kind))
        → Declares (d ∷ ds) seen
    step (some reason) e q = absurd (unavailable-refused _ _ _ _ q)
    step none e q = elim (Bool-cases (unlicensed seen)) [
      | inl u ↦ absurd (unavailable-refused _ _ _ _ (rw u at q))
      | inr u ↦ record { declared = refl; available = first_denied-all (d ∷ ds) e; licensed = u }
    ]

-- A text that passes is the value itself.
public_text-some :
    (matches : String → Bool) (v : Json) (secret s : String)
    → public_text matches v secret ≡ some s
    → v ≡ str s
unfolding public_text
public_text-some matches (str t) secret s e = ground (arith, e)
public_text-some matches null secret s e = cc
public_text-some matches (bool b) secret s e = cc
public_text-some matches (int n) secret s e = cc
public_text-some matches (arr xs) secret s e = cc
public_text-some matches (obj fs) secret s e = cc

pub is_true-bool : (v : Json) → is_true v ≡ true → v ≡ bool true
is_true-bool (bool b) e = rw e refl
is_true-bool null e = cc
is_true-bool (int n) e = cc
is_true-bool (str s) e = cc
is_true-bool (arr xs) e = cc
is_true-bool (obj fs) e = cc

-- What a manifest must say, as JSON, and what it must declare
pub record Admits (manifest : Json) (secret : String) : Type 0 where
  pub schema : get "schemaVersion" manifest ≡ str "honua.capability_manifest.v1"
  pub version : get "apiVersion" (as_mapping (get "server" manifest)) ≡ str "v1"
  pub declares : Declares (declarations manifest secret) (observed manifest secret)

observed-schema :
    (manifest : Json) (secret : String)
    → (observed manifest secret).schema ≡ some "honua.capability_manifest.v1"
    → get "schemaVersion" manifest ≡ str "honua.capability_manifest.v1"
unfolding observed schema_version
observed-schema manifest secret e = public_text-some _ _ secret _ e

observed-api_version :
    (manifest : Json) (secret : String)
    → (observed manifest secret).api_version ≡ some "v1"
    → get "apiVersion" (as_mapping (get "server" manifest)) ≡ str "v1"
unfolding observed
observed-api_version manifest secret e = public_text-some _ _ secret _ e

pub versioned-Admits :
    (status : ℕ) (manifest : Json) (secret : String) (known kind : Option String)
    → Passes (ok (versioned status manifest secret (observed manifest secret) known kind))
    → Admits manifest secret
unfolding versioned
versioned-Admits status manifest secret known kind p =
    elim (Bool-cases (seen.schema == some "honua.capability_manifest.v1")) [
      | inl a ↦ elim (Bool-cases (seen.api_version == some "v1")) [
        | inl b ↦ record {
          schema = observed-schema manifest secret (eq_of_== _ _ a);
          version = observed-api_version manifest secret (eq_of_== _ _ b);
          declares = capability-Declares status _ _ known kind (rw (a, b) at p);
        }
        | inr b ↦
            absurd (mismatch (seen.schema == none || seen.api_version == none) (rw (a, b) at p))
      ]
      | inr a ↦ absurd (mismatch (seen.schema == none || seen.api_version == none) (rw a at p))
    ]
  where
    seen : Observed
    seen = observed manifest secret

    mismatch :
        (b : Bool)
        → Passes (
            ok (
              if b
              then unknown_report (some status) known kind seen
              else incompatible_report (some status) known kind seen))
        → ⊥
    mismatch true q = unknown-refused _ _ _ _ q
    mismatch false q = incompatible-refused _ _ _ _ q
