-- ===== src/Geoserver/Restarted.antt =====
-- What an apply of services/geoserver.py starts is what the dry run started, but for three keys.
use honua_migrate.Base.{
  ◌≡◌, refl, sym, ◌∙◌, true, false, inl, inr, Bool-cases, choose, arith, String, ◌==◌, ==_refl,
  string_eq, nat_eq, Option,
}
use mathlib.Core.Bool.{false≢true}
use honua_migrate.Json.{Json, Fields, null, bool, str, obj, end, field, get, get_field}
use honua_migrate.Runs.Contracts.{ok}
use honua_migrate.Http.Wire.{put_param, merge_params}
use honua_migrate.Readiness.Words.{Parts}
use honua_migrate.Geoserver.Apply.{apply_request}
use honua_migrate.Secrets.Keys.{occurs_in, starts_with, fold}
use honua_migrate.Geoserver.Options.{
  Options, start_request, build_start_request, is_secret_key, plan_request,
}
use honua_migrate.Geoserver.Built.{is_open, start_request-is_open, build_start_request_each}

module _ (key : String) where
  get-put_same : (value : Json) (fs : Fields) → get_field key (put_param key value fs) ≡ value
  unfolding put_param get_field
  get-put_same value end =
      choose (λ (j : Json). j ≡ value) (key == key) _ _ (λ e. refl)
        (λ e. absurd (false≢true (sym e ∙ ==_refl key)))
  get-put_same value (field k v fs) = ground (arith, ==_refl key, get-put_same value fs)

  get-put_other :
      (other : String) (value : Json) (fs : Fields)
      → (other == key) ≡ false
      → get_field key (put_param other value fs) ≡ get_field key fs
  unfolding put_param get_field
  get-put_other other value end n = rw n
  get-put_other other value (field k v fs) n = elim (Bool-cases (k == other)) [
    | inl e ↦ ground (arith, e, n)
    | inr e ↦ ground (arith, e, n, get-put_other other value fs n)
  ]

  get-plan_request :
      (fs : Fields) → is_secret_key key ≡ false → get_field key (plan_request fs) ≡ get_field key fs
  unfolding plan_request get_field
  get-plan_request end n = refl
  get-plan_request (field k v fs) n = ground (arith, n, get-plan_request fs n)

  get-plan_request_secret :
      (fs : Fields) → is_secret_key key ≡ true → get_field key (plan_request fs) ≡ null
  unfolding plan_request get_field
  get-plan_request_secret end y = refl
  get-plan_request_secret (field k v fs) y = ground (arith, y, get-plan_request_secret fs y)

  get-secret :
      (fs : Fields)
      → is_secret_key key ≡ true
      → is_open fs ≡ true
      → ("passwordSecretReference" == key) ≡ false
      → get_field key fs ≡ null
  unfolding is_open get_field
  get-secret end y o n = refl
  get-secret (field k v fs) y o n = ground (arith, y, o, n, get-secret fs y (ground (arith, o)) n)

-- What `started` has for a key of which an apply leaves alone
abbrev IsKept : String → Type 0
IsKept key =
    (("passwordSecretReference" == key) ≡ false)
    × (("dryRun" == key) ≡ false)
    × (("applyMode" == key) ≡ false)

-- What an apply starts, of the request of a dry run and what its plan holds of it
pub record Restarts (request planned : Fields) (reference : String) : Type 0 where
  pub no_secret : (key : String) → is_secret_key key ≡ true → get_field key planned ≡ null
  pub reviewed_dry_run : get "dryRun" (obj planned) ≡ bool true
  pub reviewed_apply_mode : get "applyMode" (obj planned) ≡ bool false
  pub secret : get "passwordSecretReference" (apply_request planned reference) ≡ str reference
  pub dry_run : get "dryRun" (apply_request planned reference) ≡ bool false
  pub apply_mode : get "applyMode" (apply_request planned reference) ≡ bool true
  pub others :
      (key : String)
      → IsKept key
      → get key (apply_request planned reference) ≡ get key (obj request)

apply_request-others :
    (key : String) (planned : Fields) (reference : String)
    → IsKept key
    → get key (apply_request planned reference) ≡ get_field key planned
unfolding apply_request merge_params get
apply_request-others key planned reference (p, d, a) =
    get-put_other key "applyMode" _ _ a
    ∙ get-put_other key "dryRun" _ _ d
    ∙ get-put_other key "passwordSecretReference" _ _ p

plan_request-others :
    (key : String) (request : Fields)
    → is_open request ≡ true
    → ("passwordSecretReference" == key) ≡ false
    → get_field key (plan_request request) ≡ get_field key request
plan_request-others key request o n = elim (Bool-cases (is_secret_key key)) [
  | inl s ↦ get-plan_request_secret key request s ∙ sym (get-secret key request s o n)
  | inr s ↦ get-plan_request key request s
]

apply_request-secret :
    (planned : Fields) (reference : String)
    → get "passwordSecretReference" (apply_request planned reference) ≡ str reference
unfolding apply_request merge_params get string_eq
apply_request-secret planned reference =
    get-put_other "passwordSecretReference" "applyMode" (bool true)
      (put_param "dryRun" (bool false)
        (put_param "passwordSecretReference" (str reference) planned))
      refl
    ∙ get-put_other "passwordSecretReference" "dryRun" (bool false)
        (put_param "passwordSecretReference" (str reference) planned) refl
    ∙ get-put_same "passwordSecretReference" (str reference) planned

start_request-Restarts :
    (o : Options) (options : Json) (url reference : String)
    → Restarts
        (start_request o true options url)
        (plan_request (start_request o true options url))
        reference
unfolding start_request is_secret_key occurs_in starts_with fold nat_eq string_eq get get_field
    apply_request merge_params put_param plan_request
start_request-Restarts o options url reference = record {
  no_secret = λ key s. get-plan_request_secret key (start_request o true options url) s;
  reviewed_dry_run = refl;
  reviewed_apply_mode = refl;
  secret = apply_request-secret (plan_request (start_request o true options url)) reference;
  dry_run = refl;
  apply_mode = refl;
  others = λ key h.
      apply_request-others key (plan_request (start_request o true options url)) reference h
      ∙ plan_request-others key (start_request o true options url)
          (start_request-is_open o true options url) h.0;
}

-- The request that a plan keeps of a dry run has no secret key, and is one of a dry run. The apply
-- of that plan starts what the dry run started, key by key, but for three: the reference to the
-- password is the one given to the apply, it is no dry run, and it is in apply mode. This is before
-- the redaction of the texts of the artifact.
pub build_start_request-Restarts :
    (urlsplit : String → Option Parts) (o : Options) (request : Fields) (reference : String)
    → build_start_request urlsplit o true ≡ ok request
    → Restarts request (plan_request request) reference
build_start_request-Restarts urlsplit o request reference e =
    build_start_request_each (λ r. Restarts r (plan_request r) reference) urlsplit o true
      (λ options url. start_request-Restarts o options url reference) e
