-- ===== src/Geoserver/Built.antt =====
-- services/geoserver.py: every request that `_build_start_request` builds is one of `start_request`,
-- with no secret key but that of the password.
use honua_migrate.Base.{
  ◌≡◌, refl, subst, Bool, true, false, not, ◌||◌, ◌&&◌, choose, arith, List, [], ◌∷◌, String, ◌==◌,
  string_eq, nat_eq, Option, none, some, if◌then◌else◌,
}
use honua_migrate.Base.Int.{ℤ}
use honua_migrate.Json.{Json, Fields, end, field}
use honua_migrate.Runs.Contracts.{Result, ok, err, then_result}
use honua_migrate.Readiness.Words.{Parts}
use honua_migrate.Arcgis.Tables.{refuse}
use honua_migrate.Geoserver.Apply.{is_server_reference}
use honua_migrate.Geoserver.Checks.{validate_url}
use honua_migrate.Secrets.Keys.{occurs_in, starts_with, fold}
use honua_migrate.Geoserver.Options.{
  Options, with_srid, with_username, with_texts, import_options, start_request, build_start_request,
  is_secret_key, unsupported_behavior, workspace_mappings, strip_text, is_positive, accepts_srid,
}

-- Of the keys of a request, only that of the password is a secret.
unfoldable pub is_open : Fields → Bool
unfolding is_secret_key
is_open end = true
is_open (field k v fs) = (not (is_secret_key k) || (k == "passwordSecretReference")) && is_open fs

with_texts-is_open :
    (key : String) (texts : List String) (fs : Fields)
    → is_secret_key key ≡ false
    → is_open fs ≡ true
    → is_open (with_texts key texts fs) ≡ true
unfolding is_open
with_texts-is_open key [] fs n o = o
with_texts-is_open key (t ∷ ts) fs n o = ground (arith, n, o)

with_username-is_open :
    (name : String) (fs : Fields) → is_open fs ≡ true → is_open (with_username name fs) ≡ true
unfolding is_open is_secret_key occurs_in starts_with fold nat_eq
with_username-is_open name fs o =
    choose (λ (f : Fields). is_open f ≡ true) (name == "") _ _ (λ e. o) (λ e. o)

with_srid-is_open :
    (srid : Option ℤ) (fs : Fields) → is_open fs ≡ true → is_open (with_srid srid fs) ≡ true
unfolding is_open is_secret_key occurs_in starts_with fold nat_eq
with_srid-is_open none fs o = o
with_srid-is_open (some n) fs o = o

pub start_request-is_open :
    (o : Options) (dry_run : Bool) (options : Json) (url : String)
    → is_open (start_request o dry_run options url) ≡ true
unfolding start_request is_open is_secret_key occurs_in starts_with fold nat_eq string_eq
start_request-is_open o dry_run options url = with_srid-is_open o.target_srid _ (
    with_username-is_open o.username _ (
      with_texts-is_open "workspaceNames" o.workspaces _ refl (
        with_texts-is_open "dataStoreNames" o.datastores _ refl
          (with_texts-is_open "layerNames" o.layers _ refl refl))))

-- Where it gives something, that is so
unfoldable Fulfils : (Fields → Type 0) → Result Fields → Type 0
Fulfils P (ok fs) = P fs
Fulfils P (err e) = Unit

then_result-Fulfils :
    {A : Type 0} (P : Fields → Type 0) (r : Result A) (f : A → Result Fields)
    → ((x : A) → Fulfils P (f x))
    → Fulfils P (then_result r f)
unfolding Fulfils
then_result-Fulfils P (ok x) f each = each x
then_result-Fulfils P (err e) f each = tt

unless_refused :
    (P : Fields → Type 0) (b : Bool) (r : Result Fields)
    → Fulfils P r
    → Fulfils P (if b then refuse else r)
unfolding Fulfils
unless_refused P true r h = tt
unless_refused P false r h = h

if_accepted :
    (P : Fields → Type 0) (b : Bool) (r : Result Fields)
    → Fulfils P r
    → Fulfils P (if b then r else refuse)
unfolding Fulfils
if_accepted P true r h = h
if_accepted P false r h = tt

accepted-Fulfils : (P : Fields → Type 0) (fs : Fields) → P fs → Fulfils P (ok fs)
unfolding Fulfils
accepted-Fulfils P fs h = h

fulfilled : (P : Fields → Type 0) (r : Result Fields) {fs : Fields} → Fulfils P r → r ≡ ok fs → P fs
unfolding Fulfils
fulfilled P r h e = subst (Fulfils P) e h

build_start_request-Fulfils :
    (P : Fields → Type 0) (urlsplit : String → Option Parts) (o : Options) (dry_run : Bool)
    → ((options : Json) (url : String) → P (start_request o dry_run options url))
    → Fulfils P (build_start_request urlsplit o dry_run)
unfolding build_start_request
build_start_request-Fulfils P urlsplit o dry_run each =
    unless_refused P (not (accepts_srid o.target_srid)) _ (
      unless_refused P (not (is_positive o.batch_size)) _ (
        unless_refused P (strip_text o.default_workspace_name == "") _ (
          then_result-Fulfils P (unsupported_behavior o.unsupported_datastore) _ λ d.
            then_result-Fulfils P (unsupported_behavior o.unsupported_layer) _ λ l.
              then_result-Fulfils P (unsupported_behavior o.unsupported_style) _ λ s.
                then_result-Fulfils P (workspace_mappings o.workspace_mapping) _ λ m.
                  then_result-Fulfils P (validate_url urlsplit o.geoserver_url) _ λ url.
                    if_accepted P (is_server_reference o.geoserver_password_ref) _
                      (accepted-Fulfils P _ (each (import_options o d l s m) url)))))

pub build_start_request_each :
    (P : Fields → Type 0) (urlsplit : String → Option Parts) (o : Options) (dry_run : Bool)
    → ((options : Json) (url : String) → P (start_request o dry_run options url))
    → {request : Fields} → build_start_request urlsplit o dry_run ≡ ok request
    → P request
build_start_request_each P urlsplit o dry_run each e =
    fulfilled P (build_start_request urlsplit o dry_run)
      (build_start_request-Fulfils P urlsplit o dry_run each) e
