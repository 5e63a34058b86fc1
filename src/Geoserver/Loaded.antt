-- ===== src/Geoserver/Loaded.antt =====
-- What services/geoserver.py has of a plan that `_load_completed_plan` takes.
use honua_migrate.Base.{
  ◌≡◌, refl, sym, subst, Bool, true, not, ◌||◌, arith, String, ◌<>◌, Option, none, some, nat_eq,
}
use honua_migrate.Json.{Json, Fields, get, is_mapping}
use honua_migrate.Runs.Contracts.{ok, ok-injective}
use honua_migrate.Geoserver.Checks.{
  Reviewed, is_the, is_plan, verify, load_completed_plan, with_request, with_job_id, only_action,
  is_job_id, fields_of, text_of,
}
use honua_migrate.Arcgis.Refusals.{kept, passed, refused_ok}

module _ (valid : Json → Bool) (plan_digest : Fields → String) where
  -- What a plan that was loaded is: of the form of a dry run, of the digest that it records, and
  -- named after the job of its dry run
  pub record Loaded (payload : Json) (plan : Reviewed) : Type 0 where
    pub form : is_plan payload (only_action (get "actions" payload)) ≡ true
    pub digest : verify valid plan_digest payload ≡ true
    pub request :
        fields_of (get "request" (only_action (get "actions" payload))) ≡ some plan.request
    pub job : plan.job ≡ get "dry_run_job" (only_action (get "actions" payload))
    pub identity : is_the ("geoserver-plan-" <> plan.job_id) (get "id" payload) ≡ true

  pub load-Loaded :
      (payload : Json) (plan : Reviewed)
      → load_completed_plan valid plan_digest payload ≡ ok plan
      → Loaded payload plan
  unfolding load_completed_plan
  load-Loaded payload plan e =
      let action : Json = only_action (get "actions" payload) in
      let (_, e₁) = kept (not (is_mapping payload) || not (valid payload)) _ e in
      let (f, e₂) = kept (not (is_plan payload action)) _ e₁ in
      let (d, e₃) = kept (not (verify valid plan_digest payload)) _ e₂ in
      by_request (fields_of (get "request" action)) refl (ground (arith, f)) (ground (arith, d)) e₃
    where
      action : Json
      action = only_action (get "actions" payload)

      by_job :
          (fs : Fields) (j : Option String)
          → fields_of (get "request" action) ≡ some fs
          → is_plan payload action ≡ true
          → verify valid plan_digest payload ≡ true
          → with_job_id valid plan_digest payload action fs j ≡ ok plan
          → Loaded payload plan
      by_job fs none r f d h = absurd (refused_ok h)
      by_job fs (some id) r f d h =
          let (named, h₁) =
            kept (not (is_job_id id) || not (is_the ("geoserver-plan-" <> id) (get "id" payload))) _
              h in
          let loaded : Loaded payload
              (record { request = fs; job = get "dry_run_job" action; job_id = id }) =
            record {
              form = f;
              digest = d;
              request = r;
              job = refl;
              identity = ground (arith, named);
            } in
          let (_, h₂) = passed _ _ h₁ in subst (Loaded payload) (sym (ok-injective h₂)) loaded

      by_request :
          (o : Option Fields)
          → fields_of (get "request" action) ≡ o
          → is_plan payload action ≡ true
          → verify valid plan_digest payload ≡ true
          → with_request valid plan_digest payload action o ≡ ok plan
          → Loaded payload plan
      by_request none r f d h = absurd (refused_ok h)
      by_request (some fs) r f d h =
          by_job fs (text_of (get "jobId" (get "dry_run_job" action))) r f d h
