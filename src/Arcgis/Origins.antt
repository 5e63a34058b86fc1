-- ===== src/Arcgis/Origins.antt =====
-- An entry of a handoff manifest that services/arcgis.py accepts is what it and its artifacts say.
use honua_migrate.Base.{
  ◌≡◌, refl, sym, ap, subst, ◌∙◌, inl, inr, Bool, false, not, ◌&&◌, ◌||◌, Bool-cases, arith, List,
  [], ◌∷◌, String, ◌==◌, string_eq, nat_eq, eq_of_==, Option, none, some, map, length, is_empty,
  length-map,
}
use honua_migrate.Base.Int.{ℤ}
use honua_migrate.Json.{Json, Fields, null, bool, int, str, arr, obj, get, is_mapping, text?, int?}
use honua_migrate.Runs.Contracts.{ok, then_result-eq-ok, ok-injective}
use honua_migrate.Arcgis.Refusals.{kept, passed, refused_ok}
use honua_migrate.Arcgis.Artifact.{
  items_of, is_null, is_some, Artifact, plan_action_requests, read_artifact,
}
use honua_migrate.Arcgis.Scope.{
  texts_of, handoff_job_ids, target_ids, listed_jobs, checked_jobs, Mapping, mappings_of, Part,
  applied_jobs, jobs_of, part_of, entry_of, read_entry,
}
use honua_migrate.Arcgis.Targets.{TargetsOf, target_ids-TargetsOf, text?-some, texts_of-str}
use honua_migrate.Arcgis.Entries.{Sources, HaveJobs, Fits, Mapped, mappings_of-Mapped}

checked_jobs-Fits :
    (requests : List Fields) (items : List Json) (jobs : List String)
    → checked_jobs (length requests) items ≡ ok jobs
    → Fits jobs requests × (items ≡ map str jobs)
checked_jobs-Fits requests items jobs e =
    let (fits, e₁) =
      kept (not (is_empty items) && not (length items == length requests)) (texts_of items) e in
    let texts = texts_of-str items jobs e₁ in (of_texts items jobs texts fits, texts)
  where
    of_texts :
        (xs : List Json) (ts : List String)
        → xs ≡ map str ts
        → (not (is_empty xs) && not (length xs == length requests)) ≡ false
        → Fits ts requests
    of_texts xs [] t f = tt
    of_texts [] (j ∷ js) t f = cc
    of_texts (x ∷ xs) (j ∷ js) t f =
        sym (length-map str (j ∷ js))
        ∙ ap length (sym t)
        ∙ eq_of_== (length (x ∷ xs)) (length requests) (ground (arith, f))

-- `files` is what is at a path, as JSON.
module _ (valid : Json → Bool) (plan_digest : Fields → String) (files : String → Option Json)
    (url : String) where
  -- Where the jobs of an entry come from
  pub data JobsOf (entry : Json) (plan_id : String) : List Json → Type 0 where
    no_jobs : JobsOf entry plan_id []
    applied :
        (path : String) (jobs : List String)
        → get "apply" entry ≡ str path
        → handoff_job_ids (files path) plan_id ≡ ok jobs
        → JobsOf entry plan_id (map str jobs)
    job_list :
        (items : List Json)
        → items_of (get "jobIds" entry) ≡ some items
        → JobsOf entry plan_id items
    single_job : (j : String) → get "jobId" entry ≡ str j → JobsOf entry plan_id (str j ∷ [])

  -- What an entry comes to: its plan was reviewed and imports; each of the plan's actions has its
  -- mapping, with the target that the entry names and a job for each or for none.
  pub record EntryOf (entry : Json) (part : Part) : Type 0 where
    pub path : String
    pub artifact : Json
    pub requests : List Fields
    pub targets : List ℤ
    pub jobs : List String
    pub plan : get "plan" entry ≡ str path
    pub reviewed :
        read_artifact valid plan_digest (files path)
        ≡ ok (record { plan_id = part.plan_id; artifact = artifact })
    pub requested : plan_action_requests artifact ≡ ok requests
    pub digest : part.plan_digest ≡ get "plan_digest" artifact
    pub sources : Sources url requests part.mappings
    pub named : TargetsOf entry targets
    pub on_targets : map (λ (m : Mapping). m.target_layer_id) part.mappings ≡ targets
    pub given : JobsOf entry part.plan_id (map str jobs)
    pub with_jobs : HaveJobs jobs part.mappings

  applied_jobs-JobsOf :
      (entry : Json) (plan_id : String) (items : List Json)
      → applied_jobs valid plan_digest files url (text? (get "apply" entry)) plan_id ≡ ok items
      → JobsOf entry plan_id items
  applied_jobs-JobsOf entry plan_id items e = by_path (text? (get "apply" entry)) refl e
    where
      by_path :
          (o : Option String)
          → text? (get "apply" entry) ≡ o
          → applied_jobs valid plan_digest files url o plan_id ≡ ok items
          → JobsOf entry plan_id items
      by_path none o h = absurd (refused_ok h)
      by_path (some path) o h =
          let (jobs, read, h₁) = then_result-eq-ok (handoff_job_ids (files path) plan_id) _ h in
          subst (JobsOf entry plan_id) (sym (ok-injective h₁))
            (applied path jobs (text?-some (get "apply" entry) path o) read)

  listed_jobs-JobsOf :
      (entry : Json) (plan_id : String) (given : Bool) (o : Option (List Json)) (job : Json)
      (items : List Json)
      → items_of (get "jobIds" entry) ≡ o
      → get "jobId" entry ≡ job
      → listed_jobs given o job ≡ ok items
      → JobsOf entry plan_id items
  listed_jobs-JobsOf entry plan_id given (some xs) job items o j e =
      let (_, e₁) = kept given (ok xs) e in
      subst (JobsOf entry plan_id) (sym (ok-injective e₁)) (job_list xs o)
  listed_jobs-JobsOf entry plan_id given none null items o j e =
      subst (JobsOf entry plan_id) (sym (ok-injective e)) no_jobs
  listed_jobs-JobsOf entry plan_id given none (str s) items o j e =
      subst (JobsOf entry plan_id) (sym (ok-injective e)) (single_job s j)
  listed_jobs-JobsOf entry plan_id given none (bool b) items o j e = absurd (refused_ok e)
  listed_jobs-JobsOf entry plan_id given none (int n) items o j e = absurd (refused_ok e)
  listed_jobs-JobsOf entry plan_id given none (arr xs) items o j e = absurd (refused_ok e)
  listed_jobs-JobsOf entry plan_id given none (obj fs) items o j e = absurd (refused_ok e)

  jobs_of-JobsOf :
      (entry : Json) (plan_id : String) (items : List Json)
      → jobs_of valid plan_digest files url entry plan_id ≡ ok items
      → JobsOf entry plan_id items
  jobs_of-JobsOf entry plan_id items e = elim (Bool-cases (is_null (get "apply" entry))) [
    | inl n ↦
        listed_jobs-JobsOf entry plan_id (not (is_null (get "jobId" entry)))
          (items_of (get "jobIds" entry)) (get "jobId" entry) items refl refl (rw n at e)
    | inr n ↦
        applied_jobs-JobsOf entry plan_id items
          (kept (not (is_null (get "jobId" entry)) || not (is_null (get "jobIds" entry)))
            (applied_jobs valid plan_digest files url (text? (get "apply" entry)) plan_id)
            (rw n at e)).1
  ]

  part_of-EntryOf :
      (entry : Json) (path : String) (a : Artifact) (part : Part)
      → get "plan" entry ≡ str path
      → read_artifact valid plan_digest (files path) ≡ ok a
      → part_of valid plan_digest files url entry a ≡ ok part
      → EntryOf entry part
  part_of-EntryOf entry path a part p r e =
      let (requests, asked, e₁) = then_result-eq-ok (plan_action_requests a.artifact) _ e in
      let (targets, t, e₂) = then_result-eq-ok (target_ids (length requests) entry) _ e₁ in
      let (items, j, e₃) =
        then_result-eq-ok (jobs_of valid plan_digest files url entry a.plan_id) _ e₂ in
      let (jobs, c, e₄) = then_result-eq-ok (checked_jobs (length requests) items) _ e₃ in
      let (ms, m, e₅) = then_result-eq-ok (mappings_of url requests targets jobs) _ e₄ in
      let (names, as_many) = target_ids-TargetsOf entry (length requests) targets t in
      let (fits, texts) = checked_jobs-Fits requests items jobs c in
      let mapped : Mapped url requests targets jobs ms =
        mappings_of-Mapped url requests targets jobs ms as_many fits m in
      let made : EntryOf entry (record {
        plan_id = a.plan_id;
        plan_digest = get "plan_digest" a.artifact;
        mappings = ms;
      }) =
        record {
          path = path;
          artifact = a.artifact;
          requests = requests;
          targets = targets;
          jobs = jobs;
          plan = p;
          reviewed = r;
          requested = asked;
          digest = refl;
          sources = mapped.sources;
          named = names;
          on_targets = mapped.targets;
          given = subst (JobsOf entry a.plan_id) texts (jobs_of-JobsOf entry a.plan_id items j);
          with_jobs = mapped.jobs;
        } in
      subst (EntryOf entry) (sym (ok-injective e₅)) made

  pub read_entry-EntryOf :
      (entry : Json) (part : Part)
      → read_entry valid plan_digest files url entry ≡ ok part
      → EntryOf entry part
  unfolding read_entry
  read_entry-EntryOf entry part e =
      by_plan (text? (get "plan" entry)) refl (passed (is_mapping entry) _ e).1
    where
      by_plan :
          (o : Option String)
          → text? (get "plan" entry) ≡ o
          → entry_of valid plan_digest files url entry o ≡ ok part
          → EntryOf entry part
      by_plan none o h = absurd (refused_ok h)
      by_plan (some path) o h =
          let (_, h₁) =
            passed
              (is_some (int? (get "targetLayerId" entry))
                || is_some (items_of (get "targetLayerIds" entry)))
              _ h in
          let (a, r, h₂) = then_result-eq-ok (read_artifact valid plan_digest (files path)) _ h₁ in
          part_of-EntryOf entry path a part (text?-some (get "plan" entry) path o) r h₂
