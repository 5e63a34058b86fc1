-- ===== src/Arcgis/Scope.antt =====
-- services/arcgis.py: `_handoff_scope`, and the jobs of an apply artifact.
use honua_migrate.Base.{
  ℕ, Bool, not, ◌&&◌, ◌||◌, List, [], ◌∷◌, ◌++◌, String, ◌==◌, string_eq, nat_eq, Option, none,
  some, if◌then◌else◌, contains, any, length, is_empty, map,
}
use honua_migrate.Base.Int.{ℤ}
use honua_migrate.Json.{Json, Fields, null, str, get, is_mapping, to_list, text?, int?}
use honua_migrate.Runs.Contracts.{Result, ok, err, other, then_result}
use honua_migrate.Reconcile.Same.{same}
use honua_migrate.Geoserver.Checks.{is_the}
use honua_migrate.Arcgis.Tables.{refuse}
use honua_migrate.Arcgis.Artifact.{
  items_of, is_some, is_null, item, Artifact, plan_action_requests, read_artifact,
}

-- Texts that are not empty
abbrev pub add_text : Option String → Result (List String) → Result (List String)
add_text none rest = refuse
add_text (some t) rest = then_result rest λ texts. ok (t ∷ texts)

unfoldable pub texts_of : List Json → Result (List String)
unfolding string_eq
texts_of [] = ok []
texts_of (x ∷ xs) = let rest = texts_of xs in add_text (text? x) rest

abbrev pub add_int : Option ℤ → Result (List ℤ) → Result (List ℤ)
add_int none rest = refuse
add_int (some n) rest = then_result rest λ ints. ok (n ∷ ints)

unfoldable pub ints_of : List Json → Result (List ℤ)
ints_of [] = ok []
ints_of (x ∷ xs) = let rest = ints_of xs in add_int (int? x) rest

unfoldable pub response_job_ids : List Json → Result (List String)
unfolding get string_eq
response_job_ids [] = ok []
response_job_ids (x ∷ xs) = let rest = response_job_ids xs in add_text (text? (get "jobId" x)) rest

abbrev pub or_one : Json → Option (List Json) → List Json
or_one response (some items) = items
or_one response none = response ∷ []

abbrev pub some_texts : List String → Result (List String)
some_texts [] = refuse
some_texts (t ∷ ts) = ok (t ∷ ts)

-- `_handoff_job_ids`
unfoldable pub handoff_job_ids : Option Json → String → Result (List String)
unfolding response_job_ids get to_list string_eq
handoff_job_ids none plan_id = refuse
handoff_job_ids (some artifact) plan_id =
    let response = get "response" artifact in
    if not (is_mapping artifact && is_the "apply" (get "kind" artifact))
    then refuse
    else if not (is_the plan_id (get "planId" artifact))
    then refuse
    else then_result (response_job_ids (or_one response (items_of response))) some_texts

-- The target layers of `count` requests
abbrev pub listed_targets : ℕ → Option (List Json) → Result (List ℤ)
listed_targets count none = refuse
listed_targets count (some items) = if length items == count then ints_of items else refuse

abbrev pub targets_of : ℕ → Option ℤ → Option (List Json) → Result (List ℤ)
targets_of count none listed = listed_targets count listed
targets_of count (some n) listed = if count == 1 then ok (n ∷ []) else listed_targets count listed

unfoldable pub target_ids : ℕ → Json → Result (List ℤ)
unfolding get to_list ints_of nat_eq
target_ids count entry =
    targets_of count (int? (get "targetLayerId" entry)) (items_of (get "targetLayerIds" entry))

abbrev pub listed_jobs : Bool → Option (List Json) → Json → Result (List Json)
listed_jobs given (some items) job = if given then refuse else ok items
listed_jobs given none null = ok []
listed_jobs given none (str j) = ok (str j ∷ [])
listed_jobs given none job = refuse

-- One job for each of `count` requests, or none at all
abbrev pub checked_jobs : ℕ → List Json → Result (List String)
checked_jobs count items =
    if not (is_empty items) && not (length items == count) then refuse else texts_of items

-- An entry's part of the mapping: of one plan
pub record Mapping : Type 0 where
  pub source_service_url : Json
  pub source_layer_id : Json
  pub table_name : Json
  pub target_service_url : String
  pub target_layer_id : ℤ
  pub job_id : Option String

abbrev pub first_job : List String → Option String
first_job [] = none
first_job (j ∷ js) = some j

abbrev pub other_jobs : List String → List String
other_jobs [] = []
other_jobs (j ∷ js) = js

abbrev pub mapping_of : Fields → String → ℤ → Option String → Result Mapping
mapping_of request url target job = then_result (item "serviceUrl" request) λ source.
    then_result (item "layerId" request) λ layer. then_result (item "tableName" request) λ table.
      ok (record {
        source_service_url = source;
        source_layer_id = layer;
        table_name = table;
        target_service_url = url;
        target_layer_id = target;
        job_id = job;
      })

-- The requests with their targets and jobs; there are as many targets as requests by then.
unfoldable pub mappings_of : String → List Fields → List ℤ → List String → Result (List Mapping)
unfolding item
mappings_of url (r ∷ rs) (n ∷ ns) jobs =
    let rest = mappings_of url rs ns (other_jobs jobs) in
    then_result (mapping_of r url n (first_job jobs)) λ m. then_result rest λ ms. ok (m ∷ ms)
mappings_of url [] ns jobs = ok []
mappings_of url (r ∷ rs) [] jobs = err other

pub record Part : Type 0 where
  pub plan_id : String
  pub plan_digest : Json
  pub mappings : List Mapping

pub record Scope : Type 0 where
  pub id_mapping : List Mapping
  pub plan_ids : List String
  pub plan_digests : List Json
  pub job_ids : List String
  pub service_urls : List Json
  pub layer_ids : List Json

-- `if x not in xs: xs.append(x)`
unfoldable pub add_new : List String → String → List String
unfolding string_eq
add_new xs x = if contains xs x then xs else xs ++ (x ∷ [])

unfoldable pub add_value : List Json → Json → List Json
unfolding same
add_value xs x = if any (same x) xs then xs else xs ++ (x ∷ [])

abbrev pub add_job : List String → Option String → List String
add_job jobs none = jobs
add_job jobs (some j) = add_new jobs j

unfoldable pub add_mapping : Mapping → Scope → Scope
unfolding add_new add_value
add_mapping m s = record s {
  id_mapping = s.id_mapping ++ (m ∷ []);
  job_ids = add_job s.job_ids m.job_id;
  service_urls = add_value s.service_urls m.source_service_url;
  layer_ids = add_value s.layer_ids m.source_layer_id;
}

unfoldable pub add_mappings : List Mapping → Scope → Scope
unfolding add_mapping
add_mappings [] s = s
add_mappings (m ∷ ms) s = add_mappings ms (add_mapping m s)

unfoldable pub add_plan : Part → Scope → Scope
unfolding add_new add_value
add_plan part s = record s {
  plan_ids = add_new s.plan_ids part.plan_id;
  plan_digests = add_value s.plan_digests part.plan_digest;
}

abbrev pub no_scope : Scope
no_scope = record {
  id_mapping = [];
  plan_ids = [];
  plan_digests = [];
  job_ids = [];
  service_urls = [];
  layer_ids = [];
}

-- `files` is what is at a path, as JSON, or `none` where it cannot be read as that.
module _ (valid : Json → Bool) (plan_digest : Fields → String) (files : String → Option Json)
    (url : String) where
  abbrev pub applied_jobs : Option String → String → Result (List Json)
  applied_jobs none plan_id = refuse
  applied_jobs (some path) plan_id =
      then_result (handoff_job_ids (files path) plan_id) λ jobs. ok (map str jobs)

  abbrev pub jobs_of : Json → String → Result (List Json)
  jobs_of entry plan_id =
      let job = get "jobId" entry in
      let jobs = get "jobIds" entry in
      let apply = get "apply" entry in
      if is_null apply
      then listed_jobs (not (is_null job)) (items_of jobs) job
      else if not (is_null job) || not (is_null jobs)
      then refuse
      else applied_jobs (text? apply) plan_id

  abbrev pub part_of : Json → Artifact → Result Part
  part_of entry plan = then_result (plan_action_requests plan.artifact) λ requests.
      then_result (target_ids (length requests) entry) λ targets.
        then_result (jobs_of entry plan.plan_id) λ given.
          then_result (checked_jobs (length requests) given) λ jobs.
            then_result (mappings_of url requests targets jobs) λ mappings. ok (record {
              plan_id = plan.plan_id;
              plan_digest = get "plan_digest" plan.artifact;
              mappings = mappings;
            })

  abbrev pub entry_of : Json → Option String → Result Part
  entry_of entry none = refuse
  entry_of entry (some path) =
      if is_some (int? (get "targetLayerId" entry))
        || is_some (items_of (get "targetLayerIds" entry))
      then then_result (read_artifact valid plan_digest (files path)) (part_of entry)
      else refuse

  -- What an entry of the manifest adds
  unfoldable pub read_entry : Json → Result Part
  unfolding get to_list string_eq nat_eq read_artifact plan_action_requests target_ids texts_of
      mappings_of handoff_job_ids
  read_entry entry = if is_mapping entry then entry_of entry (text? (get "plan" entry)) else refuse

  unfoldable pub scope_from : List Json → Scope → Result Scope
  unfolding read_entry add_mappings add_plan
  scope_from [] s = ok s
  scope_from (entry ∷ entries) s =
      then_result (read_entry entry)
        λ part. scope_from entries (add_plan part (add_mappings part.mappings s))

  -- `_handoff_scope`
  unfoldable pub handoff_scope : List Json → Result Scope
  unfolding scope_from
  handoff_scope manifest = scope_from manifest no_scope
