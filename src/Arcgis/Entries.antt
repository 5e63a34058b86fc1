-- ===== src/Arcgis/Entries.antt =====
-- What services/arcgis.py takes of one entry of a manifest: a mapping for each action of its plan,
-- with the target that the entry names, and a job for each or for none.
use honua_migrate.Base.{
  ◌≡◌, refl, sym, ap, subst, arith, List, [], ◌∷◌, String, string_eq, nat_eq, Option, none, some,
  map, All, length,
}
use honua_migrate.Base.Int.{ℤ}
use honua_migrate.Json.{Fields}
use honua_migrate.Runs.Contracts.{ok, then_result-eq-ok, ok-injective}
use honua_migrate.Arcgis.Artifact.{item}
use honua_migrate.Arcgis.Scope.{Mapping, mapping_of, mappings_of, first_job, other_jobs}

-- The mapping of one request
pub record FromRequest (url : String) (request : Fields) (m : Mapping) : Type 0 where
  pub source : item "serviceUrl" request ≡ ok m.source_service_url
  pub layer : item "layerId" request ≡ ok m.source_layer_id
  pub table : item "tableName" request ≡ ok m.table_name
  pub target : m.target_service_url ≡ url

abbrev pub Sources : String → List Fields → List Mapping → Type 0
Sources url [] [] = Unit
Sources url (r ∷ rs) (m ∷ ms) = FromRequest url r m × Sources url rs ms
Sources url _ _ = ⊥

mapping_of-FromRequest :
    (r : Fields) (url : String) (n : ℤ) (job : Option String) (m : Mapping)
    → mapping_of r url n job ≡ ok m
    → FromRequest url r m × (m.target_layer_id ≡ n) × (m.job_id ≡ job)
mapping_of-FromRequest r url n job m e =
    let (source, s, e₁) = then_result-eq-ok (item "serviceUrl" r) _ e in
    let (layer, l, e₂) = then_result-eq-ok (item "layerId" r) _ e₁ in
    let (table, t, e₃) = then_result-eq-ok (item "tableName" r) _ e₂ in
    subst (λ (k : Mapping). FromRequest url r k × (k.target_layer_id ≡ n) × (k.job_id ≡ job))
      (sym (ok-injective e₃))
      (record { source = s; layer = l; table = t; target = refl }, refl, refl)

-- None of them has a job, or each has its own.
abbrev pub HaveJobs : List String → List Mapping → Type 0
HaveJobs [] ms = All (λ (m : Mapping). m.job_id ≡ none) ms
HaveJobs (j ∷ js) ms = map (λ (m : Mapping). m.job_id) ms ≡ map some (j ∷ js)

-- As many jobs as requests, or none
abbrev pub Fits : List String → List Fields → Type 0
Fits [] requests = Unit
Fits (j ∷ js) requests = length (j ∷ js) ≡ length requests

HaveJobs-cons :
    (j : String) (js : List String) (rs : List Fields) (m : Mapping) (ms : List Mapping)
    → length js ≡ length rs
    → length ms ≡ length rs
    → m.job_id ≡ some j
    → HaveJobs js ms
    → HaveJobs (j ∷ js) (m ∷ ms)
HaveJobs-cons j [] [] m [] f l e h = ap (λ o. o ∷ []) e
HaveJobs-cons j [] [] m (k ∷ ms) f l e h = absurd (omega (arith, l))
HaveJobs-cons j [] (r ∷ rs) m ms f l e h = absurd (omega (arith, f))
HaveJobs-cons j (i ∷ js) rs m ms f l e h = rw (e, h) refl

pub record Mapped (url : String) (requests : List Fields) (wanted : List ℤ) (given : List String)
    (ms : List Mapping) : Type 0 where
  pub sources : Sources url requests ms
  pub count : length ms ≡ length requests
  pub targets : map (λ (m : Mapping). m.target_layer_id) ms ≡ wanted
  pub jobs : HaveJobs given ms

pub mappings_of-Mapped :
    (url : String) (requests : List Fields) (targets : List ℤ) (jobs : List String)
    (ms : List Mapping)
    → length targets ≡ length requests
    → Fits jobs requests
    → mappings_of url requests targets jobs ≡ ok ms
    → Mapped url requests targets jobs ms
unfolding mappings_of
mappings_of-Mapped url [] [] [] ms l f e =
    subst (Mapped url [] [] []) (sym (ok-injective e))
      (record { sources = tt; count = refl; targets = refl; jobs = tt })
mappings_of-Mapped url [] [] (j ∷ js) ms l f e = absurd (omega (arith, f))
mappings_of-Mapped url [] (n ∷ ns) jobs ms l f e = absurd (omega (arith, l))
mappings_of-Mapped url (r ∷ rs) [] jobs ms l f e = absurd (omega (arith, l))
mappings_of-Mapped url (r ∷ rs) (n ∷ ns) jobs ms l f e =
    let (m, made, e₁) = then_result-eq-ok (mapping_of r url n (first_job jobs)) _ e in
    let (rest, more, e₂) = then_result-eq-ok (mappings_of url rs ns (other_jobs jobs)) _ e₁ in
    let (from, target, job) = mapping_of-FromRequest r url n (first_job jobs) m made in
    let ih =
      mappings_of-Mapped url rs ns (other_jobs jobs) rest (omega (arith, l)) (others jobs f) more in
    subst (Mapped url (r ∷ rs) (n ∷ ns) jobs) (sym (ok-injective e₂)) (record {
      sources = (from, ih.sources);
      count = omega (arith, ih.count);
      targets = rw (target, ih.targets) refl;
      jobs = with_first jobs m rest f ih.count job ih.jobs;
    })
  where
    others : (js : List String) → Fits js (r ∷ rs) → Fits (other_jobs js) rs
    others [] h = tt
    others (j ∷ []) h = tt
    others (j ∷ i ∷ js) h = omega (arith, h)

    with_first :
        (js : List String) (m : Mapping) (ms : List Mapping)
        → Fits js (r ∷ rs)
        → length ms ≡ length rs
        → m.job_id ≡ first_job js
        → HaveJobs (other_jobs js) ms
        → HaveJobs js (m ∷ ms)
    with_first [] m ms h k e x = (e, x)
    with_first (j ∷ js) m ms h k e x = HaveJobs-cons j js rs m ms (omega (arith, h)) k e x
