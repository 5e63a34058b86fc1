-- ===== src/Http/Complete.antt =====
-- The walk of portal/pagination.py over a server that pages a list of records.
use honua_migrate.Base.{
  ◌≡◌, refl, sym, ap, ◌∙◌, ℕ, zero, suc, ◌+◌, ◌≤◌, ◌<◌, arith, Bool, true, false, List, ◌++◌,
  String, none, some, if◌then◌else◌, ltb, keep, length, take, drop, take-drop, drop-drop, drop_all,
  keep-append,
}
use honua_migrate.Json.{Json, Fields, get, members, is_mapping}
use honua_migrate.Http.Server.{Answer, ok}
use honua_migrate.Http.Pages.{
  Walk, finished, next_page, page_records, onto, page_params, go_on, after_page, page_loop,
  iter_paginated,
}

-- The page that starts with record `suc k` of a list that is paged by `size`: those records, and
-- where the next page starts, as long as there is one.
pub record IsPage (records : List Json) (size : ℕ) (result_key : String) (k : ℕ) (p : Json)
    : Type 0 where
  pub carried : members (get result_key p) ≡ take size (drop k records)
  pub named :
      next_page p (suc k)
      ≡ (if ltb (k + size) (length records) then some (suc (k + size)) else none)

module _ (get_json : ℕ → String → Fields → Answer) (path result_key : String) (params : Fields)
    (page_size size : ℕ) (records : List Json) (positive : 0 < size)
    (serves : (asked k : ℕ)
      → (p : Json) × (get_json asked path (page_params params page_size (suc k)) ≡ ok p)
        × IsPage records size result_key k p) where
  -- All the records from this one on, and no others
  abbrev pub AllYielded : ℕ → Walk → Type 0
  AllYielded k w = (w.yielded ≡ keep is_mapping (drop k records)) × (w.stop ≡ finished)

  page_loop-AllYielded :
      (fuel asked k : ℕ)
      → 1 ≤ fuel
      → length records ≤ k + fuel
      → AllYielded k (page_loop get_json path result_key params page_size fuel asked (suc k))
  unfolding page_loop after_page page_records
  page_loop-AllYielded zero asked k f h = absurd (omega (arith, f))
  page_loop-AllYielded (suc fuel) asked k f h =
      let (p, e, is_page) = serves asked k in
      rw (e, is_page.named, is_page.carried)
        (step (ltb (k + size) (length records)) refl λ less.
          page_loop-AllYielded fuel (suc asked) (k + size) (ground (arith, less, h))
            (omega (arith, h, positive)))
    where
      again : ℕ → Walk
      again = page_loop get_json path result_key params page_size fuel (suc asked)

      both :
          keep is_mapping (take size (drop k records)) ++ keep is_mapping (drop (k + size) records)
          ≡ keep is_mapping (drop k records)
      both =
          ap (λ rs. keep is_mapping (take size (drop k records)) ++ keep is_mapping rs)
            (sym (drop-drop size k records))
          ∙ sym (keep-append is_mapping (take size (drop k records)) (drop size (drop k records)))
          ∙ ap (keep is_mapping) (take-drop size (drop k records))

      step :
          (b : Bool)
          → ltb (k + size) (length records) ≡ b
          → (b ≡ true → AllYielded (k + size) (again (suc (k + size))))
          → AllYielded k (
              onto
                (keep is_mapping (take size (drop k records)))
                (suc k)
                (go_on (if b then some (suc (k + size)) else none) again))
      step true e later =
          let (rest, done) = later refl in
          ((ap (λ rs. keep is_mapping (take size (drop k records)) ++ rs) rest ∙ both), done)
      step false e later = (
        (ap (λ rs. keep is_mapping (take size (drop k records)) ++ keep is_mapping rs)
              (sym (drop_all (k + size) records (ground (arith, e))))
            ∙ both),
        refl,
      )

  -- Over a server that gives the records of a list page by page, `size` at a time, and names the
  -- next start for as long as there is a next page, the walk yields the records of the list that
  -- are objects, each in its place, and ends; fuel for one page more than there are records is
  -- enough.
  pub iter_paginated-AllYielded :
      AllYielded 0 (iter_paginated get_json path result_key params page_size (suc (length records)))
  unfolding iter_paginated
  iter_paginated-AllYielded =
      page_loop-AllYielded (suc (length records)) 0 0 (omega arith) (omega arith)
