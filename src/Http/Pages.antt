-- ===== src/Http/Pages.antt =====
-- honua_esri_assess/portal/pagination.py: `iter_paginated`, a walk over the pages of a search.
use honua_migrate.Base.{
  ℕ, zero, suc, List, [], ◌∷◌, ◌++◌, String, string_eq, Option, none, some, if◌then◌else◌, ltb,
  keep,
}
use honua_migrate.Base.Int.{pos}
use honua_migrate.Json.{Json, Fields, int, bool, end, field, get, members, is_mapping}
use honua_migrate.Http.Wire.{merge_params}
use honua_migrate.Http.Server.{HttpError, Answer, ok, raises}

-- How a walk ends: after the last page, with an error of the client, or at the end of its fuel.
pub data Stop : Type 0 where
  finished stuck : Stop
  failed : HttpError → Stop

-- The records yielded and the starts of the pages asked for, in their order.
pub record Walk : Type 0 where
  pub yielded : List Json
  pub starts : List ℕ
  pub stop : Stop

abbrev pub after : ℕ → ℕ → Option ℕ
after start next = if ltb start next then some next else none

-- The start of the next page, if the number under `nextStart` is greater than this start. A Boolean
-- is a number to `isinstance`.
unfoldable pub next_start : Json → ℕ → Option ℕ
next_start (int (pos n)) start = after start n
next_start (bool b) start = if b then after start 1 else after start 0
next_start _ start = none

unfoldable pub next_page : Json → ℕ → Option ℕ
unfolding get next_start
next_page payload start = next_start (get "nextStart" payload) start

unfoldable pub page_records : String → Json → List Json
unfolding get members
page_records result_key payload = keep is_mapping (members (get result_key payload))

abbrev pub onto : List Json → ℕ → Walk → Walk
onto records start w = record {
  yielded = records ++ w.yielded;
  starts = start ∷ w.starts;
  stop = w.stop;
}

unfoldable pub page_params : Fields → ℕ → ℕ → Fields
unfolding merge_params
page_params params page_size start =
    merge_params (field "num" (int (pos page_size)) (field "start" (int (pos start)) end)) params

abbrev pub go_on : Option ℕ → (ℕ → Walk) → Walk
go_on none again = record { yielded = []; starts = []; stop = finished }
go_on (some start) again = again start

unfoldable pub after_page : String → Answer → ℕ → (ℕ → Walk) → Walk
unfolding next_page page_records
after_page result_key (raises e) start again = record {
  yielded = [];
  starts = start ∷ [];
  stop = failed e;
}
after_page result_key (ok payload) start again =
    onto (page_records result_key payload) start (go_on (next_page payload start) again)

-- `get_json` is the client's, by how many pages were asked for before.
module _ (get_json : ℕ → String → Fields → Answer) (path result_key : String) (params : Fields)
    (page_size : ℕ) where
  unfoldable pub page_loop : ℕ → ℕ → ℕ → Walk
  unfolding after_page page_params
  page_loop zero asked start = record { yielded = []; starts = []; stop = stuck }
  page_loop (suc fuel) asked start =
      after_page result_key (get_json asked path (page_params params page_size start)) start
        λ next. page_loop fuel (suc asked) next

  unfoldable pub iter_paginated : ℕ → Walk
  unfolding page_loop
  iter_paginated fuel = page_loop fuel 0 1
