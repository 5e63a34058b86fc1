-- ===== src/Http/Paged.antt =====
-- Where the walk of portal/pagination.py ends, and what it yields from a server that pages a list.
use honua_migrate.Base.{
  ◌≡◌, refl, ℕ, zero, suc, ◌+◌, ◌≤◌, ◌<◌, ◌≢◌, arith, List, [], ◌∷◌, String, Option, none, some,
}
use honua_migrate.Json.{Json, Fields, null, bool, int, str, arr, obj, get}
use honua_migrate.Base.Int.{pos, negsuc}
use honua_migrate.Http.Server.{Answer, ok, raises}
use honua_migrate.Http.Pages.{
  Walk, stuck, next_start, next_page, page_records, onto, page_params, go_on, after_page, page_loop,
  iter_paginated,
}

-- Each start is greater than the one before, and the first than `low`.
abbrev pub Rising : ℕ → List ℕ → Type 0
Rising low [] = Unit
Rising low (s ∷ ss) = (low < s) × Rising s ss

-- The start of the next page that an answer names, if any
unfoldable pub named_next : Answer → ℕ → Option ℕ
named_next (raises e) start = none
named_next (ok payload) start = next_page payload start

-- A walk that ends by itself, over rising starts above `low`
abbrev pub Ends : ℕ → Walk → Type 0
Ends low w = (w.stop ≢ stuck) × Rising low w.starts

next_start-lt : (v : Json) (start next : ℕ) → next_start v start ≡ some next → start < next
unfolding next_start
next_start-lt (int (pos n)) start next e = ground arith
next_start-lt (bool b) start next e = ground arith
next_start-lt (int (negsuc n)) start next e = cc
next_start-lt null start next e = cc
next_start-lt (str s) start next e = cc
next_start-lt (arr xs) start next e = cc
next_start-lt (obj fs) start next e = cc

next_page-lt : (p : Json) (start next : ℕ) → next_page p start ≡ some next → start < next
unfolding next_page
next_page-lt p start next e = next_start-lt (get "nextStart" p) start next e

module _ (get_json : ℕ → String → Fields → Answer) (path result_key : String) (params : Fields)
    (page_size : ℕ) where
  abbrev page : ℕ → ℕ → Answer
  page asked start = get_json asked path (page_params params page_size start)

  module _ (limit : ℕ)
      (named_UpTo : (asked start next : ℕ)
        → named_next (page asked start) start ≡ some next
        → next ≤ limit) where
    page_loop-Ends :
        (fuel asked low start : ℕ)
        → limit + 2 ≤ start + fuel
        → start ≤ suc limit
        → low < start
        → Ends low (page_loop get_json path result_key params page_size fuel asked start)
    unfolding page_loop after_page named_next
    page_loop-Ends zero asked low start f h l = absurd (omega (arith, f, h))
    page_loop-Ends (suc fuel) asked low start f h l =
        step (page asked start) (named_UpTo asked start) (λ next small more.
          page_loop-Ends fuel (suc asked) start next (omega (arith, f, more)) (omega (arith, small))
            more)
      where
        again : ℕ → Walk
        again next = page_loop get_json path result_key params page_size fuel (suc asked) next

        go :
            (p : Json) (o : Option ℕ)
            → ((next : ℕ) → o ≡ some next → Ends start (again next))
            → Ends low (onto (page_records result_key p) start (go_on o again))
        go p none later = (λ e. cc, (l, tt))
        go p (some next) later = let w = later next refl in (w.0, (l, w.1))

        step :
            (a : Answer)
            → ((next : ℕ) → named_next a start ≡ some next → next ≤ limit)
            → ((next : ℕ) → next ≤ limit → start < next → Ends start (again next))
            → Ends low (after_page result_key a start again)
        step (raises e) small later = (λ q. cc, (l, tt))
        step (ok p) small later =
            go p (next_page p start)
              λ next e. later next (small next e) (next_page-lt p start next e)

    -- Where no page names a next start above `limit`, the walk ends by itself, having asked for
    -- pages from ever greater starts; fuel for `limit + 1` pages is enough.
    pub iter_paginated-Ends :
        Ends 0 (iter_paginated get_json path result_key params page_size (suc limit))
    unfolding iter_paginated
    iter_paginated-Ends = page_loop-Ends (suc limit) 0 0 1 (omega arith) (omega arith) (omega arith)
