-- ===== src/Reconcile/Compare.antt =====
-- runs/reconciliation.py: the checks of two snapshots and the status they give.
use honua_migrate.Base.{
  Bool, true, false, not, ◌&&◌, List, [], ◌∷◌, ◌++◌, String, string_eq, contains, distinct, any,
  keep, map, ℕ, if◌then◌else◌, Option, none, some, is_empty,
}
use honua_migrate.Base.Sort.{sorted}
use honua_migrate.Base.Text.{text_le, codes_le}
use honua_migrate.Json.{
  Json, Items, Fields, str, arr, obj, nil, cons, end, field, get, get_field, to_list,
}
use honua_migrate.Runs.Contracts.{Result, ok, then_result}
use honua_migrate.Reconcile.Same.{same, has_field}

pub data CheckStatus : Type 0 where
  matched mismatched skipped failed : CheckStatus

-- A check, its warnings by their codes
pub record Check : Type 0 where
  pub name : String
  pub status : CheckStatus
  pub source : Option Json
  pub target : Option Json
  pub warnings : List String
  pub unsupported_fields : List String

-- The statuses of a reconciliation
pub data Reconciled : Type 0 where
  matched mismatched partial failed : Reconciled

pub record Reconciliation : Type 0 where
  pub run_id : String
  pub status : Reconciled
  pub checks : List Check

abbrev pub comparisons : List String
comparisons = "counts" ∷ "schemas" ∷ "extents" ∷ "samples" ∷ "relationships" ∷ []

abbrev pub order_insensitive : List String
order_insensitive = "samples" ∷ "relationships" ∷ []

unfoldable pub items_of : List Json → Items
items_of [] = nil
items_of (x ∷ xs) = cons x (items_of xs)

abbrev pub has_category : String → Json → Bool
has_category name snapshot = elim snapshot [ obj fs ↦ has_field name fs | _ ↦ false ]

abbrev status_by : Bool → CheckStatus
status_by b = if b then CheckStatus.matched else CheckStatus.mismatched

abbrev skipped_check : String → String → Check
skipped_check name code = record {
  name = name;
  status = CheckStatus.skipped;
  source = none;
  target = none;
  warnings = code ∷ [];
  unsupported_fields = [];
}

-- `isinstance(value, list) and all(isinstance(item, str) …)`
all_texts : Items → Option (List String)
all_texts nil = some []
all_texts (cons (str s) xs) = put s (all_texts xs)
  where
    put : String → Option (List String) → Option (List String)
    put s none = none
    put s (some ss) = some (s ∷ ss)
all_texts (cons _ xs) = none

-- The fields of the names that the metadata has, in the order of the names
unfoldable pub select : List String → Fields → Fields
unfolding get_field string_eq
select [] metadata = end
select (name ∷ names) metadata =
    let rest = select names metadata in
    if has_field name metadata then field name (get_field name metadata) rest else rest

unfoldable pub names_of : Fields → List String
names_of end = []
names_of (field k v fs) = k ∷ names_of fs

unfoldable pub compare_supported : List String → Fields → Fields → Check
unfolding select names_of same text_le distinct string_eq
compare_supported supported source target =
    let names = sorted text_le (distinct [] supported) in
    let unsupported = sorted text_le (keep (λ name. not (contains names name)) (names_of source)) in
    record {
      name = "metadata";
      status = status_by (same (obj (select names source)) (obj (select names target)));
      source = some (obj (select names source));
      target = some (obj (select names target));
      warnings = if is_empty unsupported then [] else "metadata-unsupported" ∷ [];
      unsupported_fields = unsupported;
    }

abbrev pub compare_values : Json → Json → Option (List String) → Check
compare_values (obj source) (obj target) (some supported) =
    compare_supported supported source target
compare_values _ _ _ = skipped_check "metadata" "metadata-capabilities-missing"

abbrev texts? : Json → Option (List String)
texts? v = elim v [ arr xs ↦ all_texts xs | _ ↦ none ]

unfoldable pub compare_metadata : Json → Json → Check
unfolding get compare_supported all_texts
compare_metadata source target =
    compare_values (get "metadata" source) (get "metadata" target)
      (texts? (get "supported_metadata" target))

-- `dumps` is `json.dumps` with sorted keys, as code points; it only orders the items.
module _ (dumps : Json → List ℕ) where
  -- `_ordered`
  unfoldable pub in_order : Json → Json
  unfolding items_of to_list codes_le
  in_order (arr xs) = arr (items_of (sorted (λ a b. codes_le (dumps a) (dumps b)) (to_list xs)))
  in_order v = v

  abbrev pub prepared : String → Json → Json
  prepared name value = if contains order_insensitive name then in_order value else value

  -- `_compare`
  unfoldable pub compare_category : Json → Json → String → Check
  unfolding get in_order same string_eq
  compare_category source target name =
      if has_category name source && has_category name target
      then record {
        name = name;
        status =
            status_by (same (prepared name (get name source)) (prepared name (get name target)));
        source = some (prepared name (get name source));
        target = some (prepared name (get name target));
        warnings = [];
        unsupported_fields = [];
      }
      else skipped_check name "snapshot-category-missing"

  unfoldable pub checks_of : Json → Json → List Check
  unfolding compare_category compare_metadata
  checks_of source target =
      map (compare_category source target) comparisons ++ (compare_metadata source target ∷ [])

abbrev pub is_failed : CheckStatus → Bool
is_failed CheckStatus.failed = true
is_failed _ = false

abbrev pub is_mismatched : CheckStatus → Bool
is_mismatched CheckStatus.mismatched = true
is_mismatched _ = false

abbrev pub is_skipped : CheckStatus → Bool
is_skipped CheckStatus.skipped = true
is_skipped _ = false

unfoldable pub status_of : List CheckStatus → Reconciled
status_of statuses =
    if any is_failed statuses
    then Reconciled.failed
    else if any is_mismatched statuses
    then Reconciled.mismatched
    else if any is_skipped statuses
    then Reconciled.partial
    else Reconciled.matched

-- `assert_artifact_safe` and `validate_contract` are those of contract_validation.py.
module _ (dumps : Json → List ℕ) (assert_artifact_safe : Json → Result (Unit {0}))
    (validate_reconciliation : Reconciliation → Result (Unit {0})) where
  unfoldable pub result_of : String → Json → Json → Reconciliation
  unfolding checks_of status_of
  result_of run_id source target = record {
    run_id = run_id;
    status = status_of (map (λ c. c.status) (checks_of dumps source target));
    checks = checks_of dumps source target;
  }

  unfoldable pub reconcile_snapshots : String → Json → Json → Result Reconciliation
  unfolding result_of
  reconcile_snapshots run_id source target = then_result (assert_artifact_safe source) λ _.
      then_result (assert_artifact_safe target) λ _.
        then_result (validate_reconciliation (result_of run_id source target))
          λ _. ok (result_of run_id source target)
