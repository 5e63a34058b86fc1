-- ===== src/Report/Counts.antt =====
-- report/heuristics.py and report/formatting.py: the roll-up counts and the complexity bucket.
use honua_migrate.Base.{ℕ, ◌+◌, ◌==◌, string_eq, nat_eq, keep, length, if◌then◌else◌, ltb, leb}
use honua_migrate.Base.Int.{pos, negsuc}
use honua_migrate.Json.{Json, Fields, int, obj, end, field, get, is_mapping, members}

-- `count` of formatting.py
unfoldable pub count : Json → ℕ
count (int (pos n)) = n
count (int (negsuc n)) = 0
count _ = 0

sum_counts : Fields → ℕ
unfolding count
sum_counts end = 0
sum_counts (field k v fs) = count v + sum_counts fs

sum_values : Json → ℕ
unfolding sum_counts
sum_values (obj fs) = sum_counts fs
sum_values _ = 0

-- `total_inventory_count`, of the footprint's items
unfoldable pub total_inventory_count : Json → ℕ
unfolding sum_values get members nat_eq
total_inventory_count footprint =
    let counted = sum_values (get "items" (get "counts" footprint)) in
    if counted == 0 then length (keep is_mapping (members (get "inventory" footprint))) else counted

unfoldable pub total_layer_count : Json → ℕ
unfolding count get
total_layer_count footprint = count (get "layers" (get "counts" footprint))

pub data Bucket : Type 0 where
  small medium large very_large : Bucket

-- `COMPLEXITY_BUCKETS.index`
abbrev pub bucket_index : Bucket → ℕ
bucket_index small = 0
bucket_index medium = 1
bucket_index large = 2
bucket_index very_large = 3

unfoldable pub bucket_for_value : ℕ → ℕ → ℕ → ℕ → Bucket
bucket_for_value n a b c =
    if leb n a then small else if leb n b then medium else if leb n c then large else very_large

pub record ComplexityThresholds : Type 0 where
  pub small_items : ℕ
  pub small_layers : ℕ
  pub medium_items : ℕ
  pub medium_layers : ℕ
  pub large_items : ℕ
  pub large_layers : ℕ

abbrev pub default_thresholds : ComplexityThresholds
default_thresholds = record {
  small_items = 50;
  small_layers = 200;
  medium_items = 500;
  medium_layers = 2000;
  large_items = 5000;
  large_layers = 20000;
}

unfoldable pub item_bucket : ComplexityThresholds → ℕ → Bucket
unfolding bucket_for_value
item_bucket t n = bucket_for_value n t.small_items t.medium_items t.large_items

unfoldable pub layer_bucket : ComplexityThresholds → ℕ → Bucket
unfolding bucket_for_value
layer_bucket t n = bucket_for_value n t.small_layers t.medium_layers t.large_layers

-- `max((item_bucket, layer_bucket), key=index)` keeps the first of equals.
abbrev pub worse : Bucket → Bucket → Bucket
worse a b = if ltb (bucket_index a) (bucket_index b) then b else a

-- The bucket of `score_complexity`; its rationale's text is left out.
unfoldable pub score_bucket : ComplexityThresholds → Json → Bucket
unfolding item_bucket layer_bucket total_inventory_count total_layer_count
score_bucket t footprint =
    worse (item_bucket t (total_inventory_count footprint))
      (layer_bucket t (total_layer_count footprint))
