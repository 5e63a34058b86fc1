-- ===== src/Report/Complexity.antt =====
-- The complexity bucket by the thresholds that the counts exceed.
use honua_migrate.Base.{ℕ, ◌≤◌, ◌≡◌, refl, List, [], ◌∷◌, count_if, if◌then◌else◌, ltb, arith}
use honua_migrate.Json.{Json}
use honua_migrate.Report.Counts.{
  Bucket, worse, bucket_index, bucket_for_value, item_bucket, layer_bucket, ComplexityThresholds,
  score_bucket, total_inventory_count, total_layer_count,
}

-- The thresholds that a count exceeds
abbrev pub exceeded : ℕ → List ℕ → ℕ
exceeded n thresholds = count_if (λ t. ltb t n) thresholds

abbrev pub Increasing : ComplexityThresholds → Type 0
Increasing t =
    (t.small_items ≤ t.medium_items)
    × (t.medium_items ≤ t.large_items)
    × (t.small_layers ≤ t.medium_layers)
    × (t.medium_layers ≤ t.large_layers)

bucket_index-bucket_for_value :
    (n a b c : ℕ)
    → a ≤ b
    → b ≤ c
    → bucket_index (bucket_for_value n a b c) ≡ exceeded n (a ∷ b ∷ c ∷ [])
unfolding bucket_for_value
bucket_index-bucket_for_value n a b c h k = ground (arith, h, k)

worse_lem :
    (a b : Bucket)
    → bucket_index (worse a b)
      ≡ (if ltb (bucket_index a) (bucket_index b) then bucket_index b else bucket_index a)
worse_lem a b = ground arith

-- Where the thresholds increase, the bucket of the score is as many steps up as the thresholds
-- that the count of items exceeds or those that the count of layers exceeds, whichever are more.
pub score_bucket-exceeded :
    (t : ComplexityThresholds) (footprint : Json)
    → Increasing t
    → let items =
        exceeded
          (total_inventory_count footprint)
          (t.small_items ∷ t.medium_items ∷ t.large_items ∷ []) in
      let layers =
        exceeded
          (total_layer_count footprint)
          (t.small_layers ∷ t.medium_layers ∷ t.large_layers ∷ []) in
      bucket_index (score_bucket t footprint) ≡ (if ltb items layers then layers else items)
unfolding score_bucket item_bucket layer_bucket
score_bucket-exceeded t footprint (a, b, c, d) =
    rw
      (
        worse_lem (item_bucket t (total_inventory_count footprint))
            (layer_bucket t (total_layer_count footprint)),
        bucket_index-bucket_for_value (total_inventory_count footprint) t.small_items t.medium_items
            t.large_items a b,
        bucket_index-bucket_for_value (total_layer_count footprint) t.small_layers t.medium_layers
            t.large_layers c d,
      )
      refl
