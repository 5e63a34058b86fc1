-- ===== src/Arcgis/Tables.antt =====
-- services/arcgis.py: the table names of related layers, as texts by their code points.
use honua_migrate.Base.{
  ℕ, ◌+◌, Bool, true, false, ◌&&◌, ◌||◌, List, [], ◌∷◌, ◌++◌, ◌==◌, nat_eq, if◌then◌else◌, leb, all,
  length, take,
}
use mathlib.Core.List.{reverse}
use honua_migrate.Base.Decimal.{show_int}
use honua_migrate.Base.Int.{ℤ}
use honua_migrate.Base.Text.{codes}
use honua_migrate.Runs.Contracts.{Result, ok, err, migration, exit_input_error}

-- `ArcGisMigrationError`, whose exit code is the default
abbrev pub refuse : {A : Type 0} → Result A
refuse = err (migration exit_input_error)

abbrev is_digit : ℕ → Bool
is_digit c = leb b'0' c && leb c b'9'

abbrev is_lower : ℕ → Bool
is_lower c = leb b'a' c && leb c b'z'

abbrev is_upper : ℕ → Bool
is_upper c = leb b'A' c && leb c b'Z'

-- `str.lower` as far as it gives ASCII; the dotted capital i becomes an i and a dot above.
unfoldable pub lower_codes : List ℕ → List ℕ
unfolding nat_eq
lower_codes [] = []
lower_codes (c ∷ cs) =
    let rest = lower_codes cs in
    if is_upper c
    then (c + 32) ∷ rest
    else if c == 0x212a
    then b'k' ∷ rest
    else if c == 0x130
    then b'i' ∷ 0x307 ∷ rest
    else c ∷ rest

-- `re.sub(r"[^a-z0-9]+", "_", text)`, inside a run of other characters or not
unfoldable pub squash : Bool → List ℕ → List ℕ
squash in_run [] = []
squash in_run (c ∷ cs) =
    let kept = squash false cs in
    let rest = squash true cs in
    if is_lower c || is_digit c then c ∷ kept else if in_run then rest else b'_' ∷ rest

-- `strip("_")`
unfoldable pub drop_scores : List ℕ → List ℕ
unfolding nat_eq
drop_scores [] = []
drop_scores (c ∷ cs) = if c == b'_' then drop_scores cs else c ∷ cs

unfoldable pub strip_scores : List ℕ → List ℕ
unfolding drop_scores
strip_scores cs = reverse (drop_scores (reverse (drop_scores cs)))

abbrev pub or_text : List ℕ → List ℕ → List ℕ
or_text [] text = text
or_text (c ∷ cs) text = c ∷ cs

unfoldable pub layer_text : ℤ → List ℕ
unfolding show_int
layer_text id = codes "layer_" ++ codes (show_int id)

unfoldable pub table_name_from_layer : List ℕ → ℤ → List ℕ
unfolding lower_codes squash strip_scores layer_text
table_name_from_layer name id =
    or_text (take 48 (strip_scores (squash false (lower_codes name)))) (layer_text id)

-- `_SERVER_TABLE_NAME`, matched against a whole text
unfoldable pub is_server_table : List ℕ → Bool
unfolding nat_eq
is_server_table [] = false
is_server_table (c ∷ cs) =
    (is_lower c || is_upper c)
    && all (λ d. is_lower d || is_upper d || is_digit d || d == b'_') cs
    && leb (length cs) 62

abbrev pub with_letter : List ℕ → List ℕ
with_letter [] = []
with_letter (c ∷ cs) = if is_digit c then codes "t_" ++ (c ∷ cs) else c ∷ cs

unfoldable pub derived_table_name : List ℕ → ℤ → Result (List ℕ)
unfolding table_name_from_layer is_server_table
derived_table_name name id =
    let cleaned = take 63 (with_letter (table_name_from_layer name id)) in
    if is_server_table cleaned then ok cleaned else refuse
