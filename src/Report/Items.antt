-- ===== src/Report/Items.antt =====
-- report/heuristics.py: the labels of an inventory item, the rank of its migration, and its key in
-- a group. Texts are lists of code points.
use honua_migrate.Base.{
  ℕ, zero, suc, Bool, true, false, not, ◌&&◌, ◌||◌, List, [], ◌∷◌, ◌++◌, String, ◌==◌, string_eq,
  nat_eq, contains, if◌then◌else◌, is_empty,
}
use honua_migrate.Base.Int.{pos, negsuc}
use honua_migrate.Base.Decimal.{show_int}
use honua_migrate.Base.Text.{codes, codes_le, strip, same_codes}
use honua_migrate.Json.{Json, null, bool, int, str, arr, obj, nil, end, get, type_text}

abbrev pub complex_portal_types : List String
complex_portal_types =
    "Experience" ∷ "Geocoding Service" ∷ "Geoprocessing Service" ∷ "Insights Workbook" ∷ "Notebook"
    ∷ "Solution" ∷ "Survey123 Form" ∷ "Workforce Project" ∷ []

abbrev pub manual_review_portal_types : List String
manual_review_portal_types = complex_portal_types ++ ("Locator Package" ∷ [])

unfoldable pub server_rank : String → ℕ
unfolding string_eq
server_rank t =
    if t == "FeatureServer"
    then 20
    else if contains ("MapServer" ∷ "ImageServer" ∷ []) t
    then 30
    else 90

unfoldable pub portal_rank : String → ℕ
unfolding string_eq
portal_rank t =
    if t == "Feature Service"
    then 40
    else if contains ("Tile Service" ∷ "Vector Tile Service" ∷ []) t
    then 50
    else if t == "Web Map"
    then 60
    else if contains ("Dashboard" ∷ "Experience" ∷ "Web Mapping Application" ∷ []) t
    then 70
    else if contains manual_review_portal_types t
    then 80
    else 90

-- `_ordering_rank`
unfoldable pub ordering_rank : Json → ℕ
unfolding get string_eq server_rank portal_rank
ordering_rank item =
    let kind = type_text (get "kind" item) in
    if kind == "filegdb-feature-class"
    then 10
    else if kind == "server-service"
    then server_rank (type_text (get "serviceType" item))
    else if kind == "portal-item"
    then portal_rank (type_text (get "type" item))
    else 90

-- Python's truth of a value
abbrev pub truthy : Json → Bool
truthy null = false
truthy (bool b) = b
truthy (int n) = elim n [ pos m ↦ not (m == 0) | negsuc m ↦ true ]
truthy (str s) = not (s == "")
truthy (arr xs) = elim xs [ nil ↦ false | _ ↦ true ]
truthy (obj fs) = elim fs [ end ↦ false | _ ↦ true ]

abbrev pub Text : Type 0
Text = List ℕ

-- `s.split("/")` with the empty pieces left out
slash_parts : Text → Text → List Text
slash_parts piece [] = if is_empty piece then [] else piece ∷ []
slash_parts piece (c ∷ cs) =
    let cut = slash_parts [] cs in
    let more = slash_parts (piece ++ (c ∷ [])) cs in
    elim (c == b'/') [ true ↦ if is_empty piece then cut else piece ∷ cut | false ↦ more ]

abbrev last_two : List Text → Text → Text
last_two [] url = url
last_two (a ∷ []) url = url
last_two (a ∷ b ∷ []) url = a ++ (b'/' ∷ b)
last_two (a ∷ b ∷ c ∷ rest) url = last_two (b ∷ c ∷ rest) url

-- `_service_name_from_url`; what `rstrip` takes off are empty pieces.
unfoldable pub service_name_from_url : Text → Text
unfolding slash_parts nat_eq
service_name_from_url url = last_two (slash_parts [] url) url

abbrev pub take : ℕ → Text → Text
take zero xs = []
take (suc n) [] = []
take (suc n) (x ∷ xs) = x ∷ take n xs

-- `repr` stands for Python's text of a list or a dictionary, `lower_text` for `str.lower`, which
-- reads the tables of Unicode.
module _ (repr : Json → Text) (lower_text : Text → Text) where
  -- `str(value)`
  abbrev pub text_of : Json → Text
  text_of null = codes "None"
  text_of (bool b) = if b then codes "True" else codes "False"
  text_of (int n) = codes (show_int n)
  text_of (str s) = codes s
  text_of (arr xs) = repr (arr xs)
  text_of (obj fs) = repr (obj fs)

  -- `str(a or b or … or default)`
  abbrev pub first_text : List Json → String → Text
  first_text [] default = codes default
  first_text (v ∷ vs) default =
      let rest = first_text vs default in if truthy v then text_of v else rest

  unfoldable pub item_source_label : Json → String
  unfolding get string_eq
  item_source_label item =
      let kind = type_text (get "kind" item) in
      if kind == "portal-item"
      then "ArcGIS Online"
      else if kind == "server-service"
      then "ArcGIS Server"
      else if kind == "filegdb-feature-class"
      then "FileGDB"
      else "Unknown source"

  unfoldable pub item_type_label : Json → Text
  unfolding get string_eq
  item_type_label item =
      let kind = type_text (get "kind" item) in
      if kind == "portal-item"
      then first_text (get "type" item ∷ []) "Unknown"
      else if kind == "server-service"
      then first_text (get "serviceType" item ∷ []) "Unknown"
      else if kind == "filegdb-feature-class"
      then codes "Feature class"
      else first_text (get "type" item ∷ get "serviceType" item ∷ []) "Unknown"

  portal_label : Json → Text
  portal_label item =
      let title = first_text (get "title" item ∷ get "id" item ∷ []) "Untitled item" in
      let item_id = strip (first_text (get "id" item ∷ []) "") in
      if is_empty item_id then title else (title ++ (codes " (`" ++ (take 8 item_id ++ codes "`)")))

  unfoldable pub item_label : Json → Text
  unfolding get string_eq portal_label strip service_name_from_url
  item_label item =
      let kind = type_text (get "kind" item) in
      if kind == "portal-item"
      then portal_label item
      else if kind == "server-service"
      then service_name_from_url (first_text (get "serviceUrl" item ∷ []) "Unnamed service")
      else if kind == "filegdb-feature-class"
      then first_text (get "name" item ∷ []) "Unnamed feature class"
      else first_text (get "title" item ∷ get "name" item ∷ get "id" item ∷ []) "Unnamed item"

  -- The ranks "0", "1", "2" and "9" of the sources and kinds, as numbers.
  source_label_rank : String → ℕ
  source_label_rank s =
      if s == "FileGDB"
      then 0
      else if s == "ArcGIS Server"
      then 1
      else if s == "ArcGIS Online"
      then 2
      else 9

  kind_rank : String → ℕ
  kind_rank s =
      if s == "filegdb-feature-class"
      then 0
      else if s == "server-service"
      then 1
      else if s == "portal-item"
      then 2
      else 9

  -- The four parts of `item_sort_key`, each as a text.
  unfoldable pub item_sort_key : Json → List Text
  unfolding source_label_rank kind_rank item_source_label item_type_label item_label get string_eq
  item_sort_key item =
      (source_label_rank (item_source_label item) ∷ [])
      ∷ (kind_rank (type_text (get "kind" item)) ∷ [])
      ∷ lower_text (item_type_label item)
      ∷ lower_text (item_label item)
      ∷ []

-- Tuples of texts, part by part.
unfoldable pub key_le : List Text → List Text → Bool
unfolding codes_le same_codes
key_le [] ys = true
key_le (x ∷ xs) [] = false
key_le (x ∷ xs) (y ∷ ys) = not (codes_le y x) || (codes_le x y && key_le xs ys)
