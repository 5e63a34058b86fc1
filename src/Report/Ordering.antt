-- ===== src/Report/Ordering.antt =====
-- report/heuristics.py: the recommended order of migration, by groups.
use honua_migrate.Base.{
  ℕ, Bool, List, [], ◌∷◌, String, ◌==◌, string_eq, nat_eq, keep, if◌then◌else◌, is_empty,
}
use honua_migrate.Base.Sort.{sorted}
use honua_migrate.Json.{Json}
use honua_migrate.Verdict.Detect.{inventory_items}
use honua_migrate.Report.Items.{Text, ordering_rank, item_sort_key, key_le}

pub record OrderingGroup : Type 0 where
  pub rank : ℕ
  pub title : String
  pub justification : String
  pub items : List Json

abbrev pub Definitions : Type 0
Definitions = List (ℕ × String × String)

abbrev pub ordering_definitions : Definitions
ordering_definitions =
    (10, "FileGDB feature classes", "Stage cold data first before dependent services.")
    ∷ (
      20, "ArcGIS Server feature services", "Move authoritative service-backed feature data early.",
    )
    ∷ (
      30, "ArcGIS Server map and image services",
      "Migrate read-side services after their data sources are staged.",
    )
    ∷ (40, "AGOL hosted feature services", "Move cloud-side authoritative feature services next.")
    ∷ (
      50, "AGOL hosted tile and vector tile services",
      "Rebuild derived rendering layers after feature services are available.",
    )
    ∷ (60, "AGOL web maps", "Web maps should follow the services they reference.")
    ∷ (
      70, "AGOL web apps, dashboards, and experiences",
      "Apps and dashboards should follow their web maps and service dependencies.",
    )
    ∷ (
      80, "AGOL notebooks, solutions, workforce, survey, and insights",
      "Specialized portal content should be handled late with human review.",
    )
    ∷ (90, "Other or unknown item types", "Triage unknown types before assigning a final sequence.")
    ∷ []

module _ (repr : Json → Text) (lower_text : Text → Text) where
  abbrev pub item_le : Json → Json → Bool
  item_le a b = key_le (item_sort_key repr lower_text a) (item_sort_key repr lower_text b)

  -- The bucket of a rank, in order
  abbrev pub bucket : ℕ → List Json → List Json
  bucket rank items = sorted item_le (keep (λ item. ordering_rank item == rank) items)

  unfoldable pub groups_of : Definitions → List Json → List OrderingGroup
  unfolding key_le item_sort_key ordering_rank nat_eq
  groups_of [] items = []
  groups_of ((rank, title, justification) ∷ ds) items =
      let rest = groups_of ds items in
      if is_empty (bucket rank items)
      then rest
      else record {
        rank = rank;
        title = title;
        justification = justification;
        items = bucket rank items;
      }
        ∷ rest

  unfoldable pub recommended_order : Json → List OrderingGroup
  unfolding groups_of inventory_items
  recommended_order footprint = groups_of ordering_definitions (inventory_items footprint)
