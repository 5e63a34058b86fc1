-- ===== src/Json.antt =====
-- The values of an artifact that `json.loads` gives, with Python's `.get` and type tests. Numbers
-- are integers; an object's keys are distinct, and its fields stand in their order.
use honua_migrate.Base.{
  Bool, true, false, List, [], ◌∷◌, String, ◌==◌, string_eq, if◌then◌else◌, Option, none, some,
}
use honua_migrate.Base.Int.{ℤ}

mutual
  pub data Json : Type 0 where
    null : Json
    bool : Bool → Json
    int : ℤ → Json
    str : String → Json
    arr : Items → Json
    obj : Fields → Json

  pub data Items : Type 0 where
    nil : Items
    cons : Json → Items → Items

  pub data Fields : Type 0 where
    end : Fields
    field : String → Json → Fields → Fields

unfoldable pub to_list : Items → List Json
to_list nil = []
to_list (cons x xs) = x ∷ to_list xs

unfoldable pub get_field : String → Fields → Json
get_field k end = null
get_field k (field j v fs) = if j == k then v else get_field k fs

-- `value.get(k)`; the callers have tested that the value is a mapping.
unfoldable pub get : String → Json → Json
unfolding get_field
get k (obj fs) = get_field k fs
get k _ = null

abbrev pub is_mapping : Json → Bool
is_mapping (obj fs) = true
is_mapping _ = false

-- The members of a list, and nothing of any other value.
unfoldable pub members : Json → List Json
unfolding to_list
members (arr xs) = to_list xs
members _ = []

-- `isinstance(value, str) and value`
abbrev pub text? : Json → Option String
text? (str s) = if s == "" then none else some s
text? _ = none

-- `isinstance(value, int) and not isinstance(value, bool)`
abbrev pub int? : Json → Option ℤ
int? (int n) = some n
int? _ = none

-- `str(value or "")` where it is looked up in a set of type names: a value that is no text gives a
-- text that no such set has, as the empty one is in none.
abbrev pub type_text : Json → String
type_text (str s) = s
type_text _ = ""
