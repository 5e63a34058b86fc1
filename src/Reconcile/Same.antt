-- ===== src/Reconcile/Same.antt =====
-- Python's `==` on the values of an artifact: a truth value is the integer 0 or 1, and objects are
-- compared key by key.
use honua_migrate.Base.{
  ℕ, suc, Bool, true, false, ◌&&◌, ◌||◌, String, ◌==◌, string_eq, nat_eq, bool_eq, if◌then◌else◌,
}
use honua_migrate.Base.Int.{ℤ, pos, int_le}
use honua_migrate.Json.{
  Json, Items, Fields, null, bool, int, str, arr, obj, nil, cons, end, field, get_field,
}

abbrev pub has_field : String → Fields → Bool
has_field k end = false
has_field k (field j v fs) = j == k || has_field k fs

abbrev pub field_count : Fields → ℕ
field_count end = 0
field_count (field k v fs) = suc (field_count fs)

abbrev int_of : Bool → ℤ
int_of b = if b then pos 1 else pos 0

abbrev same_int : ℤ → ℤ → Bool
same_int m n = int_le m n && int_le n m

unfoldable mutual
  unfolding get_field int_le string_eq bool_eq nat_eq

  pub same : Json → Json → Bool
  same null null = true
  same (bool a) (bool b) = a == b
  same (bool a) (int n) = same_int (int_of a) n
  same (int m) (bool b) = same_int m (int_of b)
  same (int m) (int n) = same_int m n
  same (str s) (str t) = s == t
  same (arr xs) (arr ys) = same_items xs ys
  same (obj fs) (obj gs) = (field_count fs == field_count gs) && same_fields fs gs
  same _ _ = false

  pub same_items : Items → Items → Bool
  same_items nil nil = true
  same_items (cons x xs) (cons y ys) = same x y && same_items xs ys
  same_items _ _ = false

  -- Each field of the first has its equal in the second.
  pub same_fields : Fields → Fields → Bool
  same_fields end gs = true
  same_fields (field k v fs) gs = has_field k gs && (same v (get_field k gs) && same_fields fs gs)
