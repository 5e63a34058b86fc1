-- ===== src/Arcgis/Redact.antt =====
-- services/arcgis.py: `_redact`, with `sanitize_handoff_url` of honua_esri_assess/redaction.py.
use Prim.Native.Char.{code}
use honua_migrate.Base.{
  ℕ, Bool, true, false, not, ◌||◌, List, [], ◌∷◌, String, ◌==◌, nat_eq, string_eq, Option, none,
  some, if◌then◌else◌, map, any, contains,
}
use honua_migrate.Base.Text.{codes, lower}
use honua_migrate.Json.{Json, Items, Fields, null, bool, int, str, arr, obj, nil, cons, end, field}
use honua_migrate.Runs.Contracts.{Result, ok, err, other, then_result}
use honua_migrate.Secrets.Keys.{fold, starts_with, occurs_in}
use honua_migrate.Readiness.Words.{Parts}

-- The alternatives of the pattern, `api[_-]?key` written out; `x-api-key` has one of them in it.
abbrev pub hidden_words : List String
hidden_words =
    "password" ∷ "secret" ∷ "token" ∷ "authorization" ∷ "credential" ∷ "apikey" ∷ "api_key"
    ∷ "api-key" ∷ []

unfoldable pub is_hidden : String → Bool
unfolding occurs_in fold
is_hidden key = any (λ word. occurs_in (codes word) (map fold (codes key))) hidden_words

-- `value.lower().startswith(("http://", "https://"))`
unfoldable pub is_web_text : String → Bool
unfolding starts_with lower
is_web_text value =
    let small = map lower (codes value) in
    starts_with (codes "http://") small || starts_with (codes "https://") small

-- `s.split(c, 1)[0]`
unfoldable pub before_first : ℕ → String → String
unfolding nat_eq
before_first c String.[] = ""
before_first c (String.◌∷◌ d s) =
    let rest = before_first c s in if code d == c then "" else String.◌∷◌ d rest

-- `s.rsplit(c, 1)[-1]`
unfoldable pub after_last : ℕ → String → String
unfolding nat_eq
after_last c String.[] = ""
after_last c (String.◌∷◌ d s) =
    let rest = after_last c s in
    if contains (codes s) c then rest else if code d == c then s else String.◌∷◌ d s

-- Whether a path is within the parameters of a segment after the character `c`
abbrev pub in_params : Bool → ℕ → Bool
in_params dropping c = if c == b'/' then false else if c == b';' then true else dropping

-- `_strip_path_params`, after what is or is not within the parameters of a segment
unfoldable pub strip_path_params : Bool → String → String
unfolding nat_eq
strip_path_params dropping String.[] = ""
strip_path_params dropping (String.◌∷◌ d s) =
    let rest = strip_path_params (in_params dropping (code d)) s in
    if in_params dropping (code d) then rest else String.◌∷◌ d rest

-- `urlsplit` gives `none` where it raises a `ValueError`, which `_redact` lets through.
module _ (urlsplit : String → Option Parts) (urlunsplit : String → String → String → String) where
  abbrev pub sanitize_parts : String → Option Parts → Result String
  sanitize_parts value none = err other
  sanitize_parts value (some p) =
      if not (p.scheme == "") || not (p.netloc == "")
      then ok (urlunsplit p.scheme (after_last b'@' p.netloc) (strip_path_params false p.path))
      else ok (before_first b'#' (before_first b'?' value))

  unfoldable pub sanitize_handoff_url : String → Result String
  unfolding string_eq before_first after_last strip_path_params
  sanitize_handoff_url value = sanitize_parts value (urlsplit value)

  unfoldable pub redact_string : String → Result String
  unfolding is_web_text sanitize_handoff_url
  redact_string value = if is_web_text value then sanitize_handoff_url value else ok value

  unfoldable mutual
    unfolding redact_string is_hidden

    pub redact : Json → Result Json
    redact (obj fs) = then_result (redact_members fs) λ gs. ok (obj gs)
    redact (arr xs) = then_result (redact_elements xs) λ ys. ok (arr ys)
    redact (str s) = then_result (redact_string s) λ t. ok (str t)
    redact null = ok null
    redact (bool b) = ok (bool b)
    redact (int n) = ok (int n)

    pub redact_elements : Items → Result Items
    redact_elements nil = ok nil
    redact_elements (cons x xs) =
        let rest = redact_elements xs in
        then_result (redact x) λ y. then_result rest λ ys. ok (cons y ys)

    pub redact_members : Fields → Result Fields
    redact_members end = ok end
    redact_members (field k v fs) =
        let value = redact v in
        let rest = redact_members fs in
        if is_hidden k
        then rest
        else then_result value λ w. then_result rest λ gs. ok (field k w gs)

  -- The same, of what a receipt lists
  unfoldable pub redact_list : List Json → Result (List Json)
  unfolding redact
  redact_list [] = ok []
  redact_list (v ∷ vs) =
      let rest = redact_list vs in then_result (redact v) λ w. then_result rest λ ws. ok (w ∷ ws)

  unfoldable pub redact_strings : List String → Result (List String)
  unfolding redact_string
  redact_strings [] = ok []
  redact_strings (s ∷ ss) =
      let rest = redact_strings ss in
      then_result (redact_string s) λ t. then_result rest λ ts. ok (t ∷ ts)
