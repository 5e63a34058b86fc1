-- ===== src/Secrets/Artifact.antt =====
-- `assert_artifact_safe` of contract_validation.py, `_redact_value` and `redact_config` of
-- runs/orchestration.py.
use honua_migrate.Base.{
  ℕ, Bool, true, false, not, ◌&&◌, ◌||◌, String, ◌<>◌, ◌==◌, string_eq, Option, none, some,
  if◌then◌else◌,
}
use honua_migrate.Base.Decimal.{show_nat}
use honua_migrate.Base.Text.{codes}
use honua_migrate.Json.{Json, Items, Fields, null, bool, int, str, arr, obj, nil, cons, end, field}
use honua_migrate.Runs.Contracts.{
  Result, ok, err, migration, other, then_result, exit_validation_error,
}
use honua_migrate.Secrets.Keys.{is_sensitive, has_scheme_mark, starts_with, occurs_in}

-- `parsed.port`, which may raise a `ValueError`
pub data Port : Type 0 where
  bad_port no_port : Port
  port : ℕ → Port

-- What `urlsplit` finds in a text
pub record Url : Type 0 where
  pub scheme : String
  pub hostname : Option String
  pub url_port : Port
  pub path : String
  pub username : Option String
  pub password : Option String
  pub query : String

abbrev pub refused : Result (Unit {0})
refused = err (migration exit_validation_error)

abbrev pub is_given : Option String → Bool
is_given none = false
is_given (some s) = true

-- `is_bearer` is the search for `_BEARER_VALUE`; `urlsplit` is that of `urllib.parse`, and gives
-- `none` where that raises a `ValueError`; `urlunsplit` is of a scheme, a network location and a
-- path.
module _ (is_bearer : String → Bool) (urlsplit : String → Option Url)
    (urlunsplit : String → String → String → String) where
  abbrev pub check_url : Option Url → Result (Unit {0})
  check_url none = err other
  check_url (some url) =
      if url.scheme == ""
      then ok tt
      else if is_given url.username || is_given url.password
      then refused
      else if not (url.query == "")
      then refused
      else ok tt

  unfoldable pub assert_text_safe : String → Result (Unit {0})
  unfolding string_eq has_scheme_mark
  assert_text_safe value =
      if is_bearer value
      then refused
      else if not (has_scheme_mark value)
      then ok tt
      else check_url (urlsplit value)

  abbrev pub refuse_key : Bool → Result (Unit {0})
  refuse_key sensitive = if sensitive then refused else ok tt

  unfoldable mutual
    unfolding assert_text_safe is_sensitive

    pub assert_artifact_safe : Json → Result (Unit {0})
    assert_artifact_safe (obj fs) = assert_fields_safe fs
    assert_artifact_safe (arr xs) = assert_items_safe xs
    assert_artifact_safe (str s) = assert_text_safe s
    assert_artifact_safe _ = ok tt

    pub assert_items_safe : Items → Result (Unit {0})
    assert_items_safe nil = ok tt
    assert_items_safe (cons x xs) =
        let rest = assert_items_safe xs in then_result (assert_artifact_safe x) λ _. rest

    pub assert_fields_safe : Fields → Result (Unit {0})
    assert_fields_safe end = ok tt
    assert_fields_safe (field k v fs) =
        let value = assert_artifact_safe v in
        let rest = assert_fields_safe fs in
        then_result (refuse_key (is_sensitive k)) (λ _. then_result value λ _. rest)

  -- The host, in brackets where it has a colon and none yet
  abbrev network_location : String → Port → String
  network_location host p =
      let shown =
        if occurs_in (codes ":") (codes host) && not (starts_with (codes "[") (codes host))
        then "[" <> (host <> "]")
        else host in
      elim p [ port n ↦ shown <> (":" <> show_nat n) | _ ↦ shown ]

  abbrev pub redact_host : Url → Option String → Port → String
  redact_host url none p = "[redacted-url]"
  redact_host url (some host) bad_port = "[redacted-url]"
  redact_host url (some host) no_port =
      urlunsplit url.scheme (network_location host no_port) url.path
  redact_host url (some host) (port n) =
      urlunsplit url.scheme (network_location host (port n)) url.path

  abbrev pub redact_url : Option Url → String
  redact_url none = "[redacted-url]"
  redact_url (some url) = redact_host url url.hostname url.url_port

  unfoldable pub redact_text : String → String
  unfolding has_scheme_mark show_nat starts_with occurs_in
  redact_text value =
      if is_bearer value
      then "[redacted]"
      else if not (has_scheme_mark value)
      then value
      else redact_url (urlsplit value)

  unfoldable mutual
    unfolding redact_text is_sensitive

    pub redact_value : Json → Json
    redact_value (obj fs) = obj (redact_fields fs)
    redact_value (arr xs) = arr (redact_items xs)
    redact_value (str s) = str (redact_text s)
    redact_value null = null
    redact_value (bool b) = bool b
    redact_value (int n) = int n

    pub redact_items : Items → Items
    redact_items nil = nil
    redact_items (cons x xs) = cons (redact_value x) (redact_items xs)

    pub redact_fields : Fields → Fields
    redact_fields end = end
    redact_fields (field k v fs) =
        let value = redact_value v in
        let rest = redact_fields fs in if is_sensitive k then rest else field k value rest

  unfoldable pub redact_config : Fields → Result Json
  unfolding redact_value assert_artifact_safe
  redact_config config =
      then_result (assert_artifact_safe (redact_value (obj config)))
        λ _. ok (redact_value (obj config))
