-- ===== src/Readiness/Words.antt =====
-- The patterns of services/target_readiness.py, and what it lets through of a server's texts.
use honua_migrate.Base.{
  ℕ, Bool, false, not, ◌&&◌, ◌||◌, List, [], ◌∷◌, String, ◌==◌, string_eq, nat_eq, Option, none,
  some, if◌then◌else◌, leb, ltb, all, contains, length, drop,
}
use honua_migrate.Base.Text.{codes}
use honua_migrate.Json.{Json, str}
use honua_migrate.Runs.Contracts.{Result, ok, err, other}
use honua_migrate.Secrets.Keys.{starts_with, occurs_in}

abbrev between : ℕ → ℕ → ℕ → Bool
between a b c = leb a c && leb c b

abbrev is_digit : ℕ → Bool
is_digit c = between b'0' b'9' c

abbrev is_letter : ℕ → Bool
is_letter c = between b'A' b'Z' c || between b'a' b'z' c

abbrev is_alnum : ℕ → Bool
is_alnum c = is_digit c || is_letter c

abbrev is_hex : ℕ → Bool
is_hex c = is_digit c || between b'a' b'f' c || between b'A' b'F' c

-- One character, then at most `most` others
abbrev headed : (ℕ → Bool) → (ℕ → Bool) → ℕ → List ℕ → Bool
headed first rest most [] = false
headed first rest most (c ∷ cs) = first c && all rest cs && leb (length cs) most

-- `_CODE`, `_TOKEN` and `_STATE`, each matched against a whole text
unfoldable pub is_public_code : String → Bool
unfolding nat_eq
is_public_code s = headed is_alnum (λ c. is_alnum c || contains (codes "._:-") c) 80 (codes s)

unfoldable pub is_token : String → Bool
unfolding nat_eq
is_token s = headed is_alnum (λ c. is_alnum c || contains (codes "._+-") c) 40 (codes s)

unfoldable pub is_state : String → Bool
is_state s = headed is_letter is_alnum 40 (codes s)

-- `_REVISION`
abbrev hex_digits : ℕ → List ℕ → Bool
hex_digits n cs = all is_hex cs && leb n (length cs) && leb (length cs) n

unfoldable pub is_revision : String → Bool
unfolding starts_with
is_revision s =
    hex_digits 40 (codes s)
    || (starts_with (codes "sha256:") (codes s) && hex_digits 64 (drop 7 (codes s)))

-- `_SCHEMA`
unfoldable pub is_schema : String → Bool
unfolding starts_with
is_schema s =
    let digits = drop 27 (codes s) in
    starts_with (codes "honua.capability_manifest.v") (codes s)
    && all is_digit digits
    && leb 1 (length digits)
    && leb (length digits) 4

-- `bool(secret) and secret in value`
unfoldable pub hides_secret : String → String → Bool
unfolding string_eq occurs_in
hides_secret value secret = not (secret == "") && occurs_in (codes secret) (codes value)

-- A text that matches and does not carry the secret
unfoldable pub public_text : (String → Bool) → Json → String → Option String
unfolding hides_secret
public_text matches (str s) secret =
    if matches s && not (hides_secret s secret) then some s else none
public_text matches _ secret = none

unfoldable pub public_code : Json → String → Option String
unfolding public_text is_public_code
public_code value secret = public_text is_public_code value secret

unfoldable pub schema_version : Json → String → Option String
unfolding public_text is_schema
schema_version value secret = public_text is_schema value secret

-- What `urlsplit` finds in a text
pub record Parts : Type 0 where
  pub scheme : String
  pub netloc : String
  pub path : String
  pub query : String
  pub fragment : String
  pub hostname : Option String
  pub username : Option String
  pub password : Option String

-- Whether a text is there and not empty
unfoldable pub is_set : Option String → Bool
unfolding string_eq
is_set none = false
is_set (some s) = not (s == "")

-- `urlsplit` gives `none` where it raises a `ValueError`.
module _ (urlsplit : String → Option Parts) (urlunsplit : String → String → String → String) where
  abbrev plain_url : Option Parts → Result (Option String)
  plain_url none = err other
  plain_url (some p) = ok (
      if not (p.scheme == "http" || p.scheme == "https") || not (is_set p.hostname)
      then none
      else if is_set p.username
          || is_set p.password
          || not (p.query == "")
          || not (p.fragment == "")
      then none
      else some (urlunsplit p.scheme p.netloc p.path))

  unfoldable pub problem_type : Json → String → Result (Option String)
  unfolding hides_secret is_set string_eq
  problem_type (str s) secret =
      if ltb 200 (length (codes s)) || hides_secret s secret
      then ok none
      else plain_url (urlsplit s)
  problem_type _ secret = ok none
