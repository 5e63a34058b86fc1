-- ===== src/Arcgis/Urls.antt =====
-- services/arcgis.py: `_safe_url` of a service, whose transport need not be protected.
use honua_migrate.Base.{
  zero, suc, Bool, true, false, not, ◌||◌, List, [], ◌∷◌, String, ◌==◌, string_eq, nat_eq, Option,
  none, some, if◌then◌else◌, map, any,
}
use honua_migrate.Base.Text.{codes, is_space, lower}
use honua_migrate.Runs.Contracts.{Result, ok, err, other}
use honua_migrate.Secrets.Keys.{occurs_in}
use honua_migrate.Secrets.Artifact.{Port, bad_port, no_port, port}
use honua_migrate.Readiness.Words.{Parts, is_set}
use honua_migrate.Geoserver.Checks.{rstrip_slashes}
use honua_migrate.Arcgis.Tables.{refuse}

abbrev encoded_controls : List String
encoded_controls = "%00" ∷ "%0a" ∷ "%0d" ∷ []

unfoldable pub has_controls : String → Bool
unfolding occurs_in lower nat_eq
has_controls value =
    any (λ c. is_space c || c == b'\\') (codes value)
    || any (λ e. occurs_in (codes e) (map lower (codes value))) encoded_controls

abbrev is_bad_port : Port → Bool
is_bad_port bad_port = true
is_bad_port no_port = false
is_bad_port (port zero) = true
is_bad_port (port (suc n)) = false

-- `urlsplit` gives `none` where it raises a `ValueError`, and `port_of` is the port of the same text.
module _ (urlsplit : String → Option Parts) (port_of : String → Port)
    (urlunsplit : String → String → String → String) where
  abbrev safe_parts : String → Option Parts → Result String
  safe_parts value none = err other
  safe_parts value (some p) =
      if is_set p.username || is_set p.password || not (p.query == "") || not (p.fragment == "")
      then refuse
      else if not (p.scheme == "http" || p.scheme == "https")
          || not (is_set p.hostname)
          || is_bad_port (port_of value)
      then refuse
      else ok (urlunsplit p.scheme p.netloc (rstrip_slashes p.path))

  unfoldable pub safe_url : String → Result String
  unfolding has_controls is_set rstrip_slashes string_eq
  safe_url value =
      if value == "" || has_controls value then refuse else safe_parts value (urlsplit value)
