-- ===== src/Secrets/Safe.antt =====
-- What an artifact that passes the scan cannot hold, and what a redaction keeps.
use honua_migrate.Base.{
  ◌≡◌, refl, subst, ◌∙◌, ◌⊎◌, inl, inr, Bool, true, false, not, ◌||◌, String, ◌==◌, string_eq,
  Option, none, some, if◌then◌else◌, arith, Bool-cases, eq_of_==,
}
use honua_migrate.Json.{
  Json, Items, Fields, null, bool, int, str, arr, obj, nil, cons, end, field, get_field, get,
}
use honua_migrate.Runs.Contracts.{ok, then_result-eq-ok, ok-injective}
use honua_migrate.Secrets.Keys.{is_sensitive, has_scheme_mark}
use honua_migrate.Secrets.Artifact.{
  Url, is_given, refused, check_url, assert_text_safe, refuse_key, assert_artifact_safe,
  assert_items_safe, assert_fields_safe, redact_value, redact_fields, redact_config,
}

-- What `urlsplit` finds in a text: no scheme, whatever else, or no user, no password and no query
abbrev pub PlainUrl : Url → Type 0
PlainUrl url =
    (url.scheme ≡ "") ⊎ ((url.username ≡ none) × (url.password ≡ none) × (url.query ≡ ""))

module _ (is_bearer : String → Bool) (urlsplit : String → Option Url)
    (urlunsplit : String → String → String → String) where
  -- No bearer token; and no `://`, or a URL as above
  abbrev pub SafeText : String → Type 0
  SafeText s =
      (is_bearer s ≡ false)
      × ((has_scheme_mark s ≡ false) ⊎ ((url : Url) × (urlsplit s ≡ some url) × PlainUrl url))

  -- At every depth: no sensitive key, and every text safe
  unfoldable mutual
    pub Safe : Json → Type 0
    Safe (obj fs) = SafeFields fs
    Safe (arr xs) = SafeItems xs
    Safe (str s) = SafeText s
    Safe _ = Unit

    pub SafeItems : Items → Type 0
    SafeItems nil = Unit
    SafeItems (cons x xs) = Safe x × SafeItems xs

    pub SafeFields : Fields → Type 0
    SafeFields end = Unit
    SafeFields (field k v fs) = (is_sensitive k ≡ false) × Safe v × SafeFields fs

  plain_lem :
      (url : Url) (u : Unit {0})
      → check_url is_bearer urlsplit urlunsplit (some url) ≡ ok u
      → PlainUrl url
  plain_lem url u h =
      pick (url.scheme == "") refl url.username refl url.password refl (url.query == "") refl h
    where
      pick :
          (a : Bool)
          → (url.scheme == "") ≡ a
          → (n : Option String) → url.username ≡ n
          → (p : Option String) → url.password ≡ p
          → (q : Bool) → (url.query == "") ≡ q
          → (if a
              then ok tt
              else if is_given n || is_given p
              then refused
              else if not q
              then refused
              else ok tt)
            ≡ ok u
          → PlainUrl url
      pick true e n en p ep q eq k = inl (eq_of_== url.scheme "" e)
      pick false e none en none ep true eq k = inr (en, ep, eq_of_== url.query "" eq)
      pick false e none en none ep false eq k = cc
      pick false e (some n) en p ep q eq k = cc
      pick false e none en (some p) ep q eq k = cc

  url_lem :
      (s : String) (o : Option Url) (u : Unit {0})
      → urlsplit s ≡ o
      → check_url is_bearer urlsplit urlunsplit o ≡ ok u
      → (url : Url) × (urlsplit s ≡ some url) × PlainUrl url
  url_lem s none u e h = cc
  url_lem s (some url) u e h = (url, e, plain_lem url u h)

  text_lem :
      (s : String) (u : Unit {0})
      → assert_text_safe is_bearer urlsplit urlunsplit s ≡ ok u
      → SafeText s
  unfolding assert_text_safe
  text_lem s u h = choose (is_bearer s) (has_scheme_mark s) refl refl h
    where
      choose :
          (b m : Bool)
          → is_bearer s ≡ b
          → has_scheme_mark s ≡ m
          → (if b
              then refused
              else if not m
              then ok tt
              else check_url is_bearer urlsplit urlunsplit (urlsplit s))
            ≡ ok u
          → SafeText s
      choose true m p q k = cc
      choose false false p q k = (p, inl q)
      choose false true p q k = (p, inr (url_lem s (urlsplit s) u refl k))

  key_lem :
      (b : Bool) (u : Unit {0}) → refuse_key is_bearer urlsplit urlunsplit b ≡ ok u → b ≡ false
  key_lem true u h = cc
  key_lem false u h = refl

  mutual
    unfolding assert_artifact_safe Safe

    pub Safe-value :
        (v : Json) (u : Unit {0})
        → assert_artifact_safe is_bearer urlsplit urlunsplit v ≡ ok u
        → Safe v
    Safe-value (obj fs) u h = Safe-fields fs u h
    Safe-value (arr xs) u h = Safe-items xs u h
    Safe-value (str s) u h = text_lem s u h
    Safe-value null u h = tt
    Safe-value (bool b) u h = tt
    Safe-value (int n) u h = tt

    Safe-items :
        (xs : Items) (u : Unit {0})
        → assert_items_safe is_bearer urlsplit urlunsplit xs ≡ ok u
        → SafeItems xs
    Safe-items nil u h = tt
    Safe-items (cons x xs) u h =
        let (w, p, q) =
          then_result-eq-ok (assert_artifact_safe is_bearer urlsplit urlunsplit x) _ h in
        (Safe-value x w p, Safe-items xs u q)

    Safe-fields :
        (fs : Fields) (u : Unit {0})
        → assert_fields_safe is_bearer urlsplit urlunsplit fs ≡ ok u
        → SafeFields fs
    Safe-fields end u h = tt
    Safe-fields (field k v fs) u h =
        let (w, p, q) =
          then_result-eq-ok (refuse_key is_bearer urlsplit urlunsplit (is_sensitive k)) _ h in
        let (w', p', q') =
          then_result-eq-ok (assert_artifact_safe is_bearer urlsplit urlunsplit v) _ q in
        (key_lem (is_sensitive k) w p, Safe-value v w' p', Safe-fields fs u q')

  -- A field whose key is not sensitive stays, with its value redacted; one whose key is goes.
  redacted_field :
      (k : String) (fs : Fields)
      → get_field k (redact_fields is_bearer urlsplit urlunsplit fs) ≡ (
          if is_sensitive k
          then null
          else redact_value is_bearer urlsplit urlunsplit (get_field k fs))
  unfolding get_field redact_fields
  redacted_field k end = ground arith
  redacted_field k (field j v fs) = step (is_sensitive j) refl (redacted_field k fs)
    where
      hidden :
          (b : Bool) (x y : Json) → b ≡ true → (if b then null else x) ≡ (if b then null else y)
      hidden b x y e = rw e refl

      shown : (b : Bool) (x : Json) → b ≡ false → x ≡ (if b then null else x)
      shown b x e = rw e refl

      of_key : (b : Bool) → is_sensitive j ≡ b → (j == k) ≡ true → is_sensitive k ≡ b
      of_key b e q = subst (λ x. is_sensitive x ≡ b) (eq_of_== j k q) e

      step :
          (b : Bool)
          → is_sensitive j ≡ b
          → get_field k (redact_fields is_bearer urlsplit urlunsplit fs) ≡ (
              if is_sensitive k
              then null
              else redact_value is_bearer urlsplit urlunsplit (get_field k fs))
          → get_field k (
              if b
              then redact_fields is_bearer urlsplit urlunsplit fs
              else field j
                  (redact_value is_bearer urlsplit urlunsplit v)
                  (redact_fields is_bearer urlsplit urlunsplit fs))
            ≡ (if is_sensitive k
                then null
                else redact_value is_bearer urlsplit urlunsplit
                    (if j == k then v else get_field k fs))
      step true e ih = elim (Bool-cases (j == k)) [
        | inl q ↦ ih ∙ hidden (is_sensitive k) _ _ (of_key true e q)
        | inr q ↦ rw q ih
      ]
      step false e ih = elim (Bool-cases (j == k)) [
        | inl q ↦ rw q (
            shown (is_sensitive k) (redact_value is_bearer urlsplit urlunsplit v)
              (of_key false e q))
        | inr q ↦ rw q ih
      ]

  -- An artifact that the scan passes has, at every depth, no sensitive key and no text that the
  -- search for a bearer token finds. In each text with `://` in it, `urlsplit` succeeds and finds no
  -- scheme, or finds no user, no password and no query. Nothing is said of what a text may hold in
  -- which it finds no scheme.
  pub assert_artifact_safe-Safe :
      (v : Json) → assert_artifact_safe is_bearer urlsplit urlunsplit v ≡ ok tt → Safe v
  assert_artifact_safe-Safe v h = Safe-value v tt h

  -- A configuration that `redact_config` returns is safe at every depth, and it says what the given
  -- one says: under a key that is not sensitive it has the redacted value, and under one that is it
  -- has nothing.
  pub redact_config-Safe :
      (config : Fields) (redacted : Json)
      → redact_config is_bearer urlsplit urlunsplit config ≡ ok redacted
      → Safe redacted
        × ((k : String)
            → get k redacted ≡ (
                if is_sensitive k
                then null
                else redact_value is_bearer urlsplit urlunsplit (get_field k config)))
  unfolding redact_config get
  redact_config-Safe config redacted h =
      let (u, p, q) =
        then_result-eq-ok
          (assert_artifact_safe is_bearer urlsplit urlunsplit
            (redact_value is_bearer urlsplit urlunsplit (obj config)))
          _ h in
      rw (ok-injective q) (
        Safe-value (redact_value is_bearer urlsplit urlunsplit (obj config)) u p,
        λ k. redacted_field k config,
      )
