-- ===== src/Arcgis/Hidden.antt =====
-- What the redaction of services/arcgis.py leaves of an artifact.
use Prim.Native.Char.{code}
use honua_migrate.Base.{
  ℕ, ◌≡◌, refl, sym, subst, inl, inr, Bool, true, false, not, ◌||◌, String, ◌==◌, nat_eq, string_eq,
  Option, none, some, if◌then◌else◌, contains, choose, arith, Bool-cases,
}
use honua_migrate.Base.Text.{codes}
use honua_migrate.Json.{
  Json, Items, Fields, null, bool, int, str, arr, obj, nil, cons, end, field, get_field,
}
use honua_migrate.Runs.Contracts.{Result, ok, then_result-eq-ok, ok-injective}
use honua_migrate.Readiness.Words.{Parts}
use honua_migrate.Arcgis.Redact.{
  is_hidden, is_web_text, before_first, after_last, in_params, strip_path_params, sanitize_parts,
  sanitize_handoff_url, redact_string, redact, redact_elements, redact_members,
}

after_last-contains : (c : ℕ) (s : String) → contains (codes (after_last c s)) c ≡ false
unfolding after_last
after_last-contains c String.[] = refl
after_last-contains c (String.◌∷◌ d s) =
    choose (λ t. contains (codes t) c ≡ false) (contains (codes s) c) _ _
      (λ e. after_last-contains c s)
      (λ e.
        choose (λ t. contains (codes t) c ≡ false) (code d == c) _ _ (λ f. e)
          (λ f. ground (arith, e, f)))

before_first-contains : (c : ℕ) (s : String) → contains (codes (before_first c s)) c ≡ false
unfolding before_first
before_first-contains c String.[] = refl
before_first-contains c (String.◌∷◌ d s) =
    choose (λ t. contains (codes t) c ≡ false) (code d == c) _ _ (λ f. refl)
      (λ f. ground (arith, before_first-contains c s, f))

contains-before_first :
    (b c : ℕ) (s : String)
    → contains (codes s) b ≡ false
    → contains (codes (before_first c s)) b ≡ false
unfolding before_first
contains-before_first b c String.[] h = refl
contains-before_first b c (String.◌∷◌ d s) h =
    choose (λ t. contains (codes t) b ≡ false) (code d == c) _ _ (λ f. refl)
      (λ f. ground (arith, contains-before_first b c s, h))

kept_character : (dropping : Bool) (x : ℕ) → in_params dropping x ≡ false → (b';' == x) ≡ false
kept_character true x h = ground (arith, h)
kept_character false x h = ground (arith, h)

strip_path_params-contains :
    (dropping : Bool) (s : String) → contains (codes (strip_path_params dropping s)) b';' ≡ false
unfolding strip_path_params
strip_path_params-contains dropping String.[] = refl
strip_path_params-contains dropping (String.◌∷◌ d s) =
    choose (λ t. contains (codes t) b';' ≡ false) (in_params dropping (code d)) _ _
      (λ e. strip_path_params-contains (in_params dropping (code d)) s)
      (λ e.
        rw (kept_character dropping (code d) e)
          (strip_path_params-contains (in_params dropping (code d)) s))

module _ (urlsplit : String → Option Parts) (urlunsplit : String → String → String → String) where
  -- A text that is no URL of the web; one put together without a query and a fragment, of a network
  -- location without userinfo and a path without parameters; or one without query and fragment.
  pub data Shown : String → Type 0 where
    plain : (t : String) → is_web_text t ≡ false → Shown t
    rebuilt :
        (scheme netloc path : String)
        → contains (codes netloc) b'@' ≡ false
        → contains (codes path) b';' ≡ false
        → Shown (urlunsplit scheme netloc path)
    cut : (t : String) → contains (codes t) b'?' ≡ false → contains (codes t) b'#' ≡ false → Shown t

  -- At every depth: no hidden key, and every text as above
  unfoldable mutual
    pub Clean : Json → Type 0
    Clean (obj fs) = CleanMembers fs
    Clean (arr xs) = CleanElements xs
    Clean (str s) = Shown s
    Clean _ = Unit

    pub CleanElements : Items → Type 0
    CleanElements nil = Unit
    CleanElements (cons x xs) = Clean x × CleanElements xs

    pub CleanMembers : Fields → Type 0
    CleanMembers end = Unit
    CleanMembers (field k v fs) = (is_hidden k ≡ false) × Clean v × CleanMembers fs

  parts-Shown :
      (value : String) (o : Option Parts) (t : String)
      → sanitize_parts urlsplit urlunsplit value o ≡ ok t
      → Shown t
  parts-Shown value none t e = cc
  parts-Shown value (some p) t e =
      elim (Bool-cases (not (p.scheme == "") || not (p.netloc == ""))) [
        | inl b ↦ subst Shown (sym (ok-injective (rw b at e))) (
            rebuilt p.scheme (after_last b'@' p.netloc) (strip_path_params false p.path)
              (after_last-contains b'@' p.netloc) (strip_path_params-contains false p.path))
        | inr b ↦ subst Shown (sym (ok-injective (rw b at e))) (
            cut (before_first b'#' (before_first b'?' value))
              (contains-before_first b'?' b'#' (before_first b'?' value)
                (before_first-contains b'?' value))
              (before_first-contains b'#' (before_first b'?' value)))
      ]

  redact_string-Shown : (s t : String) → redact_string urlsplit urlunsplit s ≡ ok t → Shown t
  unfolding redact_string sanitize_handoff_url
  redact_string-Shown s t e = elim (Bool-cases (is_web_text s)) [
    | inl w ↦ parts-Shown s (urlsplit s) t (rw w at e)
    | inr w ↦ subst Shown (sym (ok-injective (rw w at e))) (plain s w)
  ]

  mutual
    unfolding redact Clean

    clean_lem : (v w : Json) → redact urlsplit urlunsplit v ≡ ok w → Clean w
    clean_lem (obj fs) w e =
        let (gs, p, q) = then_result-eq-ok (redact_members urlsplit urlunsplit fs) _ e in
        subst Clean (sym (ok-injective q)) (clean_members_lem fs gs p)
    clean_lem (arr xs) w e =
        let (ys, p, q) = then_result-eq-ok (redact_elements urlsplit urlunsplit xs) _ e in
        subst Clean (sym (ok-injective q)) (clean_elements_lem xs ys p)
    clean_lem (str s) w e =
        let (t, p, q) = then_result-eq-ok (redact_string urlsplit urlunsplit s) _ e in
        subst Clean (sym (ok-injective q)) (redact_string-Shown s t p)
    clean_lem null w e = subst Clean (sym (ok-injective e)) tt
    clean_lem (bool b) w e = subst Clean (sym (ok-injective e)) tt
    clean_lem (int n) w e = subst Clean (sym (ok-injective e)) tt

    clean_elements_lem :
        (xs ys : Items) → redact_elements urlsplit urlunsplit xs ≡ ok ys → CleanElements ys
    clean_elements_lem nil ys e = subst CleanElements (sym (ok-injective e)) tt
    clean_elements_lem (cons x xs) ys e =
        let (z, p, q) = then_result-eq-ok (redact urlsplit urlunsplit x) _ e in
        let (zs, p', q') = then_result-eq-ok (redact_elements urlsplit urlunsplit xs) _ q in
        subst CleanElements (sym (ok-injective q')) (clean_lem x z p, clean_elements_lem xs zs p')

    clean_members_lem :
        (fs gs : Fields) → redact_members urlsplit urlunsplit fs ≡ ok gs → CleanMembers gs
    clean_members_lem end gs e = subst CleanMembers (sym (ok-injective e)) tt
    clean_members_lem (field k v fs) gs e = elim (Bool-cases (is_hidden k)) [
      | inl h ↦ clean_members_lem fs gs (rw h at e)
      | inr h ↦
          let (w, p, q) = then_result-eq-ok (redact urlsplit urlunsplit v) _ (rw h at e) in
          let (hs, p', q') = then_result-eq-ok (redact_members urlsplit urlunsplit fs) _ q in
          subst CleanMembers (sym (ok-injective q'))
            (h, clean_lem v w p, clean_members_lem fs hs p')
    ]

  -- What a redacted object has under a key: nothing if the key is hidden, else the redacted value
  abbrev redacted_at : String → Fields → Result Json
  redacted_at k fs = if is_hidden k then ok null else redact urlsplit urlunsplit (get_field k fs)
