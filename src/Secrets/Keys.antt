-- ===== src/Secrets/Keys.antt =====
-- contract_validation.py and runs/orchestration.py: the pattern of sensitive keys, searched for in
-- a key's code points, and the test for a URL.
use honua_migrate.Base.{
  ℕ, ◌+◌, Bool, true, false, ◌&&◌, ◌||◌, List, [], ◌∷◌, String, ◌==◌, nat_eq, map, any,
  if◌then◌else◌, leb,
}
use honua_migrate.Base.Text.{codes}

-- How `re.IGNORECASE` folds a character that may stand for an ASCII letter: the capitals, the
-- dotted capital i, the dotless i, the long s and the Kelvin sign.
unfoldable pub fold : ℕ → ℕ
unfolding nat_eq
fold c =
    if leb b'A' c && leb c b'Z'
    then c + 32
    else if c == 0x130
    then b'i'
    else if c == 0x131
    then b'i'
    else if c == 0x17f
    then b's'
    else if c == 0x212a
    then b'k'
    else c

unfoldable pub starts_with : List ℕ → List ℕ → Bool
unfolding nat_eq
starts_with [] s = true
starts_with (p ∷ ps) [] = false
starts_with (p ∷ ps) (c ∷ cs) = (p == c) && starts_with ps cs

unfoldable pub occurs_in : List ℕ → List ℕ → Bool
unfolding starts_with
occurs_in p [] = starts_with p []
occurs_in p (c ∷ cs) = starts_with p (c ∷ cs) || occurs_in p cs

-- The alternatives of `_SENSITIVE_KEY`, `api[_-]?key` written out
abbrev pub sensitive_words : List String
sensitive_words =
    "password" ∷ "passwd" ∷ "secret" ∷ "token" ∷ "authorization" ∷ "apikey" ∷ "api_key" ∷ "api-key"
    ∷ "credential" ∷ []

unfoldable pub is_sensitive : String → Bool
unfolding occurs_in fold
is_sensitive key = any (λ word. occurs_in (codes word) (map fold (codes key))) sensitive_words

-- `"://" in value`
unfoldable pub has_scheme_mark : String → Bool
unfolding occurs_in
has_scheme_mark value = occurs_in (codes "://") (codes value)
