-- ===== src/Http/Wire.antt =====
-- What the HTTP clients see of the network: requests, and the replies of a session; Python's
-- `dict.update` and `setdefault` on parameters, and its `int` of a text.
use honua_migrate.Base.{
  ℕ, zero, suc, ◌+◌, ◌-◌, ◌*◌, Bool, true, false, ◌&&◌, String, ◌==◌, string_eq, nat_eq, Option,
  none, some, if◌then◌else◌, List, [], ◌∷◌, leb,
}
use honua_migrate.Base.Int.{ℤ, pos, negsuc}
use honua_migrate.Base.Text.{codes, strip}
use honua_migrate.Json.{Json, Fields, end, field}

-- `none` stands for a body of which `response.json()` raises a `ValueError`.
pub record Response : Type 0 where
  pub status : ℕ
  pub retry_after : Option String
  pub payload : Option Json

-- `session.get` raises a `RequestException`, or gives a response.
pub data Reply : Type 0 where
  unreachable : Reply
  reply : Response → Reply

pub record Request : Type 0 where
  pub url : String
  pub params : Fields

-- The replies of a session to a request, by how many requests it has had before.
abbrev pub Session : Type 0
Session = Request → ℕ → Reply

-- `params[key] = value`
unfoldable pub put_param : String → Json → Fields → Fields
unfolding string_eq
put_param key value end = field key value end
put_param key value (field k v fs) =
    let rest = put_param key value fs in if k == key then field k value fs else field k v rest

-- `{**params, **more}`
unfoldable pub merge_params : Fields → Fields → Fields
unfolding put_param
merge_params params end = params
merge_params params (field k v fs) = merge_params (put_param k v params) fs

-- `params.setdefault(key, value)`
unfoldable pub default_param : String → Json → Fields → Fields
unfolding string_eq
default_param key value end = field key value end
default_param key value (field k v fs) =
    let rest = default_param key value fs in if k == key then field k v fs else field k v rest

abbrev is_digit : ℕ → Bool
is_digit c = leb b'0' c && leb c b'9'

-- The digits of a decimal numeral, of which an underscore may stand between two.
unfoldable pub read_digits : ℕ → Bool → List ℕ → Option ℕ
unfolding nat_eq
read_digits n after_digit [] = if after_digit then some n else none
read_digits n after_digit (c ∷ cs) =
    let next = read_digits (n * 10 + (c - b'0')) true cs in
    let gap = read_digits n false cs in
    if is_digit c then next else if c == b'_' && after_digit then gap else none

abbrev positive : Option ℕ → Option ℤ
positive none = none
positive (some n) = some (pos n)

abbrev negative : Option ℕ → Option ℤ
negative none = none
negative (some zero) = some (pos 0)
negative (some (suc n)) = some (negsuc n)

abbrev pub signed : List ℕ → Option ℤ
signed [] = none
signed (c ∷ cs) =
    if c == b'-'
    then negative (read_digits 0 false cs)
    else if c == b'+'
    then positive (read_digits 0 false cs)
    else positive (read_digits 0 false (c ∷ cs))

-- `int(text)`, as far as ASCII digits go
unfoldable pub int_of_text : String → Option ℤ
unfolding strip read_digits nat_eq
int_of_text s = signed (strip (codes s))
