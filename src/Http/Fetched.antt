-- ===== src/Http/Fetched.antt =====
-- What `fetch_json` of scanners/http.py promises of every session.
use honua_migrate.Base.{
  ◌≡◌, refl, ℕ, zero, suc, ◌+◌, ◌-◌, ◌≤◌, ◌<◌, ◌⊎◌, inl, inr, Bool, true, false, Bool-cases, arith,
  Option, none, some, List, [], ◌∷◌, ◌++◌, String, if◌then◌else◌, leb, ◌==◌, nat_eq, eq_of_==,
  subst, sym,
}
use honua_migrate.Json.{Json, Fields, null}
use honua_migrate.Http.Wire.{Response, Reply, unreachable, reply, Request, Session}
use honua_migrate.Http.Fetch.{
  Diagnostic, RequestOptions, Fetched, note, denied, limited, upstream, has_error, is_retryable,
  decode_payload, decode_response, attempt, last_attempt, fetch_loop, fetch_json, at_least_zero,
  with_token, or_json,
}

-- No reply at all, or a status that is worth another try
abbrev pub is_transient : Reply → Bool
is_transient unreachable = true
is_transient (reply r) = is_retryable r

abbrev pub without_error : Option Json → Option Json
without_error none = none
without_error (some payload) = if has_error payload then none else some payload

-- The body of a reply that can be used
unfoldable pub body_of : Reply → Option Json
body_of unreachable = none
body_of (reply r) = if leb 400 r.status then none else without_error r.payload

-- A body that is returned with no new diagnostic, or none with one new diagnostic on `label`
abbrev pub Answered : Option Json → List Diagnostic → String → Fetched → Type 0
Answered none ds label f =
    (f.value ≡ null) × ((d : Diagnostic) × (f.diagnostics ≡ ds ++ (d ∷ [])) × (d.scope ≡ label))
Answered (some payload) ds label f = (f.value ≡ payload) × (f.diagnostics ≡ ds)

module _ (session : Session) (request : Request) (label : String) (ds : List Diagnostic) where
  -- After `n` earlier requests, with at most `left` attempts after the next one
  pub record Settled (left n : ℕ) (f : Fetched) : Type 0 where
    pub some_sent : n < f.sent
    pub few_sent : f.sent ≤ n + suc left
    pub retried : (i : ℕ) → n ≤ i → suc i < f.sent → is_transient (session request i) ≡ true
    pub given_up : (f.sent ≡ n + suc left) ⊎ (is_transient (session request (f.sent - 1)) ≡ false)
    pub answered : Answered (body_of (session request (f.sent - 1))) ds label f

  payload-Answered :
      (p : Option Json) (n : ℕ) → Answered (without_error p) ds label (decode_payload p ds label n)
  unfolding decode_payload
  payload-Answered none n = (refl, (_, refl, refl))
  payload-Answered (some payload) n = elim (Bool-cases (has_error payload)) [
    | inl e ↦ rw e (refl, (_, refl, ground arith))
    | inr e ↦ rw e (refl, refl)
  ]

  decode-Answered :
      (r : Response) (n : ℕ) → Answered (body_of (reply r)) ds label (decode_response r ds label n)
  unfolding decode_response body_of nat_eq
  decode-Answered r n = elim (Bool-cases (leb 400 r.status)) [
    | inl e ↦ rw e (refused (r.status == 403) (r.status == 429))
    | inr e ↦ ground (arith, payload-Answered r.payload n)
  ]
    where
      refused :
          (a b : Bool)
          → Answered none ds label (
              if a
              then note ds (denied label) n
              else if b
              then note ds (limited label) n
              else note ds (upstream r.status label) n)
      refused true b = (refl, (_, refl, refl))
      refused false true = (refl, (_, refl, refl))
      refused false false = (refl, (_, refl, refl))

  last-Answered :
      (r : Reply) (n : ℕ)
      → Answered (body_of r) ds label (last_attempt session request label r n ds)
  unfolding last_attempt body_of
  last-Answered unreachable n = (refl, (_, refl, refl))
  last-Answered (reply r) n = decode-Answered r (suc n)

  sent-payload : (p : Option Json) (n : ℕ) → (decode_payload p ds label n).sent ≡ n
  unfolding decode_payload
  sent-payload none n = refl
  sent-payload (some p) n = ground arith

  sent-decode : (r : Response) (n : ℕ) → (decode_response r ds label n).sent ≡ n
  unfolding decode_response
  sent-decode r n = ground (arith, sent-payload r.payload n)

  sent-last : (r : Reply) (n : ℕ) → (last_attempt session request label r n ds).sent ≡ suc n
  unfolding last_attempt
  sent-last unreachable n = refl
  sent-last (reply r) n = sent-decode r (suc n)

  -- One more request before a loop that had its requests left.
  one_more :
      (left n : ℕ) (f : Fetched)
      → is_transient (session request n) ≡ true
      → Settled left (suc n) f
      → Settled (suc left) n f
  one_more left n f h s = record {
    some_sent = omega (arith, s.some_sent);
    few_sent = omega (arith, s.few_sent);
    retried = λ i p q. elim (Bool-cases (i == n)) [
      | inl e ↦ subst (λ k. is_transient (session request k) ≡ true) (sym (eq_of_== i n e)) h
      | inr e ↦ s.retried i (ground arith) q
    ];
    given_up = elim s.given_up [ inl e ↦ inl (omega (arith, e)) | inr e ↦ inr e ];
    answered = s.answered;
  }

  -- A loop that ends with the request after the first `n`.
  at_once :
      (left n : ℕ) (f : Fetched)
      → f.sent ≡ suc n
      → (left ≡ 0) ⊎ (is_transient (session request n) ≡ false)
      → Answered (body_of (session request n)) ds label f
      → Settled left n f
  at_once left n f e given a = record {
    some_sent = omega (arith, e);
    few_sent = omega (arith, e);
    retried = λ i p q. absurd (omega (arith, e, p, q));
    given_up = elim given [
      | inl z ↦ inl (omega (arith, e, z))
      | inr g ↦ inr (subst (λ k. is_transient (session request k) ≡ false) before g)
    ];
    answered = subst (λ k. Answered (body_of (session request k)) ds label f) before a;
  }
    where
      before : n ≡ f.sent - 1
      before = omega (arith, e)

  fetch_loop-Settled : (left n : ℕ) → Settled left n (fetch_loop session request label left n ds)
  unfolding fetch_loop attempt
  fetch_loop-Settled zero n =
      at_once zero n _ (sent-last (session request n) n) (inl refl)
        (last-Answered (session request n) n)
  fetch_loop-Settled (suc left) n = step (session request n) refl (fetch_loop-Settled left (suc n))
    where
      step :
          (r : Reply)
          → session request n ≡ r
          → Settled left (suc n) (fetch_loop session request label left (suc n) ds)
          → Settled (suc left) n (
              attempt session request label r
                (fetch_loop session request label left (suc n) ds)
                n
                ds)
      step unreachable e later = one_more left n _ (rw e refl) later
      step (reply r) e later = elim (Bool-cases (is_retryable r)) [
        | inl t ↦ rw t (one_more left n _ (rw (e, t) refl) later)
        | inr t ↦ rw t (
            at_once (suc left) n _ (sent-decode r (suc n)) (inr (rw (e, t) refl))
              (rw e (decode-Answered r (suc n))))
      ]

-- `fetch_json` sends between one request and one more than the retries it is allowed. Each
-- request but the last met no reply or a retryable status, and it gives up early only on a reply
-- of another kind. It returns the body of the last reply and leaves the diagnostics alone, or
-- returns `None` and adds one diagnostic, whose scope is the target: the body, where the status is
-- below 400 and there is a JSON body with no error object.
pub fetch_json-Settled :
    (session : Session) (url : String) (ds : List Diagnostic) (label : String)
    (options : RequestOptions) (params : Fields)
    → Settled session
        (record { url = url; params = with_token options.token (or_json params) })
        label
        ds
        (at_least_zero options.max_retries)
        0
        (fetch_json session url ds label options params)
unfolding fetch_json
fetch_json-Settled session url ds label options params =
    fetch_loop-Settled session _ label ds (at_least_zero options.max_retries) 0
