-- ===== src/Http/Budget.antt =====
-- What the retries of server/client.py keep to, and what its answers rest on.
use honua_migrate.Base.{
  ◌≡◌, refl, sym, subst, ap, ◌∙◌, ℕ, zero, suc, ◌+◌, ◌-◌, ◌≤◌, ◌<◌, ◌⊎◌, inl, inr, Bool, true,
  false, Bool-cases, arith, Option, none, some, List, [], ◌∷◌, ◌++◌, ◌==◌, eq_of_==, nat_eq,
  contains, length, length-append, All, All-append,
}
use honua_migrate.Base.Int.{ℤ, pos, negsuc}
use honua_migrate.Http.Wire.{Response, Reply, unreachable, reply, Request, Session}
use honua_migrate.Http.Server.{
  Floats, RetryPolicy, Last, refused, got, Ended, min_of, compute_delay, delay_of,
  parse_retry_after, may_retry, after_reply, request_loop, fuel_of, request_rounds,
}

-- A reply with one of these statuses
abbrev pub is_retried : List ℕ → Reply → Bool
is_retried statuses unreachable = false
is_retried statuses (reply r) = contains statuses r.status

abbrev pub last_of : Reply → Last
last_of unreachable = refused
last_of (reply r) = got r

module _ {F : Type 0} (floats : Floats F) where
  -- The sleeps added up in their order
  abbrev pub total_from : F → List F → F
  total_from t [] = t
  total_from t (d ∷ ds) = total_from (floats.plus t d) ds

  abbrev pub IsUpTo : F → F → Type 0
  IsUpTo cap d = floats.below cap d ≡ false

  total_from-append :
      (t d : F) (ds : List F) → total_from t (ds ++ (d ∷ [])) ≡ floats.plus (total_from t ds) d
  total_from-append t d [] = refl
  total_from-append t d (x ∷ ds) = total_from-append (floats.plus t x) d ds

  pub min_of-IsUpTo :
      (irreflexive : (x : F) → floats.below x x ≡ false) (a cap : F)
      → IsUpTo cap (min_of floats a cap)
  min_of-IsUpTo irreflexive a cap = elim (Bool-cases (floats.below cap a)) [
    | inl e ↦ rw e (irreflexive cap)
    | inr e ↦ rw e e
  ]

  -- `n` requests have met one of `statuses`, each followed by a sleep of at most `cap`.
  pub record Rounds (session : Session) (request : Request) (statuses : List ℕ) (cap : F) (n : ℕ)
      (slept : List F) : Type 0 where
    pub counted : length slept ≡ n
    pub each : All (IsUpTo cap) slept
    pub retried : (i : ℕ) → i < n → is_retried statuses (session request i) ≡ true

  pub nil-Rounds :
      (session : Session) (request : Request) (statuses : List ℕ) (cap : F)
      → Rounds session request statuses cap 0 []
  nil-Rounds session request statuses cap = record {
    counted = refl;
    each = tt;
    retried = λ i h. absurd (omega (arith, h));
  }

  pub next_round :
      (session : Session) (request : Request) (statuses : List ℕ) (cap d : F) (n : ℕ)
      (slept : List F)
      → Rounds session request statuses cap n slept
      → is_retried statuses (session request n) ≡ true
      → IsUpTo cap d
      → Rounds session request statuses cap (suc n) (slept ++ (d ∷ []))
  next_round session request statuses cap d n slept g h small = record {
    counted = omega (arith, length-append slept (d ∷ []), g.counted);
    each = All-append (IsUpTo cap) slept (d ∷ []) g.each (small, tt);
    retried = λ i less. elim (Bool-cases (i == n)) [
      | inl e ↦ subst (λ k. is_retried statuses (session request k) ≡ true) (sym (eq_of_== i n e)) h
      | inr e ↦ g.retried i (ground arith)
    ];
  }

  module _ (irreflexive : (x : F) → floats.below x x ≡ false) (retry : RetryPolicy F)
      (session : Session) (request : Request) where
    -- After `n` requests and these sleeps: their sum is within the total, unless there were none.
    pub record Going (n : ℕ) (elapsed : F) (slept : List F) : Type 0 where
      pub rounds : Rounds session request retry.retry_statuses retry.max_total_seconds n slept
      pub summed : elapsed ≡ total_from floats.zero_seconds slept
      pub budget : (slept ≡ []) ⊎ (floats.below retry.max_total_seconds elapsed ≡ false)
      pub allowed : (n ≡ 0) ⊎ (may_retry floats retry retry.max_attempts n ≡ true)

    -- How the loop ends: by the last of its requests.
    pub record Within (e : Ended F) : Type 0 where
      pub some_sent : 1 ≤ e.sent
      pub last_reply : e.last ≡ last_of (session request (e.sent - 1))
      pub going : Going (e.sent - 1) e.elapsed e.slept

    delay-IsUpTo :
        (r : Response) (n : ℕ) → IsUpTo retry.max_total_seconds (compute_delay floats retry r n)
    unfolding compute_delay
    delay-IsUpTo r n = step (parse_retry_after floats r.retry_after n)
      where
        step : (o : Option F) → IsUpTo retry.max_total_seconds (delay_of floats retry o n)
        step none = min_of-IsUpTo irreflexive _ _
        step (some s) = min_of-IsUpTo irreflexive _ _

    ended :
        (n : ℕ) (elapsed : F) (slept : List F) (last : Last)
        → last ≡ last_of (session request n)
        → Going n elapsed slept
        → Within (record { last = last; sent = suc n; elapsed = elapsed; slept = slept })
    ended n elapsed slept last e g = record {
      some_sent = omega arith;
      last_reply = subst (λ k. last ≡ last_of (session request k)) before e;
      going = subst (λ k. Going k elapsed slept) before g;
    }
      where
        before : n ≡ suc n - 1
        before = omega arith

    enough :
        (n : ℕ) (elapsed : F) (slept : List F)
        → Going n elapsed slept
        → suc n ≤ fuel_of floats retry session request retry.max_attempts
    enough n elapsed slept g = bound retry.max_attempts g.allowed
      where
        bound :
            (m : ℤ)
            → (n ≡ 0) ⊎ (may_retry floats retry m n ≡ true)
            → suc n ≤ fuel_of floats retry session request m
        bound (pos m) h = ground (arith, h)
        bound (negsuc m) h = ground (arith, h)

    one_more :
        (r : Response) (n : ℕ) (elapsed : F) (slept : List F)
        → session request n ≡ reply r
        → Going n elapsed slept
        → contains retry.retry_statuses r.status ≡ true
        → may_retry floats retry retry.max_attempts (suc n) ≡ true
        → let delay = compute_delay floats retry r (suc n) in
          floats.below retry.max_total_seconds (floats.plus elapsed delay) ≡ false
          → Going (suc n) (floats.plus elapsed delay) (slept ++ (delay ∷ []))
    one_more r n elapsed slept e g status more fits = record {
      rounds =
          next_round session request retry.retry_statuses retry.max_total_seconds _ n slept g.rounds
            (rw e status) (delay-IsUpTo r (suc n));
      summed =
          ap (λ t. floats.plus t (compute_delay floats retry r (suc n))) g.summed
          ∙ sym (total_from-append floats.zero_seconds _ slept);
      budget = inr fits;
      allowed = inr more;
    }

    request_loop-Within :
        (fuel n : ℕ) (elapsed : F) (slept : List F)
        → fuel_of floats retry session request retry.max_attempts ≤ n + fuel
        → Going n elapsed slept
        → Within (request_loop floats retry session request fuel n elapsed slept)
    unfolding request_loop after_reply
    request_loop-Within zero n elapsed slept f g =
        absurd (omega (arith, f, enough n elapsed slept g))
    request_loop-Within (suc fuel) n elapsed slept f g = step (session request n) refl λ delay.
        request_loop-Within fuel (suc n) (floats.plus elapsed delay) (slept ++ (delay ∷ []))
          (omega (arith, f))
      where
        step :
            (r : Reply)
            → session request n ≡ r
            → ((delay : F)
                → Going (suc n) (floats.plus elapsed delay) (slept ++ (delay ∷ []))
                → Within (
                    request_loop floats retry session request fuel
                      (suc n)
                      (floats.plus elapsed delay)
                      (slept ++ (delay ∷ []))))
            → Within (
                after_reply floats retry session request r n elapsed slept λ delay.
                  request_loop floats retry session request fuel
                    (suc n)
                    (floats.plus elapsed delay)
                    (slept ++ (delay ∷ [])))
        step unreachable e later = ended n elapsed slept refused (rw e refl) g
        step (reply r) e later = elim (Bool-cases (contains retry.retry_statuses r.status)) [
          | inl s ↦ elim (Bool-cases (may_retry floats retry retry.max_attempts (suc n))) [
            | inl m ↦
                let delay = compute_delay floats retry r (suc n) in
                elim (Bool-cases
                  (floats.below retry.max_total_seconds (floats.plus elapsed delay))) [
                    | inl t ↦ rw (s, m, t) (ended n elapsed slept (got r) (rw e refl) g)
                    | inr t ↦ rw (s, m, t) (later delay (one_more r n elapsed slept e g s m t))
                  ]
            | inr m ↦ rw (s, m) (ended n elapsed slept (got r) (rw e refl) g)
          ]
          | inr s ↦ rw s (ended n elapsed slept (got r) (rw e refl) g)
        ]

    -- Where no float is below itself, `_request_with_retry` ends by itself, with the outcome of the
    -- last of its requests. There is one request, or the requests before the last are fewer than
    -- `max_attempts`. Each of those met a retried status and was followed by a sleep of at most
    -- `max_total_seconds`; if there were sleeps, their sum is at most `max_total_seconds`.
    pub request_rounds-Within : Within (request_rounds floats retry session request)
    unfolding request_rounds
    request_rounds-Within = request_loop-Within _ 0 floats.zero_seconds [] (omega arith) (record {
      rounds = nil-Rounds session request retry.retry_statuses retry.max_total_seconds;
      summed = refl;
      budget = inl refl;
      allowed = inl refl;
    })
