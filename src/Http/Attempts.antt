-- ===== src/Http/Attempts.antt =====
-- How many attempts portal/client.py makes, how long it sleeps, and what it answers.
use honua_migrate.Base.{
  ◌≡◌, refl, subst, ℕ, zero, suc, ◌+◌, ◌-◌, ◌≤◌, inl, inr, false, Bool-cases, arith, Option, none,
  some, List, [], ◌∷◌, ◌++◌, nat_eq, contains,
}
use honua_migrate.Http.Wire.{Response, Reply, unreachable, reply, Request, Session}
use honua_migrate.Http.Server.{Floats, Last, refused, got, Ended}
use honua_migrate.Http.Portal
use honua_migrate.Http.Portal.{
  RetryPolicy, portal_retryable, further_attempts, retry_delay, portal_loop, portal_rounds,
  after_reply,
}
use honua_migrate.Http.Budget.{last_of, IsUpTo, Rounds, nil-Rounds, next_round, min_of-IsUpTo}
use honua_migrate.Http.Answers.{usable, Gives, answered, portal_last}

module _ {F : Type 0} (floats : Floats F) (irreflexive : (x : F) → floats.below x x ≡ false)
    (policy : RetryPolicy F) (session : Session) (request : Request) where
  -- How the loop of the portal client ends: by the last of its requests.
  pub record Ends (left n : ℕ) (e : Ended F) : Type 0 where
    pub some_sent : 1 ≤ e.sent
    pub few_sent : e.sent ≤ n + suc left
    pub last_reply : e.last ≡ last_of (session request (e.sent - 1))
    pub rounds :
        Rounds floats session request portal_retryable policy.retry_after_cap_seconds
          (e.sent - 1)
          e.slept

  abbrev Going : ℕ → List F → Type 0
  Going n slept =
      Rounds floats session request portal_retryable policy.retry_after_cap_seconds n slept

  ends :
      (left n : ℕ) (elapsed : F) (slept : List F) (last : Last)
      → last ≡ last_of (session request n)
      → Going n slept
      → Ends left n (record { last = last; sent = suc n; elapsed = elapsed; slept = slept })
  ends left n elapsed slept last e g = record {
    some_sent = omega arith;
    few_sent = omega arith;
    last_reply = subst (λ k. last ≡ last_of (session request k)) before e;
    rounds = subst (λ k. Going k slept) before g;
  }
    where
      before : n ≡ suc n - 1
      before = omega arith

  retry_delay-IsUpTo :
      (r : Response) (n : ℕ)
      → IsUpTo floats policy.retry_after_cap_seconds (retry_delay floats policy r n)
  unfolding retry_delay
  retry_delay-IsUpTo r n = step (Portal.parse_retry_after floats policy r.retry_after n)
    where
      step :
          (o : Option F)
          → IsUpTo floats policy.retry_after_cap_seconds (Portal.delay_of floats policy o n)
      step none = min_of-IsUpTo floats irreflexive _ _
      step (some s) = min_of-IsUpTo floats irreflexive _ _

  portal_loop-Ends :
      (left n : ℕ) (elapsed : F) (slept : List F)
      → Going n slept
      → Ends left n (portal_loop floats policy session request left n elapsed slept)
  unfolding portal_loop after_reply
  portal_loop-Ends zero n elapsed slept g = step (session request n) refl
    where
      step :
          (r : Reply)
          → session request n ≡ r
          → Ends zero n (after_reply floats policy session request r n elapsed slept none)
      step unreachable e = ends zero n elapsed slept refused (rw e refl) g
      step (reply r) e = ends zero n elapsed slept (got r) (rw e refl) g
  portal_loop-Ends (suc left) n elapsed slept g =
      step (session request n) refl
        λ delay. portal_loop-Ends left (suc n) (floats.plus elapsed delay) (slept ++ (delay ∷ []))
    where
      further : F → Ended F
      further delay =
          portal_loop floats policy session request left (suc n) (floats.plus elapsed delay)
            (slept ++ (delay ∷ []))

      step :
          (r : Reply)
          → session request n ≡ r
          → ((delay : F)
              → Going (suc n) (slept ++ (delay ∷ []))
              → Ends left (suc n) (further delay))
          → Ends
              (suc left)
              n
              (after_reply floats policy session request r n elapsed slept (some further))
      step unreachable e later = ends (suc left) n elapsed slept refused (rw e refl) g
      step (reply r) e later = elim (Bool-cases (contains portal_retryable r.status)) [
        | inl s ↦
            let delay = retry_delay floats policy r (suc n) in
            let more = later delay (
              next_round floats session request portal_retryable _ delay n slept g (rw e s)
                (retry_delay-IsUpTo r (suc n))) in
            rw s (record {
              some_sent = more.some_sent;
              few_sent = omega (arith, more.few_sent);
              last_reply = more.last_reply;
              rounds = more.rounds;
            })
        | inr s ↦ rw s (ends (suc left) n elapsed slept (got r) (rw e refl) g)
      ]

  -- Where no float is below itself, `get_json` of the portal client sends between one request and
  -- `attempts` of them, one where that is less. Each request but the last met a retryable status
  -- and was followed by a sleep of at most `retry_after_cap_seconds`. It ends with an answer: the
  -- body of the last reply, where that has a status below 400 and a JSON object with no error
  -- object in it, and an error otherwise.
  pub portal_rounds-Gives :
      Ends (further_attempts policy.attempts) 0 (portal_rounds floats policy session request)
      × (let e = portal_rounds floats policy session request in
          Gives (Portal.answer_of e.last) (usable (session request (e.sent - 1))))
  unfolding portal_rounds
  portal_rounds-Gives = (
    done,
    answered Portal.answer_of (session request (_ - 1)) _ done.last_reply
        (portal_last (session request (_ - 1))),
  )
    where
      done : Ends (further_attempts policy.attempts) 0 (
          portal_loop floats policy session request
            (further_attempts policy.attempts)
            0
            floats.zero_seconds
            [])
      done =
          portal_loop-Ends (further_attempts policy.attempts) 0 floats.zero_seconds []
            (nil-Rounds floats session request portal_retryable policy.retry_after_cap_seconds)
