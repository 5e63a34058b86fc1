-- ===== src/Geoserver/Repeated.antt =====
-- A request of services/geoserver.py asks for one call, and again where that may be.
use honua_migrate.Base.{
  ◌≡◌, refl, sym, ap, ◌∙◌, false, true, ℕ, zero, suc, ◌||◌, choose, List, [], ◌∷◌, ◌++◌, Option,
  none, some, ltb, contains, nat_eq, All,
}
use mathlib.Core.List.{append-nil, append_assoc}
use honua_migrate.Json.{Json, is_mapping}
use honua_migrate.Arcgis.Client.{Call, Response, Reply, raises, reply, redirects, retryable}
use honua_migrate.Geoserver.Client.{
  Answer, answered, failed, Done, failing, or_again, after_body, after_reply, request_loop,
}

-- A predicate on what a request gives holds after a reply if it holds of the failure there and of
-- each body that the reply is accepted with, and, where another attempt may follow, after that one.
abbrev AfterAgain : (Done → Type 0) → Option Done → Type 0
AfterAgain P none = Unit
AfterAgain P (some again) = P again

module _ (P : Done → Type 0) (calls : List Call) (stop : P (failing calls)) where
  or_again-P : (o : Option Done) → AfterAgain P o → P (or_again o (failing calls))
  or_again-P none a = stop
  or_again-P (some again) a = a

  after_reply-P :
      (r : Reply) (o : Option Done)
      → AfterAgain P o
      → ((s : Response) (body : Json)
          → r ≡ reply s
          → (s.is_redirect || contains redirects s.status) ≡ false
          → ltb s.status 400 ≡ true
          → s.payload ≡ some body
          → P (record { answer = answered body; calls = calls }))
      → P (after_reply r calls o)
  unfolding after_reply
  after_reply-P raises o a k = or_again-P o a
  after_reply-P (reply s) o a k =
      choose P (s.is_redirect || contains redirects s.status) _ _ (λ e. stop)
        λ e.
          choose P (contains retryable s.status) _ _ (λ f. or_again-P o a)
            λ f.
              choose P (ltb s.status 400) _ _ (λ g. body s.payload refl (λ b. k s b refl e g))
                λ g. stop
    where
      body :
          (b : Option Json)
          → s.payload ≡ b
          → ((x : Json) → s.payload ≡ some x → P (record { answer = answered x; calls = calls }))
          → P (after_body b calls o)
      body none p given = unfold after_body in or_again-P o a
      body (some x) p given =
          unfold after_body in choose P (is_mapping x) _ _ (λ e. given x p) (λ e. stop)

-- What was asked more is this call, some number of times
abbrev pub Repeats : Call → List Call → List Call → Type 0
Repeats call before now = (more : List Call) × (now ≡ before ++ more) × All (λ c. c ≡ call) more

module _ (session : List Call → Call → Reply) (call : Call) where
  pub request_loop-Repeats :
      (left : ℕ) (calls : List Call)
      → Repeats call calls (request_loop session call left calls).calls
  unfolding request_loop
  request_loop-Repeats zero calls =
      after_reply-P (λ d. Repeats call calls d.calls) (calls ++ (call ∷ []))
        (call ∷ [], refl, (refl, tt)) (session calls call) none tt
        (λ s body r e l p. (call ∷ [], refl, (refl, tt)))
  request_loop-Repeats (suc left) calls =
      let (more, added, each) = request_loop-Repeats left (calls ++ (call ∷ [])) in
      after_reply-P (λ d. Repeats call calls d.calls) (calls ++ (call ∷ []))
        (call ∷ [], refl, (refl, tt)) (session calls call)
        (some (request_loop session call left (calls ++ (call ∷ []))))
        (call ∷ more, added ∙ append_assoc calls (call ∷ []) more, (refl, each))
        (λ s body r e l p. (call ∷ [], refl, (refl, tt)))

  pub once :
      (calls : List Call) → (request_loop session call zero calls).calls ≡ calls ++ (call ∷ [])
  unfolding request_loop
  once calls =
      after_reply-P (λ d. d.calls ≡ calls ++ (call ∷ [])) (calls ++ (call ∷ [])) refl
        (session calls call) none tt (λ s body r e l p. refl)

  -- The call was asked some number of times, the last of them at `seen`, and what the server replied
  -- there, with a status that is no error and no redirection, is the body.
  pub record Answers (before now : List Call) (body : Json) : Type 0 where
    pub earlier : List Call
    pub repeats : All (λ c. c ≡ call) earlier
    pub seen : List Call
    pub after_earlier : seen ≡ before ++ earlier
    pub added : now ≡ seen ++ (call ∷ [])
    pub response : Response
    pub replied : session seen call ≡ reply response
    pub direct : (response.is_redirect || contains redirects response.status) ≡ false
    pub accepted : ltb response.status 400 ≡ true
    pub holds : response.payload ≡ some body

  abbrev AnswersAll : List Call → Done → Type 0
  AnswersAll before d = (body : Json) → d.answer ≡ answered body → Answers before d.calls body

  last_reply :
      (calls : List Call) (s : Response) (x : Json)
      → session calls call ≡ reply s
      → (s.is_redirect || contains redirects s.status) ≡ false
      → ltb s.status 400 ≡ true
      → s.payload ≡ some x
      → AnswersAll calls (record { answer = answered x; calls = calls ++ (call ∷ []) })
  last_reply calls s x r e l p body q = record {
    earlier = [];
    repeats = tt;
    seen = calls;
    after_earlier = sym (append-nil calls);
    added = refl;
    response = s;
    replied = r;
    direct = e;
    accepted = l;
    holds = p ∙ ap body_of q;
  }
    where
      body_of : Answer → Option Json
      body_of (answered b) = some b
      body_of failed = none

  pub request_loop-Answers :
      (left : ℕ) (calls : List Call) → AnswersAll calls (request_loop session call left calls)
  unfolding request_loop
  request_loop-Answers zero calls =
      after_reply-P (AnswersAll calls) (calls ++ (call ∷ [])) (λ body q. absurd (cc))
        (session calls call) none tt (last_reply calls)
  request_loop-Answers (suc left) calls =
      let later = calls ++ (call ∷ []) in
      after_reply-P (AnswersAll calls) later (λ body q. absurd (cc)) (session calls call)
        (some (request_loop session call left later))
        (λ body q.
          let a = request_loop-Answers left later body q in
          record {
            earlier = call ∷ a.earlier;
            repeats = (refl, a.repeats);
            seen = a.seen;
            after_earlier = a.after_earlier ∙ append_assoc calls (call ∷ []) a.earlier;
            added = a.added;
            response = a.response;
            replied = a.replied;
            direct = a.direct;
            accepted = a.accepted;
            holds = a.holds;
          })
        (last_reply calls)
