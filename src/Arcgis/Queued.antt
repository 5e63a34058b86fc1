-- ===== src/Arcgis/Queued.antt =====
-- The loop of services/arcgis.py that queues the imports of a plan.
use honua_migrate.Base.{
  ◌≡◌, refl, sym, ap, subst, ◌∙◌, inl, inr, false, String, All, ltb, Bool-cases, if◌then◌else◌, ℕ,
  suc, ◌+◌, ◌<◌, ◌≢◌, ◌⊎◌, Bool, true, choose, arith, List, [], ◌∷◌, ◌++◌, Option, none, some, map,
  length, take, contains, nat_eq, ◌||◌,
}
use mathlib.Core.List.{append-nil, append_assoc}
use mathlib.Core.Option.{some-injective, none-ne-some}
use honua_migrate.Json.{Json, obj, field, end, is_mapping}
use honua_migrate.Runs.Contracts.{Result, ok}
use honua_migrate.Readiness.Report.{Report}
use honua_migrate.Readiness.Words.{Parts}
use honua_migrate.Arcgis.Client.{
  Call, Reply, World, Answer, answered, expired, Done, Clock, start_call, request, after_send,
  request_loop, send, redirects, raises, reply, ok_body, as_object, finish,
}
use honua_migrate.Arcgis.Apply.{
  Receipt, redact_receipt, Started, done, refused, partial, Applied, start, after_start, start_loop,
}

abbrev pub Counted : ℕ → ℕ → ℕ → ℕ → Option ℕ → Type 0
Counted index total asked answers none = (asked ≡ total) × (answers ≡ total)
Counted index total asked answers (some i) =
    (i ≡ index + answers) × (asked ≡ suc answers) × (answers < total)

-- What a content that the target sends is taken for
abbrev pub Content : Bool → Option Json → Json → Type 0
Content true none body = ⊥
Content true (some sent) body =
    ((is_mapping sent ≡ true) × (body ≡ sent))
    ⊎ ((is_mapping sent ≡ false) × (body ≡ obj (field "result" sent end)))
Content false payload body = body ≡ obj end

-- A reply that is no redirection and no error gives the body that it has.
abbrev pub Gives : Reply → Json → Type 0
Gives raises body = ⊥
Gives (reply r) body =
    ((r.is_redirect || contains redirects r.status) ≡ false)
    × (ltb r.status 400 ≡ true)
    × Content r.has_content r.payload body

-- The bodies are what the target replied to the first payloads, in their order.
abbrev pub Replied : (List Call → Call → Reply) → List Call → List Json → List Json → Type 0
Replied session calls payloads [] = Unit
Replied session calls [] (body ∷ bodies) = ⊥
Replied session calls (payload ∷ payloads) (body ∷ bodies) =
    Gives (session calls (start_call payload)) body
    × Replied session (calls ++ (start_call payload ∷ [])) payloads bodies

-- The first `asked` payloads have each been queued once, in their order, and nothing else; and the
-- responses are what the target replied to them.
pub record Queued (session : List Call → Call → Reply) (index : ℕ) (payloads : List Json)
    (w : World) (s : Started) : Type 0 where
  pub asked : ℕ
  pub in_order : s.world.calls ≡ w.calls ++ map start_call (take asked payloads)
  pub counted : Counted index (length payloads) asked (length s.responses) s.failed_index
  pub answers : Replied session w.calls payloads s.responses

-- What an apply accounts for. It has asked for something only with the acknowledgement and where
-- the preflight reports ready; what it has started is what the target replied. If it ends well it has
-- queued all and echoed all the responses, redacted; if it ends with an error of the input nothing
-- has been answered; if it ends partially something has. A receipt that it echoes, however it ends,
-- is the redaction of one that has all that was started.
pub record Accounted (urlsplit : String → Option Parts)
    (urlunsplit : String → String → String → String) (session : List Call → Call → Reply)
    (acknowledged : Bool) (preflight : Result Report) (payloads : List Json) (w : World)
    (a : Applied) : Type 0 where
  pub asked : ℕ
  pub in_order : a.world.calls ≡ w.calls ++ map start_call (take asked payloads)
  pub answers : Replied session w.calls payloads a.started
  pub consent :
      (asked ≡ 0)
      ⊎ ((acknowledged ≡ true)
          × ((report : Report) × (preflight ≡ ok report) × (report.is_import_ready ≡ true)))
  pub whole :
      a.ending ≡ done
      → (asked ≡ length payloads)
        × (length a.started ≡ length payloads)
        × ((shown : Receipt) × (redact_receipt urlsplit urlunsplit
                (record { responses = a.started; failed_index = none; started_job_ids = [] })
              ≡ ok shown)
            × (a.echoed ≡ shown ∷ []))
  pub receipts :
      All
        (λ shown.
          (r : Receipt) × (r.responses ≡ a.started)
          × (redact_receipt urlsplit urlunsplit r ≡ ok shown))
        a.echoed
  pub none_started : a.ending ≡ refused → a.started ≡ []
  pub some_started : a.ending ≡ partial → a.started ≢ []

abbrev body_of : Answer → Option Json
body_of (answered body) = some body
body_of _ = none

accepted-body :
    (status : ℕ) (b body : Json)
    → ok_body status (some b) ≡ answered body
    → (ltb status 400 ≡ true) × (as_object b ≡ body)
accepted-body status b body h = elim (Bool-cases (ltb status 400)) [
  | inl e ↦ (e, some-injective _ _ (ap body_of (rw e at h)))
  | inr e ↦ absurd (none-ne-some body (ap body_of (rw e at h)))
]

accepted-Content :
    (status : ℕ) (given : Bool) (payload : Option Json) (body : Json)
    → ok_body status (if given then payload else some (obj end)) ≡ answered body
    → (ltb status 400 ≡ true) × Content given payload body
accepted-Content status true none body h = absurd (none-ne-some body (ap body_of h))
accepted-Content status true (some sent) body h =
    let (l, e) = accepted-body status sent body h in
    (
      l,
      elim (Bool-cases (is_mapping sent)) [
        | inl m ↦ inl (m, sym (rw m at e))
        | inr m ↦ inr (m, sym (rw m at e))
      ],
    )
accepted-Content status false payload body h =
    let (l, e) = accepted-body status (obj end) body h in (l, sym e)

module _ {T : Type 0} (clock : Clock T) (session : List Call → Call → Reply) (retries : ℕ) where
  sent-Gives :
      (r : Reply) (v : World) (body : Json)
      → (after_send clock session none r v none).answer ≡ answered body
      → Gives r body
  unfolding after_send finish
  sent-Gives raises v body h = none-ne-some body (ap body_of h)
  sent-Gives (reply r) v body h = elim (Bool-cases (r.is_redirect || contains redirects r.status)) [
    | inl e ↦ absurd (none-ne-some body (ap body_of (rw e at h)))
    | inr e ↦
        let (l, content) = accepted-Content r.status r.has_content r.payload body (rw e at h) in
        (e, l, content)
  ]

  start-Gives :
      (payload : Json) (w : World) (body : Json)
      → (start clock session retries payload w).answer ≡ answered body
      → Gives (session w.calls (start_call payload)) body
  unfolding request request_loop
  start-Gives payload w body h =
      sent-Gives (session w.calls (start_call payload)) (send (start_call payload) w) body h

  last-calls :
      (r : Reply) (v : World) → (after_send clock session none r v none).world.calls ≡ v.calls
  unfolding after_send
  last-calls raises v = refl
  last-calls (reply r) v =
      choose (λ (d : Done). d.world.calls ≡ v.calls) (r.is_redirect || contains redirects r.status)
        _ _ (λ e. refl) (λ e. refl)

  start-calls :
      (payload : Json) (w : World)
      → (start clock session retries payload w).world.calls ≡ w.calls ++ (start_call payload ∷ [])
  unfolding request request_loop
  start-calls payload w =
      last-calls (session w.calls (start_call payload)) (send (start_call payload) w)

  pub start_loop-Queued :
      (index : ℕ) (payloads : List Json) (w : World)
      → Queued session index payloads w (start_loop clock session retries index payloads w)
  unfolding start_loop
  start_loop-Queued index [] w = record {
    asked = 0;
    in_order = sym (append-nil w.calls);
    counted = (refl, refl);
    answers = tt;
  }
  start_loop-Queued index (payload ∷ payloads) w =
      let asked = start clock session retries payload w in
      step asked.answer asked.world _ (start-calls payload w) (start-Gives payload w)
        (start_loop-Queued (suc index) payloads asked.world)
    where
      counts :
          (n k : ℕ) (o : Option ℕ)
          → Counted (suc index) (length payloads) k n o
          → Counted index (suc (length payloads)) (suc k) (suc n) o
      counts n k none (a, b) = (ap suc a, ap suc b)
      counts n k (some i) (a, b, c) = (omega (arith, a), ap suc b, omega (arith, c))

      step :
          (a : Answer) (v : World) (rest : Started)
          → v.calls ≡ w.calls ++ (start_call payload ∷ [])
          → ((body : Json) → a ≡ answered body → Gives (session w.calls (start_call payload)) body)
          → Queued session (suc index) payloads v rest
          → Queued session index (payload ∷ payloads) w (after_start index a v rest)
      step (answered body) v rest e g q = record {
        asked = suc q.asked;
        in_order =
            q.in_order
            ∙ ap (λ cs. cs ++ map start_call (take q.asked payloads)) e
            ∙ append_assoc w.calls (start_call payload ∷ [])
                (map start_call (take q.asked payloads));
        counted = counts (length rest.responses) q.asked rest.failed_index q.counted;
        answers = (
          g body refl,
          subst (λ calls. Replied session calls payloads rest.responses) e q.answers,
        );
      }
      step Answer.failed v rest e g q = record {
        asked = 1;
        in_order = e;
        counted = (omega arith, refl, omega arith);
        answers = tt;
      }
      step expired v rest e g q = record {
        asked = 1;
        in_order = e;
        counted = (omega arith, refl, omega arith);
        answers = tt;
      }
