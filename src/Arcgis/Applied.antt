-- ===== src/Arcgis/Applied.antt =====
-- What an apply of services/arcgis.py has queued when it ends, and what it says of it.
use honua_migrate.Base.{
  ◌≡◌, refl, sym, All, ℕ, ◌≢◌, inl, inr, Bool, true, false, choose, List, [], ◌∷◌, String, Option,
  none, some, map, nat_eq,
}
use mathlib.Core.List.{append-nil}
use honua_migrate.Json.{Json, Fields}
use honua_migrate.Runs.Contracts.{Result, ok, err, Exc, migration}
use honua_migrate.Readiness.Report.{Report}
use honua_migrate.Readiness.Words.{Parts}
use honua_migrate.Arcgis.Client.{Call, Reply, World, Clock}
use honua_migrate.Arcgis.Apply.{
  Receipt, apply_artifact, Started, Ending, done, refused, partial, not_ready, other, Emitted,
  after_whole, after_partial, redact_receipt, after_scan, after_redact, emit, report_apply,
  start_loop, nothing, when_ready, apply_plan, import_payloads, with_credentials,
}
use honua_migrate.Arcgis.Queued.{Queued, Accounted, start_loop-Queued}

whole-done : (bodies : List Json) (r : Result (Unit {0})) → after_whole bodies r ≡ done → r ≡ ok tt
whole-done bodies (ok u) e = refl
whole-done [] (err (migration code)) e = cc
whole-done (body ∷ bodies) (err (migration code)) e = cc
whole-done bodies (err Exc.interrupted) e = cc
whole-done bodies (err Exc.other) e = cc

whole-refused :
    (bodies : List Json) (r : Result (Unit {0})) → after_whole bodies r ≡ refused → bodies ≡ []
whole-refused bodies (ok u) e = cc
whole-refused [] (err (migration code)) e = refl
whole-refused (body ∷ bodies) (err (migration code)) e = cc
whole-refused bodies (err Exc.interrupted) e = cc
whole-refused bodies (err Exc.other) e = cc

whole-partial :
    (bodies : List Json) (r : Result (Unit {0})) → after_whole bodies r ≡ partial → bodies ≢ []
whole-partial bodies (ok u) e = cc
whole-partial [] (err (migration code)) e = cc
whole-partial (body ∷ bodies) (err (migration code)) e = λ p. cc
whole-partial bodies (err Exc.interrupted) e = cc
whole-partial bodies (err Exc.other) e = cc

partial-done : (r : Result (Unit {0})) → after_partial r ≢ done
partial-done (ok u) e = cc
partial-done (err (migration code)) e = cc
partial-done (err Exc.interrupted) e = cc
partial-done (err Exc.other) e = cc

partial-refused : (r : Result (Unit {0})) → after_partial r ≢ refused
partial-refused (ok u) e = cc
partial-refused (err (migration code)) e = cc
partial-refused (err Exc.interrupted) e = cc
partial-refused (err Exc.other) e = cc

module _ (urlsplit : String → Option Parts) (urlunsplit : String → String → String → String) where
  All-of_receipt :
      (r : Receipt) (shown : List Receipt)
      → All (λ s. redact_receipt urlsplit urlunsplit r ≡ ok s) shown
      → All
          (λ s.
            (x : Receipt) × (x.responses ≡ r.responses)
            × (redact_receipt urlsplit urlunsplit x ≡ ok s))
          shown
  All-of_receipt r [] h = tt
  All-of_receipt r (s ∷ shown) (e, h) = ((r, refl, e), All-of_receipt r shown h)

module _ (urlsplit : String → Option Parts) (urlunsplit : String → String → String → String)
    (scan : Receipt → Result (Unit {0})) (can_write : Bool) where
  -- What is printed of a receipt is its redaction.
  abbrev Printed : Result Receipt → Emitted → Type 0
  Printed redacted e =
      All (λ shown. redacted ≡ ok shown) e.printed
      × (e.result ≡ ok tt → (shown : Receipt) × (redacted ≡ ok shown) × (e.printed ≡ shown ∷ []))

  after_redact-Printed :
      (redacted : Result Receipt)
      → Printed redacted (after_redact urlsplit urlunsplit scan can_write redacted)
  after_redact-Printed (err e) = (tt, λ h. absurd (cc))
  after_redact-Printed (ok r) = scanned (scan r)
    where
      scanned :
          (u : Result (Unit {0}))
          → Printed (ok r) (after_scan urlsplit urlunsplit scan can_write r u)
      scanned (err e) = (tt, λ h. absurd (cc))
      scanned (ok u) = ((refl, tt), λ h. (r, refl, refl))

  emit-Printed :
      (r : Receipt)
      → Printed (redact_receipt urlsplit urlunsplit r) (emit urlsplit urlunsplit scan can_write r)
  unfolding emit
  emit-Printed r = after_redact-Printed (redact_receipt urlsplit urlunsplit r)

module _ (urlsplit : String → Option Parts) (urlunsplit : String → String → String → String)
    (scan : Receipt → Result (Unit {0})) (can_write : Bool) (session : List Call → Call → Reply)
    (acknowledged : Bool) (preflight : Result Report) (payloads : List Json) (w : World)
    (agreed : (acknowledged ≡ true)
      × ((report : Report) × (preflight ≡ ok report) × (report.is_import_ready ≡ true))) where
  abbrev Reports : Started → Type 0
  Reports s =
      Queued session 0 payloads w s
      → Accounted urlsplit urlunsplit session acknowledged preflight payloads w
          (report_apply urlsplit urlunsplit scan can_write s)

  all_answered :
      (bodies : List Json) (v : World)
      → Reports (record { responses = bodies; failed_index = none; world = v })
  unfolding report_apply apply_artifact
  all_answered bodies v q =
      let (each, shown) = emit-Printed urlsplit urlunsplit scan can_write r in
      record {
        asked = q.asked;
        in_order = q.in_order;
        answers = q.answers;
        consent = inr agreed;
        whole = λ e. (q.counted.0, q.counted.1, shown (whole-done bodies _ e));
        receipts = All-of_receipt urlsplit urlunsplit r _ each;
        none_started = whole-refused bodies _;
        some_started = whole-partial bodies _;
      }
    where
      r : Receipt
      r = record { responses = bodies; failed_index = none; started_job_ids = [] }

  some_failed :
      (bodies : List Json) (i : ℕ) (v : World)
      → Reports (record { responses = bodies; failed_index = some i; world = v })
  unfolding report_apply apply_artifact
  some_failed [] i v q = record {
    asked = q.asked;
    in_order = q.in_order;
    answers = tt;
    consent = inr agreed;
    whole = λ e. absurd (cc);
    receipts = tt;
    none_started = λ e. refl;
    some_started = λ e. absurd (cc);
  }
  some_failed (body ∷ bodies) i v q = record {
    asked = q.asked;
    in_order = q.in_order;
    answers = q.answers;
    consent = inr agreed;
    whole = λ e. absurd (partial-done _ e);
    receipts =
        All-of_receipt urlsplit urlunsplit (apply_artifact (body ∷ bodies) (some i)) _
          (emit-Printed urlsplit urlunsplit scan can_write
            (apply_artifact (body ∷ bodies) (some i))).0;
    none_started = λ e. absurd (partial-refused _ e);
    some_started = λ e p. absurd (cc);
  }

nothing-Accounted :
    (urlsplit : String → Option Parts) (urlunsplit : String → String → String → String)
    (session : List Call → Call → Reply) (acknowledged : Bool) (preflight : Result Report)
    (payloads : List Json) (w : World) (ending : Ending)
    → ending ≢ done
    → ending ≢ partial
    → Accounted urlsplit urlunsplit session acknowledged preflight payloads w (nothing w ending)
nothing-Accounted urlsplit urlunsplit session acknowledged preflight payloads w ending d p =
    record {
      asked = 0;
      in_order = sym (append-nil w.calls);
      answers = tt;
      consent = inl refl;
      receipts = tt;
      whole = λ e. absurd (d e);
      none_started = λ e. refl;
      some_started = λ e. absurd (p e);
    }

module _ (urlsplit : String → Option Parts) (urlunsplit : String → String → String → String)
    (scan : Receipt → Result (Unit {0})) (can_write : Bool) {T : Type 0} (clock : Clock T)
    (session : List Call → Call → Reply) (retries : ℕ) where
  when_ready-Accounted :
      (payloads : List Json) (w : World) (preflight : Result Report)
      → Accounted urlsplit urlunsplit session true preflight payloads w
          (when_ready urlsplit urlunsplit scan can_write clock session retries payloads w preflight)
  when_ready-Accounted payloads w (err e) =
      nothing-Accounted urlsplit urlunsplit session true (err e) payloads w (other e) (λ p. cc)
        (λ p. cc)
  when_ready-Accounted payloads w (ok report) =
      choose (Accounted urlsplit urlunsplit session true (ok report) payloads w)
        report.is_import_ready _ _
        (λ ready.
          by_outcome (start_loop clock session retries 0 payloads w) (refl, (report, refl, ready))
            (start_loop-Queued clock session retries 0 payloads w))
        (λ e.
          nothing-Accounted urlsplit urlunsplit session true (ok report) payloads w
            (not_ready report.exit_code) (λ p. cc) (λ p. cc))
    where
      by_outcome :
          (s : Started)
          → (true ≡ true) × ((r : Report) × (ok report ≡ ok r) × (r.is_import_ready ≡ true))
          → Queued session 0 payloads w s
          → Accounted urlsplit urlunsplit session true
              (ok report)
              payloads
              w
              (report_apply urlsplit urlunsplit scan can_write s)
      by_outcome s agreed q = by_failed s.responses s.failed_index s.world q
        where
          by_failed :
              (bodies : List Json) (o : Option ℕ) (v : World)
              → Queued session 0 payloads w
                  (record { responses = bodies; failed_index = o; world = v })
              → Accounted urlsplit urlunsplit session true (ok report) payloads w (
                  report_apply urlsplit urlunsplit scan can_write
                    (record { responses = bodies; failed_index = o; world = v }))
          by_failed bodies none v q =
              all_answered urlsplit urlunsplit scan can_write session true (ok report) payloads w
                agreed bodies v q
          by_failed bodies (some i) v q =
              some_failed urlsplit urlunsplit scan can_write session true (ok report) payloads w
                agreed bodies i v q

  -- Of a plan whose payloads can be read, an apply queues the first of them, each once and in their
  -- order, and asks the target for nothing else; it asks for something only with the
  -- acknowledgement and a preflight that reports ready. The answers that it keeps are the bodies of
  -- the target's replies to the payloads, in their order. If it ends well, it has queued all of them,
  -- each was answered, and it echoed one receipt, the redaction of the one with all the answers. A
  -- receipt that it echoes where it ends otherwise is the redaction of one with all the answers too.
  -- If it ends with an error of the input, no import was answered, and if it ends partially, one was.
  pub apply_plan-Accounted :
      (acknowledged : Bool) (artifact : Json) (reference : Option String)
      (preflight : Result Report) (w : World) (payloads : List Fields)
      → import_payloads artifact ≡ ok payloads
      → Accounted urlsplit urlunsplit session acknowledged preflight
          (map (with_credentials reference) payloads)
          w
          (apply_plan urlsplit urlunsplit scan can_write clock session retries acknowledged
            (ok artifact)
            reference
            preflight
            w)
  unfolding apply_plan
  apply_plan-Accounted false artifact reference preflight w payloads e =
      nothing-Accounted urlsplit urlunsplit session false preflight _ w refused (λ p. cc) (λ p. cc)
  apply_plan-Accounted true artifact reference preflight w payloads e =
      rw e (when_ready-Accounted (map (with_credentials reference) payloads) w preflight)
