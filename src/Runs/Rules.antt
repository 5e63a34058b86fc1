-- ===== src/Runs/Rules.antt =====
-- Rules for reasoning about effects: one for each way to build an effect, with a postcondition for
-- a return and one for a raise.
use honua_migrate.Base.{◌≡◌, refl, Bool, true, false, Option, none, some, List, ◌∷◌}
use honua_migrate.Runs.Contracts.{Exc, ok, Action}
use honua_migrate.Runs.Interface.{Contracts, Adapter, Receipt, LockOpen, opened, unsafe, os_error}
use honua_migrate.Runs.Effect.{Keeps, lift}
use honua_migrate.Runs.Store.{
  Event, wrote, executed, RunRecord, RunWorld, create, save, write_to, link_to, lease, lease_opened,
  RunEffect,
}
use honua_migrate.Runs.Checkpoints.{complete}
use honua_migrate.Runs.Execute.{
  started_run, partial_run, execute_one, call_execute, perform, recover,
}
use honua_migrate.Runs.Ends.{Ends, returns, raises, lift_rule, attempt_rule, bind_rule}

-- Where an effect ends: in a return that satisfies `Q`, or in a raise that satisfies `E`.
module _ (c : Contracts) (a : Adapter c.Evidence) where
  write_rule :
      {Q : Unit {0} → RunWorld c a → Type 0} {E : Exc → RunWorld c a → Type 0} (p : Bool × a.State)
      (run : RunRecord c a) (w : RunWorld c a)
      → ((s : a.State)
          → Q tt (record w { file = some run; state = s; events = wrote run ∷ w.events }))
      → ((e : Exc) (s : a.State) → E e (record w { state = s }))
      → Ends Q E (write_to c a p run w)
  unfolding write_to
  write_rule (true, s) run w q e = returns (q s)
  write_rule (false, s) run w q e = raises (e _ s)

  link_rule :
      {Q : Unit {0} → RunWorld c a → Type 0} {E : Exc → RunWorld c a → Type 0} (p : Bool × a.State)
      (old : Option (RunRecord c a)) (run : RunRecord c a) (w : RunWorld c a)
      → ((s : a.State)
          → Q tt (record w { file = some run; state = s; events = wrote run ∷ w.events }))
      → ((e : Exc) (s : a.State) → E e (record w { state = s }))
      → Ends Q E (link_to c a p old run w)
  unfolding link_to
  link_rule (true, s) none run w q e = returns (q s)
  link_rule (true, s) (some old) run w q e = raises (e _ s)
  link_rule (false, s) old run w q e = raises (e _ s)

  -- A save replaces the file and is noted, or it raises and leaves both alone.
  pub save_rule :
      {Q : Unit {0} → RunWorld c a → Type 0} {E : Exc → RunWorld c a → Type 0} (run : RunRecord c a)
      (w : RunWorld c a)
      → ((s : a.State)
          → Q tt (record w { file = some run; state = s; events = wrote run ∷ w.events }))
      → ((e : Exc) (s : a.State) → E e (record w { state = s }))
      → Ends Q E (save c a run w)
  unfolding save
  save_rule run w q e =
      bind_rule (lift (c.validate_run run)) _ w
        (lift_rule {Q = λ _ w'. w' ≡ w} (c.validate_run run) w (λ _ _. refl) (λ x _. e x w.state))
        λ _ w' p. rw p (write_rule (a.write_file w.state) run w q e)

  pub create_rule :
      {Q : Unit {0} → RunWorld c a → Type 0} {E : Exc → RunWorld c a → Type 0} (run : RunRecord c a)
      (w : RunWorld c a)
      → ((s : a.State)
          → Q tt (record w { file = some run; state = s; events = wrote run ∷ w.events }))
      → ((e : Exc) (s : a.State) → E e (record w { state = s }))
      → Ends Q E (create c a run w)
  unfolding create
  create_rule run w q e =
      bind_rule (lift (c.validate_run run)) _ w
        (lift_rule {Q = λ _ w'. w' ≡ w} (c.validate_run run) w (λ _ _. refl) (λ x _. e x w.state))
        λ _ w' p. rw p (link_rule (a.write_file w.state) w.file run w q e)

  call_rule :
      {Q : Receipt c.Evidence → RunWorld c a → Type 0} {E : Exc → RunWorld c a → Type 0}
      (x : Action) (w : RunWorld c a)
      → ((receipt : Receipt c.Evidence) (s : a.State)
          → Q receipt (record w { state = s; events = executed x ∷ w.events }))
      → ((e : Exc) (s : a.State) → E e (record w { state = s; events = executed x ∷ w.events }))
      → Ends Q E (call_execute c a x w)
  unfolding call_execute
  call_rule x w q e =
      let (r, s) = a.execute x w.state in
      lift_rule r (record w { state = s; events = executed x ∷ w.events })
        (λ receipt _. q receipt s) (λ f _. e f s)

  perform_rule :
      {Q : RunRecord c a → RunWorld c a → Type 0} {E : Exc → RunWorld c a → Type 0}
      (run : RunRecord c a) (x : Action) (w : RunWorld c a)
      → ((receipt : Receipt c.Evidence) (done : RunRecord c a) (s : a.State)
          → complete c (started_run c a run x) x receipt ≡ ok done
          → Q done (record w {
            file = some done;
            state = s;
            events = wrote done ∷ executed x ∷ w.events;
          }))
      → ((e : Exc) (s : a.State) → E e (record w { state = s; events = executed x ∷ w.events }))
      → Ends Q E (perform c a run x w)
  unfolding perform
  perform_rule {Q} run x w q e =
      bind_rule (call_execute c a x) _ w
        (call_rule
          {Q = λ receipt w'.
            (s : a.State) × (w' ≡ record w { state = s; events = executed x ∷ w.events })}
          x w (λ receipt s. (s, refl)) e)
        λ receipt w' (s, p). rw p (
          bind_rule (lift (complete c (started_run c a run x) x receipt)) _ _
            (lift_rule
              {Q = λ done w''.
                (complete c (started_run c a run x) x receipt ≡ ok done)
                × (w'' ≡ record w { state = s; events = executed x ∷ w.events })}
              (complete c (started_run c a run x) x receipt) _ (λ done h. (h, refl)) (λ f _. e f s))
            λ done w'' (h, p'). rw p' (
              bind_rule (save c a done) _ _
                (save_rule {Q = λ _ w3. Q done w3} done _ (λ s'. q receipt done s' h) e)
                λ _ w3 k. returns k))

  recover_rule :
      {Q : RunRecord c a → RunWorld c a → Type 0} {E : Exc → RunWorld c a → Type 0}
      (run : RunRecord c a) (x : Action) (e : Exc) (w : RunWorld c a)
      → ((f : Exc) (s : a.State)
          → let failed = partial_run c a run x in
            E f (record w { file = some failed; state = s; events = wrote failed ∷ w.events }))
      → ((f : Exc) (s : a.State) → E f (record w { state = s }))
      → Ends Q E (recover c a run x e w)
  unfolding recover
  recover_rule {E} run x e w saved lost =
      bind_rule (save c a (partial_run c a run x)) _ w
        (save_rule {Q = λ _ w'. (f : Exc) → E f w'} (partial_run c a run x) w (λ s f. saved f s)
          lost)
        λ _ w' k. raises (k _)

  -- The ways in which one action ends, each with what the file holds and what was noted.
  pub execute_one_rule :
      {Q : RunRecord c a → RunWorld c a → Type 0} {E : Exc → RunWorld c a → Type 0}
      (run : RunRecord c a) (x : Action) (w : RunWorld c a)
      → ((e : Exc) (s : a.State) → E e (record w { state = s }))
      → ((receipt : Receipt c.Evidence) (done : RunRecord c a) (s : a.State)
          → complete c (started_run c a run x) x receipt ≡ ok done
          → Q done (record w {
            file = some done;
            state = s;
            events = wrote done ∷ executed x ∷ wrote (started_run c a run x) ∷ w.events;
          }))
      → ((e : Exc) (s : a.State)
          → let failed = partial_run c a run x in
            E e (record w {
              file = some failed;
              state = s;
              events = wrote failed ∷ executed x ∷ wrote (started_run c a run x) ∷ w.events;
            }))
      → ((e : Exc) (s : a.State)
          → E e (record w {
            file = some (started_run c a run x);
            state = s;
            events = executed x ∷ wrote (started_run c a run x) ∷ w.events;
          }))
      → Ends Q E (execute_one c a run x w)
  unfolding execute_one
  execute_one_rule run x w unsaved done failed unmarked =
      bind_rule (save c a (started_run c a run x)) _ w
        (save_rule
          {Q = λ _ w'.
            (s : a.State) × (w' ≡ record w {
              file = some (started_run c a run x);
              state = s;
              events = wrote (started_run c a run x) ∷ w.events;
            })}
          (started_run c a run x) w (λ s. (s, refl)) unsaved)
        λ _ w' (s, p). rw p (
          attempt_rule (perform c a run x) (recover c a run x) _
            (perform_rule
              {E = λ _ w''.
                (s' : a.State) × (w'' ≡ record w {
                  file = some (started_run c a run x);
                  state = s';
                  events = executed x ∷ wrote (started_run c a run x) ∷ w.events;
                })}
              run x _ done (λ _ s'. (s', refl)))
            λ e w'' (s', p'). rw p' (recover_rule run x e _ failed unmarked))

  lease_opened-events :
      {A : Type 0} (P : List (Event (RunRecord c a)) → Type 0) (m : RunEffect c a A)
      (p : LockOpen × a.State) (locked : Bool) (w : RunWorld c a)
      → ((w' : RunWorld c a) → w'.file ≡ w.file → P w'.events → P (m w').1.events)
      → P w.events
      → P (lease_opened c a p locked m w).1.events
  unfolding lease_opened
  lease_opened-events P m (unsafe, s) locked w k h = h
  lease_opened-events P m (os_error, s) locked w k h = h
  lease_opened-events P m (opened, s) true w k h = h
  lease_opened-events P m (opened, s) false w k h = k _ refl h

  pub lease-events :
      {A : Type 0} (P : List (Event (RunRecord c a)) → Type 0) (m : RunEffect c a A)
      (w : RunWorld c a)
      → ((w' : RunWorld c a) → w'.file ≡ w.file → P w'.events → P (m w').1.events)
      → P w.events
      → P (lease c a m w).1.events
  unfolding lease
  lease-events P m w k h = lease_opened-events P m (a.open_lock w.state) w.locked w k h

  -- What holds of the events through the leased work holds of them through the lease.
  pub Keeps-lease :
      {A : Type 0} (P : List (Event (RunRecord c a)) → Type 0) (m : RunEffect c a A)
      → Keeps (λ w. P w.events) m
      → Keeps (λ w. P w.events) (lease c a m)
  Keeps-lease P m k = record { at = λ w h. lease-events P m w (λ w' _. k.at w') h }
