-- ===== src/Tasking/Task/Invariant.antt =====
-- The fields of a task row agree with its state.
use pulpcore.Prelude.{
  ℕ, String, ◌≡◌, ◌≢◌, ◌⊎◌, inl, inr, true, ◌&&◌, Option, none, some, List, [], ◌∷◌, arith,
  update_where, All, All-update_where, true_and, ◌==◌, eq_nat, Bool-cases,
}
use pulpcore.Tasking.Task.{
  TaskState, waiting, skipped, running, completed, failed, canceled, canceling, is_incomplete,
  is_final, Task, Db, Env, set_running, set_completed, set_failed, set_canceling, set_canceled,
  unblock, Call, call, Event, run_events, run, complete, fail, cancel, finish_cancel,
  mark_unblocked, eq_state, is_locked_in, with_reason, is_cancel_end, has_status, with_status,
  Outcome,
}
use pulpcore.Tasking.Task.Lifecycle.{locked_in-holds}

pub record IsConsistent (r : Task) : Type 0 where
  pub begun : (r.state ≡ running) ⊎ (r.state ≡ completed) → r.started_at ≢ none
  pub ended : is_final r.state ≡ true → (r.state ≡ skipped) ⊎ (r.finished_at ≢ none)
  pub not_ended : is_incomplete r.state ≡ true → r.finished_at ≡ none
  pub result_of_completed : r.result ≢ none → r.state ≡ completed
  pub error_of_ended : r.error ≢ none → (r.state ≡ failed) ⊎ (r.state ≡ canceled)

module _ (env : Env) (self : Task) (state : TaskState) (change : Task → Task) where
  All-locked :
      ((r : Task) → r.state ≡ state → IsConsistent r → IsConsistent (change r))
      → (rows : List Task) → All IsConsistent rows
      → All IsConsistent (update_where (is_locked_in state env self) change rows)
  All-locked keep =
      All-update_where IsConsistent (is_locked_in state env self) change
        λ r h. keep r (locked_in-holds state env self r h).0

running-IsConsistent :
    (now : ℕ) (r : Task)
    → r.state ≡ waiting
    → IsConsistent r
    → IsConsistent (record r { state = running; started_at = some now })
running-IsConsistent now r h c = ground arith

completed-IsConsistent :
    (now : ℕ) (result : Option String) (r : Task)
    → r.state ≡ running
    → IsConsistent r
    → IsConsistent (record r { state = completed; finished_at = some now; result = result })
completed-IsConsistent now result r h c = ground arith

failed-IsConsistent :
    (now : ℕ) (error : String) (r : Task)
    → r.state ≡ running
    → IsConsistent r
    → IsConsistent (record r { state = failed; finished_at = some now; error = some error })
failed-IsConsistent now error r h c = ground arith

canceling-IsConsistent :
    (r : Task)
    → is_incomplete r.state ≡ true
    → IsConsistent r
    → IsConsistent (record r { state = canceling })
canceling-IsConsistent r h c = ground arith

canceled-IsConsistent :
    (now : ℕ) (final_state : TaskState) (reason : Option String)
    → is_cancel_end final_state ≡ true
    → (r : Task) → r.state ≡ canceling
    → IsConsistent r
    → IsConsistent (record (with_reason reason r) { state = final_state; finished_at = some now })
canceled-IsConsistent now final_state none ends r h c = ground arith
canceled-IsConsistent now final_state (some reason) ends r h c = ground arith

abbrev pub AllConsistent : Db → Type 0
AllConsistent db = All IsConsistent db.tasks

module _ (env : Env) (self : Task) (db : Db) (h : AllConsistent db) where
  with_status-AllConsistent :
      (rest : Outcome × Task × Db)
      → AllConsistent rest.2
      → AllConsistent (with_status env self db rest).2
  unfolding with_status
  with_status-AllConsistent rest c = elim (Bool-cases (has_status env)) [
    | inl status ↦ rw status c
    | inr missing ↦ rw missing h
  ]

  set_running-AllConsistent : AllConsistent (set_running env self db).2
  unfolding set_running
  set_running-AllConsistent =
      let change = λ (r : Task). record r { state = running; started_at = some env.now } in
      with_status-AllConsistent _ (
        ground
          (arith, All-locked env self waiting change (running-IsConsistent env.now) db.tasks h))

  set_completed-AllConsistent :
      (result : Option String) → AllConsistent (set_completed result env self db).2
  unfolding set_completed
  set_completed-AllConsistent result =
      let change =
        λ (r : Task). record r { state = completed; finished_at = some env.now; result = result } in
      with_status-AllConsistent _ (
        ground (
          arith,
          All-locked env self running change (completed-IsConsistent env.now result) db.tasks h,
        ))

  set_failed-AllConsistent : (error : String) → AllConsistent (set_failed error env self db).2
  unfolding set_failed
  set_failed-AllConsistent error =
      let change =
        λ (r : Task). record r { state = failed; finished_at = some env.now; error = some error } in
      with_status-AllConsistent _ (
        ground (
          arith,
          All-locked env self running change (failed-IsConsistent env.now error) db.tasks h,
        ))

  set_canceling-AllConsistent : AllConsistent (set_canceling env self db).2
  unfolding set_canceling
  set_canceling-AllConsistent =
      let test = λ (r : Task). r.pk == self.pk && is_incomplete r.state in
      let rows =
        All-update_where IsConsistent test (λ r. record r { state = canceling })
          (λ r t c. canceling-IsConsistent r (true_and (r.pk == self.pk) _ t).1 c) db.tasks h in
      ground (arith, rows)

  set_canceled-AllConsistent :
      (final_state : TaskState) (reason : Option String)
      → AllConsistent (set_canceled final_state reason env self db).2
  unfolding set_canceled
  set_canceled-AllConsistent final_state reason = elim (Bool-cases (is_cancel_end final_state)) [
    | inl ends ↦
        let change = λ (r : Task). record (with_reason reason r) {
          state = final_state;
          finished_at = some env.now;
        } in
        let rows =
          All-locked env self canceling change
            (canceled-IsConsistent env.now final_state reason ends) db.tasks h in
        rw ends (with_status-AllConsistent _ (ground (arith, rows)))
    | inr other ↦ rw other h
  ]

  unblock-AllConsistent : AllConsistent (unblock env self db).2
  unfolding unblock
  unblock-AllConsistent =
      let test = λ (r : Task). r.pk == self.pk in
      let keep : (r : Task)
          → IsConsistent r
          → IsConsistent (record r { unblocked_at = some env.now }) =
        λ r c. ground arith in
      let rows =
        All-update_where IsConsistent test (λ r. record r { unblocked_at = some env.now })
          (λ r t c. keep r c) db.tasks h in
      ground (arith, rows)

call-AllConsistent :
    (env : Env) (self : Task) (c : Call) (db : Db)
    → AllConsistent db
    → AllConsistent (call c env self db).2
unfolding call
call-AllConsistent env self run db h = set_running-AllConsistent env self db h
call-AllConsistent env self (complete result) db h =
    set_completed-AllConsistent env self db h result
call-AllConsistent env self (fail error) db h = set_failed-AllConsistent env self db h error
call-AllConsistent env self cancel db h = set_canceling-AllConsistent env self db h
call-AllConsistent env self (finish_cancel final_state reason) db h =
    set_canceled-AllConsistent env self db h final_state reason
call-AllConsistent env self mark_unblocked db h = unblock-AllConsistent env self db h

-- Let the rows of the table be consistent: a running or completed task has a start time, an
-- incomplete one has no end time, one in a final state other than `skipped` has one, only a
-- completed one has a result, and only a failed or canceled one has an error. After any methods,
-- called by any processes, they are consistent still.
pub run_events-AllConsistent :
    (events : List Event) (db : Db) → AllConsistent db → AllConsistent (run_events events db)
unfolding run_events
run_events-AllConsistent [] db h = h
run_events-AllConsistent ((env, self, c) ∷ events) db h =
    run_events-AllConsistent events (call c env self db).2 (call-AllConsistent env self c db h)
