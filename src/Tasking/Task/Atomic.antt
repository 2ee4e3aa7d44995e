-- ===== src/Tasking/Task/Atomic.antt =====
-- A method of `Task`, which counts and updates the rows that pass its test, does to the table what
-- one step of a small specification does to the one row with the key of the object.
use pulpcore.Prelude.{
  ℕ, String, ◌≡◌, refl, sym, ap, inl, inr, false, Bool, ◌&&◌, Option, none, some, List, arith,
  if◌then◌else◌, update_where, ◌==◌, eq_nat, Bool-cases, opt_beq, first_where-some,
}
use pulpcore.Tasking.Task.{
  TaskState, waiting, running, completed, failed, canceling, is_incomplete, Task, Db, Env, Report,
  set_running, set_completed, set_failed, set_canceling, set_canceled, unblock, Call, call, run,
  complete, fail, cancel, finish_cancel, mark_unblocked, eq_state, with_reason, is_cancel_end,
  Outcome, returned, runtime_error, assertion_error, set_completed_late, refresh_and_raise,
  cleanup_progress_reports, has_status, with_status,
}
use pulpcore.Tasking.Task.Keys.{
  find_row, HasPrimaryKey, update-hit, update-miss, update-key, rewrite_row,
}

-- What a call does: its outcome, the row afterwards, and the state that the running progress
-- reports of the task are put in.
pub record Effect : Type 0 where
  pub outcome : Outcome
  pub row : Task
  pub cleanup : Option TaskState

abbrev refused : Outcome → Task → Effect
refused outcome r = record { outcome = outcome; row = r; cleanup = none }

abbrev has_lock : TaskState → Env → Task → Bool
has_lock state env r = r.state == state && opt_beq r.app_lock env.current

-- A process without a row of `AppStatus` is refused.
abbrev if_status : Env → Task → Effect → Effect
if_status env r e = if has_status env then e else refused runtime_error r

-- A task that was asked to cancel while it ended stays `canceling`, and that is no error.
abbrev completed_effect : Option String → Env → Task → Effect
completed_effect result env r =
    if has_lock running env r
    then record {
      outcome = returned;
      row = record r { state = completed; finished_at = some env.now; result = result };
      cleanup = some completed;
    }
    else if r.state == canceling
    then record { outcome = returned; row = r; cleanup = some completed }
    else refused runtime_error r

-- The specification of each call on a row.
abbrev pub effect : Call → Env → Task → Effect
effect run env r = if_status env r (
    if has_lock waiting env r
    then record {
      outcome = returned;
      row = record r { state = running; started_at = some env.now };
      cleanup = none;
    }
    else refused runtime_error r)
effect (complete result) env r = if_status env r (completed_effect result env r)
effect (fail error) env r = if_status env r (
    if has_lock running env r
    then record {
      outcome = returned;
      row = record r { state = failed; finished_at = some env.now; error = some error };
      cleanup = some failed;
    }
    else refused runtime_error r)
effect cancel env r =
    if is_incomplete r.state
    then record { outcome = returned; row = record r { state = canceling }; cleanup = none }
    else refused runtime_error r
effect (finish_cancel final_state reason) env r =
    if is_cancel_end final_state
    then if_status env r (
        if has_lock canceling env r
        then record {
          outcome = returned;
          row = record (with_reason reason r) { state = final_state; finished_at = some env.now };
          cleanup = some final_state;
        }
        else refused runtime_error r)
    else refused assertion_error r
effect mark_unblocked env r = record {
  outcome = returned;
  row = record r { unblocked_at = some env.now };
  cleanup = none;
}

abbrev pub clean_reports : Option TaskState → ℕ → List Report → List Report
clean_reports none k reports = reports
clean_reports (some state) k reports =
    update_where (λ r. r.task == k && r.report_state == running)
      (λ r. record r { report_state = state }) reports

-- The call has the effect on the row with key `k`, and on no other row.
pub record HasEffect (k : ℕ) (db : Db) (e : Effect) (after : Outcome × Task × Db) : Type 0 where
  pub same_outcome : after.0 ≡ e.outcome
  pub one_row : after.2.tasks ≡ update_where (λ s. s.pk == k) (λ _. e.row) db.tasks
  pub its_reports : after.2.reports ≡ clean_reports e.cleanup k db.reports

refresh_and_raise-found :
    (error : Outcome) (self r : Task) (db : Db)
    → find_row self.pk db.tasks ≡ some r
    → refresh_and_raise error self db ≡ (error, r, db)
refresh_and_raise-found error self r db found = ground arith

set_completed_late-found :
    (self r : Task) (db : Db)
    → find_row self.pk db.tasks ≡ some r
    → set_completed_late self db ≡ (
        if r.state == canceling
        then (returned, r, cleanup_progress_reports completed r db)
        else (runtime_error, r, db))
set_completed_late-found self r db found = ground arith

module _ (env : Env) (self : Task) (db : Db) (r : Task) (keyed : HasPrimaryKey db.tasks)
    (found : find_row self.pk db.tasks ≡ some r) where
  refused-HasEffect : (error : Outcome) → HasEffect self.pk db (refused error r) (error, r, db)
  refused-HasEffect error = record {
    same_outcome = refl;
    one_row = sym (rewrite_row self.pk db.tasks r keyed found);
    its_reports = refl;
  }

  raise-HasEffect :
      (error : Outcome) → HasEffect self.pk db (refused error r) (refresh_and_raise error self db)
  raise-HasEffect error =
      rw (refresh_and_raise-found error self r db found) (refused-HasEffect error)

  -- A method and its specification that both ask for the row of the process.
  status-HasEffect :
      (e : Effect) (rest : Outcome × Task × Db)
      → HasEffect self.pk db e rest
      → HasEffect self.pk db (if_status env r e) (with_status env self db rest)
  unfolding with_status
  status-HasEffect e rest h = elim (Bool-cases (has_status env)) [
    | inl status ↦ rw status h
    | inr missing ↦ rw missing (record {
      same_outcome = refl;
      one_row = sym (rewrite_row self.pk db.tasks r keyed found);
      its_reports = refl;
    })
  ]

  run-HasEffect : HasEffect self.pk db (effect run env r) (set_running env self db)
  unfolding set_running
  run-HasEffect =
      let q = has_lock waiting env in
      let change = λ (r : Task). record r { state = running; started_at = some env.now } in
      status-HasEffect _ _ (elim (Bool-cases (q r)) [
        | inl hit ↦
            let (one, changed) = update-hit self.pk q change db.tasks r keyed found hit in
            rw (one, hit) (record { same_outcome = refl; one_row = changed; its_reports = refl })
        | inr miss ↦
            let (no_row, unchanged) = update-miss self.pk q change db.tasks r keyed found miss in
            rw (no_row, unchanged, miss) (raise-HasEffect runtime_error)
      ])

  late-HasEffect :
      (result : Option String)
      → has_lock running env r ≡ false
      → HasEffect self.pk db (completed_effect result env r) (set_completed_late self db)
  late-HasEffect result miss = elim (Bool-cases (r.state == canceling)) [
    | inl late ↦
        rw (miss, late, set_completed_late-found self r db found, late)
          (record {
            same_outcome = refl;
            one_row = sym (rewrite_row self.pk db.tasks r keyed found);
            its_reports =
                ap (λ k. clean_reports (some completed) k db.reports)
                  ((eq_nat.same_iff r.pk self.pk).0
                    (first_where-some (λ s. s.pk == self.pk) db.tasks r found));
          })
    | inr other ↦
        rw (miss, other, set_completed_late-found self r db found, other)
          (refused-HasEffect runtime_error)
  ]

  complete-HasEffect :
      (result : Option String)
      → HasEffect self.pk db (effect (complete result) env r) (set_completed result env self db)
  unfolding set_completed
  complete-HasEffect result =
      let q = has_lock running env in
      let change =
        λ (r : Task). record r { state = completed; finished_at = some env.now; result = result } in
      status-HasEffect _ _ (elim (Bool-cases (q r)) [
        | inl hit ↦
            let (one, changed) = update-hit self.pk q change db.tasks r keyed found hit in
            rw (one, hit) (record { same_outcome = refl; one_row = changed; its_reports = refl })
        | inr miss ↦
            let (no_row, unchanged) = update-miss self.pk q change db.tasks r keyed found miss in
            rw (no_row, unchanged) (late-HasEffect result miss)
      ])

  fail-HasEffect :
      (error : String)
      → HasEffect self.pk db (effect (fail error) env r) (set_failed error env self db)
  unfolding set_failed
  fail-HasEffect error =
      let q = has_lock running env in
      let change =
        λ (r : Task). record r { state = failed; finished_at = some env.now; error = some error } in
      status-HasEffect _ _ (elim (Bool-cases (q r)) [
        | inl hit ↦
            let (one, changed) = update-hit self.pk q change db.tasks r keyed found hit in
            rw (one, hit) (record { same_outcome = refl; one_row = changed; its_reports = refl })
        | inr miss ↦
            let (no_row, unchanged) = update-miss self.pk q change db.tasks r keyed found miss in
            rw (no_row, unchanged, miss) (raise-HasEffect runtime_error)
      ])

  cancel-HasEffect : HasEffect self.pk db (effect cancel env r) (set_canceling env self db)
  unfolding set_canceling
  cancel-HasEffect =
      let q = λ (r : Task). is_incomplete r.state in
      let change = λ (r : Task). record r { state = canceling } in
      elim (Bool-cases (q r)) [
        | inl hit ↦
            let (one, changed) = update-hit self.pk q change db.tasks r keyed found hit in
            rw (one, hit) (record { same_outcome = refl; one_row = changed; its_reports = refl })
        | inr miss ↦
            let (no_row, unchanged) = update-miss self.pk q change db.tasks r keyed found miss in
            rw (no_row, unchanged, miss) (raise-HasEffect runtime_error)
      ]

  finish_cancel-HasEffect :
      (final_state : TaskState) (reason : Option String)
      → HasEffect self.pk db
          (effect (finish_cancel final_state reason) env r)
          (set_canceled final_state reason env self db)
  unfolding set_canceled
  finish_cancel-HasEffect final_state reason =
      let q = has_lock canceling env in
      let change = λ (r : Task). record (with_reason reason r) {
        state = final_state;
        finished_at = some env.now;
      } in
      elim (Bool-cases (is_cancel_end final_state)) [
        | inr other ↦ rw other (record {
          same_outcome = refl;
          one_row = sym (rewrite_row self.pk db.tasks r keyed found);
          its_reports = refl;
        })
        | inl ends ↦ rw ends (
            status-HasEffect _ _ (elim (Bool-cases (q r)) [
              | inl hit ↦
                  let (one, changed) = update-hit self.pk q change db.tasks r keyed found hit in
                  rw (one, hit)
                    (record { same_outcome = refl; one_row = changed; its_reports = refl })
              | inr miss ↦
                  let (no_row, unchanged) =
                    update-miss self.pk q change db.tasks r keyed found miss in
                  rw (no_row, unchanged, miss) (raise-HasEffect runtime_error)
            ]))
      ]

  mark_unblocked-HasEffect :
      HasEffect self.pk db (effect mark_unblocked env r) (unblock env self db)
  unfolding unblock
  mark_unblocked-HasEffect =
      let (one, changed) =
        update-key self.pk (λ r. record r { unblocked_at = some env.now }) db.tasks r keyed found in
      rw one (record { same_outcome = refl; one_row = changed; its_reports = refl })

  -- In a table with a primary key, a call of any method on a task that is there has the effect of
  -- its specification on the one row of that task: the same outcome, the row that the
  -- specification gives in the place of the old one, all other rows as they were, and the running
  -- progress reports of this task alone put in the state that it names.
  pub call-HasEffect : (c : Call) → HasEffect self.pk db (effect c env r) (call c env self db)
  unfolding call
  call-HasEffect run = run-HasEffect
  call-HasEffect (complete result) = complete-HasEffect result
  call-HasEffect (fail error) = fail-HasEffect error
  call-HasEffect cancel = cancel-HasEffect
  call-HasEffect (finish_cancel final_state reason) = finish_cancel-HasEffect final_state reason
  call-HasEffect mark_unblocked = mark_unblocked-HasEffect
