-- ===== src/Tasking/Task/Lifecycle.antt =====
-- The automaton of task states that the methods of `Task` follow.
use pulpcore.Prelude.{
  ℕ, String, ◌≡◌, ◌∙◌, Option-cases, false, refl, sym, subst, inl, inr, true, ◌&&◌, Option, some,
  List, [], ◌∷◌, arith, eq_of_opt_beq, update_where, All₂, All₂-update_where, All₂-refl, All₂-trans,
  All₂-imp, true_and, ◌==◌, eq_nat, Bool-cases,
}
use pulpcore.Tasking.Task.{
  TaskState, waiting, skipped, running, completed, failed, canceled, canceling, is_incomplete,
  is_final, Task, Db, Env, set_running, set_completed, set_failed, set_canceling, set_canceled,
  unblock, Call, call, Event, run_events, run, complete, fail, cancel, finish_cancel,
  mark_unblocked, eq_state, is_locked_in, with_reason, is_cancel_end, has_status, with_status,
  Outcome,
}

pub data Transition : TaskState → TaskState → Type 0 where
  start : Transition waiting running
  finish : Transition running completed
  fail_running : Transition running failed
  cancel_waiting : Transition waiting canceling
  cancel_running : Transition running canceling
  cancel_again : Transition canceling canceling
  cancel_done : Transition canceling canceled
  cancel_failed : Transition canceling failed

-- The process has a row of `AppStatus`, and the task is locked by it.
pub record HoldsLock (env : Env) (r : Task) : Type 0 where
  pub holder : ℕ
  pub is_current : env.current ≡ some holder
  pub locks : r.app_lock ≡ some holder

-- What one call of a method by `env` may do to a row.
pub data RowStep (env : Env) (r s : Task) : Type 0 where
  same_state :
      s.pk ≡ r.pk
      → s.app_lock ≡ r.app_lock
      → s.state ≡ r.state
      → s.finished_at ≡ r.finished_at
      → s.result ≡ r.result
      → s.error ≡ r.error
      → RowStep env r s
  request_cancel :
      s.pk ≡ r.pk
      → s.app_lock ≡ r.app_lock
      → Transition r.state canceling
      → s.state ≡ canceling
      → RowStep env r s
  by_lock_holder :
      s.pk ≡ r.pk
      → s.app_lock ≡ r.app_lock
      → Transition r.state s.state
      → HoldsLock env r
      → RowStep env r s

RowStep-refl : (env : Env) (r : Task) → RowStep env r r
RowStep-refl env r = same_state refl refl refl refl refl refl

pub locked_in-holds :
    (state : TaskState) (env : Env) (self r : Task)
    → is_locked_in state env self r ≡ true
    → (r.state ≡ state) × (r.app_lock ≡ env.current)
locked_in-holds state env self r h =
    let (_, rest) = true_and (r.pk == self.pk) _ h in
    let (in_state, locked) = true_and (r.state == state) _ rest in
    ((eq_state.same_iff r.state state).0 in_state, eq_of_opt_beq r.app_lock env.current locked)

current-HoldsLock :
    (env : Env) (r : Task) → has_status env ≡ true → r.app_lock ≡ env.current → HoldsLock env r
current-HoldsLock env r status e = elim (Option-cases env.current) [
  | inl missing ↦ let bad : has_status env ≡ false = rw missing refl in absurd (cc (bad, status))
  | inr (a, there) ↦ record { holder = a; is_current = there; locks = e ∙ there }
]

-- A method that reads the row of its process does nothing where there is none.
with_status-All₂ :
    (env : Env) (self : Task) (db : Db) (rest : Outcome × Task × Db)
    → (has_status env ≡ true → All₂ (RowStep env) db.tasks rest.2.tasks)
    → All₂ (RowStep env) db.tasks (with_status env self db rest).2.tasks
unfolding with_status
with_status-All₂ env self db rest h = elim (Bool-cases (has_status env)) [
  | inl status ↦ rw status (h status)
  | inr missing ↦ rw missing (All₂-refl (RowStep env) (RowStep-refl env) db.tasks)
]

-- A method that updates the rows that this process has locked in `state`.
module _ (env : Env) (self : Task) (state : TaskState) (change : Task → Task)
    (status : has_status env ≡ true) where
  All₂-locked :
      ((r : Task) → ((change r).pk ≡ r.pk) × ((change r).app_lock ≡ r.app_lock))
      → ((r : Task) → Transition state (change r).state)
      → (rows : List Task)
      → All₂ (RowStep env) rows (update_where (is_locked_in state env self) change rows)
  All₂-locked keeps moves =
      All₂-update_where (RowStep env) (is_locked_in state env self) change (RowStep-refl env) λ r h.
        let (in_state, locked) = locked_in-holds state env self r h in
        by_lock_holder (keeps r).0 (keeps r).1
          (subst (λ t. Transition t (change r).state) (sym in_state) (moves r))
          (current-HoldsLock env r status locked)

cancel-Transition : (s : TaskState) → is_incomplete s ≡ true → Transition s canceling
cancel-Transition waiting h = cancel_waiting
cancel-Transition running h = cancel_running
cancel-Transition canceling h = cancel_again
cancel-Transition skipped h = cc
cancel-Transition completed h = cc
cancel-Transition failed h = cc
cancel-Transition canceled h = cc

end-Transition : (s : TaskState) → is_cancel_end s ≡ true → Transition canceling s
end-Transition canceled h = cancel_done
end-Transition failed h = cancel_failed
end-Transition waiting h = cc
end-Transition skipped h = cc
end-Transition running h = cc
end-Transition completed h = cc
end-Transition canceling h = cc

with_reason-keeps :
    (reason : Option String) (r : Task)
    → ((with_reason reason r).pk ≡ r.pk) × ((with_reason reason r).app_lock ≡ r.app_lock)
with_reason-keeps reason r = ground arith

module _ (env : Env) (self : Task) (db : Db) where
  All₂-set_running : All₂ (RowStep env) db.tasks (set_running env self db).2.tasks
  unfolding set_running
  All₂-set_running =
      let change = λ (r : Task). record r { state = running; started_at = some env.now } in
      with_status-All₂ env self db _ λ status. ground (
        arith,
        All₂-locked env self waiting change status (λ r. (refl, refl)) (λ r. start) db.tasks,
      )

  All₂-set_completed :
      (result : Option String)
      → All₂ (RowStep env) db.tasks (set_completed result env self db).2.tasks
  unfolding set_completed
  All₂-set_completed result =
      let change =
        λ (r : Task). record r { state = completed; finished_at = some env.now; result = result } in
      with_status-All₂ env self db _ λ status. ground (
        arith,
        All₂-locked env self running change status (λ r. (refl, refl)) (λ r. finish) db.tasks,
      )

  All₂-set_failed :
      (error : String) → All₂ (RowStep env) db.tasks (set_failed error env self db).2.tasks
  unfolding set_failed
  All₂-set_failed error =
      let change =
        λ (r : Task). record r { state = failed; finished_at = some env.now; error = some error } in
      with_status-All₂ env self db _ λ status. ground (
        arith,
        All₂-locked env self running change status (λ r. (refl, refl)) (λ r. fail_running) db.tasks,
      )

  All₂-set_canceling : All₂ (RowStep env) db.tasks (set_canceling env self db).2.tasks
  unfolding set_canceling
  All₂-set_canceling =
      let test = λ (r : Task). r.pk == self.pk && is_incomplete r.state in
      let steps =
        All₂-update_where (RowStep env) test (λ r. record r { state = canceling })
          (RowStep-refl env)
          (λ r h.
            request_cancel refl refl (cancel-Transition r.state (true_and (r.pk == self.pk) _ h).1)
              refl)
          db.tasks in
      ground (arith, steps)

  All₂-set_canceled :
      (final_state : TaskState) (reason : Option String)
      → All₂ (RowStep env) db.tasks (set_canceled final_state reason env self db).2.tasks
  unfolding set_canceled
  All₂-set_canceled final_state reason = elim (Bool-cases (is_cancel_end final_state)) [
    | inl ends ↦
        let change = λ (r : Task). record (with_reason reason r) {
          state = final_state;
          finished_at = some env.now;
        } in
        rw ends (
          with_status-All₂ env self db _ λ status.
            let steps =
              All₂-locked env self canceling change status (with_reason-keeps reason)
                (λ r. end-Transition final_state ends) db.tasks in
            ground (arith, steps))
    | inr other ↦ rw other (All₂-refl (RowStep env) (RowStep-refl env) db.tasks)
  ]

  All₂-unblock : All₂ (RowStep env) db.tasks (unblock env self db).2.tasks
  unfolding unblock
  All₂-unblock =
      let test = λ (r : Task). r.pk == self.pk in
      let steps =
        All₂-update_where (RowStep env) test (λ r. record r { unblocked_at = some env.now })
          (RowStep-refl env) (λ r h. same_state refl refl refl refl refl refl) db.tasks in
      ground (arith, steps)

  -- Whatever method is called, with whatever arguments and whatever it returns or raises, every
  -- row of the table keeps its key and its lock, and either keeps its state, end time, result and
  -- error, or goes into `canceling` from an incomplete state, or makes a transition of the
  -- automaton, the last only if the calling process has a row of `AppStatus` and that row is the
  -- lock of the task.
  pub call-RowStep : (c : Call) → All₂ (RowStep env) db.tasks (call c env self db).2.tasks
  unfolding call
  call-RowStep run = All₂-set_running
  call-RowStep (complete result) = All₂-set_completed result
  call-RowStep (fail error) = All₂-set_failed error
  call-RowStep cancel = All₂-set_canceling
  call-RowStep (finish_cancel final_state reason) = All₂-set_canceled final_state reason
  call-RowStep mark_unblocked = All₂-unblock

-- The end of a row: what may not change once its state is final.
pub record SameEnd (r s : Task) : Type 0 where
  pub key : s.pk ≡ r.pk
  pub at_end :
      is_final r.state ≡ true
      → (s.state ≡ r.state)
        × (s.finished_at ≡ r.finished_at)
        × (s.result ≡ r.result)
        × (s.error ≡ r.error)

no_transition : {s t : TaskState} → Transition s t → is_final s ≡ true → ⊥
no_transition start h = cc
no_transition finish h = cc
no_transition fail_running h = cc
no_transition cancel_waiting h = cc
no_transition cancel_running h = cc
no_transition cancel_again h = cc
no_transition cancel_done h = cc
no_transition cancel_failed h = cc

RowStep-SameEnd : (env : Env) (r s : Task) → RowStep env r s → SameEnd r s
RowStep-SameEnd env r s (same_state k l st f re er) = record {
  key = k;
  at_end = λ h. (st, f, re, er);
}
RowStep-SameEnd env r s (request_cancel k l t st) = record {
  key = k;
  at_end = λ h. absurd (no_transition t h);
}
RowStep-SameEnd env r s (by_lock_holder k l t lock) = record {
  key = k;
  at_end = λ h. absurd (no_transition t h);
}

SameEnd-trans : (r s t : Task) → SameEnd r s → SameEnd s t → SameEnd r t
SameEnd-trans r s t p q = ground (arith, p.at_end, q.at_end)

-- Whatever processes call whatever methods in whatever order, a task that is in a final state
-- keeps that state, its end time, its result and its error, and the table keeps its rows.
pub run_events-SameEnd :
    (events : List Event) (db : Db) → All₂ SameEnd db.tasks (run_events events db).tasks
unfolding run_events
run_events-SameEnd [] db =
    All₂-refl SameEnd (λ r. record { key = refl; at_end = λ h. (refl, refl, refl, refl) }) db.tasks
run_events-SameEnd ((env, self, c) ∷ events) db =
    let db' = (call c env self db).2 in
    All₂-trans SameEnd SameEnd-trans db.tasks db'.tasks (run_events events db').tasks
      (All₂-imp (RowStep env) SameEnd (RowStep-SameEnd env) db.tasks db'.tasks
        (call-RowStep env self db c))
      (run_events-SameEnd events db')
