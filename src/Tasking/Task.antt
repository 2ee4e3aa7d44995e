-- ===== src/Tasking/Task.antt =====
-- The model `Task` of pulpcore/app/models/task.py and the states of pulpcore/constants.py.
-- A method takes the process that calls it (`Env`), the object in memory (`self`) and the
-- database, and returns its outcome, the object and the database.
pub mod Lifecycle
pub mod Invariant
pub mod Keys
pub mod Atomic
mod Tests
use pulpcore.Prelude.{
  ℕ, String, ◌≡◌, ◌↔◌, Bool, true, false, ◌&&◌, Option, none, some, List, [], ◌∷◌, arith, HasEq,
  ◌==◌, eq_nat, eq_string, nat_beq, opt_beq, if◌then◌else◌, update_where, count_where, first_where,
}

pub data TaskState : Type 0 where
  waiting skipped running completed failed canceled canceling : TaskState

abbrev state_number : TaskState → ℕ
state_number waiting = 0
state_number skipped = 1
state_number running = 2
state_number completed = 3
state_number failed = 4
state_number canceled = 5
state_number canceling = 6

abbrev pub state_beq : TaskState → TaskState → Bool
state_beq s t = nat_beq (state_number s) (state_number t)

pub state_beq_iff : (s t : TaskState) → (state_beq s t ≡ true) ↔ (s ≡ t)
state_beq_iff s t = ground arith

instance abbrev pub eq_state : HasEq TaskState
eq_state = record { same = state_beq; same_iff = state_beq_iff }

-- `state in TASK_INCOMPLETE_STATES`
abbrev pub is_incomplete : TaskState → Bool
is_incomplete waiting = true
is_incomplete running = true
is_incomplete canceling = true
is_incomplete _ = false

-- `state in TASK_FINAL_STATES`
abbrev pub is_final : TaskState → Bool
is_final skipped = true
is_final completed = true
is_final failed = true
is_final canceled = true
is_final _ = false

-- A row of the table of tasks. JSON values stand as text.
pub record Task : Type 0 where
  pub pk : ℕ
  pub state : TaskState
  pub pulp_created : ℕ
  pub unblocked_at : Option ℕ
  pub started_at : Option ℕ
  pub finished_at : Option ℕ
  pub error : Option String
  pub result : Option String
  pub app_lock : Option ℕ
  pub reserved_resources_record : Option (List String)
  pub immediate : Bool

-- What a task reads and writes of a progress report.
pub record Report : Type 0 where
  pub task : ℕ
  pub report_state : TaskState

pub record Db : Type 0 where
  pub tasks : List Task
  pub reports : List Report

-- The process that runs a method: its row of `AppStatus`, if it has one, and `timezone.now()`.
pub record Env : Type 0 where
  pub current : Option ℕ
  pub now : ℕ

pub data Outcome : Type 0 where
  returned runtime_error does_not_exist attribute_error assertion_error : Outcome

abbrev pub Method : Type 0
Method = Env → Task → Db → Outcome × Task × Db

-- `Task.objects.filter(p).update(f)`
abbrev pub update_tasks : (Task → Bool) → (Task → Task) → Db → Db
update_tasks p f db = record db { tasks = update_where p f db.tasks }

-- `self.refresh_from_db()` followed by `raise error`.
abbrev pub refresh_and_raise : Outcome → Task → Db → Outcome × Task × Db
refresh_and_raise error self db = elim (first_where (λ r. r.pk == self.pk) db.tasks) [
  | none ↦ (does_not_exist, self, db)
  | some row ↦ (error, row, db)
]

-- `_cleanup_progress_reports(state)`
abbrev pub cleanup_progress_reports : TaskState → Task → Db → Db
cleanup_progress_reports state self db = record db {
  reports =
      update_where (λ r. r.task == self.pk && r.report_state == running)
        (λ r. record r { report_state = state }) db.reports;
}

-- `AppStatus.objects.current()` raises where the process has no row.
abbrev pub has_status : Env → Bool
has_status env = elim env.current [ none ↦ false | some _ ↦ true ]

-- The rest of a method that reads it for its query: where it raises, nothing has been done yet.
unfoldable pub with_status : Env → Task → Db → Outcome × Task × Db → Outcome × Task × Db
with_status env self db rest = if has_status env then rest else (runtime_error, self, db)

-- `pk=self.pk, state=state, app_lock=AppStatus.objects.current()`
abbrev pub is_locked_in : TaskState → Env → Task → Task → Bool
is_locked_in state env self r =
    r.pk == self.pk && (r.state == state && opt_beq r.app_lock env.current)

unfoldable pub set_running : Method
set_running env self db =
    let test = is_locked_in waiting env self in
    let db' = update_tasks test (λ r. record r { state = running; started_at = some env.now }) db in
    with_status env self db (
      if count_where test db.tasks == 1
      then (returned, record self { state = running; started_at = some env.now }, db')
      else refresh_and_raise runtime_error self db')

-- What `set_completed` does where no row was updated.
abbrev pub set_completed_late : Task → Db → Outcome × Task × Db
set_completed_late self db = elim (first_where (λ r. r.pk == self.pk) db.tasks) [
  | none ↦ (does_not_exist, self, db)
  | some row ↦
      if row.state == canceling
      then (returned, row, cleanup_progress_reports completed row db)
      else (runtime_error, row, db)
]

unfoldable pub set_completed : Option String → Method
set_completed result env self db =
    let test = is_locked_in running env self in
    let change =
      λ (r : Task). record r { state = completed; finished_at = some env.now; result = result } in
    let db' = update_tasks test change db in
    with_status env self db (
      if count_where test db.tasks == 1
      then (returned, change self, cleanup_progress_reports completed self db')
      else set_completed_late self db')

-- `error` is the dictionary that `exception_to_dict` makes of the exception.
unfoldable pub set_failed : String → Method
set_failed error env self db =
    let test = is_locked_in running env self in
    let change =
      λ (r : Task). record r { state = failed; finished_at = some env.now; error = some error } in
    let db' = update_tasks test change db in
    with_status env self db (
      if count_where test db.tasks == 1
      then (returned, change self, cleanup_progress_reports failed self db')
      else refresh_and_raise runtime_error self db')

unfoldable pub set_canceling : Method
set_canceling env self db =
    let test = λ (r : Task). r.pk == self.pk && is_incomplete r.state in
    let db' = update_tasks test (λ r. record r { state = canceling }) db in
    if count_where test db.tasks == 1
    then (returned, record self { state = canceling }, db')
    else refresh_and_raise runtime_error self db'

-- `if reason: task_data["error"] = {"reason": reason}`: an empty reason counts as none.
abbrev pub with_reason : Option String → Task → Task
with_reason none r = r
with_reason (some reason) r = if reason == "" then r else record r { error = some reason }

-- `final_state in [TASK_STATES.CANCELED, TASK_STATES.FAILED]`
abbrev pub is_cancel_end : TaskState → Bool
is_cancel_end canceled = true
is_cancel_end failed = true
is_cancel_end _ = false

unfoldable pub set_canceled : TaskState → Option String → Method
set_canceled final_state reason env self db =
    let test = is_locked_in canceling env self in
    let change = λ (r : Task). record (with_reason reason r) {
      state = final_state;
      finished_at = some env.now;
    } in
    let db' = update_tasks test change db in
    if is_cancel_end final_state
    then with_status env self db (
        if count_where test db.tasks == 1
        then (returned, change self, cleanup_progress_reports final_state self db')
        else refresh_and_raise runtime_error self db')
    else (assertion_error, self, db)

-- `raise RuntimeError(...).format(...)` looks `format` up on the exception and so raises an
-- `AttributeError`; its arguments are read first, after the refresh.
unfoldable pub unblock : Method
unblock env self db =
    let test = λ (r : Task). r.pk == self.pk in
    let change = λ (r : Task). record r { unblocked_at = some env.now } in
    let db' = update_tasks test change db in
    if count_where test db.tasks == 1
    then (returned, change self, db')
    else refresh_and_raise attribute_error self db'

-- The same calls awaited.
abbrev pub aunblock : Method
aunblock = unblock

-- The methods of `Task` that write to the database.
pub data Call : Type 0 where
  run : Call
  complete : Option String → Call
  fail : String → Call
  cancel : Call
  finish_cancel : TaskState → Option String → Call
  mark_unblocked : Call

unfoldable pub call : Call → Method
call run = set_running
call (complete result) = set_completed result
call (fail error) = set_failed error
call cancel = set_canceling
call (finish_cancel final_state reason) = set_canceled final_state reason
call mark_unblocked = unblock

-- Calls one after the other, each by a process of its own on an object of its own.
abbrev pub Event : Type 0
Event = Env × Task × Call

unfoldable pub run_events : List Event → Db → Db
run_events [] db = db
run_events ((env, self, c) ∷ events) db = run_events events (call c env self db).2
