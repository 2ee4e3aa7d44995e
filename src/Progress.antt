-- ===== src/Progress.antt =====
-- `ProgressReport` of pulpcore/app/models/progress.py: the Python object with its row in the
-- database. Times are milliseconds.
pub mod Block
pub mod Saving
mod Tests
use pulpcore.Prelude.{
  ℕ, ◌+◌, String, Bool, true, false, ◌&&◌, not, Option, none, some, List, [], ◌∷◌, if◌then◌else◌,
  leb, ltb,
}
use pulpcore.Tasking.Task.{TaskState}

-- The columns.
pub record Fields : Type 0 where
  pub message : String
  pub code : String
  pub state : TaskState
  pub total : Option ℕ
  pub done : ℕ
  pub suffix : Option String
  pub task : Option ℕ

-- The object; `row` is what the database has of it.
pub record ProgressReport : Type 0 where
  pub fields : Fields
  pub using_context_manager : Bool
  pub last_save_time : Option ℕ
  pub row : Option Fields

-- `timezone.now()` and `Task.current()`.
pub record Moment : Type 0 where
  pub now : ℕ
  pub current_task : Option ℕ

abbrev pub batch_interval : ℕ
batch_interval = 2000

abbrev pub set_task : Option ℕ → Option ℕ → Option ℕ
set_task (some task) current = some task
set_task none current = current

abbrev pub with_task : Moment → Fields → Fields
with_task at f = record f { task = set_task f.task at.current_task }

-- The rate limit: inside the context a save waits until the interval has passed.
abbrev pub is_due : Moment → ProgressReport → Bool
is_due at p = elim p.last_save_time [
  | none ↦ true
  | some last ↦ if p.using_context_manager then leb (last + batch_interval) at.now else true
]

-- What the columns take: a report of a task, and 32-bit integers.
abbrev pub is_int32 : ℕ → Bool
is_int32 n = ltb n 2147483648

abbrev pub is_storable : Fields → Bool
is_storable f =
    elim f.task [ none ↦ false | some task ↦ true ]
    && (is_int32 f.done && elim f.total [ none ↦ true | some total ↦ is_int32 total ])

-- How a save ends: normally, or by a `DatabaseError`.
pub data Ended : Type 0 where
  fine database_error : Ended

-- The object after a save that ended normally.
abbrev pub saved : Moment → ProgressReport → ProgressReport
saved at p =
    let f = with_task at p.fields in
    if is_due at p
    then record p { fields = f; last_save_time = some at.now; row = some f }
    else record p { fields = f }

-- A row that the columns do not take is refused: the object has its task, and the row is as before.
unfoldable pub save : Moment → ProgressReport → Ended × ProgressReport
save at p =
    let f = with_task at p.fields in
    if is_due at p && not (is_storable f)
    then (database_error, record p { fields = f })
    else (fine, saved at p)

-- The same calls awaited.
abbrev pub asave : Moment → ProgressReport → Ended × ProgressReport
asave = save

-- What follows a call, unless that raised.
abbrev pub and_then :
    Ended × ProgressReport → (ProgressReport → Ended × ProgressReport) → Ended × ProgressReport
and_then (fine, p) rest = rest p
and_then (database_error, p) rest = (database_error, p)

abbrev pub set_state : TaskState → ProgressReport → ProgressReport
set_state state p = record p { fields = record (p.fields) { state = state } }

unfoldable pub enter : Moment → ProgressReport → Ended × ProgressReport
enter at p =
    and_then (save at (set_state TaskState.running p))
      λ q. (fine, record q { using_context_manager = true })

abbrev pub aenter : Moment → ProgressReport → Ended × ProgressReport
aenter = enter

-- How the block ended: without an exception, by `CancelledError` or by another exception.
pub data Ending : Type 0 where
  no_exception cancelled_error other_exception : Ending

abbrev pub end_state : Ending → TaskState
end_state Ending.no_exception = TaskState.completed
end_state Ending.cancelled_error = TaskState.canceled
end_state Ending.other_exception = TaskState.failed

unfoldable pub exit : Moment → Ending → ProgressReport → Ended × ProgressReport
exit at ending p =
    save at (set_state (end_state ending) (record p { using_context_manager = false }))

abbrev pub aexit : Moment → Ending → ProgressReport → Ended × ProgressReport
aexit = exit

abbrev pub add_done : ℕ → ProgressReport → ProgressReport
add_done count p = record p { fields = record (p.fields) { done = p.fields.done + count } }

-- `increase_by`; its warning about too many items goes to the log.
unfoldable pub increase_by : Moment → ℕ → ProgressReport → Ended × ProgressReport
increase_by at count p = save at (add_done count p)

abbrev pub aincrease_by : Moment → ℕ → ProgressReport → Ended × ProgressReport
aincrease_by = increase_by

abbrev pub increment : Moment → ProgressReport → Ended × ProgressReport
increment at p = increase_by at 1 p

abbrev pub aincrement : Moment → ProgressReport → Ended × ProgressReport
aincrement = increment

-- A loop over `iter(items)` to its end; `moments` are the times at which the items are done.
unfoldable pub iterate : List Moment → ProgressReport → Ended × ProgressReport
iterate [] p = (fine, p)
iterate (at ∷ moments) p = and_then (increment at p) (iterate moments)

-- Calls of `increase_by` in the block.
unfoldable pub increases : List (Moment × ℕ) → ProgressReport → Ended × ProgressReport
increases [] p = (fine, p)
increases ((at, count) ∷ calls) p = and_then (increase_by at count p) (increases calls)

-- The end of the block: an error in it is another exception for `__exit__`, and goes on.
abbrev pub leave : Moment → Ending → Ended × ProgressReport → Ended × ProgressReport
leave stop ending (fine, p) = exit stop ending p
leave stop ending (database_error, p) = (database_error, (exit stop Ending.other_exception p).1)

-- `with report: ...`, where the calls are followed by the end of the block.
unfoldable pub with_report :
    Moment → List (Moment × ℕ) → Moment → Ending → ProgressReport → Ended × ProgressReport
unfolding enter exit increases
with_report start calls stop ending p =
    and_then (enter start p) λ q. leave stop ending (increases calls q)
