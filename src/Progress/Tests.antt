-- ===== src/Progress/Tests.antt =====
-- A report of three items in a block, with a clock that the rate limit meets once.
use pulpcore.Prelude.{arith, ℕ, ◌+◌, ◌≡◌, refl, false, none, some, List, [], ◌∷◌}
use pulpcore.Tasking.Task.{TaskState}
use pulpcore.Progress.{
  ProgressReport, Moment, Ending, exit, and_then, fine, database_error, with_task, saved, set_state,
  enter, increases, increase_by, save, with_report,
}
use pulpcore.Progress.Block.{HasRoom, sum}
use pulpcore.Progress.Saving.{IsSaved, IsBehind, with_report-IsSaved, enter-increases-IsBehind}

abbrev at : ℕ → Moment
at now = record { now = now; current_task = some 7 }

abbrev fresh : ProgressReport
fresh = record {
  fields = record {
    message = "Publishing files";
    code = "publish";
    state = TaskState.waiting;
    total = some 3;
    done = 0;
    suffix = none;
    task = none;
  };
  using_context_manager = false;
  last_save_time = none;
  row = none;
}

abbrev three_items : List (Moment × ℕ)
three_items = (at 100, 1) ∷ (at 2100, 1) ∷ (at 2200, 1) ∷ []

-- The row while the block runs: the third item is not saved yet.
two_shown :
    (and_then (enter (at 0) fresh) (increases three_items)).1.row
    ≡ some (record {
      message = "Publishing files";
      code = "publish";
      state = TaskState.running;
      total = some 3;
      done = 2;
      suffix = none;
      task = some 7;
    })
unfolding increases enter increase_by save
two_shown = refl

three_items-HasRoom : HasRoom (sum three_items) (with_task (at 0) fresh.fields)
three_items-HasRoom = record { of_task = λ e. cc e; total = refl; done = omega arith }

with_report-IsSaved_example :
    (q : ProgressReport) × (with_report (at 0) three_items (at 2300) Ending.cancelled_error fresh
      ≡ (fine, q))
    × IsSaved (0 + sum three_items) Ending.cancelled_error q
with_report-IsSaved_example =
    with_report-IsSaved (at 0) three_items (at 2300) Ending.cancelled_error fresh
      three_items-HasRoom

enter-increases-IsBehind_example :
    (q : ProgressReport) × (and_then (enter (at 0) fresh) (increases three_items) ≡ (fine, q))
    × IsBehind q
enter-increases-IsBehind_example =
    enter-increases-IsBehind (at 0) three_items fresh refl three_items-HasRoom

abbrev no_task : Moment
no_task = record { now = 0; current_task = none }

-- A count that the column does not take ends the block as failed, and that is not saved either.
too_many :
    let out = with_report (at 0) ((at 2100, 2147483648) ∷ []) (at 2300) Ending.no_exception fresh in
    (out.0 ≡ database_error)
    × (out.1.fields.state ≡ TaskState.failed)
    × (out.1.row ≡ (saved (at 0) (set_state TaskState.running fresh)).row)
unfolding with_report enter exit increases increase_by save
too_many = (refl, refl, refl)
