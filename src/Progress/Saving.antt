-- ===== src/Progress/Saving.antt =====
-- What the database has of a progress report while its block runs and after it.
use pulpcore.Prelude.{
  ℕ, ◌+◌, ◌≤◌, ◌≡◌, refl, false, Option, none, some, List, [], ◌∷◌, arith, Bool-cases, inl, inr,
}
use pulpcore.Tasking.Task.{TaskState}
use pulpcore.Progress.{
  Fields, ProgressReport, Moment, is_due, saved, enter, exit, Ending, end_state, increases,
  with_report, with_task, set_state, add_done, fine, and_then,
}
use pulpcore.Progress.Block.{
  sum, HasRoom, HasRoom-with_task, save-saved, entered, increased, enter-entered, entered-HasRoom,
  increases-increased, increased-done, entered-done,
}

-- After the block, in whatever way it ended and whatever the clock showed: the row is what the object
-- has, its state says how the block ended, and its count is the count before the block and all the
-- increases in it.
pub record IsSaved (before : ℕ) (ending : Ending) (p : ProgressReport) : Type 0 where
  pub row : p.row ≡ some p.fields
  pub state : p.fields.state ≡ end_state ending
  pub done : p.fields.done ≡ before
  pub outside : p.using_context_manager ≡ false

abbrev outside_block : Ending → ProgressReport → ProgressReport
outside_block ending p = set_state (end_state ending) (record p { using_context_manager = false })

saved-IsSaved :
    (stop : Moment) (ending : Ending) (p : ProgressReport)
    → IsSaved p.fields.done ending (saved stop (outside_block ending p))
saved-IsSaved stop ending p = go p.last_save_time refl
  where
    go :
        (o : Option ℕ)
        → p.last_save_time ≡ o
        → IsSaved p.fields.done ending (saved stop (outside_block ending p))
    go none e = rw e (record { row = refl; state = refl; done = refl; outside = refl })
    go (some t) e = rw e (record { row = refl; state = refl; done = refl; outside = refl })

exit-IsSaved :
    (stop : Moment) (ending : Ending) (p : ProgressReport)
    → HasRoom 0 p.fields
    → (exit stop ending p ≡ (fine, saved stop (outside_block ending p)))
      × IsSaved p.fields.done ending (saved stop (outside_block ending p))
unfolding exit
exit-IsSaved stop ending p h =
    let room =
      HasRoom-with_task 0 stop (outside_block ending p).fields
        (record { of_task = h.of_task; total = h.total; done = h.done }) in
    (save-saved 0 stop (outside_block ending p) room, saved-IsSaved stop ending p)

-- Where the report or the process has a task, and the total and the count with all the increases of
-- the block are 32-bit integers, no save of the block raises, whatever the clock shows and however the
-- block ends: the row in the database after the block equals the object, its state is that of the
-- ending, and its count is the count before the block with all the increases of the block.
pub with_report-IsSaved :
    (start : Moment) (calls : List (Moment × ℕ)) (stop : Moment) (ending : Ending)
    (p : ProgressReport)
    → HasRoom (sum calls) (with_task start p.fields)
    → (q : ProgressReport) × (with_report start calls stop ending p ≡ (fine, q))
      × IsSaved (p.fields.done + sum calls) ending q
unfolding with_report
with_report-IsSaved start calls stop ending p h =
    let inside = entered start p in
    let last = increased calls inside in
    let (ran, room) = increases-increased calls inside (entered-HasRoom (sum calls) start p h) in
    let (left, e) = exit-IsSaved stop ending last room in
    (
      saved stop (outside_block ending last),
      rw (enter-entered (sum calls) start p h, ran) left,
      record {
        row = e.row;
        state = e.state;
        done = omega (arith, e.done, increased-done calls inside, entered-done start p);
        outside = e.outside;
      },
    )

-- A row that may lag behind the object, but shows a running report and no item that is not done.
pub record IsBehind (p : ProgressReport) : Type 0 where
  pub shown : Fields
  pub row : p.row ≡ some shown
  pub shown_running : shown.state ≡ TaskState.running
  pub running : p.fields.state ≡ TaskState.running
  pub no_more : shown.done ≤ p.fields.done

saved-IsBehind :
    (at : Moment) (count : ℕ) (p : ProgressReport)
    → IsBehind p
    → IsBehind (saved at (add_done count p))
saved-IsBehind at count p b =
    let next = add_done count p in
    elim (Bool-cases (is_due at next)) [
      | inl due ↦ rw due (record {
        shown = with_task at next.fields;
        row = refl;
        shown_running = b.running;
        running = b.running;
        no_more = omega arith;
      })
      | inr early ↦ rw early (record {
        shown = b.shown;
        row = b.row;
        shown_running = b.shown_running;
        running = b.running;
        no_more = omega (arith, b.no_more);
      })
    ]

increased-IsBehind :
    (calls : List (Moment × ℕ)) (p : ProgressReport) → IsBehind p → IsBehind (increased calls p)
increased-IsBehind [] p b = b
increased-IsBehind ((at, count) ∷ calls) p b =
    increased-IsBehind calls (saved at (add_done count p)) (saved-IsBehind at count p b)

entered-IsBehind :
    (start : Moment) (p : ProgressReport)
    → p.using_context_manager ≡ false
    → IsBehind (entered start p)
entered-IsBehind start p out = go p.last_save_time refl
  where
    go : (o : Option ℕ) → p.last_save_time ≡ o → IsBehind (entered start p)
    go none e = rw e (record {
      shown = with_task start (set_state TaskState.running p).fields;
      row = refl;
      shown_running = refl;
      running = refl;
      no_more = omega arith;
    })
    go (some t) e =
        rw (e, out)
          (record {
            shown = with_task start (set_state TaskState.running p).fields;
            row = refl;
            shown_running = refl;
            running = refl;
            no_more = omega arith;
          })

-- While the block runs, after any number of increases, the row in the database shows the state running
-- and never more items than the object has counted, for a report that is not in a block before, where
-- the report or the process has a task and the total and the count with all the increases are 32-bit
-- integers; no save raises then.
pub enter-increases-IsBehind :
    (start : Moment) (calls : List (Moment × ℕ)) (p : ProgressReport)
    → p.using_context_manager ≡ false
    → HasRoom (sum calls) (with_task start p.fields)
    → (q : ProgressReport) × (and_then (enter start p) (increases calls) ≡ (fine, q)) × IsBehind q
enter-increases-IsBehind start calls p out h = (
  increased calls (entered start p),
  rw (enter-entered (sum calls) start p h)
      (increases-increased calls (entered start p) (entered-HasRoom (sum calls) start p h)).0,
  increased-IsBehind calls (entered start p) (entered-IsBehind start p out),
)
