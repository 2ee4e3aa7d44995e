-- ===== src/Progress/Block.antt =====
-- A block in which no save of the progress report raises.
use pulpcore.Prelude.{
  ℕ, ◌+◌, ◌<◌, ◌≡◌, ◌≢◌, refl, ap, true, none, some, List, [], ◌∷◌, arith, Bool-cases, inl, inr,
}
use pulpcore.Tasking.Task.{TaskState}
use pulpcore.Progress.{
  Fields, ProgressReport, Moment, is_due, save, saved, enter, increase_by, increases, with_task,
  set_state, add_done, fine, is_storable, is_int32,
}

-- The sum of the calls.
abbrev pub sum : List (Moment × ℕ) → ℕ
sum [] = 0
sum ((_, count) ∷ calls) = count + sum calls

-- The columns take the fields, also with `n` more items done.
pub record HasRoom (n : ℕ) (f : Fields) : Type 0 where
  pub of_task : f.task ≢ none
  pub total : elim f.total [ none ↦ true | some total ↦ is_int32 total ] ≡ true
  pub done : f.done + n < 2147483648

pub HasRoom-with_task :
    (n : ℕ) (at : Moment) (f : Fields) → HasRoom n f → HasRoom n (with_task at f)
HasRoom-with_task n at f h = record {
  of_task = ground (arith, h.of_task);
  total = h.total;
  done = h.done;
}

pub HasRoom-storable : (n : ℕ) (f : Fields) → HasRoom n f → is_storable f ≡ true
HasRoom-storable n f h =
    let low : is_int32 f.done ≡ true = let b = h.done in ground arith in
    rw (low, h.total) (ground (arith, h.of_task))

pub saved-fields : (at : Moment) (p : ProgressReport) → (saved at p).fields ≡ with_task at p.fields
saved-fields at p = elim (Bool-cases (is_due at p)) [
  | inl due ↦ rw due refl
  | inr early ↦ rw early refl
]

pub save-saved :
    (n : ℕ) (at : Moment) (p : ProgressReport)
    → HasRoom n (with_task at p.fields)
    → save at p ≡ (fine, saved at p)
unfolding save
save-saved n at p h = rw (HasRoom-storable n (with_task at p.fields) h) (ground arith)

-- The object in the block, where no save raises.
abbrev pub entered : Moment → ProgressReport → ProgressReport
entered start p = record (saved start (set_state TaskState.running p)) {
  using_context_manager = true;
}

abbrev pub increased : List (Moment × ℕ) → ProgressReport → ProgressReport
increased [] p = p
increased ((at, count) ∷ calls) p = increased calls (saved at (add_done count p))

pub enter-entered :
    (n : ℕ) (start : Moment) (p : ProgressReport)
    → HasRoom n (with_task start p.fields)
    → enter start p ≡ (fine, entered start p)
unfolding enter
enter-entered n start p h =
    let room : HasRoom n (with_task start (set_state TaskState.running p).fields) = record {
      of_task = h.of_task;
      total = h.total;
      done = h.done;
    } in
    rw (save-saved n start (set_state TaskState.running p) room) refl

pub entered-HasRoom :
    (n : ℕ) (start : Moment) (p : ProgressReport)
    → HasRoom n (with_task start p.fields)
    → HasRoom n (entered start p).fields
entered-HasRoom n start p h =
    rw (saved-fields start (set_state TaskState.running p))
      (record { of_task = h.of_task; total = h.total; done = h.done })

pub add_done-HasRoom :
    (count n : ℕ) (p : ProgressReport)
    → HasRoom (count + n) p.fields
    → HasRoom n (add_done count p).fields
add_done-HasRoom count n p h = record {
  of_task = h.of_task;
  total = h.total;
  done = omega (arith, h.done);
}

pub saved-HasRoom :
    (n : ℕ) (at : Moment) (p : ProgressReport) → HasRoom n p.fields → HasRoom n (saved at p).fields
saved-HasRoom n at p h = rw (saved-fields at p) (HasRoom-with_task n at p.fields h)

pub increases-increased :
    (calls : List (Moment × ℕ)) (p : ProgressReport)
    → HasRoom (sum calls) p.fields
    → (increases calls p ≡ (fine, increased calls p)) × HasRoom 0 (increased calls p).fields
unfolding increases increase_by
increases-increased [] p h = (refl, h)
increases-increased ((at, count) ∷ calls) p h =
    let room = add_done-HasRoom count (sum calls) p h in
    let kept = HasRoom-with_task (sum calls) at (add_done count p).fields room in
    let next = saved-HasRoom (sum calls) at (add_done count p) room in
    let (rest, last) = increases-increased calls (saved at (add_done count p)) next in
    (rw (save-saved (sum calls) at (add_done count p) kept) rest, last)

pub increased-done :
    (calls : List (Moment × ℕ)) (p : ProgressReport)
    → (increased calls p).fields.done ≡ p.fields.done + sum calls
increased-done [] p = omega arith
increased-done ((at, count) ∷ calls) p =
    let next = saved at (add_done count p) in
    let kept : next.fields.done ≡ p.fields.done + count =
      ap (λ f. f.done) (saved-fields at (add_done count p)) in
    omega (arith, increased-done calls next, kept)

pub entered-done :
    (start : Moment) (p : ProgressReport) → (entered start p).fields.done ≡ p.fields.done
entered-done start p = ap (λ f. f.done) (saved-fields start (set_state TaskState.running p))
