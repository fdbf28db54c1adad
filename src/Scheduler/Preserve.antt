-- ===== src/Scheduler/Preserve.antt =====
-- Each step of src/kernel/task/cpu_scheduler.c keeps the scheduler's invariant.
use first_os.Base.{
  ℕ, ◌≡◌, ◌≢◌, refl, ap, ◌∙◌, inl, inr, true, false, List, [], ◌∷◌, ◌++◌, arith, has, has-append,
  has-without, Distinct, Distinct-snoc, Bool-cases,
}
use first_os.Scheduler.{
  Scheduler, TaskState, ready, running, waiting, killed, WaitEvent, Condition, wakes, set_state,
  task_table_add_task, cpu_scheduler_add_task, fire_one, fire_loop, cpu_scheduler_fire_cond,
}
use first_os.Scheduler.Invariant.{IsValid, is_ready, is_waiting, is_dead, enter, leave, pass}

waiting_of : (st : TaskState) → is_waiting st ≡ true → st ≡ waiting
waiting_of ready h = cc
waiting_of running h = cc
waiting_of waiting h = refl
waiting_of killed h = cc

ready_of : (st : TaskState) → is_ready st ≡ true → st ≡ ready
ready_of ready h = refl
ready_of running h = cc
ready_of waiting h = cc
ready_of killed h = cc

-- What the waiting and the ready queue say of their members.
pub waiter :
    (t : ℕ) {s : Scheduler}
    → IsValid s
    → has t s.waiting_queue ≡ true
    → (has t s.entries ≡ true) × ((s.tasks t).state ≡ waiting)
waiter t {s} v h =
    let m = v.waiters.members t in (ground arith, waiting_of (s.tasks t).state (ground arith))

pub readied :
    (t : ℕ) {s : Scheduler}
    → IsValid s
    → has t s.ready_queue ≡ true
    → (has t s.entries ≡ true) × ((s.tasks t).state ≡ ready)
readied t {s} v h =
    let m = v.readies.members t in (ground arith, ready_of (s.tasks t).state (ground arith))

pub fire_one-IsValid :
    (event : WaitEvent) (cond : Condition) (t : ℕ) {s : Scheduler}
    → IsValid s
    → has t s.waiting_queue ≡ true
    → IsValid (fire_one event cond t s)
unfolding fire_one
fire_one-IsValid event cond t {s} v h = elim (Bool-cases (wakes event cond (s.tasks t))) [
  | inr no_wake ↦ rw no_wake v
  | inl wake ↦
      let (known, asleep) = waiter t v h in
      rw wake (record {
        readies = enter t ready v.readies known (ap is_ready asleep) refl;
        waiters = leave t ready v.waiters refl;
        corpses = pass t ready v.corpses (ap is_dead asleep) refl;
        one_runs = λ a k r. runs_still a k r;
        current_known = λ r. known_still r;
        entries_distinct = v.entries_distinct;
      })
]
  where
    runs_still :
        (a : ℕ)
        → has a s.entries ≡ true
        → (set_state t ready s.tasks a).state ≡ running
        → a ≡ s.current
    runs_still a k r = ground (arith, v.one_runs a)

    known_still :
        (set_state t ready s.tasks s.current).state ≡ running → has s.current s.entries ≡ true
    known_still r = ground (arith, v.current_known)

kept_waiting :
    (event : WaitEvent) (cond : Condition) (t a : ℕ) {s : Scheduler}
    → IsValid s
    → a ≢ t
    → has a s.waiting_queue ≡ true
    → has a (fire_one event cond t s).waiting_queue ≡ true
unfolding fire_one
kept_waiting event cond t a {s} v ne h = elim (Bool-cases (wakes event cond (s.tasks t))) [
  | inr no_wake ↦ rw no_wake h
  | inl wake ↦ rw wake (has-without a t s.waiting_queue v.waiters.distinct ∙ ground arith)
]

pub fire_loop-IsValid :
    (event : WaitEvent) (cond : Condition) (ts : List ℕ) {s : Scheduler}
    → IsValid s
    → Distinct ts
    → ((a : ℕ) → has a ts ≡ true → has a s.waiting_queue ≡ true)
    → IsValid (fire_loop event cond ts s)
unfolding fire_loop
fire_loop-IsValid event cond [] v d sub = v
fire_loop-IsValid event cond (t ∷ ts) {s} v d sub =
    fire_loop-IsValid event cond ts (fire_one-IsValid event cond t v (sub t (ground arith))) d.1
      λ a h.
        kept_waiting event cond t a v (λ e. cc (ap (λ (x : ℕ). has x ts) e, d.0))
          (sub a (ground arith))

-- A wake-up keeps the queues and the states in step, whatever the event and the condition.
pub cpu_scheduler_fire_cond-IsValid :
    (event : WaitEvent) (cond : Condition) {s : Scheduler}
    → IsValid s
    → IsValid (cpu_scheduler_fire_cond event cond s)
unfolding cpu_scheduler_fire_cond
cpu_scheduler_fire_cond-IsValid event cond {s} v =
    fire_loop-IsValid event cond s.waiting_queue v v.waiters.distinct (λ a h. h)

-- A task that is new to the table enters it as ready.
pub cpu_scheduler_add_task-IsValid :
    (t : ℕ) {s : Scheduler}
    → IsValid s
    → has t s.entries ≡ false
    → IsValid (cpu_scheduler_add_task t s)
unfolding cpu_scheduler_add_task task_table_add_task
cpu_scheduler_add_task-IsValid t {s} v new = record {
  readies = record {
    members = λ a. ground (
      arith,
      has-append a s.ready_queue (t ∷ []),
      has-append a s.entries (t ∷ []),
      v.readies.members a,
    );
    distinct =
        Distinct-snoc s.ready_queue t v.readies.distinct (ground (arith, v.readies.members t));
  };
  waiters = record {
    members = λ a. ground (arith, has-append a s.entries (t ∷ []), v.waiters.members a);
    distinct = v.waiters.distinct;
  };
  corpses = record {
    members = λ a. ground (arith, has-append a s.entries (t ∷ []), v.corpses.members a);
    distinct = v.corpses.distinct;
  };
  one_runs = λ a k r. runs_still a k r;
  current_known = λ r. known_still r;
  entries_distinct = Distinct-snoc s.entries t v.entries_distinct new;
}
  where
    runs_still :
        (a : ℕ)
        → has a (s.entries ++ t ∷ []) ≡ true
        → (set_state t ready s.tasks a).state ≡ running
        → a ≡ s.current
    runs_still a k r = ground (arith, v.one_runs a, has-append a s.entries (t ∷ []))

    known_still :
        (set_state t ready s.tasks s.current).state ≡ running
        → has s.current (s.entries ++ t ∷ []) ≡ true
    known_still r = ground (arith, v.current_known, has-append s.current s.entries (t ∷ []))
