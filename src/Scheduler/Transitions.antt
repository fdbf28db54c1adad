-- ===== src/Scheduler/Transitions.antt =====
-- The switch of src/kernel/task/cpu_scheduler.c, which changes the task that runs. It keeps the
-- scheduler's invariant.
use first_os.Base.{
  ℕ, ◌≡◌, ◌≢◌, refl, ap, ◌∙◌, inl, inr, true, List, [], ◌∷◌, arith, has, has-append, without,
  Bool-cases,
}
use first_os.Scheduler.{
  Scheduler, Clock, TaskState, ready, running, waiting, killed, set_state, requeue, start_quantum,
  switch_to, cpu_scheduler_next, switch_head,
}
use first_os.Scheduler.Invariant.{IsValid, is_ready, is_waiting, is_dead, enter, leave, pass}
use first_os.Scheduler.Preserve.{readied}

-- No task of the table runs: the state between the two halves of a switch.
abbrev Stopped : Scheduler → Type 0
Stopped s = (t : ℕ) → has t s.entries ≡ true → (s.tasks t).state ≢ running

requeue_running :
    {s : Scheduler}
    → IsValid s
    → (s.tasks s.current).state ≡ running
    → IsValid (requeue s.current running s) × Stopped (requeue s.current running s)
unfolding requeue
requeue_running {s} v e = (
  record {
    readies = enter s.current ready v.readies (v.current_known e) (ap is_ready e) refl;
    waiters = pass s.current ready v.waiters (ap is_waiting e) refl;
    corpses = pass s.current ready v.corpses (ap is_dead e) refl;
    one_runs = λ a k r. absurd (stopped a k r);
    current_known = λ r. v.current_known e;
    entries_distinct = v.entries_distinct;
  },
  stopped,
)
  where
    stopped :
        (a : ℕ) → has a s.entries ≡ true → (set_state s.current ready s.tasks a).state ≢ running
    stopped a k r = ground (arith, v.one_runs a)

-- What the current task's state says of the others.
requeue_lem :
    (st : TaskState) {s : Scheduler}
    → IsValid s
    → (s.tasks s.current).state ≡ st
    → IsValid (requeue s.current st s) × Stopped (requeue s.current st s)
unfolding requeue
requeue_lem running v e = requeue_running v e
requeue_lem ready {s} v e =
    (v, λ t k r. let same = v.one_runs t k r in cc (ap (λ (x : ℕ). (s.tasks x).state) same))
requeue_lem waiting {s} v e =
    (v, λ t k r. let same = v.one_runs t k r in cc (ap (λ (x : ℕ). (s.tasks x).state) same))
requeue_lem killed {s} v e =
    (v, λ t k r. let same = v.one_runs t k r in cc (ap (λ (x : ℕ). (s.tasks x).state) same))

-- The second half: a ready task of a state where none runs becomes the current one.
resume :
    (next : ℕ) {s : Scheduler}
    → IsValid s
    → Stopped s
    → has next s.ready_queue ≡ true
    → IsValid (record s {
      tasks = set_state next running s.tasks;
      ready_queue = without next s.ready_queue;
      current = next;
    })
resume next {s} v stopped h =
    let (known, was) = readied next v h in
    record {
      readies = leave next running v.readies refl;
      waiters = pass next running v.waiters (ap is_waiting was) refl;
      corpses = pass next running v.corpses (ap is_dead was) refl;
      one_runs = λ a k r. only a k r;
      current_known = λ r. known;
      entries_distinct = v.entries_distinct;
    }
  where
    only :
        (a : ℕ)
        → has a s.entries ≡ true
        → (set_state next running s.tasks a).state ≡ running
        → a ≡ next
    only a k r = ground (arith, stopped a k)

requeue-ready_queue :
    (next : ℕ) (st : TaskState) (s : Scheduler)
    → has next s.ready_queue ≡ true
    → has next (requeue s.current st s).ready_queue ≡ true
unfolding requeue
requeue-ready_queue next running s h = has-append next s.ready_queue (s.current ∷ []) ∙ ground arith
requeue-ready_queue next _ s h = h

start_quantum-IsValid :
    (clock : Clock) {s : Scheduler} → IsValid s → IsValid (start_quantum clock s)
unfolding start_quantum
start_quantum-IsValid clock v = record {
  readies = v.readies;
  waiters = v.waiters;
  corpses = v.corpses;
  one_runs = v.one_runs;
  current_known = v.current_known;
  entries_distinct = v.entries_distinct;
}

switch_to-IsValid :
    (next : ℕ) {s : Scheduler}
    → IsValid s
    → has next s.ready_queue ≡ true
    → IsValid (switch_to next s)
unfolding switch_to
switch_to-IsValid next {s} v h =
    let (v1, stopped) = requeue_lem (s.tasks s.current).state v refl in
    resume next v1 stopped (requeue-ready_queue next (s.tasks s.current).state s h)

switch_head-IsValid :
    (q : List ℕ) (clock : Clock) {s : Scheduler}
    → IsValid s
    → s.ready_queue ≡ q
    → IsValid (switch_head q clock s)
unfolding start_quantum
switch_head-IsValid [] clock v e = v
switch_head-IsValid (next ∷ rest) clock {s} v e =
    switch_to-IsValid next (start_quantum-IsValid clock v) (ap (has next) e ∙ ground arith)

-- `cpu_scheduler_next` keeps the invariant, also where it only asks for a later switch.
pub cpu_scheduler_next-IsValid :
    (clock : Clock) {s : Scheduler} → IsValid s → IsValid (cpu_scheduler_next clock s)
unfolding cpu_scheduler_next
cpu_scheduler_next-IsValid clock {s} v = elim (Bool-cases s.is_handling_interrupt) [
  | inl h ↦ simp h (record {
    readies = v.readies;
    waiters = v.waiters;
    corpses = v.corpses;
    one_runs = v.one_runs;
    current_known = v.current_known;
    entries_distinct = v.entries_distinct;
  })
  | inr h ↦ simp h (switch_head-IsValid s.ready_queue clock v refl)
]
