-- ===== src/Scheduler/Pids.antt =====
-- What no switch, wake-up, wait or death changes: the table of tasks and their pids.
use first_os.Base.{
  ℕ, ◌≡◌, refl, ◌∙◌, inl, inr, List, [], ◌∷◌, ◌++◌, arith, ◌==◌, Option, none, some, Bool-cases,
}
use first_os.Scheduler.{
  Scheduler, Clock, Task, TaskState, ready, running, killed, WaitEvent, Condition, wakes, set_state,
  fire_one, fire_loop, cpu_scheduler_fire_cond, requeue, start_quantum, switch_to, switch_head,
  cpu_scheduler_next, dequeue, is_killed, kill_task, kill_found, cpu_scheduler_kill_by_pid,
  task_table_get_task, start_wait, cpu_scheduler_wait_arg,
}

abbrev pub SameTable : Scheduler → Scheduler → Type 0
SameTable s s' = (s'.entries ≡ s.entries) × ((a : ℕ) → (s'.tasks a).pid ≡ (s.tasks a).pid)

SameTable-trans : (s t u : Scheduler) → SameTable s t → SameTable t u → SameTable s u
SameTable-trans s t u (e, p) (f, q) = (f ∙ e, λ a. q a ∙ p a)

fire_one-SameTable :
    (event : WaitEvent) (cond : Condition) (t : ℕ) (s : Scheduler)
    → SameTable s (fire_one event cond t s)
unfolding fire_one
fire_one-SameTable event cond t s = elim (Bool-cases (wakes event cond (s.tasks t))) [
  | inl e ↦ rw e (refl, λ a. ground arith)
  | inr e ↦ rw e (refl, λ a. refl)
]

fire_loop-SameTable :
    (event : WaitEvent) (cond : Condition) (ts : List ℕ) (s : Scheduler)
    → SameTable s (fire_loop event cond ts s)
unfolding fire_loop
fire_loop-SameTable event cond [] s = (refl, λ a. refl)
fire_loop-SameTable event cond (t ∷ ts) s =
    SameTable-trans s (fire_one event cond t s) (fire_loop event cond ts (fire_one event cond t s))
      (fire_one-SameTable event cond t s)
      (fire_loop-SameTable event cond ts (fire_one event cond t s))

pub fire_cond-SameTable :
    (event : WaitEvent) (cond : Condition) (s : Scheduler)
    → SameTable s (cpu_scheduler_fire_cond event cond s)
unfolding cpu_scheduler_fire_cond
fire_cond-SameTable event cond s = fire_loop-SameTable event cond s.waiting_queue s

requeue-SameTable : (t : ℕ) (st : TaskState) (s : Scheduler) → SameTable s (requeue t st s)
unfolding requeue
requeue-SameTable t running s = (refl, λ a. ground arith)
requeue-SameTable t _ s = (refl, λ a. refl)

switch_to-SameTable : (next : ℕ) (s : Scheduler) → SameTable s (switch_to next s)
unfolding switch_to
switch_to-SameTable next s =
    let s1 = requeue s.current (s.tasks s.current).state s in
    let (e, p) = requeue-SameTable s.current (s.tasks s.current).state s in
    (e, λ a. renamed a s1.tasks ∙ p a)
  where
    renamed : (a : ℕ) (tasks : ℕ → Task) → (set_state next running tasks a).pid ≡ (tasks a).pid
    renamed a tasks = ground arith

switch_head-SameTable :
    (q : List ℕ) (clock : Clock) (s : Scheduler) → SameTable s (switch_head q clock s)
unfolding start_quantum
switch_head-SameTable [] clock s = (refl, λ a. refl)
switch_head-SameTable (next ∷ rest) clock s = switch_to-SameTable next (start_quantum clock s)

pub next-SameTable : (clock : Clock) (s : Scheduler) → SameTable s (cpu_scheduler_next clock s)
unfolding cpu_scheduler_next
next-SameTable clock s = elim (Bool-cases s.is_handling_interrupt) [
  | inl e ↦ simp e (refl, λ a. refl)
  | inr e ↦ simp e (switch_head-SameTable s.ready_queue clock s)
]

dequeue-SameTable : (t : ℕ) (st : TaskState) (s : Scheduler) → SameTable s (dequeue t st s)
unfolding dequeue
dequeue-SameTable t ready s = (refl, λ a. refl)
dequeue-SameTable t _ s = (refl, λ a. refl)

pub kill_task-SameTable : (t : ℕ) (s : Scheduler) → SameTable s (kill_task t s)
unfolding kill_task
kill_task-SameTable t s =
    let s1 = dequeue t (s.tasks t).state s in
    SameTable-trans s (moved s1) (kill_task t s)
      (moved_same s1 (dequeue-SameTable t (s.tasks t).state s)) (fire_cond-SameTable _ _ (moved s1))
  where
    moved : Scheduler → Scheduler
    moved s1 = record s1 {
      tasks = set_state t killed s1.tasks;
      killed_queue = s1.killed_queue ++ t ∷ [];
    }

    moved_same : (s1 : Scheduler) → SameTable s s1 → SameTable s (moved s1)
    moved_same s1 (e, p) = (e, λ a. renamed a s1.tasks ∙ p a)
      where
        renamed : (a : ℕ) (tasks : ℕ → Task) → (set_state t killed tasks a).pid ≡ (tasks a).pid
        renamed a tasks = ground arith

kill_found-SameTable :
    (o : Option ℕ) (pid : ℕ) (clock : Clock) (s : Scheduler)
    → SameTable s (kill_found o pid clock s).1
unfolding kill_found
kill_found-SameTable none pid clock s = (refl, λ a. refl)
kill_found-SameTable (some t) pid clock s = elim (Bool-cases (is_killed (s.tasks t).state)) [
  | inl dead ↦ rw dead (refl, λ a. refl)
  | inr alive ↦
      rw alive (elim (Bool-cases (pid == ((kill_task t s).tasks (kill_task t s).current).pid)) [
        | inl self ↦ rw self (
            SameTable-trans s (kill_task t s) (cpu_scheduler_next clock (kill_task t s))
              (kill_task-SameTable t s) (next-SameTable clock (kill_task t s)))
        | inr other ↦ rw other (kill_task-SameTable t s)
      ])
]

pub kill_by_pid-SameTable :
    (pid : ℕ) (clock : Clock) (s : Scheduler)
    → SameTable s (cpu_scheduler_kill_by_pid pid clock s).1
unfolding cpu_scheduler_kill_by_pid
kill_by_pid-SameTable pid clock s = kill_found-SameTable (task_table_get_task pid s) pid clock s

pub wait_arg-SameTable :
    (event : WaitEvent) (arg : ℕ) (clock : Clock) (s : Scheduler)
    → SameTable s (cpu_scheduler_wait_arg event arg clock s)
unfolding cpu_scheduler_wait_arg start_wait
wait_arg-SameTable event arg clock s =
    SameTable-trans s (start_wait event arg s) (cpu_scheduler_wait_arg event arg clock s)
      (refl, λ a. ground arith) (next-SameTable clock (start_wait event arg s))
