-- ===== src/Scheduler/Leaving.antt =====
-- The steps of src/kernel/task/cpu_scheduler.c in which a task leaves the processor: its death and its
-- wait. Each keeps the scheduler's invariant.
use first_os.Base.{
  ℕ, ◌≡◌, refl, ap, sym, ◌∙◌, inl, inr, Bool, true, false, ◌&&◌, List, [], ◌∷◌, ◌++◌, arith, ◌==◌,
  if◌then◌else◌, has, Option, none, some, Bool-cases, ==→eq,
}
use first_os.Scheduler.{
  Scheduler, Clock, Task, TaskState, ready, running, waiting, killed, WaitEvent, set_state, dequeue,
  is_killed, kill_task, kill_found, find_pid, task_table_get_task, start_wait,
  cpu_scheduler_wait_arg, cpu_scheduler_kill_by_pid,
}
use first_os.Scheduler.Invariant.{
  QueueOf, IsValid, is_ready, is_waiting, is_dead, enter, leave, pass,
}
use first_os.Scheduler.Preserve.{cpu_scheduler_fire_cond-IsValid}
use first_os.Scheduler.Transitions.{cpu_scheduler_next-IsValid}

-- The death of a task of the table, after it has left the queue of its state `st`.
pub kill_moved :
    (t : ℕ) (st : TaskState) {s : Scheduler}
    → IsValid s
    → has t s.entries ≡ true
    → (s.tasks t).state ≡ st
    → is_killed st ≡ false
    → let s1 = dequeue t st s in
      IsValid (record s1 {
        tasks = set_state t killed s1.tasks;
        killed_queue = s1.killed_queue ++ t ∷ [];
      })
unfolding dequeue
kill_moved t ready {s} v known e h = record {
  readies = leave t killed v.readies refl;
  waiters = pass t killed v.waiters (ap is_waiting e) refl;
  corpses = enter t killed v.corpses known (ap is_dead e) refl;
  one_runs = λ a k r. ground (arith, v.one_runs a);
  current_known = λ r. ground (arith, v.current_known);
  entries_distinct = v.entries_distinct;
}
kill_moved t waiting {s} v known e h = record {
  readies = pass t killed v.readies (ap is_ready e) refl;
  waiters = leave t killed v.waiters refl;
  corpses = enter t killed v.corpses known (ap is_dead e) refl;
  one_runs = λ a k r. ground (arith, v.one_runs a);
  current_known = λ r. ground (arith, v.current_known);
  entries_distinct = v.entries_distinct;
}
kill_moved t running {s} v known e h = record {
  readies = pass t killed v.readies (ap is_ready e) refl;
  waiters = pass t killed v.waiters (ap is_waiting e) refl;
  corpses = enter t killed v.corpses known (ap is_dead e) refl;
  one_runs = λ a k r. ground (arith, v.one_runs a);
  current_known = λ r. ground (arith, v.current_known);
  entries_distinct = v.entries_distinct;
}
kill_moved t killed v known e h = cc

kill_task-IsValid :
    (t : ℕ) {s : Scheduler}
    → IsValid s
    → has t s.entries ≡ true
    → is_killed (s.tasks t).state ≡ false
    → IsValid (kill_task t s)
unfolding kill_task
kill_task-IsValid t {s} v known h =
    cpu_scheduler_fire_cond-IsValid _ _ (kill_moved t (s.tasks t).state v known refl h)

pub find_pid-has :
    (tasks : ℕ → Task) (pid : ℕ) (ts : List ℕ) {t : ℕ}
    → find_pid tasks pid ts ≡ some t
    → (has t ts ≡ true) × ((tasks t).pid ≡ pid)
unfolding find_pid
find_pid-has tasks pid [] h = cc
find_pid-has tasks pid (x ∷ xs) {t} h = elim (Bool-cases ((tasks x).pid == pid)) [
  | inl e ↦
      let found : some x ≡ some t = rw e at h in
      let same : x ≡ t = cc in (ground arith, ap (λ y. (tasks y).pid) (sym same) ∙ ==→eq _ _ e)
  | inr e ↦ let (k, p) = find_pid-has tasks pid xs (rw e at h) in (ground arith, p)
]

kill_found-IsValid :
    (o : Option ℕ) (pid : ℕ) (clock : Clock) {s : Scheduler}
    → task_table_get_task pid s ≡ o
    → IsValid s
    → IsValid (kill_found o pid clock s).1
unfolding kill_found task_table_get_task
kill_found-IsValid none pid clock f v = v
kill_found-IsValid (some t) pid clock {s} f v = elim (Bool-cases (is_killed (s.tasks t).state)) [
  | inl dead ↦ rw dead v
  | inr alive ↦
      let v' = kill_task-IsValid t v (find_pid-has s.tasks pid s.entries f).0 alive in
      rw alive (elim (Bool-cases (pid == ((kill_task t s).tasks (kill_task t s).current).pid)) [
        | inl self ↦ rw self (cpu_scheduler_next-IsValid clock v')
        | inr other ↦ rw other v'
      ])
]

-- Killing by pid keeps the invariant on every path: no such task, a dead one, another one, oneself.
pub cpu_scheduler_kill_by_pid-IsValid :
    (pid : ℕ) (clock : Clock) {s : Scheduler}
    → IsValid s
    → IsValid (cpu_scheduler_kill_by_pid pid clock s).1
unfolding cpu_scheduler_kill_by_pid
cpu_scheduler_kill_by_pid-IsValid pid clock {s} v =
    kill_found-IsValid (task_table_get_task pid s) pid clock refl v

-- A queue speaks of a task's state alone.
retasked :
    {pick : TaskState → Bool} {q entries : List ℕ} {tasks : ℕ → Task} (tasks' : ℕ → Task)
    → ((a : ℕ) → (tasks' a).state ≡ (tasks a).state)
    → QueueOf pick q entries tasks
    → QueueOf pick q entries tasks'
retasked {pick} {entries} tasks' same v = record {
  members = λ a. v.members a ∙ ap (λ st. has a entries && pick st) (sym (same a));
  distinct = v.distinct;
}

-- A running task of the table that waits moves to the waiting queue.
start_wait-IsValid :
    (event : WaitEvent) (arg : ℕ) {s : Scheduler}
    → IsValid s
    → (s.tasks s.current).state ≡ running
    → IsValid (start_wait event arg s)
unfolding start_wait
start_wait-IsValid event arg {s} v e = record {
  readies = retasked _ same (pass s.current waiting v.readies (ap is_ready e) refl);
  waiters =
      retasked _ same
        (enter s.current waiting v.waiters (v.current_known e) (ap is_waiting e) refl);
  corpses = retasked _ same (pass s.current waiting v.corpses (ap is_dead e) refl);
  one_runs = λ a k r. runs_still a k r;
  current_known = λ r. v.current_known e;
  entries_distinct = v.entries_distinct;
}
  where
    after : ℕ → Task
    after a =
        if a == s.current
        then record (s.tasks a) { wait_id = event; wait_arg = arg; state = waiting }
        else s.tasks a

    same : (a : ℕ) → (after a).state ≡ (set_state s.current waiting s.tasks a).state
    same a = ground arith

    runs_still : (a : ℕ) → has a s.entries ≡ true → (after a).state ≡ running → a ≡ s.current
    runs_still a k r = ground (arith, v.one_runs a)

-- `cpu_scheduler_wait_arg` keeps the invariant where the current task runs.
pub cpu_scheduler_wait_arg-IsValid :
    (event : WaitEvent) (arg : ℕ) (clock : Clock) {s : Scheduler}
    → IsValid s
    → (s.tasks s.current).state ≡ running
    → IsValid (cpu_scheduler_wait_arg event arg clock s)
unfolding cpu_scheduler_wait_arg
cpu_scheduler_wait_arg-IsValid event arg clock v e =
    cpu_scheduler_next-IsValid clock (start_wait-IsValid event arg v e)
