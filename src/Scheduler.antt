-- ===== src/Scheduler.antt =====
-- src/kernel/task/cpu_scheduler.c and src/kernel/task/task_table.c: the ready, waiting and killed
-- queues, the table of tasks, and the switch between tasks. A task is its address, and a queue
-- the addresses of its nodes in order (DList says what the linked list makes of them).
mod State
pub mod Fire
pub mod Invariant
pub mod Preserve
pub mod Transitions
pub mod Leaving
pub mod Mourners
pub mod RoundRobin
pub mod Pids
pub mod Reap
pub mod Enter
pub mod Turns
pub mod Reach
mod Tests
use first_os.Base.{
  ℕ, zero, suc, Bool, true, false, ◌&&◌, Option, none, some, List, [], ◌∷◌, ◌++◌, ◌==◌,
  if◌then◌else◌, without,
}
use first_os.Timeouts
use first_os.Timeouts.{Timeouts}
unfoldable pub use State.*

unfoldable pub cpu_scheduler_add_task : ℕ → Scheduler → Scheduler
unfolding task_table_add_task
cpu_scheduler_add_task t s =
    task_table_add_task t
      (record s { tasks = set_state t ready s.tasks; ready_queue = s.ready_queue ++ t ∷ [] })

-- The test in the loop of `cpu_scheduler_fire_cond`: the event, and the condition if there is one.
abbrev pub Condition : Type 0
Condition = Option (Task → Bool)

abbrev pub holds : Condition → Task → Bool
holds none task = true
holds (some cond) task = cond task

abbrev pub wakes : WaitEvent → Condition → Task → Bool
wakes event cond task = same_event task.wait_id event && holds cond task

-- `_task_pid_matches` and `_task_wait_arg_matches`
abbrev pub task_pid_matches : ℕ → Task → Bool
task_pid_matches arg task = task.pid == arg

abbrev pub task_wait_arg_matches : ℕ → Task → Bool
task_wait_arg_matches arg task = task.wait_arg == arg

-- One round of the loop of `cpu_scheduler_fire_cond`.
unfoldable pub fire_one : WaitEvent → Condition → ℕ → Scheduler → Scheduler
fire_one event cond t s =
    if wakes event cond (s.tasks t)
    then record s {
      tasks = set_state t ready s.tasks;
      waiting_queue = without t s.waiting_queue;
      ready_queue = s.ready_queue ++ t ∷ [];
    }
    else s

-- The loop. Each round reads the next task before it moves this one, so it walks the waiting queue
-- as it was found.
unfoldable pub fire_loop : WaitEvent → Condition → List ℕ → Scheduler → Scheduler
fire_loop event cond [] s = s
fire_loop event cond (t ∷ ts) s = fire_loop event cond ts (fire_one event cond t s)

unfoldable pub cpu_scheduler_fire_cond : WaitEvent → Condition → Scheduler → Scheduler
cpu_scheduler_fire_cond event cond s = fire_loop event cond s.waiting_queue s

unfoldable pub cpu_scheduler_fire : WaitEvent → Scheduler → Scheduler
unfolding cpu_scheduler_fire_cond
cpu_scheduler_fire event s = cpu_scheduler_fire_cond event none s

unfoldable pub cpu_scheduler_fire_timeout : ℕ → Scheduler → Scheduler
unfolding cpu_scheduler_fire_cond
cpu_scheduler_fire_timeout arg s = cpu_scheduler_fire_cond timeout (some (task_pid_matches arg)) s

-- In `cpu_scheduler_next`: the task that gives up the processor goes to the end of the ready queue,
-- if it was running.
unfoldable pub requeue : ℕ → TaskState → Scheduler → Scheduler
requeue prev running s = record s {
  tasks = set_state prev ready s.tasks;
  ready_queue = s.ready_queue ++ prev ∷ [];
}
requeue prev ready s = s
requeue prev waiting s = s
requeue prev killed s = s

-- The time slice of the next task: the timeout of the last one goes, and a new one starts.
unfoldable pub start_quantum : Clock → Scheduler → Scheduler
start_quantum clock s =
    let t = Timeouts.clear_timeout s.timeout_id clock.cleared s.timeouts in
    let (id, t') =
      Timeouts.set_timeout callback_reschedule 0 time_quantum clock.started clock.armed t in
    record s { timeouts = t'; timeout_id = id }

-- The rest of `cpu_scheduler_next`; `switch_to_kernel` makes `next` the current task.
unfoldable pub switch_to : ℕ → Scheduler → Scheduler
switch_to next s =
    let s1 = requeue s.current (s.tasks s.current).state s in
    record s1 {
      tasks = set_state next running s1.tasks;
      ready_queue = without next s1.ready_queue;
      current = next;
    }

abbrev pub switch_head : List ℕ → Clock → Scheduler → Scheduler
switch_head [] clock s = s
switch_head (next ∷ rest) clock s = switch_to next (start_quantum clock s)

unfoldable pub cpu_scheduler_next : Clock → Scheduler → Scheduler
cpu_scheduler_next clock s =
    if s.is_handling_interrupt
    then record s { need_reschedule_cpu = true }
    else switch_head s.ready_queue clock s

-- `cpu_scheduler_kill_by_pid` takes the task out of the queue that its state names.
unfoldable pub dequeue : ℕ → TaskState → Scheduler → Scheduler
dequeue t ready s = record s { ready_queue = without t s.ready_queue }
dequeue t waiting s = record s { waiting_queue = without t s.waiting_queue }
dequeue t running s = s
dequeue t killed s = s

abbrev pub is_killed : TaskState → Bool
is_killed killed = true
is_killed _ = false

-- The death of a task: it moves to the killed queue and wakes those who wait for its pid.
unfoldable pub kill_task : ℕ → Scheduler → Scheduler
kill_task t s =
    let s1 = dequeue t (s.tasks t).state s in
    let s2 = record s1 {
      tasks = set_state t killed s1.tasks;
      killed_queue = s1.killed_queue ++ t ∷ [];
    } in
    cpu_scheduler_fire_cond process_kill (some (task_wait_arg_matches (s2.tasks t).pid)) s2

unfoldable pub kill_found : Option ℕ → ℕ → Clock → Scheduler → ℕ × Scheduler
kill_found none pid clock s = (1, s)
kill_found (some t) pid clock s =
    let s' = kill_task t s in
    if is_killed (s.tasks t).state
    then (1, s)
    else (0, if pid == (s'.tasks s'.current).pid then cpu_scheduler_next clock s' else s')

-- The return value and the state.
unfoldable pub cpu_scheduler_kill_by_pid : ℕ → Clock → Scheduler → ℕ × Scheduler
cpu_scheduler_kill_by_pid pid clock s = kill_found (task_table_get_task pid s) pid clock s

unfoldable pub cpu_scheduler_kill : Clock → Scheduler → Scheduler
cpu_scheduler_kill clock s = (cpu_scheduler_kill_by_pid (s.tasks s.current).pid clock s).1

-- The part of `cpu_scheduler_wait_arg` before it gives up the processor.
unfoldable pub start_wait : WaitEvent → ℕ → Scheduler → Scheduler
start_wait event arg s = record s {
  tasks = λ a.
      if a == s.current
      then record (s.tasks a) { wait_id = event; wait_arg = arg; state = waiting }
      else s.tasks a;
  waiting_queue = s.waiting_queue ++ s.current ∷ [];
}

unfoldable pub cpu_scheduler_wait_arg : WaitEvent → ℕ → Clock → Scheduler → Scheduler
cpu_scheduler_wait_arg event arg clock s = cpu_scheduler_next clock (start_wait event arg s)

unfoldable pub cpu_scheduler_wait : WaitEvent → Clock → Scheduler → Scheduler
cpu_scheduler_wait event clock s = cpu_scheduler_wait_arg event 0 clock s

unfoldable pub cpu_scheduler_sleep : ℕ → ℕ → ℕ → Clock → Scheduler → Scheduler
cpu_scheduler_sleep usec now later clock s =
    let pid = (s.tasks s.current).pid in
    let (id, t) = Timeouts.set_timeout callback_fire_timeout pid usec now later s.timeouts in
    cpu_scheduler_wait timeout clock (record s { timeouts = t })

-- One round of the inner loop of `cpu_scheduler_idle`; `none` is its `break`. The source lets interrupts in
-- between the removal from the queue and from the table, which is one step here.
unfoldable pub reap : List ℕ → Scheduler → Option Scheduler
reap [] s = none
reap (t ∷ ts) s =
    let s1 = task_table_remove_task t (record s { killed_queue = without t s.killed_queue }) in
    some (record s1 { freed = t ∷ s1.freed })

unfoldable pub reap_one : Scheduler → Option Scheduler
reap_one s = reap s.killed_queue s

-- The inner loop, on fuel: `none` means that the fuel ran out.
abbrev pub reap_next :
    Option Scheduler → Scheduler → (Scheduler → Option Scheduler) → Option Scheduler
reap_next none s more = some s
reap_next (some s') s more = more s'

unfoldable pub reap_all : ℕ → Scheduler → Option Scheduler
reap_all zero s = none
reap_all (suc fuel) s = reap_next (reap_one s) s (λ s'. reap_all fuel s')

-- `cpu_scheduler_init`, with the new idle task and the bootstrap task that stands for the code that
-- runs before the first switch.
unfoldable pub cpu_scheduler_init : (bootstrap idle_task : ℕ) → Scheduler → Scheduler
cpu_scheduler_init bootstrap idle_task s = cpu_scheduler_add_task idle_task (record s {
  entries = [];
  ready_queue = [];
  waiting_queue = [];
  killed_queue = [];
  tasks = set_state bootstrap killed s.tasks;
  current = bootstrap;
})
