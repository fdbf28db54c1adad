-- ===== src/Scheduler/Tests.antt =====
-- The scheduler's theorems at concrete states.
use first_os.Base.{
  ℕ, ◌≡◌, refl, sym, ◌∙◌, false, none, some, not, [], ◌∷◌, ◌++◌, arith, without, ◌==◌,
  if◌then◌else◌, List,
}
use first_os.Timeouts.{Timeouts}
use first_os.Scheduler.{
  Scheduler, Clock, Task, TaskState, ready, running, waiting, killed, uart_read, cpu_scheduler_init,
  cpu_scheduler_next, cpu_scheduler_kill_by_pid, cpu_scheduler_fire_cond, reap_one, reap,
  task_table_remove_task, remove_pid, cpu_scheduler_wait_arg, fire_loop, fire_one, start_quantum,
  switch_to, requeue,
}
use first_os.Scheduler.Invariant.{IsValid}
use first_os.Scheduler.Fire.{keep, woken, cpu_scheduler_fire_cond-wakes}
use first_os.Scheduler.RoundRobin.{back}
use first_os.Scheduler.Turns.{Turns, fired, switched, waited, done, Turns-turn}
use first_os.Scheduler.Reap.{DistinctPids, Sound, reap_one-IsValid}
use first_os.Scheduler.Reach.{here, then_step, next, kill, Reach-Sound, cpu_scheduler_init-Sound}

abbrev clock : Clock
clock = record { cleared = 10; started = 11; armed = 12 }

abbrev no_timeouts : Timeouts
no_timeouts = record {
  timeout_queue = [];
  created_timeouts_count = 0;
  cpu_frequency = 10000000;
  timer = 0;
}

-- The task at the address `a` has the pid `a`.
abbrev task_at : TaskState → ℕ → Task
task_at state a = record { pid = a; state = state; wait_id = uart_read; wait_arg = 0 }

-- A running task 1, the ready tasks 2 and 3, a task 4 that waits to read, and the killed task 5.
abbrev five : Scheduler
five = record {
  tasks = λ a.
      if a == 1
      then task_at running a
      else if a == 4
      then task_at waiting a
      else if a == 5
      then task_at killed a
      else task_at ready a;
  ready_queue = 2 ∷ 3 ∷ [];
  waiting_queue = 4 ∷ [];
  killed_queue = 5 ∷ [];
  entries = 1 ∷ 2 ∷ 3 ∷ 4 ∷ 5 ∷ [];
  current = 1;
  is_handling_interrupt = false;
  need_reschedule_cpu = false;
  timeouts = no_timeouts;
  timeout_id = 0;
  freed = [];
}

five-IsValid : IsValid five
five-IsValid = record {
  readies = record { members = λ t. ground arith; distinct = (refl, (refl, tt)) };
  waiters = record { members = λ t. ground arith; distinct = (refl, tt) };
  corpses = record { members = λ t. ground arith; distinct = (refl, tt) };
  one_runs = λ t h r. ground arith;
  current_known = λ r. refl;
  entries_distinct = (refl, (refl, (refl, (refl, (refl, tt)))));
}

task_pid : (t : ℕ) → (five.tasks t).pid ≡ t
task_pid t = ground arith

five-DistinctPids : DistinctPids five
five-DistinctPids t u ht hu q = sym (task_pid t) ∙ q ∙ task_pid u

-- Task 4 is woken, task 2 is switched to and waits.
abbrev awake : Scheduler
awake = cpu_scheduler_fire_cond uart_read none five

abbrev second : Scheduler
second = cpu_scheduler_next clock awake

abbrev third : Scheduler
third = cpu_scheduler_wait_arg uart_read 0 clock second

second-facts :
    (awake.is_handling_interrupt ≡ false)
    × (second.is_handling_interrupt ≡ false)
    × ((second.tasks second.current).state ≡ running)
unfolding cpu_scheduler_fire_cond fire_loop fire_one cpu_scheduler_next start_quantum switch_to
    requeue
second-facts = (refl, refl, refl)

abbrev joined : List ℕ
joined =
    keep (woken uart_read none five) five.waiting_queue
    ++ (back (awake.tasks awake.current).state awake.current ++ [])

third-Turns : Turns 2 joined five third
third-Turns =
    fired uart_read none
      (switched clock second-facts.0 (waited uart_read 0 clock second-facts.1 second-facts.2 done))

Turns-turn_example : (third.current ≡ 3) × (third.ready_queue ≡ [] ++ joined)
Turns-turn_example = Turns-turn (2 ∷ []) 3 [] third-Turns refl five-IsValid refl

Reach-Sound_example : Sound (cpu_scheduler_kill_by_pid 2 clock (cpu_scheduler_next clock five)).1
Reach-Sound_example =
    Reach-Sound (five-IsValid, five-DistinctPids)
      (then_step (then_step here (next clock)) (kill 2 clock))

cpu_scheduler_init-Sound_example : Sound (cpu_scheduler_init 100 200 five)
cpu_scheduler_init-Sound_example = cpu_scheduler_init-Sound 100 200 five

-- The state after the killed task has been freed.
abbrev four : Scheduler
four = record five { killed_queue = []; entries = 1 ∷ 2 ∷ 3 ∷ 4 ∷ []; freed = 5 ∷ [] }

reap_one_run : reap_one five ≡ some four
unfolding reap_one reap task_table_remove_task remove_pid
reap_one_run = refl

reap_one-IsValid_example :
    Sound four
    × ((t : ℕ) × ((five.tasks t).state ≡ killed)
        × (four.freed ≡ t ∷ five.freed)
        × (four.entries ≡ without t five.entries)
        × (four.killed_queue ≡ without t five.killed_queue))
reap_one-IsValid_example =
    reap_one-IsValid five {s' = four} five-IsValid five-DistinctPids reap_one_run

cpu_scheduler_fire_cond-wakes_example :
    let s' = cpu_scheduler_fire_cond uart_read none five in
    (s'.ready_queue ≡ (2 ∷ 3 ∷ []) ++ keep (woken uart_read none five) (4 ∷ []))
    × (s'.waiting_queue ≡ keep (λ t. not (woken uart_read none five t)) (4 ∷ []))
cpu_scheduler_fire_cond-wakes_example =
    cpu_scheduler_fire_cond-wakes uart_read none {s = five} five-IsValid
