-- ===== src/Scheduler/Reach.antt =====
-- The steps of the scheduler in any order, from `cpu_scheduler_init` on, keep the invariant. A wait is a
-- step only of a task that runs.
use first_os.Base.{
  ℕ, ◌≡◌, ◌≢◌, refl, ap, sym, ◌∙◌, inl, inr, Bool, true, false, [], ◌∷◌, arith, ◌==◌, some, ◌++◌,
  has, has-append, Bool-cases, ==→eq,
}
use first_os.Timeouts.{Timeouts}
use first_os.Scheduler.{
  Scheduler, Clock, ready, running, killed, WaitEvent, Condition, set_state, cpu_scheduler_add_task,
  cpu_scheduler_fire_cond, cpu_scheduler_next, cpu_scheduler_kill_by_pid, cpu_scheduler_wait_arg,
  cpu_scheduler_init, reap_one, task_table_add_task,
}
use first_os.Scheduler.Reap.{DistinctPids, Sound, reap_one-IsValid}
use first_os.Scheduler.Invariant.{IsValid}
use first_os.Scheduler.Preserve.{cpu_scheduler_add_task-IsValid, cpu_scheduler_fire_cond-IsValid}
use first_os.Scheduler.Enter.{enter_task, enter-IsValid, enter-DistinctPids}
use first_os.Scheduler.Pids.{
  SameTable, fire_cond-SameTable, next-SameTable, kill_by_pid-SameTable, wait_arg-SameTable,
}
use first_os.Scheduler.Transitions.{cpu_scheduler_next-IsValid}
use first_os.Scheduler.Leaving.{cpu_scheduler_kill_by_pid-IsValid, cpu_scheduler_wait_arg-IsValid}

-- What the kernel may do next: one constructor for each entry point of the scheduler, the record of a
-- task outside the table, at an address that may be that of a freed one, and the interrupt handler's
-- changes of its two flags. A kill, a switch or a wait within a callback of the timer is a step like others.
pub data Step (s : Scheduler) : Scheduler → Type 0 where
  add :
      (t : ℕ)
      → has t s.entries ≡ false
      → ((u : ℕ) → has u s.entries ≡ true → (s.tasks u).pid ≢ (s.tasks t).pid)
      → Step s (cpu_scheduler_add_task t s)
  create : (t pid : ℕ) → has t s.entries ≡ false → Step s (enter_task t pid s)
  fire : (event : WaitEvent) (cond : Condition) → Step s (cpu_scheduler_fire_cond event cond s)
  next : (clock : Clock) → Step s (cpu_scheduler_next clock s)
  kill : (pid : ℕ) (clock : Clock) → Step s (cpu_scheduler_kill_by_pid pid clock s).1
  wait :
      (event : WaitEvent) (arg : ℕ) (clock : Clock)
      → (s.tasks s.current).state ≡ running
      → Step s (cpu_scheduler_wait_arg event arg clock s)
  reaped : {s' : Scheduler} → reap_one s ≡ some s' → Step s s'
  flags :
      (handling reschedule : Bool)
      → Step s (record s { is_handling_interrupt = handling; need_reschedule_cpu = reschedule })
  timed : (t : Timeouts) → Step s (record s { timeouts = t })

pub data Reach (s : Scheduler) : Scheduler → Type 0 where
  here : Reach s s
  then_step : {t u : Scheduler} → Reach s t → Step t u → Reach s u

SameTable-pids : (s s' : Scheduler) → SameTable s s' → DistinctPids s → DistinctPids s'
SameTable-pids s s' (e, p) pids t u ht hu q =
    pids t u (ap (has t) (sym e) ∙ ht) (ap (has u) (sym e) ∙ hu) (sym (p t) ∙ q ∙ p u)

added_pids :
    (t : ℕ) (s : Scheduler)
    → ((u : ℕ) → has u s.entries ≡ true → (s.tasks u).pid ≢ (s.tasks t).pid)
    → DistinctPids s
    → DistinctPids (cpu_scheduler_add_task t s)
unfolding cpu_scheduler_add_task task_table_add_task
added_pids t s fresh pids a b ha hb q = elim (Bool-cases (a == t)) [
  | inl at ↦ elim (Bool-cases (b == t)) [
    | inl bt ↦ ==→eq a t at ∙ sym (==→eq b t bt)
    | inr bt ↦ absurd (
        fresh b (older b hb bt)
          (sym (renamed b) ∙ sym q ∙ renamed a ∙ ap (λ y. (s.tasks y).pid) (==→eq a t at)))
  ]
  | inr at ↦ elim (Bool-cases (b == t)) [
    | inl bt ↦ absurd (
        fresh a (older a ha at)
          (sym (renamed a) ∙ q ∙ renamed b ∙ ap (λ y. (s.tasks y).pid) (==→eq b t bt)))
    | inr bt ↦ pids a b (older a ha at) (older b hb bt) (sym (renamed a) ∙ q ∙ renamed b)
  ]
]
  where
    renamed : (c : ℕ) → (set_state t ready s.tasks c).pid ≡ (s.tasks c).pid
    renamed c = ground arith

    older : (c : ℕ) → has c (s.entries ++ t ∷ []) ≡ true → (c == t) ≡ false → has c s.entries ≡ true
    older c h ne = ground (arith, has-append c s.entries (t ∷ []))

pub Step-Sound : {s s' : Scheduler} → Sound s → Step s s' → Sound s'
Step-Sound {s} (v, pids) (add t new fresh) =
    (cpu_scheduler_add_task-IsValid t v new, added_pids t s fresh pids)
Step-Sound {s} (v, pids) (create t pid new) =
    (enter-IsValid t pid s new v, enter-DistinctPids t pid s new pids)
Step-Sound {s} (v, pids) (fire event cond) = (
  cpu_scheduler_fire_cond-IsValid event cond v,
  SameTable-pids s (cpu_scheduler_fire_cond event cond s) (fire_cond-SameTable event cond s) pids,
)
Step-Sound {s} (v, pids) (next clock) = (
  cpu_scheduler_next-IsValid clock v,
  SameTable-pids s (cpu_scheduler_next clock s) (next-SameTable clock s) pids,
)
Step-Sound {s} (v, pids) (kill pid clock) = (
  cpu_scheduler_kill_by_pid-IsValid pid clock v,
  SameTable-pids s (cpu_scheduler_kill_by_pid pid clock s).1 (kill_by_pid-SameTable pid clock s)
      pids,
)
Step-Sound {s} (v, pids) (wait event arg clock runs) = (
  cpu_scheduler_wait_arg-IsValid event arg clock v runs,
  SameTable-pids s (cpu_scheduler_wait_arg event arg clock s) (wait_arg-SameTable event arg clock s)
      pids,
)
Step-Sound {s} (v, pids) (reaped r) = (reap_one-IsValid s v pids r).0
Step-Sound {s} (v, pids) (flags handling reschedule) = (moved v, pids)
  where
    moved :
        IsValid s
        → IsValid (record s { is_handling_interrupt = handling; need_reschedule_cpu = reschedule })
    moved v = record {
      readies = v.readies;
      waiters = v.waiters;
      corpses = v.corpses;
      one_runs = v.one_runs;
      current_known = v.current_known;
      entries_distinct = v.entries_distinct;
    }
Step-Sound {s} (v, pids) (timed t) = (moved v, pids)
  where
    moved : IsValid s → IsValid (record s { timeouts = t })
    moved v = record {
      readies = v.readies;
      waiters = v.waiters;
      corpses = v.corpses;
      one_runs = v.one_runs;
      current_known = v.current_known;
      entries_distinct = v.entries_distinct;
    }

-- From a state with the invariant and distinct pids, steps in any order lead to states with both: a
-- new record at an address outside the table, its entry with a pid that no other task has, wake-ups,
-- switches, kills by pid, waits of a current task that is running, reaping, changes of the flags of the
-- interrupt handler, and changes of the timeouts. A wait while the current task does not run is no step.
pub Reach-Sound : {s t : Scheduler} → Sound s → Reach s t → Sound t
Reach-Sound v here = v
Reach-Sound v (then_step r step) = Step-Sound (Reach-Sound v r) step

-- `cpu_scheduler_init` sets up a state with the invariant and distinct pids, whatever was before.
pub cpu_scheduler_init-Sound :
    (bootstrap idle_task : ℕ) (s : Scheduler) → Sound (cpu_scheduler_init bootstrap idle_task s)
unfolding cpu_scheduler_init
cpu_scheduler_init-Sound bootstrap idle_task s =
    Step-Sound (blank_valid, λ t u ht hu q. cc) (add idle_task refl (λ u h. cc))
  where
    blank : Scheduler
    blank = record s {
      entries = [];
      ready_queue = [];
      waiting_queue = [];
      killed_queue = [];
      tasks = set_state bootstrap killed s.tasks;
      current = bootstrap;
    }

    not_running : (blank.tasks bootstrap).state ≢ running
    not_running r = ground arith

    blank_valid : IsValid blank
    blank_valid = record {
      readies = record { members = λ t. refl; distinct = tt };
      waiters = record { members = λ t. refl; distinct = tt };
      corpses = record { members = λ t. refl; distinct = tt };
      one_runs = λ t h r. cc;
      current_known = λ r. absurd (not_running r);
      entries_distinct = tt;
    }
