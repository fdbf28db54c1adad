-- ===== src/Scheduler/Enter.antt =====
-- The record of a task that is not in the table yet, as `task_create` and `task_copy` of
-- src/kernel/task/task.c write it. No queue and no entry of the table changes with it.
use first_os.Base.{
  ℕ, ◌≡◌, ◌≢◌, refl, ap, sym, ◌∙◌, inl, inr, Bool, true, false, ◌&&◌, List, ◌==◌, if◌then◌else◌,
  Bool-cases, ne→==, ==_refl, has,
}
use first_os.Scheduler.{Scheduler, Task, TaskState, ready, running, no_event}
use first_os.Scheduler.Invariant.{QueueOf, IsValid}
use first_os.Scheduler.Reap.{DistinctPids}

-- What the scheduler sees of a new task at an address.
abbrev pub enter_task : ℕ → ℕ → Scheduler → Scheduler
enter_task task_addr pid s = record s {
  tasks = λ a.
      if a == task_addr
      then record { pid = pid; state = ready; wait_id = no_event; wait_arg = 0 }
      else s.tasks a;
}

module _ (task_addr pid : ℕ) (s : Scheduler) (new : has task_addr s.entries ≡ false) where
  abbrev new_task : Task
  new_task = record { pid = pid; state = ready; wait_id = no_event; wait_arg = 0 }

  known_other : (u : ℕ) → has u s.entries ≡ true → u ≢ task_addr
  known_other u h e =
      absurd (let f : true ≡ false = sym h ∙ ap (λ x. has x s.entries) e ∙ new in cc)

  pub enter-same :
      (u : ℕ) → has u s.entries ≡ true → (enter_task task_addr pid s).tasks u ≡ s.tasks u
  enter-same u h = rw (ne→== u task_addr (known_other u h)) refl

  enter-QueueOf :
      (pick : TaskState → Bool) (q : List ℕ)
      → QueueOf pick q s.entries s.tasks
      → QueueOf pick q s.entries (enter_task task_addr pid s).tasks
  enter-QueueOf pick q v = record {
    members = λ u. elim (Bool-cases (has u s.entries)) [
      | inl known ↦
          v.members u
          ∙ ap (λ (t : Task). has u s.entries && pick t.state) (sym (enter-same u known))
      | inr other ↦ v.members u ∙ rw other refl
    ];
    distinct = v.distinct;
  }

  pub enter-IsValid : IsValid s → IsValid (enter_task task_addr pid s)
  enter-IsValid v = record {
    readies = enter-QueueOf _ _ v.readies;
    waiters = enter-QueueOf _ _ v.waiters;
    corpses = enter-QueueOf _ _ v.corpses;
    one_runs = λ u h r. v.one_runs u h (ap (λ (t : Task). t.state) (sym (enter-same u h)) ∙ r);
    current_known = λ r. elim (Bool-cases (s.current == task_addr)) [
      | inl at ↦ absurd (
          let f : ready ≡ running =
            sym (ap (λ (b : Bool). (if b then new_task else s.tasks s.current).state) at) ∙ r in
          cc)
      | inr other ↦
          v.current_known
            (sym (ap (λ (b : Bool). (if b then new_task else s.tasks s.current).state) other) ∙ r)
    ];
    entries_distinct = v.entries_distinct;
  }

  pub enter-pid : ((enter_task task_addr pid s).tasks task_addr).pid ≡ pid
  enter-pid = rw (==_refl task_addr) refl

  pub enter-DistinctPids : DistinctPids s → DistinctPids (enter_task task_addr pid s)
  enter-DistinctPids d t u ht hu e = d t u ht hu (
      ap (λ (x : Task). x.pid) (sym (enter-same t ht))
      ∙ e
      ∙ ap (λ (x : Task). x.pid) (enter-same u hu))
