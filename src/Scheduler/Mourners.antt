-- ===== src/Scheduler/Mourners.antt =====
-- The death of a task in src/kernel/task/cpu_scheduler.c wakes those who wait for its pid.
use first_os.Base.{
  ℕ, ◌≡◌, ◌≢◌, refl, ap, ap₂, sym, ◌∙◌, inl, inr, Bool, true, false, not, ◌&&◌, ◌||◌, List, [], ◌∷◌,
  ◌++◌, arith, ◌==◌, if◌then◌else◌, has, has-append, has-head, Option, some, Bool-cases, ne→==,
  ==_refl, ==→eq,
}
use first_os.Scheduler.{
  Scheduler, Task, TaskState, ready, running, waiting, killed, WaitEvent, process_kill, same_event,
  set_state, dequeue, is_killed, kill_task, wakes, task_wait_arg_matches, Clock, Condition,
  fire_one, fire_loop, cpu_scheduler_fire_cond, task_table_get_task, kill_found,
  cpu_scheduler_kill_by_pid, cpu_scheduler_next, start_wait, cpu_scheduler_wait_arg,
}
use first_os.Scheduler.Invariant.{IsValid, is_waiting}
use first_os.Scheduler.Leaving.{kill_moved, find_pid-has}
use first_os.Scheduler.Fire.{keep, woken, cpu_scheduler_fire_cond-wakes}

has-keep : (a : ℕ) (f : ℕ → Bool) (xs : List ℕ) → has a (keep f xs) ≡ (has a xs && f a)
unfolding keep
has-keep a f [] = refl
has-keep a f (x ∷ xs) = ground (arith, has-keep a f xs, λ (e : (a == x) ≡ true). ap f (==→eq a x e))

dequeue-same :
    (t : ℕ) (st : TaskState) (s : Scheduler)
    → ((dequeue t st s).tasks ≡ s.tasks) × ((dequeue t st s).entries ≡ s.entries)
unfolding dequeue
dequeue-same t ready s = (refl, refl)
dequeue-same t waiting s = (refl, refl)
dequeue-same t running s = (refl, refl)
dequeue-same t killed s = (refl, refl)

-- A task that waits for the death of another one is ready after it.
kill_task-wakes :
    (t a : ℕ) {s : Scheduler}
    → IsValid s
    → has t s.entries ≡ true
    → is_killed (s.tasks t).state ≡ false
    → a ≢ t
    → has a s.waiting_queue ≡ true
    → (s.tasks a).wait_id ≡ process_kill
    → (s.tasks a).wait_arg ≡ (s.tasks t).pid
    → (has a (kill_task t s).ready_queue ≡ true) × (has a (kill_task t s).waiting_queue ≡ false)
unfolding kill_task
kill_task-wakes t a {s} v known alive other waits event arg =
    let st = (s.tasks t).state in
    let s1 = dequeue t st s in
    let (tasks, entries) = dequeue-same t st s in
    let v2 = kill_moved t st v known refl alive in
    let s2 : Scheduler = record s1 {
      tasks = set_state t killed s1.tasks;
      killed_queue = s1.killed_queue ++ t ∷ [];
    } in
    let same : s2.tasks a ≡ s.tasks a =
      ap (λ b. if b then record (s1.tasks a) { state = killed } else s1.tasks a) (ne→== a t other)
      ∙ ap (λ f. f a) tasks in
    let still : has a s2.waiting_queue ≡ true =
      v2.waiters.members a
      ∙ ap₂ (λ es task. has a es && is_waiting task.state) entries same
      ∙ sym (v.waiters.members a)
      ∙ waits in
    let cond : Option (Task → Bool) = some (task_wait_arg_matches (s2.tasks t).pid) in
    let pid : (s2.tasks t).pid ≡ (s.tasks t).pid =
      ap (λ b. (if b then record (s1.tasks t) { state = killed } else s1.tasks t).pid) (==_refl t)
      ∙ ap (λ f. (f t).pid) tasks in
    let wake : woken process_kill cond s2 a ≡ true =
      ap (λ task. wakes process_kill cond task) same
      ∙ ap₂ (λ e q. same_event e process_kill && (q == (s2.tasks t).pid)) event (arg ∙ sym pid)
      ∙ ==_refl (s2.tasks t).pid in
    let (queued, left) = cpu_scheduler_fire_cond-wakes process_kill cond {s = s2} v2 in
    (
      ap (has a) queued
          ∙ has-append a s2.ready_queue _
          ∙ ap (λ b. has a s2.ready_queue || b)
              (has-keep a _ s2.waiting_queue ∙ ap₂ (λ p q. p && q) still wake)
          ∙ or_true (has a s2.ready_queue),
      ap (has a) left ∙ has-keep a _ s2.waiting_queue ∙ ap₂ (λ p q. p && not q) still wake,
    )
  where
    or_true : (b : Bool) → (b || true) ≡ true
    or_true true = refl
    or_true false = refl

fire_loop-handling :
    (event : WaitEvent) (cond : Condition) (ts : List ℕ) (s : Scheduler)
    → (fire_loop event cond ts s).is_handling_interrupt ≡ s.is_handling_interrupt
unfolding fire_loop fire_one
fire_loop-handling event cond [] s = refl
fire_loop-handling event cond (t ∷ ts) s =
    fire_loop-handling event cond ts (fire_one event cond t s) ∙ fire_one-handling
  where
    fire_one-handling : (fire_one event cond t s).is_handling_interrupt ≡ s.is_handling_interrupt
    fire_one-handling = elim (Bool-cases (wakes event cond (s.tasks t))) [
      | inl e ↦ rw e refl
      | inr e ↦ rw e refl
    ]

dequeue-handling :
    (t : ℕ) (st : TaskState) (s : Scheduler)
    → (dequeue t st s).is_handling_interrupt ≡ s.is_handling_interrupt
unfolding dequeue
dequeue-handling t ready s = refl
dequeue-handling t waiting s = refl
dequeue-handling t running s = refl
dequeue-handling t killed s = refl

kill_task-handling :
    (t : ℕ) (s : Scheduler) → (kill_task t s).is_handling_interrupt ≡ s.is_handling_interrupt
unfolding kill_task cpu_scheduler_fire_cond
kill_task-handling t s = fire_loop-handling _ _ _ _ ∙ dequeue-handling t (s.tasks t).state s

-- A switch within the interrupt handler is only asked for.
pub next_later :
    (clock : Clock) (s : Scheduler)
    → s.is_handling_interrupt ≡ true
    → cpu_scheduler_next clock s ≡ record s { need_reschedule_cpu = true }
unfolding cpu_scheduler_next
next_later clock s e = rw e refl

-- A kill by pid within the interrupt handler, by another task or by the one that dies itself, after which
-- those who waited for the pid are ready.
pub kill_by_pid-wakes :
    (pid t a : ℕ) (clock : Clock) {s : Scheduler}
    → IsValid s
    → s.is_handling_interrupt ≡ true
    → task_table_get_task pid s ≡ some t
    → is_killed (s.tasks t).state ≡ false
    → (s.tasks a).pid ≢ pid
    → has a s.waiting_queue ≡ true
    → (s.tasks a).wait_id ≡ process_kill
    → (s.tasks a).wait_arg ≡ pid
    → let (result, s') = cpu_scheduler_kill_by_pid pid clock s in
      (result ≡ 0) × (has a s'.ready_queue ≡ true) × (has a s'.waiting_queue ≡ false)
unfolding cpu_scheduler_kill_by_pid kill_found task_table_get_task
kill_by_pid-wakes pid t a clock {s} v handling found alive other waits event arg =
    let (known, same) = find_pid-has s.tasks pid s.entries found in
    let s' = kill_task t s in
    let (woken, left) =
      kill_task-wakes t a v known alive (λ e. other (ap (λ x. (s.tasks x).pid) e ∙ same)) waits
        event (arg ∙ sym same) in
    let asked = next_later clock s' (kill_task-handling t s ∙ handling) in
    elim (Bool-cases (pid == (s'.tasks s'.current).pid)) [
      | inl own ↦ rw found (rw alive (rw own (rw asked (refl, woken, left))))
      | inr stays ↦ rw found (rw alive (rw stays (refl, woken, left)))
    ]

-- A wait within the interrupt handler goes on without a switch.
pub wait_arg-later :
    (event : WaitEvent) (arg : ℕ) (clock : Clock) (s : Scheduler)
    → s.is_handling_interrupt ≡ true
    → cpu_scheduler_wait_arg event arg clock s
      ≡ record (start_wait event arg s) { need_reschedule_cpu = true }
unfolding cpu_scheduler_wait_arg cpu_scheduler_next start_wait
wait_arg-later event arg clock s h = next_later clock (start_wait event arg s) h

-- What a wait of the current task within the interrupt handler leaves: it waits for the event, and a switch is
-- asked for.
abbrev pub WaitsFor : WaitEvent → ℕ → ℕ → Scheduler → Type 0
WaitsFor event arg a s =
    (has a s.waiting_queue ≡ true) × ((s.tasks a).wait_id ≡ event) × ((s.tasks a).wait_arg ≡ arg)

pub wait_arg-WaitsFor :
    (event : WaitEvent) (arg : ℕ) (clock : Clock) (s : Scheduler)
    → s.is_handling_interrupt ≡ true
    → let s1 = cpu_scheduler_wait_arg event arg clock s in
      WaitsFor event arg s.current s1 × (s1.need_reschedule_cpu ≡ true)
unfolding start_wait
wait_arg-WaitsFor event arg clock s handling =
    let later = wait_arg-later event arg clock s handling in
    let a = s.current in
    (
      (
        ap (λ x. has a x.waiting_queue) later
            ∙ ground (arith, has-append a s.waiting_queue (a ∷ []), has-head a []),
        ap (λ x. (x.tasks a).wait_id) later ∙ (rw (==_refl a) refl),
        ap (λ x. (x.tasks a).wait_arg) later ∙ (rw (==_refl a) refl),
      ),
      ap (λ x. x.need_reschedule_cpu) later,
    )
