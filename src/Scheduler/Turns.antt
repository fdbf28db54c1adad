-- ===== src/Scheduler/Turns.antt =====
-- How long a ready task waits for the processor, by `cpu_scheduler_next` of src/kernel/task/cpu_scheduler.c, with
-- waits, wake-ups, new tasks and interrupts in between.
use first_os.Base.{
  ℕ, suc, ◌≡◌, refl, ap, sym, ◌∙◌, inl, inr, Bool, true, false, List, [], ◌∷◌, ◌++◌, append_assoc,
  append-nil, arith, length, has, Bool-cases, ==_refl,
}
use first_os.Scheduler.{
  Scheduler, Clock, TaskState, running, waiting, WaitEvent, Condition, wakes, fire_one, fire_loop,
  start_wait, task_table_add_task, cpu_scheduler_next, cpu_scheduler_wait_arg,
  cpu_scheduler_fire_cond, cpu_scheduler_add_task,
}
use first_os.Scheduler.Invariant.{IsValid}
use first_os.Scheduler.Preserve.{cpu_scheduler_add_task-IsValid, cpu_scheduler_fire_cond-IsValid}
use first_os.Scheduler.Transitions.{cpu_scheduler_next-IsValid}
use first_os.Scheduler.Leaving.{cpu_scheduler_wait_arg-IsValid}
use first_os.Scheduler.Fire.{keep, woken, cpu_scheduler_fire_cond-wakes}
use first_os.Scheduler.Mourners.{next_later, wait_arg-later}
use first_os.Scheduler.RoundRobin.{back, cpu_scheduler_next-head}

-- A run with a number of switches, and the tasks that join the ready queue on the way, in order: at a switch the
-- task that was running, those that are woken, and new ones. Within the interrupt handler a switch and the one of a
-- wait are only asked for.
pub data Turns : ℕ → List ℕ → Scheduler → Scheduler → Type 0 where
  done : {s : Scheduler} → Turns 0 [] s s
  switched :
      {n : ℕ} {js : List ℕ} {s s' : Scheduler} (clock : Clock)
      → s.is_handling_interrupt ≡ false
      → Turns n js (cpu_scheduler_next clock s) s'
      → Turns (suc n) (back (s.tasks s.current).state s.current ++ js) s s'
  deferred :
      {n : ℕ} {js : List ℕ} {s s' : Scheduler} (clock : Clock)
      → s.is_handling_interrupt ≡ true
      → Turns n js (cpu_scheduler_next clock s) s'
      → Turns n js s s'
  waited :
      {n : ℕ} {js : List ℕ} {s s' : Scheduler} (event : WaitEvent) (arg : ℕ) (clock : Clock)
      → s.is_handling_interrupt ≡ false
      → (s.tasks s.current).state ≡ running
      → Turns n js (cpu_scheduler_wait_arg event arg clock s) s'
      → Turns (suc n) js s s'
  wait_asked :
      {n : ℕ} {js : List ℕ} {s s' : Scheduler} (event : WaitEvent) (arg : ℕ) (clock : Clock)
      → s.is_handling_interrupt ≡ true
      → (s.tasks s.current).state ≡ running
      → Turns n js (cpu_scheduler_wait_arg event arg clock s) s'
      → Turns n js s s'
  fired :
      {n : ℕ} {js : List ℕ} {s s' : Scheduler} (event : WaitEvent) (cond : Condition)
      → Turns n js (cpu_scheduler_fire_cond event cond s) s'
      → Turns n (keep (woken event cond s) s.waiting_queue ++ js) s s'
  added :
      {n : ℕ} {js : List ℕ} {s s' : Scheduler} (t : ℕ)
      → has t s.entries ≡ false
      → Turns n js (cpu_scheduler_add_task t s) s'
      → Turns n (t ∷ js) s s'
  flagged :
      {n : ℕ} {js : List ℕ} {s s' : Scheduler} (handling reschedule : Bool)
      → Turns n js
          (record s { is_handling_interrupt = handling; need_reschedule_cpu = reschedule })
          s'
      → Turns n js s s'

fire_loop-current :
    (event : WaitEvent) (cond : Condition) (ts : List ℕ) (s : Scheduler)
    → (fire_loop event cond ts s).current ≡ s.current
unfolding fire_loop fire_one
fire_loop-current event cond [] s = refl
fire_loop-current event cond (t ∷ ts) s =
    fire_loop-current event cond ts (fire_one event cond t s) ∙ fire_one-current
  where
    fire_one-current : (fire_one event cond t s).current ≡ s.current
    fire_one-current = elim (Bool-cases (wakes event cond (s.tasks t))) [
      | inl e ↦ rw e refl
      | inr e ↦ rw e refl
    ]

fire_cond-current :
    (event : WaitEvent) (cond : Condition) (s : Scheduler)
    → (cpu_scheduler_fire_cond event cond s).current ≡ s.current
unfolding cpu_scheduler_fire_cond
fire_cond-current event cond s = fire_loop-current event cond s.waiting_queue s

add_task-appends :
    (t : ℕ) (s : Scheduler)
    → ((cpu_scheduler_add_task t s).ready_queue ≡ s.ready_queue ++ t ∷ [])
      × ((cpu_scheduler_add_task t s).current ≡ s.current)
unfolding cpu_scheduler_add_task task_table_add_task
add_task-appends t s = (refl, refl)

next_later-same :
    (clock : Clock) (s : Scheduler)
    → s.is_handling_interrupt ≡ true
    → ((cpu_scheduler_next clock s).ready_queue ≡ s.ready_queue)
      × ((cpu_scheduler_next clock s).current ≡ s.current)
next_later-same clock s h =
    let e = next_later clock s h in
    (ap (λ (x : Scheduler). x.ready_queue) e, ap (λ (x : Scheduler). x.current) e)

wait_later-same :
    (event : WaitEvent) (arg : ℕ) (clock : Clock) (s : Scheduler)
    → s.is_handling_interrupt ≡ true
    → let s1 = cpu_scheduler_wait_arg event arg clock s in
      (s1.ready_queue ≡ s.ready_queue) × (s1.current ≡ s.current)
unfolding start_wait
wait_later-same event arg clock s h =
    let e = wait_arg-later event arg clock s h in
    (ap (λ (x : Scheduler). x.ready_queue) e, ap (λ (x : Scheduler). x.current) e)

-- A wait outside the interrupt handler switches to the head of the ready queue.
wait_arg-head :
    (event : WaitEvent) (arg : ℕ) (clock : Clock) (next : ℕ) (rest : List ℕ) (s : Scheduler)
    → s.is_handling_interrupt ≡ false
    → s.ready_queue ≡ next ∷ rest
    → let s1 = cpu_scheduler_wait_arg event arg clock s in
      (s1.current ≡ next) × (s1.ready_queue ≡ rest)
unfolding cpu_scheduler_wait_arg start_wait back
wait_arg-head event arg clock next rest s free q =
    let s0 = start_wait event arg s in
    let (at, runs, queued, _) = cpu_scheduler_next-head clock next rest s0 free q in
    let waits : (s0.tasks s.current).state ≡ waiting = rw (==_refl s.current) refl in
    (at, queued ∙ ap (λ (st : TaskState). rest ++ back st s.current) waits ∙ append-nil rest)

flagged-IsValid :
    (handling reschedule : Bool) {s : Scheduler}
    → IsValid s
    → IsValid (record s { is_handling_interrupt = handling; need_reschedule_cpu = reschedule })
flagged-IsValid handling reschedule v = record {
  readies = v.readies;
  waiters = v.waiters;
  corpses = v.corpses;
  one_runs = v.one_runs;
  current_known = v.current_known;
  entries_distinct = v.entries_distinct;
}

-- Without a switch the current task stays, and those that join stand behind the others.
Turns-none :
    {n : ℕ} {js : List ℕ} {s s' : Scheduler}
    → Turns n js s s'
    → n ≡ 0
    → IsValid s
    → (s'.current ≡ s.current) × (s'.ready_queue ≡ s.ready_queue ++ js)
Turns-none {s = s} done z v = (refl, sym (append-nil s.ready_queue))
Turns-none (switched clock free r) z v = absurd (omega arith)
Turns-none {js = js} {s = s} (deferred clock h r) z v =
    let (q, c) = next_later-same clock s h in
    let (c', q') = Turns-none r z (cpu_scheduler_next-IsValid clock v) in
    (c' ∙ c, q' ∙ ap (λ l. l ++ js) q)
Turns-none (waited event arg clock free runs r) z v = absurd (omega arith)
Turns-none {js = js} {s = s} (wait_asked event arg clock h runs r) z v =
    let (q, c) = wait_later-same event arg clock s h in
    let (c', q') = Turns-none r z (cpu_scheduler_wait_arg-IsValid event arg clock v runs) in
    (c' ∙ c, q' ∙ ap (λ l. l ++ js) q)
Turns-none {s = s} (fired {js = js} event cond r) z v =
    let (queued, left) = cpu_scheduler_fire_cond-wakes event cond {s = s} v in
    let (c', q') = Turns-none r z (cpu_scheduler_fire_cond-IsValid event cond v) in
    (
      c' ∙ fire_cond-current event cond s,
      q' ∙ ap (λ l. l ++ js) queued ∙ append_assoc s.ready_queue _ js,
    )
Turns-none {s = s} (added {js = js} t new r) z v =
    let (queued, c) = add_task-appends t s in
    let (c', q') = Turns-none r z (cpu_scheduler_add_task-IsValid t v new) in
    (c' ∙ c, q' ∙ ap (λ l. l ++ js) queued ∙ append_assoc s.ready_queue (t ∷ []) js)
Turns-none (flagged handling reschedule r) z v =
    Turns-none r z (flagged-IsValid handling reschedule v)

longer :
    (front : List ℕ) (t : ℕ) (rest new q q' : List ℕ)
    → q ≡ front ++ t ∷ rest
    → q' ≡ q ++ new
    → q' ≡ front ++ t ∷ (rest ++ new)
longer front t rest new q q' e grown =
    grown ∙ ap (λ l. l ++ new) e ∙ append_assoc front (t ∷ rest) new

-- Round robin: from a valid state with the tasks of `front` before a ready task in the ready queue, the
-- `length front`-th switch and one more brings that task to run, whichever of these steps come in between and
-- after the last switch: preempted tasks, tasks that wait, wake-ups, new tasks, the begin and end of interrupts,
-- and the switches that interrupts put off, but no kills. The ready queue then holds the tasks that stood behind
-- it, and after them those that have joined on the way, in order.
pub Turns-turn :
    {n : ℕ} {js : List ℕ} {s s' : Scheduler} (front : List ℕ) (t : ℕ) (rest : List ℕ)
    → Turns n js s s'
    → n ≡ suc (length front)
    → IsValid s
    → s.ready_queue ≡ front ++ t ∷ rest
    → (s'.current ≡ t) × (s'.ready_queue ≡ rest ++ js)
Turns-turn front t rest done k v q = absurd (omega arith)
Turns-turn {s = s} [] t rest (switched {js = js} clock free r) k v q =
    let (at, runs, queued, _) = cpu_scheduler_next-head clock t rest s free q in
    let (c, q') = Turns-none r (omega arith) (cpu_scheduler_next-IsValid clock v) in
    (c ∙ at, q' ∙ ap (λ l. l ++ js) queued ∙ append_assoc rest _ js)
Turns-turn {s = s} (x ∷ xs) t rest (switched {js = js} clock free r) k v q =
    let old = back (s.tasks s.current).state s.current in
    let (at, runs, queued, _) = cpu_scheduler_next-head clock x (xs ++ t ∷ rest) s free q in
    let (c, q') =
      Turns-turn xs t (rest ++ old) r (omega arith) (cpu_scheduler_next-IsValid clock v)
        (longer xs t rest old (xs ++ t ∷ rest) _ refl queued) in
    (c, q' ∙ append_assoc rest old js)
Turns-turn {s = s} front t rest (deferred clock h r) k v q =
    Turns-turn front t rest r k (cpu_scheduler_next-IsValid clock v)
      ((next_later-same clock s h).0 ∙ q)
Turns-turn {s = s} [] t rest (waited {js = js} event arg clock free runs r) k v q =
    let (at, queued) = wait_arg-head event arg clock t rest s free q in
    let (c, q') =
      Turns-none r (omega arith) (cpu_scheduler_wait_arg-IsValid event arg clock v runs) in
    (c ∙ at, q' ∙ ap (λ l. l ++ js) queued)
Turns-turn {s = s} (x ∷ xs) t rest (waited event arg clock free runs r) k v q =
    let (at, queued) = wait_arg-head event arg clock x (xs ++ t ∷ rest) s free q in
    Turns-turn xs t rest r (omega arith) (cpu_scheduler_wait_arg-IsValid event arg clock v runs)
      queued
Turns-turn {s = s} front t rest (wait_asked event arg clock h runs r) k v q =
    Turns-turn front t rest r k (cpu_scheduler_wait_arg-IsValid event arg clock v runs)
      ((wait_later-same event arg clock s h).0 ∙ q)
Turns-turn {s = s} front t rest (fired {js = js} event cond r) k v q =
    let new = keep (woken event cond s) s.waiting_queue in
    let (queued, left) = cpu_scheduler_fire_cond-wakes event cond {s = s} v in
    let (c, q') =
      Turns-turn front t (rest ++ new) r k (cpu_scheduler_fire_cond-IsValid event cond v)
        (longer front t rest new s.ready_queue _ q queued) in
    (c, q' ∙ append_assoc rest new js)
Turns-turn {s = s} front t rest (added {js = js} u new r) k v q =
    let (queued, _) = add_task-appends u s in
    let (c, q') =
      Turns-turn front t (rest ++ u ∷ []) r k (cpu_scheduler_add_task-IsValid u v new)
        (longer front t rest (u ∷ []) s.ready_queue _ q queued) in
    (c, q' ∙ append_assoc rest (u ∷ []) js)
Turns-turn front t rest (flagged handling reschedule r) k v q =
    Turns-turn front t rest r k (flagged-IsValid handling reschedule v) q
