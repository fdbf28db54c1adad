-- ===== src/Scheduler/RoundRobin.antt =====
-- `cpu_scheduler_next` of src/kernel/task/cpu_scheduler.c: the order in which ready tasks run.
use first_os.Base.{
  ℕ, suc, ◌≡◌, refl, ap, sym, ◌∙◌, true, false, List, [], ◌∷◌, ◌++◌, append_assoc, append-nil,
  arith, if◌then◌else◌, without, ==_refl, length,
}
use mathlib.Core.Path.{subst}
use first_os.Scheduler.{
  Scheduler, Clock, Task, TaskState, ready, running, waiting, killed, set_state, requeue, switch_to,
  start_quantum, switch_head, cpu_scheduler_next,
}

-- Who is put back behind the others: the current task, if it was running.
unfoldable pub back : TaskState → ℕ → List ℕ
back running t = t ∷ []
back ready t = []
back waiting t = []
back killed t = []

requeue-back :
    (st : TaskState) (s : Scheduler)
    → ((requeue s.current st s).ready_queue ≡ s.ready_queue ++ back st s.current)
      × ((requeue s.current st s).is_handling_interrupt ≡ s.is_handling_interrupt)
unfolding requeue back
requeue-back running s = (refl, refl)
requeue-back ready s = (sym (append-nil _), refl)
requeue-back waiting s = (sym (append-nil _), refl)
requeue-back killed s = (sym (append-nil _), refl)

set_state_self : (t : ℕ) (st : TaskState) (tasks : ℕ → Task) → (set_state t st tasks t).state ≡ st
set_state_self t st tasks = ground arith

abbrev Switched : ℕ → List ℕ → Scheduler → Scheduler → Type 0
Switched next rest s s' =
    (s'.current ≡ next)
    × ((s'.tasks next).state ≡ running)
    × (s'.ready_queue ≡ rest ++ back (s.tasks s.current).state s.current)
    × (s'.is_handling_interrupt ≡ false)

cpu_scheduler_next-eq :
    (clock : Clock) (next : ℕ) (rest : List ℕ) (s : Scheduler)
    → s.is_handling_interrupt ≡ false
    → s.ready_queue ≡ next ∷ rest
    → cpu_scheduler_next clock s ≡ switch_to next (start_quantum clock s)
unfolding cpu_scheduler_next
cpu_scheduler_next-eq clock next rest s free q =
    ap
      (λ b.
        if b then record s { need_reschedule_cpu = true } else switch_head s.ready_queue clock s)
      free
    ∙ ap (λ l. switch_head l clock s) q

switch_to-Switched :
    (next : ℕ) (rest : List ℕ) (s : Scheduler)
    → s.ready_queue ≡ next ∷ rest
    → s.is_handling_interrupt ≡ false
    → Switched next rest s (switch_to next s)
unfolding switch_to
switch_to-Switched next rest s q free =
    let (queued, flag) = requeue-back (s.tasks s.current).state s in
    (
      refl,
      set_state_self next running (requeue s.current (s.tasks s.current).state s).tasks,
      ap (without next)
            (queued ∙ ap (λ (l : List ℕ). l ++ back (s.tasks s.current).state s.current) q)
          ∙ rw (==_refl next) refl,
      flag ∙ free,
    )

-- Outside an interrupt, the task at the head of the ready queue runs next. The task that ran goes
-- to the end of the queue, unless it waits or is dead.
pub cpu_scheduler_next-head :
    (clock : Clock) (next : ℕ) (rest : List ℕ) (s : Scheduler)
    → s.is_handling_interrupt ≡ false
    → s.ready_queue ≡ next ∷ rest
    → let s' = cpu_scheduler_next clock s in
      (s'.current ≡ next)
      × ((s'.tasks next).state ≡ running)
      × (s'.ready_queue ≡ rest ++ back (s.tasks s.current).state s.current)
      × (s'.is_handling_interrupt ≡ false)
unfolding start_quantum
cpu_scheduler_next-head clock next rest s free q =
    subst (Switched next rest s) (sym (cpu_scheduler_next-eq clock next rest s free q))
      (switch_to-Switched next rest (start_quantum clock s) q free)

-- One switch after another, each with its reads of the clock.
unfoldable switches : List Clock → Scheduler → Scheduler
switches [] s = s
switches (clock ∷ clocks) s = switches clocks (cpu_scheduler_next clock s)

back-running :
    (x : ℕ) (s : Scheduler)
    → s.current ≡ x
    → (s.tasks x).state ≡ running
    → back (s.tasks s.current).state s.current ≡ x ∷ []
unfolding back
back-running x s at runs =
    ap (λ c. back (s.tasks c).state c) at ∙ ap (λ (st : TaskState). back st x) runs

-- What the switches leave: the task `t` runs, the tasks before it have run and stand behind the others in
-- their order, and before them the task that was current, if it was running.
abbrev Turned : List ℕ → ℕ → List ℕ → Scheduler → Scheduler → Type 0
Turned front t rest s s' =
    (s'.current ≡ t)
    × ((s'.tasks t).state ≡ running)
    × (s'.ready_queue ≡ rest ++ (back (s.tasks s.current).state s.current ++ front))

-- Round robin: outside interrupts, `length front` switches and one more, with no other step of the
-- scheduler in between, come to the task with `front` before it in the ready queue. The queue has then gone
-- round: behind the tasks that stood behind it follow the task that was current, if it was running, and
-- those of `front`, in their order.
switches-turn :
    (front : List ℕ) (t : ℕ) (rest : List ℕ) (clocks : List Clock) (s : Scheduler)
    → s.is_handling_interrupt ≡ false
    → s.ready_queue ≡ front ++ t ∷ rest
    → length clocks ≡ suc (length front)
    → Turned front t rest s (switches clocks s)
unfolding switches
switches-turn [] t rest [] s free q n = absurd (omega arith)
switches-turn [] t rest (c ∷ []) s free q n =
    let (at, runs, queued, _) = cpu_scheduler_next-head c t rest s free q in
    (
      at,
      runs,
      queued ∙ ap (λ l. rest ++ l) (sym (append-nil (back (s.tasks s.current).state s.current))),
    )
switches-turn [] t rest (c ∷ d ∷ cs) s free q n = absurd (omega arith)
switches-turn (x ∷ xs) t rest [] s free q n = absurd (omega arith)
switches-turn (x ∷ xs) t rest (c ∷ cs) s free q n =
    let s1 = cpu_scheduler_next c s in
    let old = back (s.tasks s.current).state s.current in
    let (at, runs, queued, free') = cpu_scheduler_next-head c x (xs ++ t ∷ rest) s free q in
    let (at', runs', queued') =
      switches-turn xs t (rest ++ old) cs s1 free' (queued ∙ append_assoc xs (t ∷ rest) _)
        (omega arith) in
    (
      at',
      runs',
      queued'
          ∙ ap (λ l. (rest ++ old) ++ (l ++ xs)) (back-running x s1 at runs)
          ∙ append_assoc rest old (x ∷ xs),
    )
