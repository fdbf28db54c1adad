-- ===== src/InterruptTasks/Handle.antt =====
-- `interrupt_handler` of src/kernel/interrupts/interrupt_handler.c: an interrupt leaves a task behind, and the
-- outermost one runs the tasks until none is pending. What a task does, with the interrupts that come while
-- it runs, is a parameter, and so are the switch and the signal handler at the end.
use first_os.Base.{
  ℕ, zero, suc, ◌+◌, ◌<◌, ◌≡◌, refl, ap, sym, ◌∙◌, Bool, true, false, Option, none, some, List, [],
  ◌∷◌, arith, if◌then◌else◌, ◌>>=◌, length, map, has, inl, inr, ◌⊎◌, Bool-cases, ltb, ◌==◌, ◌≤◌,
}
use mathlib.Core.Path.{subst}
use first_os.Queue.{insert_sorted}
use first_os.InterruptTasks.{
  InterruptTask, InterruptTasks, tasks_buffer_size, interrupt_tasks_add, interrupt_tasks_execute,
}
use first_os.InterruptTasks.Order.{IsQueue, interrupt_tasks_add-IsQueue}
use first_os.InterruptTasks.Execute.{interrupt_tasks_execute-Executed}

-- The queue, the two flags, and what else there is.
pub record Interrupts (S : Type 0) : Type 0 where
  pub queue : InterruptTasks
  pub is_handling_interrupt : Bool
  pub need_reschedule_cpu : Bool
  pub rest : S

pub length-insert_sorted :
    (key : ℕ → ℕ) (new : ℕ) (xs : List ℕ) → length (insert_sorted key new xs) ≡ suc (length xs)
unfolding insert_sorted
length-insert_sorted key new [] = refl
length-insert_sorted key new (x ∷ xs) = elim (Bool-cases (ltb (key new) (key x))) [
  | inl e ↦ rw e refl
  | inr e ↦ rw e (ap suc (length-insert_sorted key new xs))
]

module _ {S : Type 0} (run : InterruptTask → Interrupts S → Interrupts S)
    (reschedule signals : S → S) where
  abbrev pub ran_then :
      Option InterruptTask
      → Interrupts S
      → (Interrupts S → Option (List InterruptTask × Interrupts S))
      → Option (List InterruptTask × Interrupts S)
  ran_then none i on = some ([], i)
  ran_then (some task) i on = on (run task i) >>= λ (tasks, i'). some (task ∷ tasks, i')

  -- `while (interrupt_tasks_execute()) { }`, with the tasks that it runs.
  unfoldable pub execute_loop : ℕ → Interrupts S → Option (List InterruptTask × Interrupts S)
  execute_loop zero i = none
  execute_loop (suc fuel) i =
      let (task, queue) = interrupt_tasks_execute i.queue in
      ran_then task (record i { queue = queue }) (λ i'. execute_loop fuel i')

  -- What follows the loop.
  unfoldable pub leave_handler : Interrupts S → Interrupts S
  leave_handler i = record i {
    is_handling_interrupt = false;
    need_reschedule_cpu = false;
    rest = signals (if i.need_reschedule_cpu then reschedule i.rest else i.rest);
  }

  unfoldable pub interrupt_handler :
      ℕ → Option InterruptTask → Interrupts S → Option (List InterruptTask × Interrupts S)
  interrupt_handler fuel none i = some ([], i)
  interrupt_handler fuel (some task) i =
      let added = record i { queue = interrupt_tasks_add i.queue task } in
      let handled =
        execute_loop fuel (record added { is_handling_interrupt = true }) >>= λ (tasks, i').
        some (tasks, leave_handler i') in
      if i.is_handling_interrupt then some ([], added) else handled

  -- The tasks `xs` have run, in order, and none is left.
  abbrev Drained : InterruptTasks → List ℕ → Option (List InterruptTask × Interrupts S) → Type 0
  Drained queue xs o =
      (i : Interrupts S) × (o ≡ some (map queue.tasks_buffer xs, i)) × IsQueue i.queue []

  pub execute-buffer :
      (s : InterruptTasks) → (interrupt_tasks_execute s).1.tasks_buffer ≡ s.tasks_buffer
  unfolding interrupt_tasks_execute
  execute-buffer s = elim (Bool-cases (s.tasks_queue.head == 0)) [
    | inl e ↦ rw e refl
    | inr e ↦ rw e refl
  ]

  execute_loop-Drained :
      (xs : List ℕ) (fuel : ℕ) (i : Interrupts S)
      → ((task : InterruptTask) (i : Interrupts S) → (run task i).queue ≡ i.queue)
      → IsQueue i.queue xs
      → length xs < fuel
      → Drained i.queue xs (execute_loop fuel i)
  unfolding execute_loop
  execute_loop-Drained xs zero i quiet q h = absurd (omega arith)
  execute_loop-Drained [] (suc fuel) i quiet q h =
      let (ran, same) = interrupt_tasks_execute-Executed i.queue [] q in
      (
        record i { queue = (interrupt_tasks_execute i.queue).1 },
        rw ran refl,
        subst (λ s. IsQueue s []) (sym same) q,
      )
  execute_loop-Drained (x ∷ xs) (suc fuel) i quiet q h =
      let (ran, left, first, head) = interrupt_tasks_execute-Executed i.queue (x ∷ xs) q in
      let i1 : Interrupts S = record i { queue = (interrupt_tasks_execute i.queue).1 } in
      let i2 = run (i.queue.tasks_buffer x) i1 in
      let same : i2.queue ≡ i1.queue = quiet (i.queue.tasks_buffer x) i1 in
      let (i', e, q') =
        execute_loop-Drained xs fuel i2 quiet (subst (λ s. IsQueue s xs) (sym same) left)
          (omega arith) in
      let buffers : i2.queue.tasks_buffer ≡ i.queue.tasks_buffer =
        ap (λ (s : InterruptTasks). s.tasks_buffer) same ∙ execute-buffer i.queue in
      (i', rw ran (rw e (ap (λ b. some (i.queue.tasks_buffer x ∷ map b xs, i')) buffers)), q')

  -- What an interrupt that leaves a task behind does, by whether another one is being handled: it only queues the
  -- task; or all pending tasks and the new one run, in order of priority, and the flags are clear.
  abbrev Handled :
      InterruptTask → List ℕ → Interrupts S → Option (List InterruptTask × Interrupts S) → Type 0
  Handled task xs i o =
      let queue = interrupt_tasks_add i.queue task in
      let order =
        insert_sorted (λ a. (queue.tasks_buffer a).priority) (suc i.queue.tasks_buffer_head) xs in
      (i' : Interrupts S) × (((i.is_handling_interrupt ≡ true)
          × (o ≡ some ([], i'))
          × IsQueue i'.queue order)
        ⊎ ((i.is_handling_interrupt ≡ false)
            × (o ≡ some (map queue.tasks_buffer order, i'))
            × IsQueue i'.queue []
            × (i'.is_handling_interrupt ≡ false)
            × (i'.need_reschedule_cpu ≡ false)))

  -- `interrupt_handler` with a task to leave behind, where the next slot is free and the tasks that run
  -- leave the queue as it is, so that no interrupt comes while they run,
  -- returns within one round more than there are tasks: while another interrupt is handled it only queues the
  -- task in its place; otherwise all pending tasks have run, in order of priority, and none is left.
  interrupt_handler-Handled :
      (fuel : ℕ) (task : InterruptTask) (xs : List ℕ) (i : Interrupts S)
      → ((task : InterruptTask) (i : Interrupts S) → (run task i).queue ≡ i.queue)
      → IsQueue i.queue xs
      → length xs ≤ tasks_buffer_size
      → has (suc i.queue.tasks_buffer_head) xs ≡ false
      → length xs + 1 < fuel
      → Handled task xs i (interrupt_handler fuel (some task) i)
  unfolding interrupt_handler leave_handler
  interrupt_handler-Handled fuel task xs i quiet q room free h =
      let (added, stored, kept) = interrupt_tasks_add-IsQueue i.queue task xs q room free in
      elim (Bool-cases i.is_handling_interrupt) [
        | inl handling ↦ (
          record i { queue = interrupt_tasks_add i.queue task },
          inl (handling, rw handling refl, added),
        )
        | inr outermost ↦
            let i1 : Interrupts S = record i {
              queue = interrupt_tasks_add i.queue task;
              is_handling_interrupt = true;
            } in
            let order =
              insert_sorted (λ a. ((interrupt_tasks_add i.queue task).tasks_buffer a).priority)
                (suc i.queue.tasks_buffer_head) xs in
            let (i', e, left) = execute_loop-Drained order fuel i1 quiet added (
              omega (
                arith,
                length-insert_sorted
                    (λ a. ((interrupt_tasks_add i.queue task).tasks_buffer a).priority)
                    (suc i.queue.tasks_buffer_head) xs,
              )) in
            (leave_handler i', inr (outermost, rw outermost (rw e refl), left, refl, refl))
      ]
