-- ===== src/InterruptTasks/Nested.antt =====
-- `interrupt_handler` of src/kernel/interrupts/interrupt_handler.c where other interrupts come while the tasks run
-- and leave tasks of their own behind.
use first_os.Base.{
  ℕ, suc, ◌+◌, ◌≤◌, ◌≡◌, true, false, Option, some, List, [], ◌∷◌, if◌then◌else◌, length, ◌⊎◌, All,
}
use first_os.Queue.{insert_sorted}
use first_os.InterruptTasks.{InterruptTask, InterruptTasks, interrupt_tasks_add}
use first_os.InterruptTasks.Order.{IsQueue}
use first_os.InterruptTasks.Handle.{Interrupts}

module _ {S : Type 0} (run : InterruptTask → Interrupts S → Interrupts S)
    (reschedule signals : S → S) where
  -- The tasks that have run from a state on, up to one with none pending: each was pending at the head of
  -- the queue, which no pending task goes before, and ran with the others left.
  abbrev pub Ran : List InterruptTask → Interrupts S → Interrupts S → Type 0
  Ran [] i i' = IsQueue i.queue [] × (i' ≡ i)
  Ran (task ∷ tasks) i i' =
      (x : ℕ) × (xs : List ℕ) × (queue : InterruptTasks) × (task ≡ i.queue.tasks_buffer x)
      × IsQueue i.queue (x ∷ xs)
      × IsQueue queue xs
      × All (λ a. task.priority ≤ (i.queue.tasks_buffer a).priority) xs
      × Ran tasks (run task (record i { queue = queue })) i'

  -- What a task, with the interrupts that come while it runs, leaves of the queue and of the interrupts that
  -- are still to come: each of those that has come has left at most one task behind.
  abbrev pub Steady :
      (Interrupts S → List ℕ → Type 0) → (S → ℕ) → Interrupts S → List ℕ → Interrupts S → Type 0
  Steady Inv coming i xs i' =
      (ys : List ℕ) × IsQueue i'.queue ys
      × Inv i' ys
      × (length ys + coming i'.rest ≤ length xs + coming i.rest)

  abbrev pub IsSteady : (Interrupts S → List ℕ → Type 0) → (S → ℕ) → Type 0
  IsSteady Inv coming =
      (i : Interrupts S) (x : ℕ) (xs : List ℕ) (queue : InterruptTasks)
      → Inv i (x ∷ xs)
      → IsQueue queue xs
      → queue.tasks_buffer ≡ i.queue.tasks_buffer
      → queue.tasks_buffer_head ≡ i.queue.tasks_buffer_head
      → Steady Inv coming i xs (run (i.queue.tasks_buffer x) (record i { queue = queue }))

  -- What an interrupt that leaves a task behind does, by whether another one is being handled.
  abbrev pub Served :
      InterruptTask → List ℕ → Interrupts S → Option (List InterruptTask × Interrupts S) → Type 0
  Served task xs i o =
      let queue = interrupt_tasks_add i.queue task in
      let order =
        insert_sorted (λ a. (queue.tasks_buffer a).priority) (suc i.queue.tasks_buffer_head) xs in
      let added = record i { queue = queue } in
      ((i.is_handling_interrupt ≡ true) × (o ≡ some ([], added)) × IsQueue queue order)
      ⊎ ((i.is_handling_interrupt ≡ false)
          × ((tasks : List InterruptTask) × (j : Interrupts S) × (i' : Interrupts S) × (o
                ≡ some (tasks, i'))
              × IsQueue i'.queue []
              × (i'.is_handling_interrupt ≡ false)
              × (i'.need_reschedule_cpu ≡ false)
              × (i'.rest ≡ signals (if j.need_reschedule_cpu then reschedule j.rest else j.rest))
              × Ran tasks (record added { is_handling_interrupt = true }) j))
