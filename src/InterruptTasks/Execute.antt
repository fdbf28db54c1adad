-- ===== src/InterruptTasks/Execute.antt =====
-- `interrupt_tasks_execute` of src/kernel/interrupts/interrupt_tasks.c takes the first task.
use first_os.Base.{ℕ, ◌≤◌, ◌≡◌, refl, sym, Option, none, some, List, [], ◌∷◌, All, ne→==}
use mathlib.Core.Path.{subst}
use first_os.DList.Remove.{linked_list_remove-middle}
use first_os.InterruptTasks.{InterruptTask, InterruptTasks, execute_at, interrupt_tasks_execute}
use first_os.InterruptTasks.Order.{IsQueue}

-- What a call returns for each queue: with none pending, no task and the same state; else the task
-- at the head, which no pending task goes before, and a state whose queue holds the others.
abbrev pub Executed : InterruptTasks → List ℕ → Option InterruptTask × InterruptTasks → Type 0
Executed s [] (ran, s') = (ran ≡ none) × (s' ≡ s)
Executed s (x ∷ xs) (ran, s') =
    (ran ≡ some (s.tasks_buffer x))
    × IsQueue s' xs
    × All (λ a. (s.tasks_buffer x).priority ≤ (s.tasks_buffer a).priority) xs
    × (s'.tasks_buffer_head ≡ s.tasks_buffer_head)

-- `interrupt_tasks_execute` on a queue in order.
pub interrupt_tasks_execute-Executed :
    (s : InterruptTasks) (xs : List ℕ) → IsQueue s xs → Executed s xs (interrupt_tasks_execute s)
unfolding interrupt_tasks_execute
interrupt_tasks_execute-Executed s [] q =
    subst (λ t. Executed s [] (execute_at t s)) (sym q.list.head_first) (refl, refl)
interrupt_tasks_execute-Executed s (x ∷ xs) q =
    let r = linked_list_remove-middle [] x xs q.list in
    subst (λ t. Executed s (x ∷ xs) (execute_at t s)) (sym q.list.head_first)
      (rw (ne→== x 0 q.list.chain.0)
        (refl, record { list = r.0; sorted = q.sorted.1 }, q.sorted.0, refl))
