-- ===== src/InterruptTasks/Tests.antt =====
-- The theorems on the queue of interrupt tasks at a queue of two pending tasks.
use first_os.InterruptTasks.Handle.{Interrupts}
use first_os.Base.{◌⊎◌, List, ℕ, false, ◌≡◌, refl, [], ◌∷◌, arith, has, true, ◌==◌, if◌then◌else◌}
use first_os.Queue.{insert_sorted}
use first_os.InterruptTasks.{InterruptTask, InterruptTasks, interrupt_tasks_add}
use first_os.InterruptTasks.Order.{IsQueue, interrupt_tasks_add-IsQueue}

abbrev task : ℕ → InterruptTask
task priority = record { handler = 5; arg = 0; priority = priority }

-- The slots 0 and 1 are pending, the second one first.
abbrev pending : InterruptTasks
pending = record {
  tasks_buffer = λ a. if a == 1 then task 200 else task 1;
  nodes = λ a. if a == 1 then record { prev = 2; next = 0 } else record { prev = 0; next = 1 };
  tasks_buffer_head = 2;
  tasks_queue = record { head = 2; tail = 1 };
}

pending-IsQueue : IsQueue pending (2 ∷ 1 ∷ [])
pending-IsQueue = record {
  list = record {
    head_first = refl;
    tail_last = refl;
    chain = (λ e. omega arith, refl, refl, (λ e. omega arith, refl, refl, tt));
    distinct = (refl, (refl, tt));
  };
  sorted = ((omega arith, tt), (tt, tt));
}

interrupt_tasks_add-IsQueue_example :
    let s' = interrupt_tasks_add pending (task 1) in
    IsQueue s' (insert_sorted (λ a. (s'.tasks_buffer a).priority) 3 (2 ∷ 1 ∷ []))
    × (s'.tasks_buffer 3 ≡ task 1)
    × ((a : ℕ) → has a (2 ∷ 1 ∷ []) ≡ true → s'.tasks_buffer a ≡ pending.tasks_buffer a)
interrupt_tasks_add-IsQueue_example =
    interrupt_tasks_add-IsQueue pending (task 1) (2 ∷ 1 ∷ []) pending-IsQueue (omega arith) refl

-- A timer interrupt at two pending tasks; while the first one runs, another interrupt leaves a task behind.
abbrev interrupts : Interrupts ℕ
interrupts = record {
  queue = pending;
  is_handling_interrupt = false;
  need_reschedule_cpu = true;
  rest = 1;
}

abbrev nested : InterruptTask → Interrupts ℕ → Interrupts ℕ
nested t i =
    let more : Interrupts ℕ = record i { queue = interrupt_tasks_add i.queue (task 1); rest = 0 } in
    if i.rest == 0 then i else more

-- No interrupt is to come any more, or one before the first task has run.
abbrev Before : Interrupts ℕ → List ℕ → Type 0
Before i xs =
    (i.rest ≡ 0) ⊎ ((i.rest ≡ 1) × (xs ≡ 2 ∷ 1 ∷ 3 ∷ []) × (i.queue.tasks_buffer_head ≡ 3))

abbrev others : List ℕ → List ℕ
others [] = []
others (x ∷ xs) = xs
