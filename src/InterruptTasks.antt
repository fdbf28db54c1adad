-- ===== src/InterruptTasks.antt =====
-- src/kernel/interrupts/interrupt_tasks.c: the tasks that interrupts leave behind, in a circular
-- buffer of 128 slots that are linked into a queue in order of priority. The slot with index i is
-- the node at the address i + 1. Handlers and their arguments are numbers.
pub mod Order
pub mod Execute
pub mod Dispatch
pub mod Handle
pub mod Nested
mod Tests
use first_os.Base.{ℕ, zero, suc, ◌+◌, ◌%◌, Bool, Option, none, some, ◌==◌, ltb, if◌then◌else◌}
use first_os.DList.{
  Node, LinkedList, Memory, linked_list_init, linked_list_insert, linked_list_insert_before,
  linked_list_remove,
}

abbrev pub tasks_buffer_size : ℕ
tasks_buffer_size = 128

-- `struct interrupt_task` without its node
pub record InterruptTask : Type 0 where
  pub handler : ℕ
  pub arg : ℕ
  pub priority : ℕ

pub record InterruptTasks : Type 0 where
  pub tasks_buffer : ℕ → InterruptTask
  pub nodes : Memory
  pub tasks_buffer_head : ℕ
  pub tasks_queue : LinkedList

unfoldable pub interrupt_tasks_setup : InterruptTasks → InterruptTasks
interrupt_tasks_setup s = record s { tasks_queue = linked_list_init }

abbrev pub write_entry : (ℕ → InterruptTask) → ℕ → InterruptTask → ℕ → InterruptTask
write_entry buffer slot entry a = if a == slot then entry else buffer a

-- The walk of `interrupt_tasks_add` from `current` on: the first entry that the new one goes before.
-- The first argument bounds the steps.
unfoldable pub find_entry : ℕ → (ℕ → InterruptTask) → Memory → ℕ → ℕ → Option ℕ
find_entry zero buffer nodes new_entry current = none
find_entry (suc fuel) buffer nodes new_entry current =
    let rest = find_entry fuel buffer nodes new_entry (nodes current).next in
    if current == 0
    then none
    else if ltb (buffer new_entry).priority (buffer current).priority
    then some current
    else rest

abbrev pub link_entry : Option ℕ → LinkedList → ℕ → Memory → LinkedList × Memory
link_entry none queue new_entry nodes = linked_list_insert queue new_entry nodes
link_entry (some current) queue new_entry nodes =
    linked_list_insert_before queue new_entry current nodes

unfoldable pub interrupt_tasks_add : InterruptTasks → InterruptTask → InterruptTasks
interrupt_tasks_add s entry =
    let new_entry = suc s.tasks_buffer_head in
    let buffer = write_entry s.tasks_buffer new_entry entry in
    let place = find_entry (suc tasks_buffer_size) buffer s.nodes new_entry s.tasks_queue.head in
    let (queue, nodes) = link_entry place s.tasks_queue new_entry s.nodes in
    record {
      tasks_buffer = buffer;
      nodes = nodes;
      tasks_buffer_head = (s.tasks_buffer_head + 1) % tasks_buffer_size;
      tasks_queue = queue;
    }

-- The body of `interrupt_tasks_execute` where `task` is the head of the queue.
abbrev pub execute_at : ℕ → InterruptTasks → Option InterruptTask × InterruptTasks
execute_at task s =
    let (queue, nodes) = linked_list_remove s.tasks_queue task s.nodes in
    if task == 0
    then (none, s)
    else (some (s.tasks_buffer task), record s { tasks_queue = queue; nodes = nodes })

-- The task whose handler runs, if there is one, and the state in which it runs.
unfoldable pub interrupt_tasks_execute : InterruptTasks → Option InterruptTask × InterruptTasks
interrupt_tasks_execute s = execute_at s.tasks_queue.head s
