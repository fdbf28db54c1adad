-- ===== src/Tasks/Fork.antt =====
-- `_syscall_fork` of src/kernel/interrupts/syscalls.c: the copy of the current task, and its pid.
use first_os.Base.{ℕ, ◌<◌, ◌≡◌, true, has, set}
use first_os.Scheduler.{Scheduler, cpu_scheduler_add_task}
use first_os.Scheduler.Enter.{enter_task}
use first_os.Signals.{Stack}
use first_os.Tasks.{UserTask, World, put_trapframe, task_copy}

abbrev pub return_value : ℕ → ℕ → Stack → Stack
return_value addr value trapframes =
    put_trapframe addr (record (trapframes addr) { regs = set (trapframes addr).regs 10 value })
      trapframes

-- The child, the world with both trapframes, and the scheduler.
unfoldable pub syscall_fork :
    (virtual_kernel_offset : ℕ) (pages : ℕ → ℕ) (kernel_pgd trampoline switch_to_user : ℕ)
    (task_addr pgd stack_addr : ℕ)
    → UserTask
    → World
    → Scheduler
    → UserTask × World × Scheduler
syscall_fork offset pages kernel_pgd trampoline switch_to_user task_addr pgd stack_addr source w s =
    let (copied, w') =
      task_copy offset pages kernel_pgd trampoline switch_to_user task_addr pgd stack_addr source
        w in
    let child : UserTask = record copied {
      thread = record (copied.thread) { ra = switch_to_user };
    } in
    (
      child,
      record w' {
        trapframes =
            return_value source.kernel_stack_top child.pid
              (return_value child.thread.sscratch 0 w'.trapframes);
      },
      cpu_scheduler_add_task task_addr (enter_task task_addr child.pid s),
    )

-- The pids of the table have all been given out, and the next one does not wrap.
abbrev pub PidsBelow : ℕ → Scheduler → Type 0
PidsBelow next_pid s = (u : ℕ) → has u s.entries ≡ true → (s.tasks u).pid < next_pid
