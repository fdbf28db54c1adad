-- ===== src/Syscalls/Waitpid.antt =====
-- `_syscall_waitpid` of src/kernel/interrupts/syscalls.c, and the death of the task it waits for.
use first_os.Base.{ℕ, ◌%◌, ◌^◌, ◌≡◌, ◌≢◌, refl, ap, sym, ◌∙◌, true, false, some, has, set}
use mathlib.Core.Path.{subst}
use first_os.Scheduler.{
  Scheduler, Clock, running, is_killed, process_kill, task_table_get_task, cpu_scheduler_wait_arg,
  cpu_scheduler_kill_by_pid,
}
use first_os.Scheduler.Reap.{Sound}
use first_os.Scheduler.Pids.{wait_arg-SameTable}
use first_os.Scheduler.Reach.{Reach, Reach-Sound, wait, then_step, here}
use first_os.Scheduler.Mourners.{WaitsFor, wait_arg-WaitsFor, kill_by_pid-wakes}
use first_os.Syscalls.{
  Kernel, get_syscall_id, get_param_by_index, set_result, after_ecall, syscall_waitpid,
  syscall_handler,
}

-- What the call itself does: it has its result, the caller waits for the pid, and a switch is asked for.
abbrev pub Waiting : ℕ → Kernel → Kernel → Type 0
Waiting pid k k' =
    (k'.trapframe.regs ≡ set k.trapframe.regs 10 pid)
    × WaitsFor process_kill pid k.scheduler.current k'.scheduler
    × (k'.scheduler.need_reschedule_cpu ≡ true)

waitpid-eq :
    (clock : Clock) (exec fork display : Kernel → Kernel) (now later : ℕ) (k : Kernel)
    → get_syscall_id k.trapframe ≡ 5
    → let pid = get_param_by_index k.trapframe 0 % 2 ^ 32 in
      let k' = syscall_handler clock exec fork display now later k in
      (k'.scheduler ≡ cpu_scheduler_wait_arg process_kill pid clock k.scheduler)
      × (k'.trapframe.regs ≡ set k.trapframe.regs 10 pid)
unfolding syscall_handler syscall_waitpid set_result after_ecall get_param_by_index
waitpid-eq clock exec fork display now later k call = rw call (refl, refl)

-- A running task that calls `waitpid` for another pid, in the interrupt handler, waits for that pid, and a
-- switch is asked for. Whatever steps the scheduler takes after that, by which the caller has not been woken
-- and its record is as it was: when the task with the pid, which is in the table and not dead, is killed by
-- the pid in the interrupt handler, by itself or by another task, the caller becomes ready.
pub syscall_handler-woken :
    (clock clock' : Clock) (exec fork display : Kernel → Kernel) (now later : ℕ) (k : Kernel)
    (s : Scheduler) (t : ℕ)
    → get_syscall_id k.trapframe ≡ 5
    → Sound k.scheduler
    → (k.scheduler.tasks k.scheduler.current).state ≡ running
    → k.scheduler.is_handling_interrupt ≡ true
    → (k.scheduler.tasks k.scheduler.current).pid ≢ get_param_by_index k.trapframe 0 % 2 ^ 32
    → Reach (syscall_handler clock exec fork display now later k).scheduler s
    → has k.scheduler.current s.waiting_queue ≡ true
    → s.tasks k.scheduler.current
      ≡ (syscall_handler clock exec fork display now later k).scheduler.tasks k.scheduler.current
    → s.is_handling_interrupt ≡ true
    → task_table_get_task (get_param_by_index k.trapframe 0 % 2 ^ 32) s ≡ some t
    → is_killed (s.tasks t).state ≡ false
    → let pid = get_param_by_index k.trapframe 0 % 2 ^ 32 in
      let (result, s') = cpu_scheduler_kill_by_pid pid clock' s in
      Waiting pid k (syscall_handler clock exec fork display now later k)
      × (result ≡ 0)
      × (has k.scheduler.current s'.ready_queue ≡ true)
      × (has k.scheduler.current s'.waiting_queue ≡ false)
syscall_handler-woken clock clock' exec fork display now later k s t call sound runs handling other
      reach waits same inside found alive =
    let pid = get_param_by_index k.trapframe 0 % 2 ^ 32 in
    let a = k.scheduler.current in
    let s1 = cpu_scheduler_wait_arg process_kill pid clock k.scheduler in
    let k' = syscall_handler clock exec fork display now later k in
    let calls : (k'.scheduler ≡ s1) × (k'.trapframe.regs ≡ set k.trapframe.regs 10 pid) =
      waitpid-eq clock exec fork display now later k call in
    let (called, regs) = calls in
    let (waiting, asked) = wait_arg-WaitsFor process_kill pid clock k.scheduler handling in
    let kept : s.tasks a ≡ s1.tasks a = same ∙ ap (λ (x : Scheduler). x.tasks a) called in
    let sound' : Sound k'.scheduler =
      subst Sound (sym called)
        (Reach-Sound sound (then_step here (wait process_kill pid clock runs))) in
    let (result, ready, left) =
      kill_by_pid-wakes pid t a clock' (Reach-Sound sound' reach).0 inside found alive
        (λ e. other (
          sym ((wait_arg-SameTable process_kill pid clock k.scheduler).1 a)
          ∙ ap (λ x. x.pid) (sym kept)
          ∙ e))
        waits (ap (λ x. x.wait_id) kept ∙ waiting.1) (ap (λ x. x.wait_arg) kept ∙ waiting.2) in
    (
      (
        regs,
        subst (WaitsFor process_kill pid a) (sym called) waiting,
        ap (λ (x : Scheduler). x.need_reschedule_cpu) called ∙ asked,
      ),
      result,
      ready,
      left,
    )
