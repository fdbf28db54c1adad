-- ===== src/Syscalls.antt =====
-- src/kernel/interrupts/syscalls.c: the system calls of the current task. They run within the interrupt
-- handler, so that a wait or a kill only asks for another task and the call goes on to its end.
-- `_syscall_exec`, `_syscall_fork` and `_syscall_display` are arguments of the dispatch; `_syscall_mmap`,
-- `_syscall_sigreturn` and the pending signal of `_syscall_kill` stand with the mappings and the signals.
pub mod Read
pub mod Waitpid
mod Tests
use first_os.Base.{
  ℕ, zero, suc, ◌+◌, ◌-◌, ◌%◌, ◌^◌, Bool, Option, none, some, List, [], ◌∷◌, ◌==◌, if◌then◌else◌,
  get_or, set, length,
}
use first_os.Scheduler.{
  Scheduler, Clock, process_kill, uart_read, uart_write, cpu_scheduler_wait, cpu_scheduler_wait_arg,
  cpu_scheduler_kill, cpu_scheduler_kill_by_pid, cpu_scheduler_sleep, task_table_get_task,
}
use first_os.Uart.{Uart, uart_get_bytes, uart_put_bytes}
use first_os.Mappings.{Mapping}
use first_os.Mappings.Mmap
use first_os.Signals.{SignalTask, Trapframe, Stack, task_register_signal, syscall_sigreturn}
use first_os.Signals

-- What the calls reach: the scheduler, the serial driver, and of the current task its memory, byte by
-- byte, its trapframe and its mappings. Signals are those of a task at its address. The last is whether interrupts
-- are enabled, which only `mmap` does not put back.
pub record Kernel : Type 0 where
  pub scheduler : Scheduler
  pub uart : Uart
  pub memory : ℕ → ℕ
  pub trapframe : Trapframe
  pub mappings : List Mapping
  pub signals : ℕ → SignalTask
  pub stack : Stack
  pub interrupts : Bool

unfoldable pub get_syscall_id : Trapframe → ℕ
get_syscall_id tf = get_or tf.regs 17 0

unfoldable pub get_param_by_index : Trapframe → ℕ → ℕ
get_param_by_index tf index = get_or tf.regs (10 + index) 0

unfoldable pub set_result : ℕ → Kernel → Kernel
set_result value k = record k {
  trapframe = record (k.trapframe) { regs = set k.trapframe.regs 10 value };
}

-- `tf->sepc += 4` and `tf->sepc -= 4`
unfoldable pub after_ecall : Kernel → Kernel
after_ecall k = record k {
  trapframe = record (k.trapframe) { sepc = (k.trapframe.sepc + 4) % 2 ^ 64 };
}

unfoldable pub at_ecall : Kernel → Kernel
at_ecall k = record k {
  trapframe = record (k.trapframe) { sepc = (k.trapframe.sepc + 2 ^ 64 - 4) % 2 ^ 64 };
}

-- The bytes that a call hands over to the task, from an address on, and those it takes from there.
unfoldable pub write_bytes : ℕ → List ℕ → (ℕ → ℕ) → ℕ → ℕ
write_bytes addr [] memory = memory
write_bytes addr (c ∷ cs) memory =
    let rest = write_bytes (addr + 1) cs memory in λ a. if a == addr then c else rest a

unfoldable pub read_bytes : ℕ → ℕ → (ℕ → ℕ) → List ℕ
read_bytes addr zero memory = []
read_bytes addr (suc n) memory = memory addr ∷ read_bytes (addr + 1) n memory

abbrev pub current_pid : Kernel → ℕ
current_pid k = (k.scheduler.tasks k.scheduler.current).pid

unfoldable pub syscall_get_pid : Kernel → Kernel
syscall_get_pid k = set_result (current_pid k) k

module _ (clock : Clock) where
  unfoldable pub syscall_uart_read : Kernel → Kernel
  syscall_uart_read k =
      let buf = get_param_by_index k.trapframe 0 in
      let count = get_param_by_index k.trapframe 1 % 2 ^ 32 in
      let (bytes, u) = uart_get_bytes count k.uart in
      let k' = record k { uart = u; memory = write_bytes buf bytes k.memory } in
      if length bytes == 0
      then at_ecall (record k' { scheduler = cpu_scheduler_wait uart_read clock k.scheduler })
      else set_result (length bytes) k'

  unfoldable pub syscall_uart_write : Kernel → Kernel
  syscall_uart_write k =
      let buf = get_param_by_index k.trapframe 0 in
      let count = get_param_by_index k.trapframe 1 % 2 ^ 32 in
      let (written, u) = uart_put_bytes (read_bytes buf count k.memory) k.uart in
      let k' = record k { uart = u } in
      if written == 0
      then at_ecall (record k' { scheduler = cpu_scheduler_wait uart_write clock k.scheduler })
      else set_result written k'

  unfoldable pub syscall_waitpid : Kernel → Kernel
  syscall_waitpid k =
      let pid = get_param_by_index k.trapframe 0 % 2 ^ 32 in
      set_result pid
        (record k { scheduler = cpu_scheduler_wait_arg process_kill pid clock k.scheduler })

  unfoldable pub syscall_exit : Kernel → Kernel
  syscall_exit k = set_result 1 (record k { scheduler = cpu_scheduler_kill clock k.scheduler })

  unfoldable pub syscall_stop : Kernel → Kernel
  syscall_stop k =
      let pid = get_param_by_index k.trapframe 0 % 2 ^ 32 in
      let (result, s) = cpu_scheduler_kill_by_pid pid clock k.scheduler in
      set_result (if result == 0 then 0 else 2 ^ 64 - 1) (record k { scheduler = s })

  -- `now` and `later` are the readings of the clock when the timeout is set.
  unfoldable pub syscall_usleep : ℕ → ℕ → Kernel → Kernel
  syscall_usleep now later k =
      let usec = get_param_by_index k.trapframe 0 % 2 ^ 32 in
      set_result 0 (record k { scheduler = cpu_scheduler_sleep usec now later clock k.scheduler })

  abbrev pub set_signals : ℕ → SignalTask → Kernel → Kernel
  set_signals t task k = record k { signals = λ a. if a == t then task else k.signals a }

  unfoldable pub syscall_signal : Kernel → Kernel
  syscall_signal k =
      let signum = get_param_by_index k.trapframe 0 % 2 ^ 32 in
      let handler = get_param_by_index k.trapframe 1 in
      let t = k.scheduler.current in
      set_result 0 (set_signals t (task_register_signal (k.signals t) signum handler) k)

  unfoldable pub syscall_sigreturn_current : Kernel → Kernel
  syscall_sigreturn_current k =
      let t = k.scheduler.current in
      let (task, tf) = syscall_sigreturn (k.signals t) k.stack in
      record (set_signals t task k) { trapframe = tf }

  -- The task that has the signal, or the kill where it has none.
  unfoldable pub kill_or_pend : ℕ → ℕ → Option SignalTask → Kernel → Kernel
  kill_or_pend pid t none k =
      let (result, s) = cpu_scheduler_kill_by_pid pid clock k.scheduler in
      set_result result (record k { scheduler = s })
  kill_or_pend pid t (some task) k = set_result 0 (set_signals t task k)

  unfoldable pub kill_found_task : ℕ → ℕ → Option ℕ → Kernel → Kernel
  kill_found_task pid signum none k = set_result 1 k
  kill_found_task pid signum (some t) k =
      kill_or_pend pid t (Signals.syscall_kill (k.signals t) signum) k

  unfoldable pub syscall_kill_pid : Kernel → Kernel
  syscall_kill_pid k =
      let pid = get_param_by_index k.trapframe 0 % 2 ^ 32 in
      let signum = get_param_by_index k.trapframe 1 % 2 ^ 32 in
      kill_found_task pid signum (task_table_get_task pid k.scheduler) k

  unfoldable pub syscall_mmap_current : Kernel → Kernel
  syscall_mmap_current k =
      let param = get_param_by_index k.trapframe in
      let (result, mappings, interrupts) =
        Mmap.syscall_mmap k.interrupts k.mappings (param 0) (param 1) (param 2) (param 3) in
      set_result result (record k { mappings = mappings; interrupts = interrupts })

  -- `syscall_handler`, with the three calls that are not modelled and the readings of the clock.
  unfoldable pub syscall_handler :
      (exec fork display : Kernel → Kernel) → (now later : ℕ) → Kernel → Kernel
  syscall_handler exec fork display now later k =
      let id = get_syscall_id k.trapframe in
      let k' = after_ecall k in
      if id == 0
      then syscall_get_pid k'
      else if id == 1
      then syscall_uart_read k'
      else if id == 2
      then syscall_uart_write k'
      else if id == 3
      then exec k'
      else if id == 4
      then fork k'
      else if id == 5
      then syscall_waitpid k'
      else if id == 6
      then syscall_exit k'
      else if id == 7
      then syscall_stop k'
      else if id == 8
      then display k'
      else if id == 9
      then syscall_usleep now later k'
      else if id == 10
      then syscall_signal k'
      else if id == 11
      then syscall_sigreturn_current k'
      else if id == 12
      then syscall_kill_pid k'
      else if id == 13
      then syscall_mmap_current k'
      else k'
