-- ===== src/Signals.antt =====
-- src/kernel/task/task_signal.c, `_signal_handler` of src/kernel/interrupts/interrupt_handler.c and
-- `_syscall_sigreturn` of src/kernel/interrupts/syscalls.c: the signals of a user task. Trapframes
-- saved on the signal stack are kept by address.
pub mod Delivery
mod Tests
use first_os.Base.{
  ℕ, zero, suc, ◌+◌, ◌-◌, ◌%◌, ◌^◌, Bool, true, false, Option, none, some, List, [], ◌∷◌, ◌++◌,
  ◌==◌, if◌then◌else◌, get_or, set,
}

-- `struct signal` without its node
pub record Signal : Type 0 where
  pub signum : ℕ
  pub is_pending : Bool
  pub handler : ℕ

pub record Trapframe : Type 0 where
  pub regs : List ℕ
  pub sepc : ℕ
  pub sstatus : ℕ

-- The part of `struct task` that signals use.
pub record SignalTask : Type 0 where
  pub is_user : Bool
  pub signals_list : List Signal
  pub signal_sp : ℕ

-- What stands at the addresses of the signal stack.
abbrev pub Stack : Type 0
Stack = ℕ → Trapframe

-- `sizeof(struct trapframe)`: 34 words
abbrev pub trapframe_size : ℕ
trapframe_size = 272

abbrev pub signal_trampoline_vaddr : ℕ
signal_trampoline_vaddr = 0x1000

unfoldable pub copy_loop : List Signal → List Signal → List Signal
copy_loop dest [] = dest
copy_loop dest (signal ∷ rest) =
    copy_loop
      (dest
        ++ record {
          signum = signal.signum;
          is_pending = signal.is_pending;
          handler = signal.handler;
        }
          ∷ [])
      rest

unfoldable pub task_copy_signals : SignalTask → SignalTask → SignalTask
task_copy_signals dest source = record dest {
  signals_list = copy_loop dest.signals_list source.signals_list;
  signal_sp = source.signal_sp;
}

unfoldable pub task_register_signal : SignalTask → ℕ → ℕ → SignalTask
task_register_signal task signum handler = record task {
  signals_list =
      task.signals_list ++ record { signum = signum; is_pending = false; handler = handler } ∷ [];
}

-- The place in the list, from `i` on, of the first signal with the number.
unfoldable pub find_signum : List Signal → ℕ → ℕ → Option (ℕ × Signal)
find_signum [] signum i = none
find_signum (signal ∷ rest) signum i =
    let later = find_signum rest signum (suc i) in
    if signal.signum == signum then some (i, signal) else later

unfoldable pub task_get_signal : SignalTask → ℕ → Option (ℕ × Signal)
task_get_signal task signum = if task.is_user then find_signum task.signals_list signum 0 else none

unfoldable pub find_pending : List Signal → ℕ → Option (ℕ × Signal)
find_pending [] i = none
find_pending (signal ∷ rest) i =
    let later = find_pending rest (suc i) in if signal.is_pending then some (i, signal) else later

unfoldable pub task_get_next_pending_signal : SignalTask → Option (ℕ × Signal)
task_get_next_pending_signal task = if task.is_user then find_pending task.signals_list 0 else none

-- The part of `_syscall_kill` where the task exists: the task with its signal pending, or `none`
-- where the task has no such signal and is killed.
abbrev pub pend : SignalTask → ℕ → Option (ℕ × Signal) → Option SignalTask
pend task signum none = none
pend task signum (some (i, signal)) = some (record task {
  signals_list = set task.signals_list i (record signal { signum = signum; is_pending = true });
})

unfoldable pub syscall_kill : SignalTask → ℕ → Option SignalTask
syscall_kill task signum = pend task signum (task_get_signal task signum)

-- `_signal_handler`, with the pending signal found: the task, the trapframe it resumes with, and
-- the stack.
abbrev pub deliver :
    SignalTask → Trapframe → Stack → Option (ℕ × Signal) → SignalTask × Trapframe × Stack
deliver task trapframe stack none = (task, trapframe, stack)
deliver task trapframe stack (some (i, signal)) =
    let sp = (task.signal_sp + 2 ^ 64 - trapframe_size) % 2 ^ 64 in
    (
      record task {
        signals_list = set task.signals_list i (record signal { is_pending = false });
        signal_sp = sp;
      },
      record trapframe {
        sepc = signal.handler;
        regs = set (set (set trapframe.regs 1 signal_trampoline_vaddr) 2 sp) 10 signal.signum;
      },
      λ a. if a == sp then trapframe else stack a,
    )

unfoldable pub signal_handler : SignalTask → Trapframe → Stack → SignalTask × Trapframe × Stack
signal_handler task trapframe stack =
    deliver task trapframe stack (task_get_next_pending_signal task)

-- `_syscall_sigreturn`: the task, and the trapframe that is restored.
unfoldable pub syscall_sigreturn : SignalTask → Stack → SignalTask × Trapframe
syscall_sigreturn task stack =
    (record task { signal_sp = (task.signal_sp + trapframe_size) % 2 ^ 64 }, stack task.signal_sp)
