-- ===== src/Syscalls/Tests.antt =====
-- The theorems on system calls at concrete states.
use first_os.Base.{
  ℕ, ◌%◌, ◌^◌, ◌≡◌, refl, true, false, some, [], ◌∷◌, arith, ◌==◌, if◌then◌else◌, replicate, has,
  set, take, drop,
}
use first_os.Scheduler.{
  Scheduler, Clock, Task, TaskState, ready, running, no_event, cpu_scheduler_kill_by_pid,
  task_table_get_task, find_pid, is_killed, cpu_scheduler_next, cpu_scheduler_wait_arg, start_wait,
  switch_to, requeue, start_quantum,
}
use first_os.Scheduler.Reach.{Reach, here, then_step, flags, next}
use first_os.Scheduler
use first_os.Uart
use first_os.Uart.{Uart}
use first_os.Uart.Contents.{rx_queue, tx_queue}
use first_os.Syscalls.{
  Kernel, get_syscall_id, get_param_by_index, syscall_handler, after_ecall, syscall_waitpid,
  set_result,
}
use first_os.Syscalls.Read.{ReadDone, syscall_handler-ReadDone}
use first_os.Syscalls.Waitpid.{Waiting, syscall_handler-woken}

abbrev clock : Clock
clock = record { cleared = 10; started = 11; armed = 12 }

abbrev task_at : TaskState → ℕ → Task
task_at state a = record { pid = a; state = state; wait_id = no_event; wait_arg = 0 }

-- The running task 1 and the ready task 2, within the interrupt handler.
abbrev two : Scheduler
two = record {
  tasks = λ a. if a == 1 then task_at running a else task_at ready a;
  ready_queue = 2 ∷ [];
  waiting_queue = [];
  killed_queue = [];
  entries = 1 ∷ 2 ∷ [];
  current = 1;
  is_handling_interrupt = true;
  need_reschedule_cpu = false;
  timeouts = record {
    timeout_queue = [];
    created_timeouts_count = 0;
    cpu_frequency = 10000000;
    timer = 0;
  };
  timeout_id = 0;
  freed = [];
}

two-IsValid : Scheduler.Invariant.IsValid two
two-IsValid = record {
  readies = record { members = λ t. ground arith; distinct = (refl, tt) };
  waiters = record { members = λ t. ground arith; distinct = tt };
  corpses = record { members = λ t. ground arith; distinct = tt };
  one_runs = λ t h r. ground arith;
  current_known = λ r. refl;
  entries_distinct = (refl, (refl, tt));
}

two-DistinctPids : Scheduler.Reap.DistinctPids two
two-DistinctPids t u ht hu e = ground arith

-- A ring with three received bytes.
abbrev three : Uart
three = record {
  rx_ring = 65 ∷ 66 ∷ 67 ∷ replicate 509 0;
  rx_head = 3;
  rx_tail = 0;
  tx_ring = replicate 512 0;
  tx_head = 0;
  tx_tail = 0;
  ier = 1;
}

three-IsValid : Uart.Contents.IsValid three
three-IsValid = record {
  rx_size = refl;
  tx_size = refl;
  rx_head_in = omega arith;
  rx_tail_in = omega arith;
  tx_head_in = omega arith;
  tx_tail_in = omega arith;
}

-- The call with the number and the parameters.
abbrev calling : ℕ → ℕ → ℕ → Kernel
calling id first second = record {
  scheduler = two;
  uart = three;
  memory = λ a. 0;
  trapframe = record {
    regs = set (set (set (replicate 32 0) 17 id) 10 first) 11 second;
    sepc = 0x2000;
    sstatus = 0;
  };
  mappings = [];
  signals = λ t. record { is_user = true; signals_list = []; signal_sp = 0 };
  stack = λ a. record { regs = []; sepc = 0; sstatus = 0 };
  interrupts = true;
}

syscall_handler-ReadDone_example :
    let k' = syscall_handler clock (λ k. k) (λ k. k) (λ k. k) 0 0 (calling 1 0x5000 2) in
    let count = get_param_by_index (calling 1 0x5000 2).trapframe 1 % 2 ^ 32 in
    ReadDone clock (take count (rx_queue three)) (calling 1 0x5000 2) k'
    × (rx_queue k'.uart ≡ drop count (rx_queue three))
    × (tx_queue k'.uart ≡ tx_queue three)
unfolding get_syscall_id
syscall_handler-ReadDone_example =
    syscall_handler-ReadDone clock (λ k. k) (λ k. k) (λ k. k) 0 0 (calling 1 0x5000 2) refl
      (omega arith) three-IsValid

-- Task 1 has called `waitpid` for task 2. The interrupt ends, task 2 runs, and an interrupt of it begins.
abbrev called : Scheduler
called = (syscall_handler clock (λ k. k) (λ k. k) (λ k. k) 0 0 (calling 5 2 0)).scheduler

abbrev switched : Scheduler
switched =
    cpu_scheduler_next clock
      (record called { is_handling_interrupt = false; need_reschedule_cpu = false })

abbrev exiting : Scheduler
exiting = record switched { is_handling_interrupt = true; need_reschedule_cpu = false }

exiting-Reach : Reach called exiting
exiting-Reach =
    let before : Reach called called = here in
    let ended : Reach called
        (record called { is_handling_interrupt = false; need_reschedule_cpu = false }) =
      then_step before (flags false false) in
    let other : Reach called switched = then_step ended (next clock) in
    then_step other (flags true false)

exiting-facts :
    (has 1 exiting.waiting_queue ≡ true)
    × (exiting.tasks 1 ≡ called.tasks 1)
    × (task_table_get_task 2 exiting ≡ some 2)
    × (is_killed (exiting.tasks 2).state ≡ false)
unfolding syscall_handler get_syscall_id get_param_by_index after_ecall syscall_waitpid set_result
    cpu_scheduler_wait_arg start_wait cpu_scheduler_next switch_to requeue start_quantum
    task_table_get_task find_pid
exiting-facts = (refl, refl, refl, refl)

syscall_handler-woken_example :
    let pid = get_param_by_index (calling 5 2 0).trapframe 0 % 2 ^ 32 in
    let (result, s') = cpu_scheduler_kill_by_pid pid clock exiting in
    Waiting pid
      (calling 5 2 0)
      (syscall_handler clock (λ k. k) (λ k. k) (λ k. k) 0 0 (calling 5 2 0))
    × (result ≡ 0)
    × (has 1 s'.ready_queue ≡ true)
    × (has 1 s'.waiting_queue ≡ false)
unfolding get_syscall_id get_param_by_index
syscall_handler-woken_example =
    syscall_handler-woken clock clock (λ k. k) (λ k. k) (λ k. k) 0 0 (calling 5 2 0) exiting 2 refl
      (two-IsValid, two-DistinctPids) refl refl (λ (e : 1 ≡ 2). omega arith) exiting-Reach
      exiting-facts.0 exiting-facts.1 refl exiting-facts.2 exiting-facts.3
