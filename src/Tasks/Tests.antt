-- ===== src/Tasks/Tests.antt =====
-- `fork` at a concrete state.
use first_os.Base.{false, true, [], ◌∷◌, ◌==◌, if◌then◌else◌, replicate}
use first_os.Scheduler.{Scheduler, ready, running, no_event}
use first_os.Signals.{Trapframe}
use first_os.Tasks.{UserTask, World}

-- The running task 1 and the ready task 2, with their addresses as pids.
abbrev two : Scheduler
two = record {
  tasks = λ a. record {
    pid = a;
    state = if a == 1 then running else ready;
    wait_id = no_event;
    wait_arg = 0;
  };
  ready_queue = 2 ∷ [];
  waiting_queue = [];
  killed_queue = [];
  entries = 1 ∷ 2 ∷ [];
  current = 1;
  is_handling_interrupt = true;
  need_reschedule_cpu = false;
  timeouts = record {
    timeout_queue = [];
    created_timeouts_count = 0;
    cpu_frequency = 10000000;
    timer = 0;
  };
  timeout_id = 0;
  freed = [];
}

abbrev parent_frame : Trapframe
parent_frame = record { regs = replicate 32 7; sepc = 0x10004; sstatus = 32 }

-- The parent, without mappings, and its kernel stack at 0x8000.
abbrev parent : UserTask
parent = record {
  thread = record { s = replicate 12 0; ra = 0; sp = 0; sscratch = 0x8000; sstatus = 0; satp = 0 };
  kernel_stack_addr = 0x4000;
  kernel_stack_top = 0x8000;
  pid = 1;
  pgd = 0x20000;
  mappings = [];
  signal_task = record { is_user = true; signals_list = []; signal_sp = 0 };
}

abbrev world : World
world = record {
  next_pid = 3;
  trapframes = λ a. parent_frame;
  tables = record { words = λ a. 0; allocated = 0 };
}
