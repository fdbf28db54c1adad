-- ===== src/Mappings/Tests.antt =====
-- Runs of the mapping functions, and the theorems on them at a concrete list of mappings.
use first_os.Base.{
  ℕ, ◌+◌, ◌%◌, ◌≡◌, ◌≤◌, ◌<◌, refl, none, some, List, [], ◌∷◌, arith, ◌==◌, if◌then◌else◌, true,
  false,
}
use first_os.Scheduler.{Scheduler, Clock, ready, running, no_event}
use first_os.Queue.{insert_sorted}
use first_os.Mappings.{
  Mapping, Added, pte_mem_size, align_to_pte, find_gap, gap_start, get_mapping_vaddr,
  insert_mapping, new_mapping, task_add_mapping, task_find_mapping,
}
use first_os.Mappings.Layout.{IsLaid}
use first_os.Mappings.Add.{AddedTo, align_to_pte_lem, task_add_mapping-IsLaid}
use first_os.Mappings.{align_to_floor_pte}
use first_os.Mappings.Fault.{Judged, page_fault_handler, page_fault_handler-Judged}
use first_os.Mappings.Find.{Found, task_find_mapping-Found}

abbrev at : ℕ → ℕ → Mapping
at vaddr size = record {
  vaddr = vaddr;
  size = size;
  prot = 0xdf;
  backer = 1;
  file_data = 0;
  file_size = none;
}

abbrev code_and_stack : List Mapping
code_and_stack = at 0x10000 0x2000 ∷ at 0x3ffff7b000 0x84000 ∷ []

code_and_stack-IsLaid : IsLaid code_and_stack
code_and_stack-IsLaid = (omega arith, (omega arith, tt), (omega arith, tt, tt))

get_mapping_vaddr_run : get_mapping_vaddr code_and_stack 0 0x1000 ≡ some 0x12000
unfolding get_mapping_vaddr find_gap gap_start
get_mapping_vaddr_run = refl

align_to_pte_lem_example :
    (align_to_pte 5000 % pte_mem_size ≡ 0)
    × (5000 ≤ align_to_pte 5000)
    × (align_to_pte 5000 < 5000 + pte_mem_size)
align_to_pte_lem_example = align_to_pte_lem 5000 (omega arith)

-- The mapping of 5000 bytes in the first gap.
abbrev added : Added
added = record {
  mapping = at 0x12000 0x2000;
  mappings = at 0x10000 0x2000 ∷ at 0x12000 0x2000 ∷ at 0x3ffff7b000 0x84000 ∷ [];
  pages = [];
}

task_add_mapping_run : task_add_mapping code_and_stack 0 5000 0xdf 0x20 0 ≡ some added
unfolding task_add_mapping align_to_pte get_mapping_vaddr find_gap gap_start insert_mapping
    insert_sorted new_mapping
task_add_mapping_run = refl

task_add_mapping-IsLaid_example : AddedTo code_and_stack 5000 added
task_add_mapping-IsLaid_example =
    task_add_mapping-IsLaid code_and_stack 0 5000 0xdf 0x20 0 added code_and_stack-IsLaid
      (omega arith) (omega arith) task_add_mapping_run

task_find_mapping-Found_example :
    Found code_and_stack 0x11000 (task_find_mapping code_and_stack 0x11000)
task_find_mapping-Found_example =
    task_find_mapping-Found code_and_stack 0x11000 code_and_stack-IsLaid

abbrev clock : Clock
clock = record { cleared = 10; started = 11; armed = 12 }

-- Only the idle task and the one that faults, which is current.
abbrev one_task : Scheduler
one_task = record {
  tasks = λ a. record {
    pid = a;
    state = if a == 1 then running else ready;
    wait_id = no_event;
    wait_arg = 0;
  };
  ready_queue = 2 ∷ [];
  waiting_queue = [];
  killed_queue = [];
  entries = 1 ∷ 2 ∷ [];
  current = 1;
  is_handling_interrupt = true;
  need_reschedule_cpu = false;
  timeouts = record {
    timeout_queue = [];
    created_timeouts_count = 0;
    cpu_frequency = 10000000;
    timer = 0;
  };
  timeout_id = 0;
  freed = [];
}

page_fault_handler-Judged_example :
    Judged clock code_and_stack 0xf
      (align_to_floor_pte 0x11234)
      one_task
      (page_fault_handler clock code_and_stack 0xf 0x11234 one_task)
page_fault_handler-Judged_example =
    page_fault_handler-Judged clock code_and_stack 0xf 0x11234 one_task code_and_stack-IsLaid
