-- ===== src/Tasks.antt =====
-- src/kernel/task/task.c, and the copying and freeing of mappings in src/kernel/task/task_mapping.c: tasks
-- with their tables and pages. Trapframes are kept by address; the addresses that `allocate` returns are
-- arguments, and those of `memory_allocate_pages` are in order of the calls, as in PageTable.
pub mod Fork
mod Tests
use first_os.Base.{
  ℕ, zero, suc, ◌+◌, ◌-◌, ◌*◌, ◌/◌, ◌%◌, ◌^◌, Bool, true, false, ◌&&◌, not, Option, none, some,
  List, [], ◌∷◌, ◌==◌, ltb, leb, if◌then◌else◌, set, replicate, bit_or, ◌>>=◌,
}
use first_os.Mappings.{
  Mapping, Added, add64, backer_file, map_file, map_anonymous, task_add_mapping, user_code_vaddr,
}
use first_os.Mappings.Mmap.{task_create_user_mappings}
use first_os.Signals.{
  signal_trampoline_vaddr, SignalTask, Trapframe, Stack, task_copy_signals, trapframe_size,
}
use first_os.PageTable.{va2pa, get_satp_value, vaddr_from_pte}
use first_os.PageTable.Walk.{
  Words, Tables, Freeing, zero_page, virtual_memory_map, virtual_memory_traverse_leafs,
  virtual_memory_free_tables,
}
use first_os.Fdt.{Bytes}
use first_os.Initrd.{initrd_get_file_addr, initrd_get_filedata}

-- `struct thread`
pub record Thread : Type 0 where
  pub s : List ℕ
  pub ra : ℕ
  pub sp : ℕ
  pub sscratch : ℕ
  pub sstatus : ℕ
  pub satp : ℕ

-- `struct task` without its node, its state and its event, which are the scheduler's.
pub record UserTask : Type 0 where
  pub thread : Thread
  pub kernel_stack_addr : ℕ
  pub kernel_stack_top : ℕ
  pub pid : ℕ
  pub pgd : ℕ
  pub mappings : List Mapping
  pub signal_task : SignalTask

-- The static `next_pid`, the trapframes in memory, and the tables and pages.
pub record World : Type 0 where
  pub next_pid : ℕ
  pub trapframes : Stack
  pub tables : Tables

abbrev pub kernel_stack_size : ℕ
kernel_stack_size = 16384

abbrev pub sstatus_sie : ℕ
sstatus_sie = 2

abbrev pub sstatus_spie : ℕ
sstatus_spie = 32

abbrev pub sstatus_spp : ℕ
sstatus_spp = 256

abbrev pub sstatus_sum : ℕ
sstatus_sum = 2 ^ 18

unfoldable pub get_next_pid : World → ℕ × World
get_next_pid w = (w.next_pid, record w { next_pid = (w.next_pid + 1) % 2 ^ 32 })

abbrev pub empty_trapframe : Trapframe
empty_trapframe = record { regs = replicate 32 0; sepc = 0; sstatus = 0 }

abbrev pub put_trapframe : ℕ → Trapframe → Stack → Stack
put_trapframe addr tf stack a = if a == addr then tf else stack a

-- The upper half of a table is that of the kernel's.
unfoldable pub copy_kernel_half : ℕ → ℕ → Words → Words
copy_kernel_half pgd kernel_pgd words a =
    if leb (pgd + 2048) a && ltb a (pgd + 4096) then words (kernel_pgd + (a - pgd)) else words a

-- `memcopy` of a page
unfoldable pub copy_page : ℕ → ℕ → Words → Words
copy_page dest src words a =
    if leb dest a && ltb a (dest + 4096) then words (src + (a - dest)) else words a

module _ (virtual_kernel_offset : ℕ) (pages : ℕ → ℕ) (kernel_pgd : ℕ)
    (trampoline switch_to_user : ℕ) where
  unfoldable pub task_init_thread : ℕ → ℕ → ℕ → Thread
  task_init_thread kernel_stack_top trapframe_addr pgd = record {
    s = replicate 12 0;
    ra = 0;
    sp = kernel_stack_top;
    sscratch = trapframe_addr;
    sstatus = bit_or sstatus_sie sstatus_spp;
    satp = get_satp_value (va2pa virtual_kernel_offset pgd);
  }

  unfoldable pub task_create : (stack_addr : ℕ) → World → UserTask × World
  task_create stack_addr w =
      let (pid, w') = get_next_pid w in
      let top = stack_addr + kernel_stack_size - trapframe_size in
      (
        record {
          thread = task_init_thread top top kernel_pgd;
          kernel_stack_addr = stack_addr;
          kernel_stack_top = top;
          pid = pid;
          pgd = 0;
          mappings = [];
          signal_task = record { is_user = false; signals_list = []; signal_sp = 0 };
        },
        record w' { trapframes = put_trapframe top empty_trapframe w'.trapframes },
      )

  -- The page of the signal trampoline, with `PTE_USER_CODE_PROT`.
  unfoldable pub map_trampoline : ℕ → Tables → Tables
  map_trampoline pgd t =
      virtual_memory_map virtual_kernel_offset pages pgd signal_trampoline_vaddr
        (va2pa virtual_kernel_offset trampoline) 4096 0xdb t

  -- `_copy_one_page`
  unfoldable pub copy_one_page : (pgd prot : ℕ) → ℕ → ℕ → Tables → Tables
  copy_one_page pgd prot pte vaddr t =
      let src_page = vaddr_from_pte virtual_kernel_offset (t.words pte) in
      let dest_page = pages t.allocated in
      virtual_memory_map virtual_kernel_offset pages pgd vaddr
        (va2pa virtual_kernel_offset dest_page) 4096 prot
        (record { words = copy_page dest_page src_page t.words; allocated = suc t.allocated })

  unfoldable pub copy_pages : (source_pgd pgd : ℕ) → Mapping → Mapping → Tables → Tables
  copy_pages source_pgd pgd current mapping t =
      virtual_memory_traverse_leafs virtual_kernel_offset (λ (c : Tables). c.words)
        (copy_one_page pgd mapping.prot) 2 source_pgd 0 current.vaddr
        (add64 current.vaddr current.size) t

  -- The loop of `task_copy_mappings`, which returns where a mapping cannot be had at the same address; the
  -- flag says whether it has come to its end.
  unfoldable pub copy_mappings_loop :
      (source_pgd pgd : ℕ) → List Mapping → List Mapping → Tables → Bool × List Mapping × Tables
  copy_mappings_loop source_pgd pgd [] dest t = (true, dest, t)
  copy_mappings_loop source_pgd pgd (current ∷ rest) dest t =
      let flags = if current.backer == backer_file then map_file else map_anonymous in
      elim (task_add_mapping dest current.vaddr current.size current.prot flags current.file_data) [
        | none ↦ (false, dest, t)
        | some added ↦
            let on =
              copy_mappings_loop source_pgd pgd rest added.mappings
                (copy_pages source_pgd pgd current added.mapping t) in
            if added.mapping.vaddr == current.vaddr then on else (false, added.mappings, t)
      ]

  unfoldable pub task_copy_mappings :
      (source_pgd pgd : ℕ) → List Mapping → List Mapping → Tables → List Mapping × Tables
  task_copy_mappings source_pgd pgd source dest t =
      let (whole, mappings, t') = copy_mappings_loop source_pgd pgd source dest t in
      (mappings, if whole then map_trampoline pgd t' else t')

  -- `task_copy`, with the addresses of the new task, its table and its kernel stack.
  unfoldable pub task_copy : (task_addr pgd stack_addr : ℕ) → UserTask → World → UserTask × World
  task_copy task_addr pgd stack_addr source w =
      let (pid, w') = get_next_pid w in
      let top = stack_addr + kernel_stack_size - trapframe_size in
      let tf = w.trapframes source.kernel_stack_top in
      let words = copy_kernel_half pgd kernel_pgd (zero_page w.tables.words pgd) in
      let (mappings, t) =
        task_copy_mappings source.pgd pgd source.mappings []
          (record { words = words; allocated = w.tables.allocated }) in
      let blank : SignalTask = record {
        is_user = source.signal_task.is_user;
        signals_list = [];
        signal_sp = 0;
      } in
      (
        record {
          thread = record (source.thread) {
            sp = top;
            sscratch = top;
            satp = get_satp_value (va2pa virtual_kernel_offset pgd);
          };
          kernel_stack_addr = stack_addr;
          kernel_stack_top = top;
          pid = pid;
          pgd = pgd;
          mappings = mappings;
          signal_task = task_copy_signals blank source.signal_task;
        },
        record w' {
          trapframes =
              put_trapframe top (record tf { regs = set tf.regs 4 task_addr }) w'.trapframes;
          tables = t;
        },
      )

  -- `task_create_user_mappings` with the page of the trampoline, for a task without mappings; the signal
  -- stack ends at 0x3800001000.
  unfoldable pub create_user_mappings : ℕ → ℕ → UserTask → Tables → UserTask × Tables
  create_user_mappings code_addr code_size task t = (
    record task {
      mappings = task_create_user_mappings task.mappings code_addr code_size;
      signal_task = record (task.signal_task) { signal_sp = 0x3800001000 };
    },
    map_trampoline task.pgd t,
  )

  -- `_free_one_page`, and the loop of `task_free_mappings`. The records of the mappings are freed as well.
  unfoldable pub free_one_page : ℕ → ℕ → Freeing → Freeing
  free_one_page pte vaddr f = record f {
    freed = vaddr_from_pte virtual_kernel_offset (f.left pte) ∷ f.freed;
  }

  unfoldable pub task_free_mappings : ℕ → List Mapping → Freeing → Freeing
  task_free_mappings pgd [] f = f
  task_free_mappings pgd (current ∷ rest) f = task_free_mappings pgd rest (
      virtual_memory_traverse_leafs virtual_kernel_offset (λ (c : Freeing). c.left) free_one_page 2
        pgd 0 current.vaddr (add64 current.vaddr current.size) f)

  -- `task_free`: the addresses given to `free`, without those of the records, and the pages and tables.
  unfoldable pub task_free : UserTask → Freeing → List ℕ × Freeing
  task_free task f =
      let f' = task_free_mappings task.pgd task.mappings f in
      if task.pgd == 0 then (task.kernel_stack_addr ∷ [], f') else (
        task.kernel_stack_addr ∷ task.pgd ∷ [],
        virtual_memory_free_tables virtual_kernel_offset 2 task.pgd 0 256 f',
      )

  -- In `task_exec_user`: the table that the new program gets. A new one keeps what its memory held in the
  -- lower half.
  unfoldable pub exec_pgd : ℕ → UserTask → Freeing → ℕ × Freeing
  exec_pgd new_pgd task f =
      if task.pgd == 0
      then (new_pgd, record f { left = copy_kernel_half new_pgd kernel_pgd f.left })
      else (task.pgd, virtual_memory_free_tables virtual_kernel_offset 2 task.pgd 0 256 f)

  -- `task_exec_user` for the file at an address that is not 0.
  unfoldable pub exec_file : Bytes → ℕ → ℕ → UserTask → World → UserTask × World × List ℕ
  exec_file m file_addr new_pgd task w =
      let f =
        task_free_mappings task.pgd task.mappings (record { left = w.tables.words; freed = [] }) in
      let (pgd, f') = exec_pgd new_pgd task f in
      let (code_addr, code_size) = initrd_get_filedata m file_addr in
      let blank : UserTask = record task {
        pgd = pgd;
        mappings = [];
        signal_task = record (task.signal_task) { is_user = true; signals_list = [] };
      } in
      let (mapped, t) =
        create_user_mappings code_addr code_size blank
          (record { words = f'.left; allocated = w.tables.allocated }) in
      let top = task.kernel_stack_top in
      let thread = task_init_thread top top pgd in
      let tf : Trapframe = record {
        regs = set empty_trapframe.regs 2 (0x003000000000 + 16384);
        sepc = user_code_vaddr;
        sstatus = bit_or sstatus_spie sstatus_sum;
      } in
      (
        record mapped {
          thread = record thread {
            ra = switch_to_user;
            sstatus = bit_or thread.sstatus sstatus_sum;
          };
        },
        record w { trapframes = put_trapframe top tf w.trapframes; tables = t },
        f'.freed,
      )

  -- The return value, the task, the world and the pages that are freed.
  unfoldable pub task_exec_user :
      ℕ
      → Bytes
      → (initrd_start_addr : ℕ) → List ℕ
      → (new_pgd : ℕ) → UserTask
      → World
      → Option (ℕ × UserTask × World × List ℕ)
  task_exec_user fuel m initrd_start_addr filepath new_pgd task w =
      initrd_get_file_addr fuel m initrd_start_addr filepath >>= λ file_addr.
      let (task', w', freed) = exec_file m file_addr new_pgd task w in
      some (if file_addr == 0 then (1, task, w, []) else (0, task', w', freed))
