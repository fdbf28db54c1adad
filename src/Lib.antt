-- ===== src/Lib.antt =====
-- first_os is a small RISC-V kernel in C. This library models its data structures and the core of
-- its subsystems as functions on explicit state, and proves what makes them correct. A function of the
-- source keeps its name; a leading underscore is dropped. Paths are from the repository's root.
--
-- The parts and their files:
--
-- - DList: src/kernel/ds/linked_list.c, the intrusive doubly linked list, over a memory that maps the
--   address of a node to its two pointers. The other parts that queue records over it are modelled as
--   the sequences that such a list stands for; InterruptTasks, PageAllocator and DynamicAllocator keep
--   the list itself. Queue is the insertion in order of a key that three files of the source write out.
-- - Scheduler: src/kernel/task/cpu_scheduler.c and task_table.c. A task is its address; the state has
--   the three queues, the table, the current task and the two flags of interrupt_handler.c. The calls of
--   `set_timeout` and `clear_timeout` are those of Timeouts. Scheduler.Reach has a step for each entry
--   point, so that a sequence of steps is an interleaving of the kernel's work; a wait is a step only of a
--   task that runs. The removal of a dead task from the killed queue and from the table is one step.
-- - Timeouts: src/kernel/interrupts/timeouts.c. Reads of the clock are arguments; what a callback does
--   to the timeouts is a parameter of the interrupt handler.
-- - InterruptTasks: src/kernel/interrupts/interrupt_tasks.c, the dispatch of interrupt_handler.c and its outer
--   handler. What a task does, with the interrupts that come while it runs, is a parameter.
-- - Mappings: src/kernel/task/task_mapping.c, with the callers in syscalls.c (`mmap`) and in
--   interrupt_handler.c (page faults). Numbers are 64-bit words whose sums wrap. The kill of a page fault is the
--   scheduler's; the page that it installs is an outcome, and its contents a function of the mapping.
-- - Signals: src/kernel/task/task_signal.c, the signal handler and `sigreturn`.
-- - Tasks: src/kernel/task/task.c with the copying and freeing of mappings in task_mapping.c, and fork, over
--   PageTable, Mappings, Signals, Initrd and Scheduler.
-- - Uart: src/uart/uart.c. The device is what it has received and how often it is ready to send. A call
--   that waits is told the interrupts that come from one attempt to the next.
-- - PageAllocator and DynamicAllocator: src/kernel/mm/page_allocator.c and dynamic_allocator.c.
-- - PageTable: src/kernel/vmm/virtual_memory.c, over the words of memory as the kernel sees them. The
--   addresses that `memory_allocate_pages` returns are an argument; PageTable.Translation has the walk
--   of the processor, Sv39, which knows nothing of that code.
-- - Fdt: src/fdt/fdt.c and fdt_parser.c, over memory as a function from addresses to bytes; Fdt.Tree says
--   what a tree in memory is. Initrd: src/kernel/initrd, the files of the ramdisk, over the same memory.
-- - Syscalls: src/kernel/interrupts/syscalls.c, the dispatch and the calls, over Scheduler, Uart, Mappings
--   and Signals.
-- - Converters and Strings: src/converters.c and src/string.c.
-- - MemorySetup: src/kernel/mm/setup.c, from the device tree to the two allocators.
-- - Base: names, tests, lists and bit operations that the parts share.
--
-- Interrupts that are disabled for a whole function make it one step, which is how it is modelled.
-- Allocation of small records is taken to succeed where the source takes it so.
--
-- Bounds: loops over lists are structural recursion. The walk of `interrupt_tasks_add` has fuel for
-- 129 nodes, one more than the buffer holds; `allocate_frame_array` has a round more than there are
-- reserved regions, since each round leaves one more behind; `timeouts_interrupt_handler` takes its
-- fuel, and one more than the entries is enough; `required_order` has 53 rounds, enough for the sizes
-- up to 2 ^ 63; the loop that cuts chunks has 256, the number of the smallest chunks in a page. Digits
-- are counted by the buffers they stand in. The loops over the device tree and the ramdisk have fuel, and
-- `none` where it runs out; the tokens of a node, its properties or the files of the archive are enough.
-- A range is mapped in as many rounds as it has pages.
--
-- Not modelled: device I/O (polled serial port, PLIC, video, firmware calls), assembly, the boot loader,
-- the start-up of virtual memory, and the command line of kmain.c.
pub mod Base
pub mod DList
pub mod Queue
pub mod Timeouts
pub mod Scheduler
pub mod Mappings
pub mod Uart
pub mod Converters
pub mod Strings
pub mod InterruptTasks
pub mod PageAllocator
pub mod Signals
pub mod DynamicAllocator
pub mod PageTable
pub mod Fdt
pub mod Syscalls
pub mod Initrd
pub mod Tasks
pub mod MemorySetup
