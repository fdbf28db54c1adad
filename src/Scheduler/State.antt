-- ===== src/Scheduler/State.antt =====
-- The state of src/kernel/task/cpu_scheduler.c, and the table of src/kernel/task/task_table.c.
use first_os.Base.{
  ℕ, Bool, true, false, Option, none, some, List, [], ◌∷◌, ◌++◌, ◌==◌, if◌then◌else◌,
}
use first_os.Timeouts.{Timeouts}

-- `enum task_wait_event_id`
pub data WaitEvent : Type 0 where
  no_event process_kill uart_read uart_write timeout : WaitEvent

-- `enum task_state`
pub data TaskState : Type 0 where
  ready running waiting killed : TaskState

abbrev pub same_event : WaitEvent → WaitEvent → Bool
same_event no_event no_event = true
same_event process_kill process_kill = true
same_event uart_read uart_read = true
same_event uart_write uart_write = true
same_event timeout timeout = true
same_event _ _ = false

-- What the scheduler reads and writes of `struct task`.
pub record Task : Type 0 where
  pub pid : ℕ
  pub state : TaskState
  pub wait_id : WaitEvent
  pub wait_arg : ℕ

-- The static variables of the two files, `tp` (the current task) and the two flags of
-- interrupt_handler.c. `freed` is the tasks given to `task_free`, latest first.
pub record Scheduler : Type 0 where
  pub tasks : ℕ → Task
  pub ready_queue : List ℕ
  pub waiting_queue : List ℕ
  pub killed_queue : List ℕ
  pub entries : List ℕ
  pub current : ℕ
  pub is_handling_interrupt : Bool
  pub need_reschedule_cpu : Bool
  pub timeouts : Timeouts
  pub timeout_id : ℕ
  pub freed : List ℕ

-- The reads of the clock during one switch.
pub record Clock : Type 0 where
  pub cleared : ℕ
  pub started : ℕ
  pub armed : ℕ

abbrev pub time_quantum : ℕ
time_quantum = 31250

-- The callbacks that the scheduler gives to `set_timeout`, as the numbers that name them.
abbrev pub callback_reschedule : ℕ
callback_reschedule = 1

abbrev pub callback_fire_timeout : ℕ
callback_fire_timeout = 2

abbrev pub set_state : ℕ → TaskState → (ℕ → Task) → ℕ → Task
set_state t st tasks a = if a == t then record (tasks a) { state = st } else tasks a

-- `task_table_get_task`, with the walk `_task_manager_get_entry`.
unfoldable pub find_pid : (ℕ → Task) → ℕ → List ℕ → Option ℕ
find_pid tasks pid [] = none
find_pid tasks pid (t ∷ ts) = if (tasks t).pid == pid then some t else find_pid tasks pid ts

unfoldable pub task_table_get_task : ℕ → Scheduler → Option ℕ
task_table_get_task pid s = find_pid s.tasks pid s.entries

unfoldable pub task_table_add_task : ℕ → Scheduler → Scheduler
task_table_add_task t s = record s { entries = s.entries ++ t ∷ [] }

-- `task_table_remove_task`: the entry that goes is the first with the task's pid.
unfoldable pub remove_pid : (ℕ → Task) → ℕ → List ℕ → List ℕ
remove_pid tasks pid [] = []
remove_pid tasks pid (t ∷ ts) = if (tasks t).pid == pid then ts else t ∷ remove_pid tasks pid ts

unfoldable pub task_table_remove_task : ℕ → Scheduler → Scheduler
task_table_remove_task t s = record s { entries = remove_pid s.tasks (s.tasks t).pid s.entries }
