-- ===== src/Scheduler/Invariant.antt =====
-- The scheduler's invariant: the queues are exactly the tasks of the table by their state. Each
-- step of the scheduler keeps it.
use first_os.Base.{
  ℕ, ◌≡◌, Bool, true, false, ◌&&◌, List, [], ◌∷◌, ◌++◌, arith, has, has-append, has-without,
  Distinct, Distinct-snoc, without, without-Distinct,
}
use first_os.Scheduler.{Scheduler, Task, TaskState, ready, running, waiting, killed, set_state}

abbrev pub is_ready : TaskState → Bool
is_ready ready = true
is_ready running = false
is_ready waiting = false
is_ready killed = false

abbrev pub is_waiting : TaskState → Bool
is_waiting ready = false
is_waiting running = false
is_waiting waiting = true
is_waiting killed = false

abbrev pub is_dead : TaskState → Bool
is_dead ready = false
is_dead running = false
is_dead waiting = false
is_dead killed = true

-- A queue is, without repetition, the tasks of the table whose state it stands for.
pub record QueueOf (pick : TaskState → Bool) (q : List ℕ) (entries : List ℕ) (tasks : ℕ → Task)
    : Type 0 where
  pub members : (t : ℕ) → has t q ≡ (has t entries && pick (tasks t).state)
  pub distinct : Distinct q

pub record IsValid (s : Scheduler) : Type 0 where
  pub readies : QueueOf is_ready s.ready_queue s.entries s.tasks
  pub waiters : QueueOf is_waiting s.waiting_queue s.entries s.tasks
  pub corpses : QueueOf is_dead s.killed_queue s.entries s.tasks
  pub one_runs : (t : ℕ) → has t s.entries ≡ true → (s.tasks t).state ≡ running → t ≡ s.current
  pub current_known : (s.tasks s.current).state ≡ running → has s.current s.entries ≡ true
  pub entries_distinct : Distinct s.entries

module _ {pick : TaskState → Bool} {q entries : List ℕ} {tasks : ℕ → Task} where
  -- A task of the table enters the queue of its new state.
  pub enter :
      (t : ℕ) (st : TaskState)
      → QueueOf pick q entries tasks
      → has t entries ≡ true
      → pick (tasks t).state ≡ false
      → pick st ≡ true
      → QueueOf pick (q ++ t ∷ []) entries (set_state t st tasks)
  enter t st v known old new = record {
    members = λ a. ground (arith, has-append a q (t ∷ []), v.members a);
    distinct = Distinct-snoc q t v.distinct (ground (arith, v.members t));
  }

  -- A task leaves the queue of its old state.
  pub leave :
      (t : ℕ) (st : TaskState)
      → QueueOf pick q entries tasks
      → pick st ≡ false
      → QueueOf pick (without t q) entries (set_state t st tasks)
  leave t st v new = record {
    members = λ a. ground (arith, has-without a t q v.distinct, v.members a);
    distinct = without-Distinct t q v.distinct;
  }

  -- A change between two states that the queue is not about.
  pub pass :
      (t : ℕ) (st : TaskState)
      → QueueOf pick q entries tasks
      → pick (tasks t).state ≡ false
      → pick st ≡ false
      → QueueOf pick q entries (set_state t st tasks)
  pass t st v old new = record { members = λ a. ground (arith, v.members a); distinct = v.distinct }
