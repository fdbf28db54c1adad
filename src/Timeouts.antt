-- ===== src/Timeouts.antt =====
-- src/kernel/interrupts/timeouts.c: the queue of timeouts and the hardware timer. The clock is an
-- argument, the value that `sbi_read_time` returns; the last value given to `sbi_set_timer` is a
-- field. Allocation of an entry is taken to succeed, as in the source.
pub mod Order
pub mod Expiry
mod Tests
use first_os.Base.{
  ℕ, zero, suc, ◌+◌, ◌*◌, ◌/◌, ◌%◌, ◌^◌, Bool, Option, none, some, List, [], ◌∷◌, ◌==◌, ltb,
  if◌then◌else◌,
}
use first_os.Queue.{insert_sorted}

-- `struct timeout_entry`; the callback is named by a number.
pub record TimeoutEntry : Type 0 where
  pub callback : ℕ
  pub arg : ℕ
  pub target_time : ℕ
  pub id : ℕ

-- The static variables, and the time that the hardware timer is set to.
pub record Timeouts : Type 0 where
  pub timeout_queue : List TimeoutEntry
  pub created_timeouts_count : ℕ
  pub cpu_frequency : ℕ
  pub timer : ℕ

unfoldable pub timeouts_postpone : ℕ → Timeouts → Timeouts
timeouts_postpone now t = record t { timer = (now + t.cpu_frequency * 1000000) % 2 ^ 64 }

next_target : List TimeoutEntry → ℕ → ℕ
next_target [] postponed = postponed
next_target (e ∷ q) postponed = e.target_time

-- `_set_next_timeout`
unfoldable pub set_next_timeout : ℕ → Timeouts → Timeouts
unfolding timeouts_postpone next_target
set_next_timeout now t = record t {
  timer = next_target t.timeout_queue (timeouts_postpone now t).timer;
}

-- `_insert_to_timeouts_queue`
unfoldable pub insert_to_timeouts_queue : TimeoutEntry → List TimeoutEntry → List TimeoutEntry
unfolding insert_sorted
insert_to_timeouts_queue new_entry queue = insert_sorted (λ e. e.target_time) new_entry queue

-- The two reads of the clock, `target_time`'s and that of a postponed timer, are `now` and `later`.
-- The result is the new entry's id.
unfoldable pub set_timeout : ℕ → ℕ → ℕ → ℕ → ℕ → Timeouts → ℕ × Timeouts
set_timeout callback arg timeout_us now later t =
    let id = (t.created_timeouts_count + 1) % 2 ^ 32 in
    let entry : TimeoutEntry = record {
      callback = callback;
      arg = arg;
      target_time = (now + (t.cpu_frequency / 1000000 * timeout_us) % 2 ^ 64) % 2 ^ 64;
      id = id;
    } in
    (
      id,
      set_next_timeout later (record t {
        timeout_queue = insert_to_timeouts_queue entry t.timeout_queue;
        created_timeouts_count = id;
      }),
    )

-- The loop of `clear_timeout`: the first entry with the id goes.
unfoldable pub remove_timeout : ℕ → List TimeoutEntry → List TimeoutEntry
remove_timeout timeout_id [] = []
remove_timeout timeout_id (e ∷ q) =
    if e.id == timeout_id then q else e ∷ remove_timeout timeout_id q

unfoldable pub clear_timeout : ℕ → ℕ → Timeouts → Timeouts
clear_timeout timeout_id now t =
    set_next_timeout now (record t { timeout_queue = remove_timeout timeout_id t.timeout_queue })

-- What a run of callbacks returns: the entries in the order in which their callbacks ran, and the
-- state. `none` means that the fuel ran out.
abbrev pub Expiry : Type 0
Expiry = Option (List TimeoutEntry × Timeouts)

abbrev pub ran : TimeoutEntry → Expiry → Expiry
ran e none = none
ran e (some (es, t)) = some (e ∷ es, t)

-- One round of the loop of `timeouts_interrupt_handler`, over the queue that it finds; `run` is
-- the removal of the head, its callback and the rounds that follow.
abbrev pub expire_round :
    ℕ → Timeouts → List TimeoutEntry → (TimeoutEntry → List TimeoutEntry → Expiry) → Expiry
expire_round now t [] run = some ([], t)
expire_round now t (e ∷ q) run = if ltb now e.target_time then some ([], t) else ran e (run e q)

-- A callback may change the state, so the loop runs on fuel.
module _ (run_callback : TimeoutEntry → Timeouts → Timeouts) where
  unfoldable pub expire : ℕ → ℕ → Timeouts → Expiry
  expire zero now t = none
  expire (suc fuel) now t =
      expire_round now t t.timeout_queue
        λ e q. expire fuel now (run_callback e (record t { timeout_queue = q }))

  abbrev pub rearm : ℕ → Expiry → Expiry
  rearm later none = none
  rearm later (some (es, t)) = some (es, set_next_timeout later t)

  unfoldable pub timeouts_interrupt_handler : ℕ → ℕ → ℕ → Timeouts → Expiry
  timeouts_interrupt_handler fuel now later t = rearm later (expire fuel now t)
