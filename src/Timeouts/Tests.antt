-- ===== src/Timeouts/Tests.antt =====
-- The theorems on timeouts at a queue of three entries, and runs of the handler.
use first_os.Base.{ℕ, ◌≡◌, ◌≢◌, refl, some, List, [], ◌∷◌, arith, All}
use first_os.Timeouts.{
  TimeoutEntry, Timeouts, set_timeout, clear_timeout, timeouts_interrupt_handler,
}
use first_os.Timeouts.Order.{
  InOrder, TimerIsFirst, DistinctIds, Cleared, SetTimeout, set_timeout-InOrder, clear_timeout-gone,
}
use first_os.Timeouts.Expiry.{Expired, timeouts_interrupt_handler-due}

abbrev entry : ℕ → ℕ → TimeoutEntry
entry target_time id = record { callback = 1; arg = 0; target_time = target_time; id = id }

abbrev three : Timeouts
three = record {
  timeout_queue = entry 100 3 ∷ entry 250 1 ∷ entry 400 2 ∷ [];
  created_timeouts_count = 3;
  cpu_frequency = 10000000;
  timer = 100;
}

three-InOrder : InOrder three.timeout_queue
three-InOrder = ((omega arith, (omega arith, tt)), ((omega arith, tt), (tt, tt)))

three-DistinctIds : DistinctIds three.timeout_queue
three-DistinctIds = ((λ e. omega arith, (λ e. omega arith, tt)), ((λ e. omega arith, tt), (tt, tt)))

abbrev run_nothing : TimeoutEntry → Timeouts → Timeouts
run_nothing e t = t

set_timeout-InOrder_example : SetTimeout 2 7 20 50 three (set_timeout 2 7 20 50 60 three)
set_timeout-InOrder_example = set_timeout-InOrder 2 7 20 50 60 three three-InOrder

clear_timeout-gone_example :
    let t' = clear_timeout 1 50 three in
    InOrder t'.timeout_queue
    × TimerIsFirst t'
    × All (λ d. d.id ≢ 1) t'.timeout_queue
    × Cleared 1 three.timeout_queue t'.timeout_queue
clear_timeout-gone_example = clear_timeout-gone 1 50 three three-InOrder three-DistinctIds

timeouts_interrupt_handler-due_example :
    (fired : List TimeoutEntry) × (t' : Timeouts) × (timeouts_interrupt_handler run_nothing 4 300
        310 three
      ≡ some (fired, t'))
    × Expired 300 three.timeout_queue fired t'.timeout_queue
    × TimerIsFirst t'
timeouts_interrupt_handler-due_example =
    timeouts_interrupt_handler-due run_nothing (λ e t. refl) 4 300 310 three (omega arith)
      three-InOrder
