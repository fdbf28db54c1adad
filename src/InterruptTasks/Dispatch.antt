-- ===== src/InterruptTasks/Dispatch.antt =====
-- `_interrupt_get_handler` of src/kernel/interrupts/interrupt_handler.c: which task an interrupt
-- leaves behind, and with which priority.
use first_os.Base.{ℕ, ◌+◌, ◌^◌, Option, none, some, ◌==◌, ◌||◌, if◌then◌else◌}
use first_os.Timeouts.{Timeouts, timeouts_postpone}

-- The handlers, and the page fault, which is handled at once and leaves none.
pub data Handler : Type 0 where
  timeouts_handler external_handler syscall_handler page_fault : Handler

pub record Dispatch : Type 0 where
  pub handler : Handler
  pub arg : ℕ
  pub priority : ℕ

abbrev pub dispatch : Handler → ℕ → ℕ → Dispatch
dispatch handler arg priority = record { handler = handler; arg = arg; priority = priority }

-- `claimed` is what `plic_claim` returns, and `now` the time. `none` is the panic. A timer interrupt
-- also postpones the timer.
unfoldable pub interrupt_get_handler : ℕ → ℕ → ℕ → ℕ → Timeouts → Option Dispatch × Timeouts
interrupt_get_handler scause trapframe claimed now t =
    if scause == 2 ^ 63 + 5
    then (some (dispatch timeouts_handler 0 200), timeouts_postpone now t)
    else if scause == 2 ^ 63 + 9
    then (some (dispatch external_handler claimed 1), t)
    else if scause == 8
    then (some (dispatch syscall_handler trapframe 1), t)
    else if (scause == 0xc) || (scause == 0xd) || (scause == 0xf)
    then (some (dispatch page_fault 0 1), t)
    else (none, t)
