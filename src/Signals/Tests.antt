-- ===== src/Signals/Tests.antt =====
-- The theorems on signals at a task with two signals, the second one pending.
use first_os.Base.{◌≡◌, refl, true, false, [], ◌∷◌, ◌++◌, arith, replicate}
use first_os.Signals.{Signal, Trapframe, SignalTask, Stack, copy_loop, signal_handler}
use first_os.Signals.Delivery.{Delivered, copy_loop-append, signal_handler-Delivered}

abbrev quiet : Signal
quiet = record { signum = 9; is_pending = false; handler = 0x10100 }

abbrev raised : Signal
raised = record { signum = 10; is_pending = true; handler = 0x10200 }

abbrev user_task : SignalTask
user_task = record { is_user = true; signals_list = quiet ∷ raised ∷ []; signal_sp = 0x3ffff00000 }

abbrev trapframe : Trapframe
trapframe = record { regs = replicate 32 0; sepc = 0x10004; sstatus = 32 }

abbrev stack : Stack
stack a = trapframe

signal_handler-Delivered_example :
    Delivered user_task trapframe stack (signal_handler user_task trapframe stack)
signal_handler-Delivered_example =
    signal_handler-Delivered user_task trapframe stack refl refl (omega arith)

copy_loop-append_example : copy_loop (quiet ∷ []) (raised ∷ []) ≡ (quiet ∷ []) ++ raised ∷ []
copy_loop-append_example = copy_loop-append (quiet ∷ []) (raised ∷ [])
