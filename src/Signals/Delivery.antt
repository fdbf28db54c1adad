-- ===== src/Signals/Delivery.antt =====
-- The delivery of a signal and the return from its handler.
use first_os.Base.{
  ℕ, suc, ◌+◌, ◌-◌, ◌%◌, ◌^◌, ◌<◌, ◌≡◌, refl, ap, ap₂, sym, ◌∙◌, ◌⊎◌, inl, inr, true, false, Option,
  none, some, List, [], ◌∷◌, ◌++◌, arith, All, if◌then◌else◌, Bool-cases, ==_refl, length, set,
  get_or, ◌≢◌, ne→==, length-set, get_or-set_self, get_or-set_ne, append_assoc, append-nil,
}
use mathlib.Core.Path.{subst}
use first_os.Signals.{
  Signal, Trapframe, SignalTask, Stack, signal_trampoline_vaddr, copy_loop, find_pending,
  task_get_next_pending_signal, deliver, signal_handler, syscall_sigreturn,
}

-- `fork` gives a fresh task the signals of its parent, in order and with the pending ones pending.
pub copy_loop-append : (dest source : List Signal) → copy_loop dest source ≡ dest ++ source
unfolding copy_loop
copy_loop-append dest [] = sym (append-nil dest)
copy_loop-append dest (signal ∷ rest) =
    copy_loop-append (dest ++ signal ∷ []) rest ∙ append_assoc dest (signal ∷ []) rest

-- The first signal of a list that is pending, and the signals in front of it.
abbrev pub FirstPending : List Signal → ℕ → Option (ℕ × Signal) → Type 0
FirstPending signals k none = All (λ d. d.is_pending ≡ false) signals
FirstPending signals k (some (i, signal)) =
    (front : List Signal) × (back : List Signal) × (signals ≡ front ++ signal ∷ back)
    × (i ≡ k + length front)
    × (signal.is_pending ≡ true)
    × All (λ d. d.is_pending ≡ false) front

FirstPending-cons :
    (d : Signal) (signals : List Signal) (k : ℕ) (o : Option (ℕ × Signal))
    → d.is_pending ≡ false
    → FirstPending signals (suc k) o
    → FirstPending (d ∷ signals) k o
FirstPending-cons d signals k none h f = (h, f)
FirstPending-cons d signals k (some (i, signal)) h (front, back, split, at, on, idle) =
    (d ∷ front, back, ap (λ l. d ∷ l) split, omega arith, on, (h, idle))

find_pending-FirstPending :
    (signals : List Signal) (k : ℕ) → FirstPending signals k (find_pending signals k)
unfolding find_pending
find_pending-FirstPending [] k = tt
find_pending-FirstPending (d ∷ signals) k = elim (Bool-cases d.is_pending) [
  | inl e ↦
      subst (λ o. FirstPending (d ∷ signals) k o)
        (sym (let s : find_pending (d ∷ signals) k ≡ some (k, d) = rw e refl in s))
        ([], signals, refl, omega arith, e, tt)
  | inr e ↦
      subst (λ o. FirstPending (d ∷ signals) k o)
        (sym (let s : find_pending (d ∷ signals) k ≡ find_pending signals (suc k) = rw e refl in s))
        (FirstPending-cons d signals k _ e (find_pending-FirstPending signals (suc k)))
]

set-middle :
    (front : List Signal) (d new : Signal) (back : List Signal)
    → set (front ++ d ∷ back) (length front) new ≡ front ++ new ∷ back
set-middle [] d new back = refl
set-middle (x ∷ front) d new back = ap (λ l. x ∷ l) (set-middle front d new back)

-- What `_signal_handler` does before the task resumes. With no signal pending, nothing. Else the
-- first pending signal is cleared and no other changed; its handler is entered with its number as the
-- argument, the signal stack as its stack, the trampoline as its return address and all other registers
-- unchanged; nothing on the signal stack changes but the saved trapframe, and `sigreturn` restores it
-- and the stack pointer.
abbrev pub Delivered : SignalTask → Trapframe → Stack → SignalTask × Trapframe × Stack → Type 0
Delivered task trapframe stack (task', trapframe', stack') =
    (All (λ d. d.is_pending ≡ false) task.signals_list
      × (task' ≡ task)
      × (trapframe' ≡ trapframe)
      × (stack' ≡ stack))
    ⊎ ((front : List Signal) × (signal : Signal) × (back : List Signal) × (task.signals_list
          ≡ front ++ signal ∷ back)
        × (signal.is_pending ≡ true)
        × All (λ d. d.is_pending ≡ false) front
        × (task'.signals_list ≡ front ++ record signal { is_pending = false } ∷ back)
        × (trapframe'.sepc ≡ signal.handler)
        × (trapframe'.sstatus ≡ trapframe.sstatus)
        × (get_or trapframe'.regs 1 0 ≡ signal_trampoline_vaddr)
        × (get_or trapframe'.regs 2 0 ≡ task'.signal_sp)
        × (get_or trapframe'.regs 10 0 ≡ signal.signum)
        × ((r : ℕ)
            → r ≢ 1
            → r ≢ 2
            → r ≢ 10
            → get_or trapframe'.regs r 0 ≡ get_or trapframe.regs r 0)
        × ((a : ℕ) → a ≢ task'.signal_sp → stack' a ≡ stack a)
        × (syscall_sigreturn task' stack'
            ≡ (record task' { signal_sp = task.signal_sp }, trapframe)))

three_registers :
    (regs : List ℕ) (ra sp arg : ℕ)
    → length regs ≡ 32
    → let regs' = set (set (set regs 1 ra) 2 sp) 10 arg in
      (get_or regs' 1 0 ≡ ra)
      × (get_or regs' 2 0 ≡ sp)
      × (get_or regs' 10 0 ≡ arg)
      × ((r : ℕ) → r ≢ 1 → r ≢ 2 → r ≢ 10 → get_or regs' r 0 ≡ get_or regs r 0)
three_registers regs ra sp arg n =
    let with_ra = set regs 1 ra in
    let with_sp = set with_ra 2 sp in
    let n1 : length with_ra ≡ 32 = length-set regs 1 ra ∙ n in
    let n2 : length with_sp ≡ 32 = length-set with_ra 2 sp ∙ n1 in
    (
      get_or-set_ne with_sp 10 1 arg 0 (λ e. omega arith)
          ∙ get_or-set_ne with_ra 2 1 sp 0 (λ e. omega arith)
          ∙ get_or-set_self regs 1 ra 0 (omega arith),
      get_or-set_ne with_sp 10 2 arg 0 (λ e. omega arith)
          ∙ get_or-set_self with_ra 2 sp 0 (omega arith),
      get_or-set_self with_sp 10 arg 0 (omega arith),
      λ r ne1 ne2 ne10.
          get_or-set_ne with_sp 10 r arg 0 (λ e. ne10 (sym e))
          ∙ get_or-set_ne with_ra 2 r sp 0 (λ e. ne2 (sym e))
          ∙ get_or-set_ne regs 1 r ra 0 (λ e. ne1 (sym e)),
    )

deliver-Delivered :
    (task : SignalTask) (trapframe : Trapframe) (stack : Stack) (o : Option (ℕ × Signal))
    → length trapframe.regs ≡ 32
    → task.signal_sp < 2 ^ 64
    → FirstPending task.signals_list 0 o
    → Delivered task trapframe stack (deliver task trapframe stack o)
unfolding syscall_sigreturn
deliver-Delivered task trapframe stack none regs h f = inl (f, refl, refl, refl)
deliver-Delivered task trapframe stack (some (i, signal)) regs h
      (front, back, split, at, on, idle) =
    let sp = (task.signal_sp + 2 ^ 64 - 272) % 2 ^ 64 in
    let set3 = three_registers trapframe.regs signal_trampoline_vaddr sp signal.signum regs in
    inr (
      front,
      signal,
      back,
      split,
      on,
      idle,
      ap₂ (λ l n. set l n (record signal { is_pending = false })) split (at ∙ omega arith)
          ∙ set-middle front signal (record signal { is_pending = false }) back,
      refl,
      refl,
      set3.0,
      set3.1,
      set3.2,
      set3.3,
      (λ a ne. rw (ne→== a sp ne) refl),
      ap₂
          (λ p t. (
            record task {
              signals_list = set task.signals_list i (record signal { is_pending = false });
              signal_sp = p;
            },
            t,
          ))
          (let e : (sp + 272) % 2 ^ 64 ≡ task.signal_sp = omega arith in e) (rw (==_refl sp) refl),
    )

-- `_signal_handler` of a user task with 32 registers, and the `sigreturn` that ends the handler. With
-- no signal pending it changes nothing. Else it clears the first pending signal and no other, and enters
-- its handler with the signal's number in a0, the signal stack in sp and the trampoline in ra, all other
-- registers unchanged; sigreturn from there restores the interrupted trapframe and the stack pointer.
pub signal_handler-Delivered :
    (task : SignalTask) (trapframe : Trapframe) (stack : Stack)
    → task.is_user ≡ true
    → length trapframe.regs ≡ 32
    → task.signal_sp < 2 ^ 64
    → Delivered task trapframe stack (signal_handler task trapframe stack)
unfolding signal_handler task_get_next_pending_signal
signal_handler-Delivered task trapframe stack user regs h =
    let found : task_get_next_pending_signal task ≡ find_pending task.signals_list 0 =
      ap (λ b. if b then find_pending task.signals_list 0 else none) user in
    deliver-Delivered task trapframe stack (task_get_next_pending_signal task) regs h (
      subst (λ o. FirstPending task.signals_list 0 o) (sym found)
        (find_pending-FirstPending task.signals_list 0))
