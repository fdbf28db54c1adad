-- ===== src/Timeouts/Expiry.antt =====
-- `timeouts_interrupt_handler` of src/kernel/interrupts/timeouts.c.
use first_os.Base.{
  ℕ, zero, suc, ◌≤◌, ◌<◌, ◌≡◌, refl, ap, inl, inr, some, List, [], ◌∷◌, ◌++◌, arith, All, length,
  ltb, Bool-cases, ltb→lt, ltb→ge,
}
use first_os.Queue.{All-lt_trans}
use first_os.Timeouts.{TimeoutEntry, Timeouts, set_next_timeout, expire, timeouts_interrupt_handler}
use first_os.Timeouts.Order.{InOrder, TimerIsFirst, set_next_timeout-first}

-- A run of the loop: which callbacks ran, and what is left.
abbrev pub Expired : ℕ → List TimeoutEntry → List TimeoutEntry → List TimeoutEntry → Type 0
Expired now queue fired left =
    (queue ≡ fired ++ left)
    × All (λ e. e.target_time ≤ now) fired
    × All (λ e. now < e.target_time) left
    × InOrder left

module _ (run_callback : TimeoutEntry → Timeouts → Timeouts)
    (quiet : (e : TimeoutEntry) (t : Timeouts) → run_callback e t ≡ t) where
  expire-queue :
      (fuel now : ℕ) (q : List TimeoutEntry) (t : Timeouts)
      → t.timeout_queue ≡ q
      → length q < fuel
      → InOrder q
      → (fired : List TimeoutEntry) × (left : List TimeoutEntry) × (expire run_callback fuel now t
          ≡ some (fired, record t { timeout_queue = left }))
        × Expired now q fired left
  unfolding expire
  expire-queue zero now q t e f s = absurd (omega arith)
  expire-queue (suc fuel) now [] t e f s = ([], [], rw e refl, (refl, tt, tt, tt))
  expire-queue (suc fuel) now (x ∷ q) t e f s = elim (Bool-cases (ltb now x.target_time)) [
    | inl early ↦
        let lt = ltb→lt _ _ early in
        (
          [],
          x ∷ q,
          rw (e, early) refl,
          (refl, tt, (lt, All-lt_trans (λ d. d.target_time) now x.target_time q lt s.0), s),
        )
    | inr due ↦
        let (fired, left, runs, spec) =
          expire-queue fuel now q (record t { timeout_queue = q }) refl (omega arith) s.1 in
        (
          x ∷ fired,
          left,
          rw (e, due, quiet, runs) refl,
          (ap (λ (l : List TimeoutEntry). x ∷ l) spec.0, (ltb→ge _ _ due, spec.1), spec.2, spec.3),
        )
  ]

  -- With callbacks that leave the timeouts alone and fuel for each entry, the handler returns. It
  -- has run the callbacks of exactly the entries that are due, in order of time, it has left the
  -- others in the queue, and the timer is set no later than any of them.
  pub timeouts_interrupt_handler-due :
      (fuel now later : ℕ) (t : Timeouts)
      → length t.timeout_queue < fuel
      → InOrder t.timeout_queue
      → (fired : List TimeoutEntry) × (t' : Timeouts) × (timeouts_interrupt_handler run_callback
            fuel now later t
          ≡ some (fired, t'))
        × Expired now t.timeout_queue fired t'.timeout_queue
        × TimerIsFirst t'
  unfolding timeouts_interrupt_handler set_next_timeout
  timeouts_interrupt_handler-due fuel now later t f s =
      let (fired, left, runs, out) = expire-queue fuel now t.timeout_queue t refl f s in
      (
        fired,
        set_next_timeout later (record t { timeout_queue = left }),
        rw runs refl,
        out,
        set_next_timeout-first later (record t { timeout_queue = left }) out.3,
      )
