-- ===== src/Scheduler/Fire.antt =====
-- `cpu_scheduler_fire_cond` of src/kernel/task/cpu_scheduler.c: whom a wake-up wakes.
use first_os.Base.{
  ℕ, ◌≡◌, refl, ap, sym, ◌∙◌, inl, inr, Bool, true, false, not, List, [], ◌∷◌, ◌++◌, append_assoc,
  append-nil, arith, if◌then◌else◌, has, has-ne, has-head, has-append, Distinct, without,
  without-middle, Bool-cases, ne→==,
}
use mathlib.Core.Path.{subst}
use first_os.Scheduler.{
  Scheduler, ready, WaitEvent, Condition, wakes, set_state, fire_one, fire_loop,
  cpu_scheduler_fire_cond,
}
use first_os.Scheduler.Invariant.{IsValid}

-- The members that pass a test, in order.
unfoldable pub keep : (ℕ → Bool) → List ℕ → List ℕ
keep test [] = []
keep test (x ∷ xs) = if test x then x ∷ keep test xs else keep test xs

keep-cong :
    (f g : ℕ → Bool) (xs : List ℕ) → ((a : ℕ) → has a xs ≡ true → f a ≡ g a) → keep f xs ≡ keep g xs
unfolding keep
keep-cong f g [] same = refl
keep-cong f g (x ∷ xs) same =
    ground (arith, same x, keep-cong f g xs (λ a h. same a (ground arith)))

abbrev pub woken : WaitEvent → Condition → Scheduler → ℕ → Bool
woken event cond s t = wakes event cond (s.tasks t)

abbrev pub Fired : WaitEvent → Condition → List ℕ → List ℕ → Scheduler → Scheduler → Type 0
Fired event cond passed ts s s' =
    (s'.ready_queue ≡ s.ready_queue ++ keep (woken event cond s) ts)
    × (s'.waiting_queue ≡ passed ++ keep (λ t. not (woken event cond s t)) ts)

-- The state after one waiter has been woken.
abbrev awake : ℕ → Scheduler → Scheduler
awake t s = record s {
  tasks = set_state t ready s.tasks;
  waiting_queue = without t s.waiting_queue;
  ready_queue = s.ready_queue ++ t ∷ [];
}

fire_one-awake :
    (event : WaitEvent) (cond : Condition) (t : ℕ) (s : Scheduler)
    → wakes event cond (s.tasks t) ≡ true
    → fire_one event cond t s ≡ awake t s
unfolding fire_one
fire_one-awake event cond t s h = ap (λ b. if b then awake t s else s) h

fire_one-asleep :
    (event : WaitEvent) (cond : Condition) (t : ℕ) (s : Scheduler)
    → wakes event cond (s.tasks t) ≡ false
    → fire_one event cond t s ≡ s
unfolding fire_one
fire_one-asleep event cond t s h = ap (λ b. if b then awake t s else s) h

-- The loop at `ts`, behind the waiters `passed` that it has left asleep.
fire_loop-Fired :
    (event : WaitEvent) (cond : Condition) (passed ts : List ℕ) (s : Scheduler)
    → s.waiting_queue ≡ passed ++ ts
    → Distinct ts
    → ((a : ℕ) → has a ts ≡ true → has a passed ≡ false)
    → Fired event cond passed ts s (fire_loop event cond ts s)
unfolding fire_loop keep
fire_loop-Fired event cond passed [] s e d apart = (sym (append-nil _), e)
fire_loop-Fired event cond passed (t ∷ ts) s e d apart =
    elim (Bool-cases (wakes event cond (s.tasks t))) [
      | inl wake ↦
          let (queued, left) =
            fire_loop-Fired event cond passed ts (awake t s)
              (ap (without t) e ∙ without-middle t passed ts (apart t (has-head t ts))) d.1
              (λ a h. apart a (ground arith)) in
          subst (λ x. Fired event cond passed (t ∷ ts) s (fire_loop event cond ts x))
            (sym (fire_one-awake event cond t s wake))
            (rw wake (
              queued
                  ∙ append_assoc s.ready_queue (t ∷ []) _
                  ∙ ap (λ (l : List ℕ). s.ready_queue ++ t ∷ l)
                      (keep-cong _ _ ts (λ a h. unmoved a h)),
              left
                  ∙ ap (λ (l : List ℕ). passed ++ l)
                      (keep-cong _ _ ts (λ a h. ap not (unmoved a h))),
            ))
      | inr sleep ↦
          let (queued, left) =
            fire_loop-Fired event cond (passed ++ t ∷ []) ts s
              (e ∙ sym (append_assoc passed (t ∷ []) ts)) d.1
              (λ a h. ground (arith, apart a, has-append a passed (t ∷ []), has-ne a t ts h d.0)) in
          subst (λ x. Fired event cond passed (t ∷ ts) s (fire_loop event cond ts x))
            (sym (fire_one-asleep event cond t s sleep))
            (rw sleep (queued, left ∙ append_assoc passed (t ∷ []) _))
    ]
  where
    unmoved : (a : ℕ) → has a ts ≡ true → woken event cond (awake t s) a ≡ woken event cond s a
    unmoved a h = rw (ne→== a t (has-ne a t ts h d.0)) refl

-- A wake-up appends to the ready queue exactly the waiters whose event and condition match, in
-- the order in which they waited, and leaves exactly the others waiting, in their order.
pub cpu_scheduler_fire_cond-wakes :
    (event : WaitEvent) (cond : Condition) {s : Scheduler}
    → IsValid s
    → let s' = cpu_scheduler_fire_cond event cond s in
      (s'.ready_queue ≡ s.ready_queue ++ keep (woken event cond s) s.waiting_queue)
      × (s'.waiting_queue ≡ keep (λ t. not (woken event cond s t)) s.waiting_queue)
unfolding cpu_scheduler_fire_cond
cpu_scheduler_fire_cond-wakes event cond {s} v =
    fire_loop-Fired event cond [] s.waiting_queue s refl v.waiters.distinct (λ a h. refl)
