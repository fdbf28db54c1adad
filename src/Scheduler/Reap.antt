-- ===== src/Scheduler/Reap.antt =====
-- The idle task's reaping of dead tasks, `cpu_scheduler_idle` of src/kernel/task/cpu_scheduler.c with
-- `task_table_remove_task` of src/kernel/task/task_table.c.
use first_os.Base.{
  ℕ, ◌≡◌, refl, ap, sym, ◌∙◌, inl, inr, Bool, true, false, ◌&&◌, List, [], ◌∷◌, arith, ◌==◌, some,
  some_inj, has, has-without, has-head, without, Bool-cases, without-Distinct, ==→eq, ==→ne, ne→==,
  ==_refl,
}
use mathlib.Core.Path.{subst}
use first_os.Scheduler.{
  Scheduler, Task, TaskState, ready, running, waiting, killed, remove_pid, task_table_remove_task,
  reap, reap_one,
}
use first_os.Scheduler.Invariant.{QueueOf, IsValid, is_ready, is_waiting, is_dead}

-- No two tasks of the table have one pid.
abbrev pub DistinctPids : Scheduler → Type 0
DistinctPids s =
    (t u : ℕ)
    → has t s.entries ≡ true
    → has u s.entries ≡ true
    → (s.tasks t).pid ≡ (s.tasks u).pid
    → t ≡ u

remove_pid-without :
    (tasks : ℕ → Task) (t : ℕ) (ts : List ℕ)
    → ((u : ℕ) → has u ts ≡ true → (tasks u).pid ≡ (tasks t).pid → u ≡ t)
    → remove_pid tasks (tasks t).pid ts ≡ without t ts
unfolding remove_pid
remove_pid-without tasks t [] only = refl
remove_pid-without tasks t (x ∷ xs) only = elim (Bool-cases ((tasks x).pid == (tasks t).pid)) [
  | inl e ↦
      let same = only x (has-head x xs) (==→eq _ _ e) in
      rw e (rw (ap (λ (y : ℕ). t == y) same ∙ ==_refl t) refl)
  | inr e ↦
      let other : (t == x) ≡ false =
        ne→== t x (λ q. ==→ne _ _ e (ap (λ y. (tasks y).pid) (sym q))) in
      rw (e, other)
        (ap (λ (l : List ℕ). x ∷ l)
          (remove_pid-without tasks t xs (λ u h p. only u (ground arith) p)))
]

reap-entries :
    (t : ℕ) (s : Scheduler)
    → DistinctPids s
    → has t s.entries ≡ true
    → remove_pid s.tasks (s.tasks t).pid s.entries ≡ without t s.entries
reap-entries t s pids known = remove_pid-without s.tasks t s.entries (λ u h p. pids u t h known p)

dead_of : (st : TaskState) → is_dead st ≡ true → st ≡ killed
dead_of ready h = cc
dead_of running h = cc
dead_of waiting h = cc
dead_of killed h = refl

-- Without a dead task of the table, its queue and its entry, the state is as valid as before.
buried :
    (t : ℕ) (s : Scheduler)
    → IsValid s
    → has t s.killed_queue ≡ true
    → IsValid (record s {
      killed_queue = without t s.killed_queue;
      entries = without t s.entries;
      freed = t ∷ s.freed;
    })
buried t s v h = record {
  readies = spare is_ready s.ready_queue v.readies (ap is_ready was);
  waiters = spare is_waiting s.waiting_queue v.waiters (ap is_waiting was);
  corpses = record {
    members = λ a. gone a;
    distinct = without-Distinct t s.killed_queue v.corpses.distinct;
  };
  one_runs = λ a k r. still a k r;
  current_known = λ r. known_still r;
  entries_distinct = without-Distinct t s.entries v.entries_distinct;
}
  where
    was : (s.tasks t).state ≡ killed
    was = dead_of (s.tasks t).state (ground (arith, v.corpses.members t))

    spare :
        (pick : TaskState → Bool) (q : List ℕ)
        → QueueOf pick q s.entries s.tasks
        → pick (s.tasks t).state ≡ false
        → QueueOf pick q (without t s.entries) s.tasks
    spare pick q w other = record {
      members = λ a. ground (arith, w.members a, has-without a t s.entries v.entries_distinct);
      distinct = w.distinct;
    }

    gone :
        (a : ℕ)
        → has a (without t s.killed_queue)
          ≡ (has a (without t s.entries) && is_dead (s.tasks a).state)
    gone a = ground (
      arith,
      v.corpses.members a,
      has-without a t s.entries v.entries_distinct,
      has-without a t s.killed_queue v.corpses.distinct,
    )

    still :
        (a : ℕ) → has a (without t s.entries) ≡ true → (s.tasks a).state ≡ running → a ≡ s.current
    still a k r = ground (arith, v.one_runs a, has-without a t s.entries v.entries_distinct)

    known_still : (s.tasks s.current).state ≡ running → has s.current (without t s.entries) ≡ true
    known_still r = elim (Bool-cases (s.current == t)) [
      | inl e ↦ cc (was, r, ap (λ y. (s.tasks y).state) (==→eq _ _ e))
      | inr e ↦ has-without s.current t s.entries v.entries_distinct ∙ rw e (v.current_known r)
    ]

abbrev pub after_reap : ℕ → Scheduler → Scheduler
after_reap t s = record s {
  killed_queue = without t s.killed_queue;
  entries = without t s.entries;
  freed = t ∷ s.freed;
}

reap_queue :
    (q : List ℕ) (s : Scheduler) {s' : Scheduler}
    → IsValid s
    → DistinctPids s
    → s.killed_queue ≡ q
    → reap q s ≡ some s'
    → (t : ℕ) × (has t s.killed_queue ≡ true) × (after_reap t s ≡ s')
unfolding reap task_table_remove_task
reap_queue [] s v pids e r = cc
reap_queue (t ∷ ts) s {s'} v pids e r =
    let dead : has t s.killed_queue ≡ true = ap (has t) e ∙ has-head t ts in
    let known : has t s.entries ≡ true = ground (arith, v.corpses.members t) in
    let buried_eq =
      ap
        (λ (l : List ℕ).
          let after : Scheduler = record s {
            killed_queue = without t s.killed_queue;
            entries = l;
            freed = t ∷ s.freed;
          } in
          some after)
        (reap-entries t s pids known) in
    (t, dead, some_inj (sym buried_eq ∙ r))

abbrev pub Sound : Scheduler → Type 0
Sound s = IsValid s × DistinctPids s

reaped_pids :
    (t : ℕ) (s s' : Scheduler)
    → IsValid s
    → s'.entries ≡ without t s.entries
    → ((a : ℕ) → (s'.tasks a).pid ≡ (s.tasks a).pid)
    → DistinctPids s
    → DistinctPids s'
reaped_pids t s s' v e p pids a b ha hb q = pids a b (kept a ha) (kept b hb) (sym (p a) ∙ q ∙ p b)
  where
    kept : (c : ℕ) → has c s'.entries ≡ true → has c s.entries ≡ true
    kept c h = ground (arith, ap (has c) e, has-without c t s.entries v.entries_distinct)

-- The idle task's reaping frees one killed task, takes it out of the killed queue and of the table,
-- and keeps the invariant.
pub reap_one-IsValid :
    (s : Scheduler) {s' : Scheduler}
    → IsValid s
    → DistinctPids s
    → reap_one s ≡ some s'
    → Sound s'
      × ((t : ℕ) × ((s.tasks t).state ≡ killed)
          × (s'.freed ≡ t ∷ s.freed)
          × (s'.entries ≡ without t s.entries)
          × (s'.killed_queue ≡ without t s.killed_queue))
unfolding reap_one
reap_one-IsValid s {s'} v pids r =
    let (t, dead, same) = reap_queue s.killed_queue s v pids refl r in
    (
      (
        subst IsValid same (buried t s v dead),
        reaped_pids t s s' v (sym (ap (λ x. x.entries) same))
            (λ a. sym (ap (λ x. (x.tasks a).pid) same)) pids,
      ),
      (
        t,
        dead_of (s.tasks t).state (ground (arith, v.corpses.members t)),
        sym (ap (λ x. x.freed) same),
        sym (ap (λ x. x.entries) same),
        sym (ap (λ x. x.killed_queue) same),
      ),
    )
