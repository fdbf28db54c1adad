-- ===== src/Timeouts/Order.antt =====
-- The timeout queue stays in order of time, and the hardware timer is set to its first entry.
use first_os.Base.{
  ℕ, ◌+◌, ◌*◌, ◌/◌, ◌%◌, ◌^◌, ◌≤◌, ◌≡◌, ◌≢◌, refl, ◌⊎◌, ap, ◌∙◌, inl, inr, List, [], ◌∷◌, ◌++◌,
  arith, All, ◌==◌, Bool-cases, ==→eq, ==→ne, ==_refl, ne→==,
}
use first_os.Queue.{Sorted, Placed, insert_sorted-Sorted, insert_sorted-Placed}
use first_os.Timeouts.{
  TimeoutEntry, Timeouts, insert_to_timeouts_queue, set_next_timeout, set_timeout, remove_timeout,
  clear_timeout, next_target,
}

abbrev pub target : TimeoutEntry → ℕ
target e = e.target_time

abbrev pub InOrder : List TimeoutEntry → Type 0
InOrder q = Sorted target q

-- No entry is due before the time that the hardware timer is set to.
abbrev pub TimerIsFirst : Timeouts → Type 0
TimerIsFirst t = All (λ e. t.timer ≤ e.target_time) t.timeout_queue

pub set_next_timeout-first :
    (now : ℕ) (t : Timeouts) → InOrder t.timeout_queue → TimerIsFirst (set_next_timeout now t)
unfolding set_next_timeout next_target
set_next_timeout-first now t s = by_queue t.timeout_queue _ s
  where
    by_queue :
        (q : List TimeoutEntry) (p : ℕ) → InOrder q → All (λ e. next_target q p ≤ e.target_time) q
    by_queue [] p s = tt
    by_queue (e ∷ q) p s = (omega arith, s.0)

abbrev new_entry : ℕ → ℕ → ℕ → ℕ → Timeouts → TimeoutEntry
new_entry callback arg timeout_us now t = record {
  callback = callback;
  arg = arg;
  target_time = (now + (t.cpu_frequency / 1000000 * timeout_us) % 2 ^ 64) % 2 ^ 64;
  id = (t.created_timeouts_count + 1) % 2 ^ 32;
}

abbrev pub SetTimeout : ℕ → ℕ → ℕ → ℕ → Timeouts → ℕ × Timeouts → Type 0
SetTimeout callback arg timeout_us now t (id, t') =
    InOrder t'.timeout_queue
    × TimerIsFirst t'
    × Placed target
        (record {
          callback = callback;
          arg = arg;
          target_time = (now + (t.cpu_frequency / 1000000 * timeout_us) % 2 ^ 64) % 2 ^ 64;
          id = id;
        })
        t.timeout_queue t'.timeout_queue

-- `set_timeout` puts the entry behind every entry that is due no later and before the others,
-- keeps the queue in order, and sets the timer no later than any entry.
pub set_timeout-InOrder :
    (callback arg timeout_us now later : ℕ) (t : Timeouts)
    → InOrder t.timeout_queue
    → SetTimeout callback arg timeout_us now t (set_timeout callback arg timeout_us now later t)
unfolding set_timeout insert_to_timeouts_queue set_next_timeout
set_timeout-InOrder callback arg timeout_us now later t s = (
  sorted,
  set_next_timeout-first later
      (record t {
        timeout_queue =
            insert_to_timeouts_queue (new_entry callback arg timeout_us now t) t.timeout_queue;
      })
      sorted,
  insert_sorted-Placed target (new_entry callback arg timeout_us now t) t.timeout_queue s,
)
  where
    sorted :
        InOrder (insert_to_timeouts_queue (new_entry callback arg timeout_us now t) t.timeout_queue)
    sorted = insert_sorted-Sorted target (new_entry callback arg timeout_us now t) t.timeout_queue s

All-remove_timeout :
    (P : TimeoutEntry → Type 0) (id : ℕ) (q : List TimeoutEntry)
    → All P q
    → All P (remove_timeout id q)
unfolding remove_timeout
All-remove_timeout P id [] a = tt
All-remove_timeout P id (e ∷ q) a = elim (Bool-cases (e.id == id)) [
  | inl h ↦ rw h (a.1)
  | inr h ↦ rw h (a.0, All-remove_timeout P id q a.1)
]

remove_timeout-InOrder :
    (id : ℕ) (q : List TimeoutEntry) → InOrder q → InOrder (remove_timeout id q)
unfolding remove_timeout
remove_timeout-InOrder id [] s = tt
remove_timeout-InOrder id (e ∷ q) s = elim (Bool-cases (e.id == id)) [
  | inl h ↦ rw h (s.1)
  | inr h ↦ rw h (All-remove_timeout _ id q s.0, remove_timeout-InOrder id q s.1)
]

-- No two entries of the queue have one id.
abbrev pub DistinctIds : List TimeoutEntry → Type 0
DistinctIds [] = Unit
DistinctIds (e ∷ q) = All (λ d. d.id ≢ e.id) q × DistinctIds q

remove_timeout-gone :
    (id : ℕ) (q : List TimeoutEntry) → DistinctIds q → All (λ d. d.id ≢ id) (remove_timeout id q)
unfolding remove_timeout
remove_timeout-gone id [] d = tt
remove_timeout-gone id (e ∷ q) d = elim (Bool-cases (e.id == id)) [
  | inl h ↦ rw h (others q (==→eq _ _ h) d.0)
  | inr h ↦ rw h (==→ne _ _ h, remove_timeout-gone id q d.1)
]
  where
    others : (q : List TimeoutEntry) → e.id ≡ id → All (λ d. d.id ≢ e.id) q → All (λ d. d.id ≢ id) q
    others [] h a = tt
    others (x ∷ xs) h a = (omega arith, others xs h a.1)

-- The queue without its first entry with the id: all the others stay, in their order.
abbrev pub Cleared : ℕ → List TimeoutEntry → List TimeoutEntry → Type 0
Cleared id q q' =
    (All (λ d. d.id ≢ id) q × (q' ≡ q))
    ⊎ ((front : List TimeoutEntry) × (e : TimeoutEntry) × (back : List TimeoutEntry) × (q
          ≡ front ++ e ∷ back)
        × (e.id ≡ id)
        × All (λ d. d.id ≢ id) front
        × (q' ≡ front ++ back))

Cleared-cons :
    (id : ℕ) (e : TimeoutEntry) (q q' : List TimeoutEntry)
    → e.id ≢ id
    → Cleared id q q'
    → Cleared id (e ∷ q) (e ∷ q')
Cleared-cons id e q q' ne (inl (none_of, same)) =
    inl ((ne, none_of), ap (λ (l : List TimeoutEntry). e ∷ l) same)
Cleared-cons id e q q' ne (inr (front, d, back, split, at, before, left)) =
    let cons : List TimeoutEntry → List TimeoutEntry = λ l. e ∷ l in
    inr (e ∷ front, d, back, ap cons split, at, (ne, before), ap cons left)

remove_timeout-Cleared : (id : ℕ) (q : List TimeoutEntry) → Cleared id q (remove_timeout id q)
unfolding remove_timeout
remove_timeout-Cleared id [] = inl (tt, refl)
remove_timeout-Cleared id (e ∷ q) = elim (Bool-cases (e.id == id)) [
  | inl h ↦ rw h (inr ([], e, q, refl, ==→eq _ _ h, tt, refl))
  | inr h ↦ rw h (Cleared-cons id e q _ (==→ne _ _ h) (remove_timeout-Cleared id q))
]

-- Where the ids are distinct, `clear_timeout` takes the entry with the id out of the queue, if there
-- is one, and keeps all the others in their order; it leaves no entry with the id, keeps the queue in
-- order, and sets the timer no later than any entry that is left.
pub clear_timeout-gone :
    (id now : ℕ) (t : Timeouts)
    → InOrder t.timeout_queue
    → DistinctIds t.timeout_queue
    → let t' = clear_timeout id now t in
      InOrder t'.timeout_queue
      × TimerIsFirst t'
      × All (λ d. d.id ≢ id) t'.timeout_queue
      × Cleared id t.timeout_queue t'.timeout_queue
unfolding clear_timeout set_next_timeout
clear_timeout-gone id now t s d = (
  sorted,
  set_next_timeout-first now (record t { timeout_queue = remove_timeout id t.timeout_queue })
      sorted,
  remove_timeout-gone id t.timeout_queue d,
  remove_timeout-Cleared id t.timeout_queue,
)
  where
    sorted : InOrder (remove_timeout id t.timeout_queue)
    sorted = remove_timeout-InOrder id t.timeout_queue s

remove_timeout-middle :
    (front : List TimeoutEntry) (e : TimeoutEntry) (back : List TimeoutEntry)
    → All (λ d. d.id ≢ e.id) front
    → remove_timeout e.id (front ++ e ∷ back) ≡ front ++ back
unfolding remove_timeout
remove_timeout-middle [] e back a = rw (==_refl e.id)
remove_timeout-middle (x ∷ xs) e back a =
    rw (ne→== x.id e.id a.0)
      (ap (λ (l : List TimeoutEntry). x ∷ l) (remove_timeout-middle xs e back a.1))

-- `clear_timeout` takes the first entry with the id out of the queue and keeps all the others, in
-- their order.
clear_timeout-middle :
    (now : ℕ) (front : List TimeoutEntry) (e : TimeoutEntry) (back : List TimeoutEntry)
    (t : Timeouts)
    → t.timeout_queue ≡ front ++ e ∷ back
    → All (λ d. d.id ≢ e.id) front
    → (clear_timeout e.id now t).timeout_queue ≡ front ++ back
unfolding clear_timeout set_next_timeout
clear_timeout-middle now front e back t split others =
    ap (remove_timeout e.id) split ∙ remove_timeout-middle front e back others
