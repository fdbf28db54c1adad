-- ===== src/InterruptTasks/Order.antt =====
-- `interrupt_tasks_add` of src/kernel/interrupts/interrupt_tasks.c keeps the queue in order of
-- priority.
use first_os.Base.{
  ℕ, zero, suc, ◌≤◌, ◌<◌, ◌≡◌, ◌≢◌, refl, ap, sym, ◌∙◌, inl, inr, true, false, ◌||◌, Option, none,
  some, List, [], ◌∷◌, ◌++◌, arith, All, ltb, Bool-cases, ne→==, ==_refl, length, has, has-ne,
}
use mathlib.Core.Path.{subst}
use first_os.Queue.{insert_sorted, Sorted, insert_sorted-Sorted}
use first_os.DList.{LinkedList, Memory, linked_list_insert, linked_list_insert_before}
use first_os.DList.Chain.{first, Linked, IsList}
use first_os.DList.Insert.{linked_list_insert-append}
use first_os.DList.InsertBefore.{linked_list_insert_before-middle}
use first_os.InterruptTasks.{
  tasks_buffer_size, InterruptTask, InterruptTasks, write_entry, find_entry, link_entry,
  interrupt_tasks_add,
}

-- The queue holds the slots `xs`, the ones with the lowest number of priority first.
pub record IsQueue (s : InterruptTasks) (xs : List ℕ) : Type 0 where
  pub list : IsList s.nodes s.tasks_queue xs
  pub sorted : Sorted (λ a. (s.tasks_buffer a).priority) xs

-- Where the walk says that a new entry goes.
abbrev PlaceOf : (ℕ → ℕ) → ℕ → List ℕ → Option ℕ → Type 0
PlaceOf key new xs none = insert_sorted key new xs ≡ xs ++ new ∷ []
PlaceOf key new xs (some b) =
    (front : List ℕ) × (back : List ℕ) × (xs ≡ front ++ b ∷ back)
    × (insert_sorted key new xs ≡ front ++ new ∷ b ∷ back)

PlaceOf-cons :
    (key : ℕ → ℕ) (new x : ℕ) (xs : List ℕ) (o : Option ℕ)
    → ltb (key new) (key x) ≡ false
    → PlaceOf key new xs o
    → PlaceOf key new (x ∷ xs) o
unfolding insert_sorted
PlaceOf-cons key new x xs none e h = rw e (ap (λ l. x ∷ l) h)
PlaceOf-cons key new x xs (some b) e (front, back, split, at) =
    (x ∷ front, back, ap (λ l. x ∷ l) split, rw e (ap (λ l. x ∷ l) at))

find_entry-PlaceOf :
    (fuel : ℕ) (buffer : ℕ → InterruptTask) (nodes : Memory) (new p : ℕ) (xs : List ℕ)
    → length xs < fuel
    → Linked nodes p xs 0
    → PlaceOf (λ a. (buffer a).priority) new xs (find_entry fuel buffer nodes new (first xs 0))
unfolding find_entry insert_sorted
find_entry-PlaceOf zero buffer nodes new p xs h l = absurd (omega arith)
find_entry-PlaceOf (suc fuel) buffer nodes new p [] h l = refl
find_entry-PlaceOf (suc fuel) buffer nodes new p (x ∷ xs) h l =
    elim (Bool-cases (ltb (buffer new).priority (buffer x).priority)) [
      | inl e ↦
          let step : find_entry (suc fuel) buffer nodes new x ≡ some x =
            rw (ne→== x 0 l.0) (rw e refl) in
          subst (λ o. PlaceOf (λ a. (buffer a).priority) new (x ∷ xs) o) (sym step)
            ([], xs, refl, rw e refl)
      | inr e ↦
          let step : find_entry (suc fuel) buffer nodes new x
              ≡ find_entry fuel buffer nodes new (first xs 0) =
            rw (ne→== x 0 l.0) (rw e (ap (λ a. find_entry fuel buffer nodes new a) l.2)) in
          subst (λ o. PlaceOf (λ a. (buffer a).priority) new (x ∷ xs) o) (sym step)
            (PlaceOf-cons (λ a. (buffer a).priority) new x xs _ e
              (find_entry-PlaceOf fuel buffer nodes new x xs (omega arith) l.3))
    ]

link_entry-IsList :
    (key : ℕ → ℕ) (new : ℕ) (xs : List ℕ) (o : Option ℕ) (m : Memory) (list : LinkedList)
    → PlaceOf key new xs o
    → IsList m list xs
    → new ≢ 0
    → has new xs ≡ false
    → let (list', m') = link_entry o list new m in IsList m' list' (insert_sorted key new xs)
link_entry-IsList key new xs none m list place is nonzero out =
    let r = linked_list_insert-append new xs is nonzero out in
    let (list', m') = linked_list_insert list new m in
    subst (λ l. IsList m' list' l) (sym place) r.0
link_entry-IsList key new xs (some b) m list (front, back, split, at) is nonzero out =
    let r =
      linked_list_insert_before-middle new front b back (subst (λ l. IsList m list l) split is)
        nonzero (ap (λ l. has new l) (sym split) ∙ out) in
    let (list', m') = linked_list_insert_before list new b m in
    subst (λ l. IsList m' list' l) (sym at) r.0

Sorted-same :
    (k k' : ℕ → ℕ) (xs : List ℕ)
    → ((a : ℕ) → has a xs ≡ true → k a ≡ k' a)
    → Sorted k xs
    → Sorted k' xs
Sorted-same k k' [] same s = tt
Sorted-same k k' (x ∷ xs) same s =
    let head_same = same x (ap (λ b. b || has x xs) (==_refl x)) in
    (
      All-same k k' x xs head_same (λ a h. same a (ground arith)) s.0,
      Sorted-same k k' xs (λ a h. same a (ground arith)) s.1,
    )
  where
    All-same :
        (k k' : ℕ → ℕ) (x : ℕ) (xs : List ℕ)
        → k x ≡ k' x
        → ((a : ℕ) → has a xs ≡ true → k a ≡ k' a)
        → All (λ y. k x ≤ k y) xs
        → All (λ y. k' x ≤ k' y) xs
    All-same k k' x [] e same a = tt
    All-same k k' x (y ∷ ys) e same a =
        let head_same = same y (ap (λ b. b || has y ys) (==_refl y)) in
        (omega arith, All-same k k' x ys e (λ a h. same a (ground arith)) a.1)

-- `interrupt_tasks_add`, when the next slot of the buffer is not pending: the new task is queued
-- behind every task whose priority number is no larger and before the others, the queue stays in
-- order, and the pending tasks keep their entries.
pub interrupt_tasks_add-IsQueue :
    (s : InterruptTasks) (entry : InterruptTask) (xs : List ℕ)
    → IsQueue s xs
    → length xs ≤ tasks_buffer_size
    → has (suc s.tasks_buffer_head) xs ≡ false
    → let s' = interrupt_tasks_add s entry in
      IsQueue s' (insert_sorted (λ a. (s'.tasks_buffer a).priority) (suc s.tasks_buffer_head) xs)
      × (s'.tasks_buffer (suc s.tasks_buffer_head) ≡ entry)
      × ((a : ℕ) → has a xs ≡ true → s'.tasks_buffer a ≡ s.tasks_buffer a)
unfolding interrupt_tasks_add
interrupt_tasks_add-IsQueue s entry xs q room free =
    let new = suc s.tasks_buffer_head in
    let buffer = write_entry s.tasks_buffer new entry in
    let kept : (a : ℕ) → has a xs ≡ true → buffer a ≡ s.tasks_buffer a =
      λ a h. other a (has-ne a new xs h free) in
    let found =
      find_entry-PlaceOf (suc tasks_buffer_size) buffer s.nodes new 0 xs (omega arith)
        q.list.chain in
    let place =
      subst
        (λ a.
          PlaceOf (λ b. (buffer b).priority) new xs
            (find_entry (suc tasks_buffer_size) buffer s.nodes new a))
        (sym q.list.head_first) found in
    (
      record {
        list =
            link_entry-IsList (λ a. (buffer a).priority) new xs _ s.nodes s.tasks_queue place q.list
              (omega arith) free;
        sorted =
            insert_sorted-Sorted (λ a. (buffer a).priority) new xs
              (Sorted-same (λ a. (s.tasks_buffer a).priority) (λ a. (buffer a).priority) xs
                (λ a h. ap (λ t. t.priority) (sym (kept a h))) q.sorted);
      },
      self,
      kept,
    )
  where
    other :
        (a : ℕ)
        → a ≢ suc s.tasks_buffer_head
        → write_entry s.tasks_buffer (suc s.tasks_buffer_head) entry a ≡ s.tasks_buffer a
    other a h = rw (ne→== a (suc s.tasks_buffer_head) h) refl

    self :
        write_entry s.tasks_buffer (suc s.tasks_buffer_head) entry (suc s.tasks_buffer_head) ≡ entry
    self = rw (==_refl (suc s.tasks_buffer_head)) refl
