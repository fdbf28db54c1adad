-- ===== src/Queue.antt =====
-- Queues in order of a key: the walk that places a new entry before the first one with a larger
-- key. src/kernel/interrupts/timeouts.c, src/kernel/interrupts/interrupt_tasks.c and
-- src/kernel/task/task_mapping.c each write this walk out over `linked_list_insert_before`.
use first_os.Base.{
  ℕ, ◌≤◌, ◌<◌, ◌≡◌, refl, ap, inl, inr, List, [], ◌∷◌, ◌++◌, arith, ltb, if◌then◌else◌, All,
  Bool-cases, ltb→lt, ltb→ge,
}
use native.Mathlib.Nat.{le_trans}

module _ {A : Type 0} (key : A → ℕ) where
  unfoldable pub insert_sorted : A → List A → List A
  insert_sorted new [] = new ∷ []
  insert_sorted new (x ∷ xs) =
      if ltb (key new) (key x) then new ∷ x ∷ xs else x ∷ insert_sorted new xs

  abbrev pub Sorted : List A → Type 0
  Sorted [] = Unit
  Sorted (x ∷ xs) = All (λ y. key x ≤ key y) xs × Sorted xs

  pub All-le_trans :
      (k x : ℕ) (xs : List A) → k ≤ x → All (λ y. x ≤ key y) xs → All (λ y. k ≤ key y) xs
  All-le_trans k x [] h a = tt
  All-le_trans k x (y ∷ ys) h a = (le_trans h a.0, All-le_trans k x ys h a.1)

  pub All-insert_sorted :
      (P : A → Type 0) (new : A) (xs : List A) → P new → All P xs → All P (insert_sorted new xs)
  unfolding insert_sorted
  All-insert_sorted P new [] p a = (p, tt)
  All-insert_sorted P new (x ∷ xs) p a = elim (Bool-cases (ltb (key new) (key x))) [
    | inl e ↦ rw e (p, a)
    | inr e ↦ rw e (a.0, All-insert_sorted P new xs p a.1)
  ]

  -- A queue in order stays in order.
  pub insert_sorted-Sorted : (new : A) (xs : List A) → Sorted xs → Sorted (insert_sorted new xs)
  unfolding insert_sorted
  insert_sorted-Sorted new [] s = (tt, tt)
  insert_sorted-Sorted new (x ∷ xs) s = elim (Bool-cases (ltb (key new) (key x))) [
    | inl e ↦
        let lt = ltb→lt _ _ e in
        rw e ((omega arith, All-le_trans (key new) (key x) xs (omega arith) s.0), s)
    | inr e ↦ rw e (
      All-insert_sorted (λ y. key x ≤ key y) new xs (ltb→ge _ _ e) s.0,
      insert_sorted-Sorted new xs s.1,
    )
  ]

  -- Where the new entry stands: behind every entry whose key is no larger, before the others.
  unfoldable pub Placed : A → List A → List A → Type 0
  Placed new xs out =
      (front : List A) × (back : List A) × (xs ≡ front ++ back)
      × (out ≡ front ++ new ∷ back)
      × All (λ y. key y ≤ key new) front
      × All (λ y. key new < key y) back

  pub All-lt_trans :
      (k x : ℕ) (xs : List A) → k < x → All (λ y. x ≤ key y) xs → All (λ y. k < key y) xs
  All-lt_trans k x [] h a = tt
  All-lt_trans k x (y ∷ ys) h a = (le_trans h a.0, All-lt_trans k x ys h a.1)

  pub insert_sorted-Placed :
      (new : A) (xs : List A) → Sorted xs → Placed new xs (insert_sorted new xs)
  unfolding insert_sorted Placed
  insert_sorted-Placed new [] s = ([], [], refl, refl, tt, tt)
  insert_sorted-Placed new (x ∷ xs) s = elim (Bool-cases (ltb (key new) (key x))) [
    | inl e ↦
        let lt = ltb→lt _ _ e in
        rw e ([], x ∷ xs, refl, refl, tt, (lt, All-lt_trans (key new) (key x) xs lt s.0))
    | inr e ↦
        let (front, back, old, new', low, high) = insert_sorted-Placed new xs s.1 in
        rw e (
          x ∷ front,
          back,
          ap (λ (l : List A). x ∷ l) old,
          ap (λ (l : List A). x ∷ l) new',
          (ltb→ge _ _ e, low),
          high,
        )
  ]
