-- ===== src/DList/Remove.antt =====
-- `linked_list_remove` of src/kernel/ds/linked_list.c.
use first_os.Base.{
  ℕ, ◌≡◌, ◌≢◌, refl, sym, ◌∙◌, true, false, List, [], ◌∷◌, ◌++◌, arith, has, has-ne, has-append_inv,
  has-apart, has-head, ne→==, Distinct, Distinct-append, Distinct-append_inv,
}
use first_os.DList.{
  LinkedList, Memory, set_prev, set_next, unlink_next, unlink_prev, linked_list_remove,
}
use first_os.DList.Chain.{
  IsList, Linked, last, first, last-append, last-has, last-ne_zero, Linked-append,
  Linked-append_inv, Linked-frame, Linked-set_next, Linked-set_prev,
}

-- What `linked_list_remove` finds: the node between `xs` and `ys`, all of them distinct.
record Between (m : Memory) (list : LinkedList) (xs : List ℕ) (n : ℕ) (ys : List ℕ) : Type 0 where
  head_first : list.head ≡ first (xs ++ n ∷ ys) 0
  tail_last : list.tail ≡ last n ys
  prev_link : (m n).prev ≡ last 0 xs
  next_link : (m n).next ≡ first ys 0
  front : Linked m 0 xs n
  back : Linked m n ys 0
  front_out : has n xs ≡ false
  back_out : has n ys ≡ false
  front_distinct : Distinct xs
  back_distinct : Distinct ys
  apart : (a : ℕ) → has a xs ≡ true → has a ys ≡ false

Between-IsList :
    (m : Memory) (list : LinkedList) (xs : List ℕ) (n : ℕ) (ys : List ℕ)
    → IsList m list (xs ++ n ∷ ys)
    → Between m list xs n ys
Between-IsList m list xs n ys is = record {
  head_first = is.head_first;
  tail_last = is.tail_last ∙ last-append 0 xs (n ∷ ys);
  prev_link = sides.1.1;
  next_link = sides.1.2;
  front = sides.0;
  back = sides.1.3;
  front_out = has-apart n xs (n ∷ ys) parts.2 (has-head n ys);
  back_out = parts.1.0;
  front_distinct = parts.0;
  back_distinct = parts.1.1;
  apart = λ a h. (has_tail a (parts.2 a h)).1;
}
  where
    sides : Linked m 0 xs n × Linked m (last 0 xs) (n ∷ ys) 0
    sides = Linked-append_inv m 0 xs (n ∷ ys) 0 is.chain

    parts : Distinct xs × Distinct (n ∷ ys) × ((a : ℕ) → has a xs ≡ true → has a (n ∷ ys) ≡ false)
    parts = Distinct-append_inv xs (n ∷ ys) is.distinct

    has_tail : (a : ℕ) → has a (n ∷ ys) ≡ false → (has a (n ∷ []) ≡ false) × (has a ys ≡ false)
    has_tail a h = has-append_inv a (n ∷ []) ys h

-- The state between the two halves: the nodes behind `n` are linked past it.
record Half (m : Memory) (list : LinkedList) (xs : List ℕ) (n : ℕ) (ys : List ℕ) (m1 : Memory)
    (l1 : LinkedList) : Type 0 where
  head_kept : l1.head ≡ list.head
  tail_last : l1.tail ≡ last (last 0 xs) ys
  node_kept : m1 n ≡ m n
  front : Linked m1 0 xs n
  back : Linked m1 (last 0 xs) ys 0
  same : (a : ℕ) → a ≢ first ys 0 → m1 a ≡ m a

unlink_next-Half :
    (m : Memory) (list : LinkedList) (xs : List ℕ) (n : ℕ) (ys : List ℕ)
    → Between m list xs n ys
    → let (l1, m1) = unlink_next list n m in Half m list xs n ys m1 l1
unlink_next-Half m list xs n [] b = rw b.next_link (record {
  head_kept = refl;
  tail_last = b.prev_link;
  node_kept = refl;
  front = b.front;
  back = tt;
  same = λ a h. refl;
})
unlink_next-Half m list xs n (y ∷ ys) b =
    rw (b.next_link, ne→== y 0 b.back.0, b.prev_link)
      (record {
        head_kept = refl;
        tail_last = b.tail_last;
        node_kept = rw (ne→== n y apart);
        front =
            Linked-frame m m1 0 xs n
              (λ a h.
                let ne = has-ne a y xs h (has-apart y xs (y ∷ ys) b.apart (has-head y ys)) in
                rw (ne→== a y ne))
              b.front;
        back = Linked-set_prev m n y ys 0 (last 0 xs) b.back_distinct.0 b.back;
        same = λ a h. rw (ne→== a y h);
      })
  where
    m1 : Memory
    m1 = set_prev m y (last 0 xs)

    apart : n ≢ y
    apart e = has-ne y n (y ∷ ys) (has-head y ys) b.back_out (sym e)

-- The state after both halves, before the node's own links are cleared.
record Unlinked (m : Memory) (xs : List ℕ) (ys : List ℕ) (m2 : Memory) (l2 : LinkedList)
    : Type 0 where
  head_first : l2.head ≡ first (xs ++ ys) 0
  tail_last : l2.tail ≡ last (last 0 xs) ys
  front : Linked m2 0 xs (first ys 0)
  back : Linked m2 (last 0 xs) ys 0
  same : (a : ℕ) → a ≢ first ys 0 → a ≢ last 0 xs → m2 a ≡ m a

unlink_prev-Unlinked :
    (m : Memory) (list : LinkedList) (xs : List ℕ) (n : ℕ) (ys : List ℕ) (m1 : Memory)
    (l1 : LinkedList)
    → Between m list xs n ys
    → Half m list xs n ys m1 l1
    → let (l2, m2) = unlink_prev l1 n m1 in Unlinked m xs ys m2 l2
unlink_prev-Unlinked m list [] n ys m1 l1 b h =
    rw (h.node_kept, b.prev_link, b.next_link)
      (record {
        head_first = refl;
        tail_last = h.tail_last;
        front = tt;
        back = h.back;
        same = λ a p q. h.same a p;
      })
unlink_prev-Unlinked m list (x ∷ xs) n ys m1 l1 b h =
    rw (h.node_kept, b.prev_link, b.next_link, ne→== (last x xs) 0 t_ne)
      (record {
        head_first = h.head_kept ∙ b.head_first;
        tail_last = h.tail_last;
        front = Linked-set_next m1 0 x xs n (first ys 0) b.front_distinct h.front;
        back =
            Linked-frame m1 m2 (last x xs) ys 0
              (λ a i.
                let ne = has-ne a (last x xs) ys i (b.apart (last x xs) (last-has x xs)) in
                rw (ne→== a (last x xs) ne))
              h.back;
        same = λ a p q. rw (ne→== a (last x xs) q) (h.same a p);
      })
  where
    t_ne : last x xs ≢ 0
    t_ne = last-ne_zero m x xs n b.front.0 b.front.3

    m2 : Memory
    m2 = set_next m1 (last x xs) (first ys 0)

-- Clearing the links of a node outside the stretch.
Linked-cleared :
    (m : Memory) (n p : ℕ) (xs : List ℕ) (q : ℕ)
    → has n xs ≡ false
    → Linked m p xs q
    → Linked (set_prev (set_next m n 0) n 0) p xs q
Linked-cleared m n p xs q out =
    Linked-frame m _ p xs q (λ a h. let ne = has-ne a n xs h out in ground arith)

cleared :
    (m : Memory) (n : ℕ)
    → let m' = set_prev (set_next m n 0) n 0 in ((m' n).prev ≡ 0) × ((m' n).next ≡ 0)
cleared m n = ground arith

untouched : (m : Memory) (n a : ℕ) → a ≢ n → set_prev (set_next m n 0) n 0 a ≡ m a
untouched m n a h = ground arith

module _ {m : Memory} {list : LinkedList} where
  -- `linked_list_remove` takes a member out of the list and keeps the others in order. It clears
  -- the member's links and writes to no other node but its two neighbours.
  pub linked_list_remove-middle :
      (xs : List ℕ) (node : ℕ) (ys : List ℕ)
      → IsList m list (xs ++ node ∷ ys)
      → let (list', m') = linked_list_remove list node m in
        IsList m' list' (xs ++ ys)
        × ((m' node).prev ≡ 0)
        × ((m' node).next ≡ 0)
        × ((a : ℕ) → a ≢ node → a ≢ first ys 0 → a ≢ last 0 xs → m' a ≡ m a)
  unfolding linked_list_remove
  linked_list_remove-middle xs node ys is = (
    record {
      head_first = u.head_first;
      tail_last = u.tail_last ∙ sym (last-append 0 xs ys);
      chain =
          Linked-append _ 0 xs ys 0 (Linked-cleared m2 node 0 xs _ b.front_out u.front)
            (Linked-cleared m2 node _ ys 0 b.back_out u.back);
      distinct = Distinct-append xs ys b.front_distinct b.back_distinct b.apart;
    },
    (cleared m2 node).0,
    (cleared m2 node).1,
    λ a p q r. untouched m2 node a p ∙ u.same a q r,
  )
    where
      b : Between m list xs node ys
      b = Between-IsList m list xs node ys is

      m1 : Memory
      m1 = (unlink_next list node m).1

      l1 : LinkedList
      l1 = (unlink_next list node m).0

      m2 : Memory
      m2 = (unlink_prev l1 node m1).1

      u : Unlinked m xs ys m2 (unlink_prev l1 node m1).0
      u = unlink_prev-Unlinked m list xs node ys m1 l1 b (unlink_next-Half m list xs node ys b)
