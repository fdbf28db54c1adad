-- ===== src/DList/InsertBefore.antt =====
-- `linked_list_insert_before` of src/kernel/ds/linked_list.c.
use first_os.Base.{
  ℕ, ◌≡◌, ◌≢◌, refl, sym, ◌∙◌, true, false, List, [], ◌∷◌, ◌++◌, arith, has, has-ne, has-append,
  has-append_inv, has-apart, has-head, ne→==, Distinct, Distinct-append, Distinct-append_inv,
}
use first_os.DList.{LinkedList, Memory, set_prev, set_next, linked_list_insert_before}
use first_os.DList.Chain.{
  IsList, Linked, last, last-append, last-has, last-ne_zero, Linked-append, Linked-append_inv,
  Linked-frame, Linked-set_next, Linked-set_prev,
}

-- A new member keeps the list free of repetitions.
Distinct-insert :
    (xs : List ℕ) (n b : ℕ) (ys : List ℕ)
    → Distinct (xs ++ b ∷ ys)
    → has n (xs ++ b ∷ ys) ≡ false
    → Distinct (xs ++ n ∷ b ∷ ys)
Distinct-insert xs n b ys d out =
    let (dx, dy, apart) = Distinct-append_inv xs (b ∷ ys) d in
    let split = has-append n xs (b ∷ ys) in
    Distinct-append xs (n ∷ b ∷ ys) dx (ground arith, dy)
      (λ a h. ground (arith, apart a h, has-ne a n xs h (ground arith)))

abbrev Inserted : Memory → ℕ → List ℕ → ℕ → List ℕ → LinkedList × Memory → Type 0
Inserted m node xs b ys (list', m') =
    IsList m' list' (xs ++ node ∷ b ∷ ys)
    × ((a : ℕ) → a ≢ node → a ≢ b → a ≢ last 0 xs → m' a ≡ m a)

before-nil :
    (m : Memory) (list : LinkedList) (node b : ℕ) (ys : List ℕ)
    → IsList m list (b ∷ ys)
    → node ≢ 0
    → has node (b ∷ ys) ≡ false
    → Inserted m node [] b ys (linked_list_insert_before list node b m)
unfolding linked_list_insert_before
before-nil m list node b ys is ne out =
    rw (ne→== b node apart, is.chain.1)
      (
        record {
          head_first = refl;
          tail_last = is.tail_last;
          chain = (
            ne,
            ground arith,
            ground arith,
            Linked-set_prev m2 0 b ys 0 node is.distinct.0 (
                Linked-frame m m2 0 (b ∷ ys) 0 (λ a h. ground (arith, has-ne a node (b ∷ ys) h out))
                  is.chain),
          );
          distinct = (out, is.distinct);
        },
        λ a p q r. ground arith,
      )
  where
    m2 : Memory
    m2 = set_prev (set_next m node b) node 0

    apart : b ≢ node
    apart = has-ne b node (b ∷ ys) (ground arith) out

-- The links of the new node and of its old predecessor's, after all the writes.
new_links :
    (m : Memory) (n t b : ℕ)
    → t ≢ n
    → b ≢ n
    → let m' = set_prev (set_next (set_prev (set_next m n b) n t) t n) b n in
      ((m' n).prev ≡ t) × ((m' n).next ≡ b)
new_links m n t b tn bn = ground arith

elsewhere :
    (m : Memory) (n t b a : ℕ)
    → a ≢ n
    → a ≢ b
    → a ≢ t
    → set_prev (set_next (set_prev (set_next m n b) n t) t n) b n a ≡ m a
elsewhere m n t b a p q r = ground arith

-- Two writes to one node that is not in the stretch leave it linked.
Linked-new :
    (m : Memory) (n s t p : ℕ) (xs : List ℕ) (q : ℕ)
    → has n xs ≡ false
    → Linked m p xs q
    → Linked (set_prev (set_next m n s) n t) p xs q
Linked-new m n s t p xs q out =
    Linked-frame m _ p xs q (λ a h. let ne = has-ne a n xs h out in ground arith)

before-cons :
    (m : Memory) (list : LinkedList) (node x : ℕ) (xs : List ℕ) (b : ℕ) (ys : List ℕ)
    → IsList m list (x ∷ xs ++ b ∷ ys)
    → node ≢ 0
    → has node (x ∷ xs ++ b ∷ ys) ≡ false
    → Inserted m node (x ∷ xs) b ys (linked_list_insert_before list node b m)
unfolding linked_list_insert_before
before-cons m list node x xs b ys is ne out =
    rw (ne→== b node bn, back.1, ne→== t 0 (last-ne_zero m x xs b is.chain.0 front.3))
      (
        record {
          head_first = is.head_first;
          tail_last =
              is.tail_last
              ∙ last-append 0 (x ∷ xs) (b ∷ ys)
              ∙ sym (last-append 0 (x ∷ xs) (node ∷ b ∷ ys));
          chain =
              Linked-append m' 0 (x ∷ xs) (node ∷ b ∷ ys) 0
                (Linked-frame m3 m' 0 (x ∷ xs) node
                  (λ a h. let ab = has-ne a b (x ∷ xs) h b_out in ground arith)
                  (Linked-set_next m2 0 x xs b node parts.0
                    (Linked-new m node b t 0 (x ∷ xs) b (sides.0) front)))
                (
                  ne,
                  links.0,
                  links.1,
                  Linked-set_prev m3 t b ys 0 node parts.1.0 (
                      Linked-frame m2 m3 t (b ∷ ys) 0
                        (λ a h. let at = has-ne a t (b ∷ ys) h t_out in ground arith)
                        (Linked-new m node b t t (b ∷ ys) 0 (sides.1) back)),
                );
          distinct = Distinct-insert (x ∷ xs) node b ys is.distinct out;
        },
        λ a p q r. elsewhere m node t b a p q r,
      )
  where
    t : ℕ
    t = last x xs

    parts :
        Distinct (x ∷ xs)
        × Distinct (b ∷ ys)
        × ((a : ℕ) → has a (x ∷ xs) ≡ true → has a (b ∷ ys) ≡ false)
    parts = Distinct-append_inv (x ∷ xs) (b ∷ ys) is.distinct

    sides : (has node (x ∷ xs) ≡ false) × (has node (b ∷ ys) ≡ false)
    sides = has-append_inv node (x ∷ xs) (b ∷ ys) out

    t_out : has t (b ∷ ys) ≡ false
    t_out = parts.2 t (last-has x xs)

    b_out : has b (x ∷ xs) ≡ false
    b_out = has-apart b (x ∷ xs) (b ∷ ys) parts.2 (has-head b ys)

    bn : b ≢ node
    bn = has-ne b node (b ∷ ys) (has-head b ys) sides.1

    front : Linked m 0 (x ∷ xs) b
    front = (Linked-append_inv m 0 (x ∷ xs) (b ∷ ys) 0 is.chain).0

    back : Linked m t (b ∷ ys) 0
    back = (Linked-append_inv m 0 (x ∷ xs) (b ∷ ys) 0 is.chain).1

    m2 : Memory
    m2 = set_prev (set_next m node b) node t

    m3 : Memory
    m3 = set_next m2 t node

    m' : Memory
    m' = set_prev m3 b node

    links : ((m' node).prev ≡ t) × ((m' node).next ≡ b)
    links = new_links m node t b (has-ne t node (x ∷ xs) (last-has x xs) sides.0) bn

module _ {m : Memory} {list : LinkedList} where
  -- `linked_list_insert_before` puts a new node directly before a member of the list, and writes
  -- to no node but that one and its two new neighbours.
  pub linked_list_insert_before-middle :
      (node : ℕ) (xs : List ℕ) (b : ℕ) (ys : List ℕ)
      → IsList m list (xs ++ b ∷ ys)
      → node ≢ 0
      → has node (xs ++ b ∷ ys) ≡ false
      → let (list', m') = linked_list_insert_before list node b m in
        IsList m' list' (xs ++ node ∷ b ∷ ys)
        × ((a : ℕ) → a ≢ node → a ≢ b → a ≢ last 0 xs → m' a ≡ m a)
  linked_list_insert_before-middle node [] b ys is ne out = before-nil m list node b ys is ne out
  linked_list_insert_before-middle node (x ∷ xs) b ys is ne out =
      before-cons m list node x xs b ys is ne out
