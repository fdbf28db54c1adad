-- ===== src/DList/Insert.antt =====
-- `linked_list_init` and `linked_list_insert` of src/kernel/ds/linked_list.c.
use first_os.Base.{
  ℕ, ◌≡◌, ◌≢◌, refl, sym, false, List, [], ◌∷◌, ◌++◌, arith, has, has-ne, ne→==, Distinct-snoc,
}
use first_os.DList.{LinkedList, Memory, set_prev, set_next, linked_list_init, linked_list_insert}
use first_os.DList.Chain.{
  IsList, Linked, last, last-append, last-has, Linked-append, Linked-frame, Linked-set_next,
}

-- A fresh list is empty, whatever the memory holds.
pub linked_list_init-IsList : (m : Memory) → IsList m linked_list_init []
unfolding linked_list_init
linked_list_init-IsList m = record {
  head_first = refl;
  tail_last = refl;
  chain = tt;
  distinct = tt;
}

abbrev Appended : Memory → LinkedList → ℕ → List ℕ → LinkedList × Memory → Type 0
Appended m list node xs (list', m') =
    IsList m' list' (xs ++ node ∷ []) × ((a : ℕ) → a ≢ node → a ≢ list.tail → m' a ≡ m a)

insert-nil :
    (m : Memory) (list : LinkedList) (node : ℕ)
    → IsList m list []
    → node ≢ 0
    → Appended m list node [] (linked_list_insert list node m)
unfolding linked_list_insert
insert-nil m list node is ne = rw is.head_first (
  record { head_first = refl; tail_last = refl; chain = ground arith; distinct = (refl, tt) },
  λ a p q. ground arith,
)

-- The new node's own links, after the writes to it and to the old tail.
new_links :
    (m : Memory) (n t : ℕ)
    → t ≢ n
    → let m' = set_next (set_next (set_prev m n t) n 0) t n in ((m' n).prev ≡ t) × ((m' n).next ≡ 0)
new_links m n t ne = ground arith

insert-cons :
    (m : Memory) (list : LinkedList) (node x : ℕ) (xs : List ℕ)
    → IsList m list (x ∷ xs)
    → node ≢ 0
    → has node (x ∷ xs) ≡ false
    → Appended m list node (x ∷ xs) (linked_list_insert list node m)
unfolding linked_list_insert
insert-cons m list node x xs is ne out =
    rw (is.head_first, is.tail_last, ne→== x 0 is.chain.0)
      (
        record {
          head_first = refl;
          tail_last = sym (last-append 0 (x ∷ xs) (node ∷ []));
          chain =
              Linked-append m' 0 (x ∷ xs) (node ∷ []) 0
                (Linked-set_next m1 0 x xs 0 node is.distinct spared) (ne, links.0, links.1, tt);
          distinct = Distinct-snoc (x ∷ xs) node is.distinct out;
        },
        λ a p q. ground arith,
      )
  where
    m1 : Memory
    m1 = set_next (set_prev m node (last x xs)) node 0

    m' : Memory
    m' = set_next m1 (last x xs) node

    apart : last x xs ≢ node
    apart = has-ne _ _ (x ∷ xs) (last-has x xs) out

    links : ((m' node).prev ≡ last x xs) × ((m' node).next ≡ 0)
    links = new_links m node (last x xs) apart

    spared : Linked m1 0 (x ∷ xs) 0
    spared =
        Linked-frame m m1 0 (x ∷ xs) 0 (λ a h. ground (arith, has-ne a node (x ∷ xs) h out))
          is.chain

module _ {m : Memory} {list : LinkedList} where
  -- `linked_list_insert` puts a new node at the end of the list, and writes to no node but that
  -- one and the old tail.
  pub linked_list_insert-append :
      (node : ℕ) (xs : List ℕ)
      → IsList m list xs
      → node ≢ 0
      → has node xs ≡ false
      → let (list', m') = linked_list_insert list node m in
        IsList m' list' (xs ++ node ∷ []) × ((a : ℕ) → a ≢ node → a ≢ list.tail → m' a ≡ m a)
  linked_list_insert-append node [] is ne out = insert-nil m list node is ne
  linked_list_insert-append node (x ∷ xs) is ne out = insert-cons m list node x xs is ne out
