-- ===== src/DList.antt =====
-- src/kernel/ds/linked_list.c and linked_list.h: the intrusive doubly linked list, over an
-- explicit memory of nodes. A node is its address, and 0 is the null pointer. The list's own
-- record lives apart from the nodes, as the kernel's static list variables do.
pub mod Chain
pub mod Insert
pub mod InsertBefore
pub mod Remove
mod Tests
use first_os.Base.{ℕ, Bool, ◌==◌, if◌then◌else◌}

-- `struct linked_list_node`
pub record Node : Type 0 where
  pub prev : ℕ
  pub next : ℕ

-- `struct linked_list`
pub record LinkedList : Type 0 where
  pub head : ℕ
  pub tail : ℕ

abbrev pub Memory : Type 0
Memory = ℕ → Node

-- `p->prev = v` and `p->next = v`
abbrev pub set_prev : Memory → ℕ → ℕ → Memory
set_prev m p v a = if a == p then record (m a) { prev = v } else m a

abbrev pub set_next : Memory → ℕ → ℕ → Memory
set_next m p v a = if a == p then record (m a) { next = v } else m a

pub linked_list_init : LinkedList
linked_list_init = record { head = 0; tail = 0 }

unfoldable pub linked_list_insert : LinkedList → ℕ → Memory → LinkedList × Memory
linked_list_insert list node m =
    if list.head == 0
    then (record { head = node; tail = node }, set_prev (set_next m node 0) node 0)
    else (
      record list { tail = node },
      set_next (set_next (set_prev m node list.tail) node 0) list.tail node,
    )

unfoldable pub linked_list_insert_before : LinkedList → ℕ → ℕ → Memory → LinkedList × Memory
linked_list_insert_before list node before_node m =
    let m1 = set_next m node before_node in
    let m2 = set_prev m1 node (m1 before_node).prev in
    let before = (m2 before_node).prev in
    if before == 0
    then (record list { head = node }, set_prev m2 before_node node)
    else (list, set_prev (set_next m2 before node) before_node node)

-- The two halves of `linked_list_remove`, each on one side of the node.
abbrev pub unlink_next : LinkedList → ℕ → Memory → LinkedList × Memory
unlink_next list node m =
    if (m node).next == 0
    then (record list { tail = (m node).prev }, m)
    else (list, set_prev m (m node).next (m node).prev)

abbrev pub unlink_prev : LinkedList → ℕ → Memory → LinkedList × Memory
unlink_prev list node m =
    if (m node).prev == 0
    then (record list { head = (m node).next }, m)
    else (list, set_next m (m node).prev (m node).next)

unfoldable pub linked_list_remove : LinkedList → ℕ → Memory → LinkedList × Memory
linked_list_remove list node m =
    let (l1, m1) = unlink_next list node m in
    let (l2, m2) = unlink_prev l1 node m1 in (l2, set_prev (set_next m2 node 0) node 0)
