-- ===== src/DList/Tests.antt =====
-- The linked list's theorems at a concrete memory with the list of the nodes 16, 32 and 48.
use first_os.Base.{ℕ, ◌≡◌, ◌≢◌, refl, [], ◌∷◌, ◌++◌, arith, ◌==◌, if◌then◌else◌}
use first_os.DList.{Node, LinkedList, Memory, linked_list_insert_before, linked_list_remove}
use first_os.DList.Chain.{IsList, first, last}
use first_os.DList.InsertBefore.{linked_list_insert_before-middle}
use first_os.DList.Remove.{linked_list_remove-middle}

abbrev node : ℕ → ℕ → Node
node prev next = record { prev = prev; next = next }

abbrev three : Memory
three a =
    if a == 16
    then node 0 32
    else if a == 32
    then node 16 48
    else if a == 48
    then node 32 0
    else node 7 9

abbrev list_of_three : LinkedList
list_of_three = record { head = 16; tail = 48 }

three-IsList : IsList three list_of_three (16 ∷ 32 ∷ 48 ∷ [])
three-IsList = record {
  head_first = refl;
  tail_last = refl;
  chain = (
    λ e. omega arith,
    refl,
    refl,
    (λ e. omega arith, refl, refl, (λ e. omega arith, refl, refl, tt)),
  );
  distinct = (refl, (refl, (refl, tt)));
}

linked_list_insert_before-middle_example :
    let (list', m') = linked_list_insert_before list_of_three 64 32 three in
    IsList m' list' ((16 ∷ []) ++ 64 ∷ 32 ∷ 48 ∷ [])
    × ((a : ℕ) → a ≢ 64 → a ≢ 32 → a ≢ last 0 (16 ∷ []) → m' a ≡ three a)
linked_list_insert_before-middle_example =
    linked_list_insert_before-middle {m = three} {list = list_of_three} 64 (16 ∷ []) 32 (48 ∷ [])
      three-IsList (λ e. omega arith) refl

linked_list_remove-middle_example :
    let (list', m') = linked_list_remove list_of_three 32 three in
    IsList m' list' ((16 ∷ []) ++ 48 ∷ [])
    × ((m' 32).prev ≡ 0)
    × ((m' 32).next ≡ 0)
    × ((a : ℕ) → a ≢ 32 → a ≢ first (48 ∷ []) 0 → a ≢ last 0 (16 ∷ []) → m' a ≡ three a)
linked_list_remove-middle_example =
    linked_list_remove-middle {m = three} {list = list_of_three} (16 ∷ []) 32 (48 ∷ []) three-IsList
