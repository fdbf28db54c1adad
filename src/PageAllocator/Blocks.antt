-- ===== src/PageAllocator/Blocks.antt =====
-- `memory_allocate_pages` and `memory_free_pages` of src/kernel/mm/page_allocator.c: blocks of
-- 2 ^ order pages, which are split on demand and merged with their buddies.
use first_os.Base.{
  ℕ, zero, suc, ◌+◌, ◌-◌, ◌*◌, ◌%◌, ◌^◌, not, ◌&&◌, Option, none, some, ◌==◌, ltb, if◌then◌else◌,
  bit_and, bit_xor,
}
use first_os.PageAllocator.{
  page_size, max_orders, word, add64, sub64, page_flag_free, page_flag_allocated, PageAllocator,
  memory_page_metadata, order_list, push_block, remove_block, mark,
}

-- The first loop of `memory_allocate_pages`: the least order whose blocks hold `size` bytes. The
-- block size doubles with wrap-around, and `none` says that the fuel is used up.
unfoldable pub required_order_loop : ℕ → ℕ → ℕ → ℕ → Option ℕ
required_order_loop zero size required_order current_size = none
required_order_loop (suc fuel) size required_order current_size =
    let rest = required_order_loop fuel size (required_order + 1) (current_size * 2 % word) in
    if ltb current_size size then rest else some required_order

-- Sizes up to 2 ^ 63 need at most 52 rounds.
unfoldable pub required_order : ℕ → Option ℕ
required_order size = required_order_loop 53 size 0 page_size

-- The second loop, with `n` orders to go: the first order from `order` on that has a free block.
unfoldable pub find_order : PageAllocator → ℕ → ℕ → Option ℕ
find_order s order zero = none
find_order s order (suc n) =
    let rest = find_order s (order + 1) n in
    if (order_list s order).head == 0 then rest else some order

-- `PAGE_SIZE << order`, a shift of a 32-bit `int`, as the 64-bit word that it is converted to: from
-- order 19 on it is no longer the size of the block.
unfoldable pub page_size_shift : ℕ → ℕ
page_size_shift order =
    let bits = page_size * 2 ^ order % 2 ^ 32 in
    if ltb bits (2 ^ 31) then bits else bits + (word - 2 ^ 32)

-- The third loop: the block at `block_addr` is halved `n` times down to `order`, and the upper
-- halves are freed.
unfoldable pub split_loop : PageAllocator → ℕ → ℕ → ℕ → PageAllocator
split_loop s block_addr order zero = s
split_loop s block_addr order (suc n) =
    let at = order + n in
    let buddy_addr = add64 block_addr (page_size_shift at) in
    split_loop (mark (push_block s at buddy_addr) buddy_addr at page_flag_free) block_addr order n

-- The rest of `memory_allocate_pages`, with the order that is asked for and the one found.
abbrev pub take_block : PageAllocator → ℕ → Option ℕ → ℕ × PageAllocator
take_block s required none = (0, s)
take_block s required (some order) =
    let block_addr = (order_list s order).head in
    let s1 = remove_block s order block_addr in
    let s2 = split_loop s1 block_addr required (order - required) in
    (block_addr, mark s2 block_addr required page_flag_allocated)

abbrev pub take_order : PageAllocator → Option ℕ → Option (ℕ × PageAllocator)
take_order s none = none
take_order s (some required) =
    some (take_block s required (find_order s required (max_orders - required)))

-- The address of the block, 0 for the null pointer; `none` where the first loop does not end.
unfoldable pub memory_allocate_pages : PageAllocator → ℕ → Option (ℕ × PageAllocator)
memory_allocate_pages s size = take_order s (required_order size)

-- `_get_buddy`: the address of the buddy block, if it is free as a whole.
unfoldable pub buddy_of : PageAllocator → ℕ → ℕ → ℕ
buddy_of s block_addr order =
    add64 (bit_xor (sub64 block_addr s.memory_base_addr) (page_size_shift order)) s.memory_base_addr

unfoldable pub get_buddy : PageAllocator → ℕ → ℕ → Option ℕ
get_buddy s block_addr order = elim (memory_page_metadata s (buddy_of s block_addr order)) [
  | none ↦ none
  | some page ↦
      if not (bit_and page.flags page_flag_free == 0) && (page.order == order)
      then some (buddy_of s block_addr order)
      else none
]

-- The loop of `memory_free_pages`, with at most `n` orders to go: the order and the address of the
-- block that results, and the state.
unfoldable pub merge_loop : ℕ → PageAllocator → ℕ → ℕ → ℕ × ℕ × PageAllocator
merge_loop zero s order addr = (order, addr, s)
merge_loop (suc n) s order addr = elim (get_buddy s addr order) [
  | none ↦ (order, addr, s)
  | some buddy ↦
      merge_loop n (remove_block s order buddy) (order + 1) (if ltb buddy addr then buddy else addr)
]

abbrev pub free_block : ℕ × ℕ × PageAllocator → PageAllocator
free_block (order, addr, s) = mark (push_block s order addr) addr order page_flag_free

unfoldable pub memory_free_pages : PageAllocator → ℕ → PageAllocator
memory_free_pages s block_addr =
    let freed : PageAllocator = elim (memory_page_metadata s block_addr) [
      | none ↦ s
      | some page ↦ free_block (merge_loop (max_orders - 1 - page.order) s page.order block_addr)
    ] in
    if block_addr == 0 then s else freed
