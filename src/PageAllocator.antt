-- ===== src/PageAllocator.antt =====
-- src/kernel/mm/page_allocator.c: the buddy allocator of page blocks. Addresses and sizes are
-- 64-bit words, indices and counts of pages 32-bit words, and sums wrap. The node of a free block
-- lies at the block's own address. The list of regions that the boot code fills comes first.
pub mod Frames
pub mod Blocks
pub mod Buddy
pub mod Boot
mod Tests
use first_os.Base.{
  ℕ, zero, suc, ◌+◌, ◌-◌, ◌*◌, ◌/◌, ◌%◌, ◌^◌, Bool, true, false, not, ◌&&◌, ◌||◌, Option, none,
  some, List, [], ◌∷◌, ◌++◌, ◌==◌, ltb, leb, if◌then◌else◌, bit_and, bit_xor, length, get_elem?,
  get_or, set, replicate,
}
use first_os.DList.{
  Node, LinkedList, Memory, linked_list_init, linked_list_insert, linked_list_remove,
}

abbrev pub page_size : ℕ
page_size = 4096

abbrev pub max_orders : ℕ
max_orders = 22

abbrev pub word : ℕ
word = 2 ^ 64

abbrev pub add64 : ℕ → ℕ → ℕ
add64 a b = (a + b) % word

abbrev pub sub64 : ℕ → ℕ → ℕ
sub64 a b = (a + word - b) % word

abbrev pub page_flag_free : ℕ
page_flag_free = 1

abbrev pub page_flag_allocated : ℕ
page_flag_allocated = 2

abbrev pub page_flag_reserved : ℕ
page_flag_reserved = 4

pub record MemoryRegion : Type 0 where
  pub addr : ℕ
  pub size : ℕ

-- `struct page`, of 3 bytes
pub record Page : Type 0 where
  pub order : ℕ
  pub flags : ℕ
  pub pool_index : ℕ

pub record PageAllocator : Type 0 where
  pub available_memory : List MemoryRegion
  pub reserved_memory : List MemoryRegion
  pub frame_array : List Page
  pub orders_lists : List LinkedList
  pub memory_base_addr : ℕ
  pub nodes : Memory

-- `_get_page_index`
unfoldable pub get_page_index : PageAllocator → ℕ → ℕ
get_page_index s page_addr = sub64 page_addr s.memory_base_addr / page_size % 2 ^ 32

unfoldable pub memory_add : PageAllocator → ℕ → ℕ → PageAllocator
memory_add s addr size = if length s.available_memory == 10 then s else record s {
  available_memory = s.available_memory ++ record { addr = addr; size = size } ∷ [];
}

unfoldable pub memory_reserve : PageAllocator → ℕ → ℕ → PageAllocator
memory_reserve s addr size = if length s.reserved_memory == 100 then s else record s {
  reserved_memory = s.reserved_memory ++ record { addr = addr; size = size } ∷ [];
}

-- `none` is the null pointer.
unfoldable pub memory_page_metadata : PageAllocator → ℕ → Option Page
memory_page_metadata s page_addr = get_elem? s.frame_array (get_page_index s page_addr)

-- `_memory_reserve_pages`: the loop, with `n` pages to go, and its call. A write outside of the
-- frame array changes nothing here.
unfoldable pub reserve_loop : List Page → ℕ → ℕ → List Page
reserve_loop frames index zero = frames
reserve_loop frames index (suc n) =
    let old = get_or frames index (record { order = 0; flags = 0; pool_index = 0 }) in
    let frames' = set frames index (record old { order = 0; flags = page_flag_reserved }) in
    reserve_loop frames' ((index + 1) % 2 ^ 32) n

unfoldable pub memory_reserve_pages : PageAllocator → ℕ → ℕ → PageAllocator
memory_reserve_pages s addr size =
    let reserved_page_num = (size + page_size - 1) % word / page_size % 2 ^ 32 in
    record s { frame_array = reserve_loop s.frame_array (get_page_index s addr) reserved_page_num }

-- The inner loop of `_allocate_frame_array`: the end of the first reserved region that the frame
-- array at `addr` would overlap.
unfoldable pub find_overlap : List MemoryRegion → ℕ → ℕ → Option ℕ
find_overlap [] addr end = none
find_overlap (r ∷ rs) addr end =
    let rest = find_overlap rs addr end in
    if ltb addr (add64 r.addr r.size) && ltb r.addr end then some (add64 r.addr r.size) else rest

-- `_allocate_frame_array` from `addr` on, in memory that ends at `end`. The outer option is `none`
-- when the fuel is used up; the inner result 0 is the error of the source.
unfoldable pub frame_array_loop : ℕ → List MemoryRegion → ℕ → ℕ → ℕ → Option ℕ
frame_array_loop zero reserved size end addr = none
frame_array_loop (suc fuel) reserved size end addr =
    let array_end = add64 addr size in
    let again : Option ℕ = elim (find_overlap reserved addr array_end) [
      | none ↦ some addr
      | some next ↦ frame_array_loop fuel reserved size end next
    ] in
    if ltb end array_end then some 0 else again

-- Each round moves behind one more reserved region, so that there are at most as many as regions.
unfoldable pub allocate_frame_array : PageAllocator → ℕ → Option ℕ
allocate_frame_array s frame_array_size =
    let first = get_or s.available_memory 0 (record { addr = 0; size = 0 }) in
    frame_array_loop (suc (length s.reserved_memory)) s.reserved_memory frame_array_size
      (add64 first.addr first.size) first.addr

-- A write to the metadata of a page; on a null pointer nothing is written here.
abbrev pub write_page : PageAllocator → ℕ → Page → PageAllocator
write_page s page_addr page = record s {
  frame_array = set s.frame_array (get_page_index s page_addr) page;
}

abbrev pub order_list : PageAllocator → ℕ → LinkedList
order_list s order = get_or s.orders_lists order linked_list_init

abbrev pub push_block : PageAllocator → ℕ → ℕ → PageAllocator
push_block s order addr =
    let (list, nodes) = linked_list_insert (order_list s order) addr s.nodes in
    record s { orders_lists = set s.orders_lists order list; nodes = nodes }

abbrev pub remove_block : PageAllocator → ℕ → ℕ → PageAllocator
remove_block s order addr =
    let (list, nodes) = linked_list_remove (order_list s order) addr s.nodes in
    record s { orders_lists = set s.orders_lists order list; nodes = nodes }

abbrev pub mark : PageAllocator → ℕ → ℕ → ℕ → PageAllocator
mark s page_addr order flags = elim (memory_page_metadata s page_addr) [
  | none ↦ s
  | some page ↦ write_page s page_addr (record page { order = order; flags = flags })
]
