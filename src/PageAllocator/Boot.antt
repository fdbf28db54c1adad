-- ===== src/PageAllocator/Boot.antt =====
-- `memory_init` of src/kernel/mm/page_allocator.c: the frame array, and the first free lists.
use first_os.Base.{
  ℕ, zero, suc, ◌+◌, ◌*◌, ◌/◌, ◌%◌, ◌^◌, not, ◌||◌, Option, none, some, List, [], ◌∷◌, ◌==◌, ltb,
  if◌then◌else◌, bit_and, length, get_or, replicate,
}
use first_os.DList.{linked_list_init}
use first_os.PageAllocator.{
  page_size, max_orders, add64, page_flag_free, page_flag_reserved, MemoryRegion, Page,
  PageAllocator, memory_reserve_pages, allocate_frame_array,
}
use first_os.PageAllocator.Blocks.{memory_free_pages}

abbrev no_page : Page
no_page = record { order = 0; flags = 0; pool_index = 0 }

-- The loop of `_populate_orders_lists` from page `i` on, with `n` pages to go.
unfoldable pub populate_loop : PageAllocator → ℕ → ℕ → PageAllocator
populate_loop s i zero = s
populate_loop s i (suc n) =
    let flags = (get_or s.frame_array i no_page).flags in
    let page_addr = add64 s.memory_base_addr (i * page_size % 2 ^ 32) in
    let s' =
      if not (bit_and flags page_flag_reserved == 0) || not (bit_and flags page_flag_free == 0)
      then s
      else memory_free_pages s page_addr in
    populate_loop s' (i + 1) n

unfoldable pub populate_orders_lists : PageAllocator → PageAllocator
populate_orders_lists s =
    populate_loop (record s { orders_lists = replicate max_orders linked_list_init }) 0
      (length s.frame_array)

-- The loop of `memory_init` over the reserved regions.
unfoldable pub reserve_regions : List MemoryRegion → ℕ → PageAllocator → PageAllocator
reserve_regions [] end s = s
reserve_regions (r ∷ rs) end s =
    let s' =
      if ltb end (add64 r.addr r.size) || ltb r.addr s.memory_base_addr
      then s
      else memory_reserve_pages s r.addr r.size in
    reserve_regions rs end s'

-- What follows in `memory_init` once the frame array has its address.
unfoldable pub init_frames : PageAllocator → MemoryRegion → ℕ → PageAllocator
init_frames s region frame_array_addr =
    let page_count = region.size / page_size % 2 ^ 32 in
    let s1 = record s {
      memory_base_addr = region.addr;
      frame_array = replicate page_count no_page;
    } in
    let s2 = memory_reserve_pages s1 frame_array_addr (3 * page_count % 2 ^ 32) in
    populate_orders_lists (reserve_regions s.reserved_memory (add64 region.addr region.size) s2)

abbrev finish : PageAllocator → MemoryRegion → Option ℕ → Option (ℕ × PageAllocator)
finish s region none = none
finish s region (some frame_array_addr) =
    some (if frame_array_addr == 0 then (1, s) else (0, init_frames s region frame_array_addr))

-- The status that `memory_init` returns, and the state.
unfoldable pub memory_init : PageAllocator → Option (ℕ × PageAllocator)
memory_init s =
    let region = get_or s.available_memory 0 (record { addr = 0; size = 0 }) in
    let page_count = region.size / page_size % 2 ^ 32 in
    finish s region (allocate_frame_array s (3 * page_count % 2 ^ 32))
