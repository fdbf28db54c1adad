-- ===== src/DynamicAllocator.antt =====
-- src/kernel/mm/dynamic_allocator.c: chunks of eight sizes, cut from pages of the page allocator. A
-- free chunk is a node at its own address, in the memory of nodes that free blocks use too.
pub mod Pools
mod Tests
use first_os.Base.{
  ℕ, zero, suc, ◌+◌, ◌-◌, ◌%◌, ◌^◌, Bool, Option, none, some, List, [], ◌∷◌, ◌==◌, ltb, leb,
  if◌then◌else◌, get_or, set,
}
use first_os.DList.{LinkedList, Memory, linked_list_init, linked_list_insert, linked_list_remove}
use first_os.PageAllocator.{page_size, add64, Page, PageAllocator, memory_page_metadata, write_page}
use first_os.PageAllocator.Blocks.{memory_allocate_pages, memory_free_pages}

-- `struct pool`
pub record Pool : Type 0 where
  pub chunk_size : ℕ
  pub list : LinkedList

pub record DynamicAllocator : Type 0 where
  pub pools : List Pool
  pub pages : PageAllocator

abbrev pub chunk_sizes : List ℕ
chunk_sizes = 16 ∷ 32 ∷ 64 ∷ 128 ∷ 256 ∷ 512 ∷ 1024 ∷ 2048 ∷ []

abbrev pub empty_pools : List ℕ → List Pool
empty_pools [] = []
empty_pools (c ∷ cs) = record { chunk_size = c; list = linked_list_init } ∷ empty_pools cs

unfoldable pub dynamic_allocator_init : DynamicAllocator → DynamicAllocator
dynamic_allocator_init s = record s { pools = empty_pools chunk_sizes }

-- The loop of `_get_pool_index` from index `i` on.
unfoldable pub get_pool_index : List Pool → ℕ → ℕ → ℕ
get_pool_index [] size i = 0xFF
get_pool_index (p ∷ ps) size i =
    let rest = get_pool_index ps size (suc i) in if leb size p.chunk_size then i else rest

-- The loop of `allocate` that links the chunks of a page behind the first. The first argument
-- bounds the rounds.
unfoldable pub carve_loop : ℕ → ℕ → ℕ → ℕ → LinkedList → Memory → LinkedList × Memory
carve_loop zero chunk_size block_addr addr list nodes = (list, nodes)
carve_loop (suc fuel) chunk_size block_addr addr list nodes =
    let (list', nodes') = linked_list_insert list (add64 block_addr addr) nodes in
    let rest = carve_loop fuel chunk_size block_addr (add64 addr chunk_size) list' nodes' in
    if ltb addr page_size then rest else (list, nodes)

abbrev pub no_pool : Pool
no_pool = record { chunk_size = 0; list = linked_list_init }

-- The pool index of a page, written to its metadata.
abbrev pub set_pool_index : PageAllocator → ℕ → ℕ → PageAllocator
set_pool_index s block_addr index = elim (memory_page_metadata s block_addr) [
  | none ↦ s
  | some page ↦ write_page s block_addr (record page { pool_index = index })
]

-- What `allocate` does with the pages it is given, for a size of its own and for a pool. The
-- results are the address, 0 for the null pointer, and the state.
abbrev pub own_pages : DynamicAllocator → Option (ℕ × PageAllocator) → Option (ℕ × DynamicAllocator)
own_pages s none = none
own_pages s (some (block_addr, pages)) = some (
  block_addr,
  record s { pages = if block_addr == 0 then pages else set_pool_index pages block_addr 0xFF },
)

abbrev pub fill_pool : DynamicAllocator → ℕ → ℕ → PageAllocator → DynamicAllocator
fill_pool s index block_addr pages =
    let pool = get_or s.pools index no_pool in
    let marked = set_pool_index pages block_addr index in
    let (list, nodes) =
      carve_loop 256 pool.chunk_size block_addr pool.chunk_size pool.list marked.nodes in
    record {
      pools = set s.pools index (record pool { list = list });
      pages = record marked { nodes = nodes };
    }

abbrev pub pool_pages :
    DynamicAllocator → ℕ → Option (ℕ × PageAllocator) → Option (ℕ × DynamicAllocator)
pool_pages s index none = none
pool_pages s index (some (block_addr, pages)) = some (
  block_addr,
  if block_addr == 0 then record s { pages = pages } else fill_pool s index block_addr pages,
)

abbrev pub pop_chunk : DynamicAllocator → ℕ → ℕ × DynamicAllocator
pop_chunk s index =
    let pool = get_or s.pools index no_pool in
    let chunk = pool.list.head in
    let (list, nodes) = linked_list_remove pool.list chunk s.pages.nodes in
    let pages = s.pages in
    (
      chunk,
      record {
        pools = set s.pools index (record pool { list = list });
        pages = record pages { nodes = nodes };
      },
    )

unfoldable pub allocate : DynamicAllocator → ℕ → Option (ℕ × DynamicAllocator)
allocate s size =
    let index = get_pool_index s.pools size 0 in
    let pool = get_or s.pools index no_pool in
    if index == 0xFF
    then own_pages s (memory_allocate_pages s.pages size)
    else if pool.list.head == 0
    then pool_pages s index (memory_allocate_pages s.pages page_size)
    else some (pop_chunk s index)

abbrev pub push_chunk : DynamicAllocator → ℕ → ℕ → DynamicAllocator
push_chunk s index block_addr =
    let pool = get_or s.pools index no_pool in
    let pages = s.pages in
    let (list, nodes) = linked_list_insert pool.list block_addr pages.nodes in
    record {
      pools = set s.pools index (record pool { list = list });
      pages = record pages { nodes = nodes };
    }

unfoldable pub free : DynamicAllocator → ℕ → DynamicAllocator
free s block_addr =
    let freed : DynamicAllocator = elim (memory_page_metadata s.pages block_addr) [
      | none ↦ s
      | some page ↦
          if page.pool_index == 0xFF
          then record s { pages = memory_free_pages s.pages block_addr }
          else push_chunk s page.pool_index block_addr
    ] in
    if block_addr == 0 then s else freed
