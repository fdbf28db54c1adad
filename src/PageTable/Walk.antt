-- ===== src/PageTable/Walk.antt =====
-- The tables of src/kernel/vmm/virtual_memory.c: `pagewalk` and what maps ranges with it. Memory is a
-- function from the addresses of its words, as the kernel sees them; `pages` gives the addresses that
-- `memory_allocate_pages` returns, in the order of the calls.
use first_os.Base.{
  ℕ, zero, suc, ◌+◌, ◌-◌, ◌*◌, ◌/◌, ◌%◌, ◌^◌, ◌&&◌, ◌||◌, List, ◌∷◌, ◌==◌, ltb, leb, if◌then◌else◌,
}
use first_os.PageTable.{word, va2pa, make_pte, vaddr_from_pte, is_leaf_pte, level_span}

abbrev pub Words : Type 0
Words = ℕ → ℕ

pub record Tables : Type 0 where
  pub words : Words
  pub allocated : ℕ

unfoldable pub write : Words → ℕ → ℕ → Words
write words addr value a = if a == addr then value else words a

-- `memzero` on a page
unfoldable pub zero_page : Words → ℕ → Words
zero_page words page a = if leb page a && ltb a (page + 4096) then 0 else words a

abbrev pub table_index : ℕ → ℕ → ℕ
table_index level vaddr = vaddr / 2 ^ (12 + 9 * level) % 512

abbrev pub entry_addr : ℕ → ℕ → ℕ → ℕ
entry_addr table level vaddr = table + 8 * table_index level vaddr

module _ (virtual_kernel_offset : ℕ) (pages : ℕ → ℕ) where
  -- `PTE_VALID` is 1.
  unfoldable pub add_table : ℕ → Tables → Tables
  add_table entry t =
      let table = pages (t.allocated) in
      record {
        words =
            write (zero_page (t.words) table) entry
              (make_pte (va2pa virtual_kernel_offset table) 1);
        allocated = suc (t.allocated);
      }

  unfoldable pub ensure_table : ℕ → Tables → Tables
  ensure_table entry t =
      if (t.words entry == 0) || is_leaf_pte (t.words entry) then add_table entry t else t

  unfoldable pub map_entry : ℕ → ℕ → ℕ → ℕ → ℕ → Tables → Tables
  map_entry current_table leaf_level vaddr paddr prot t = record {
    words = write t.words (entry_addr current_table leaf_level vaddr) (make_pte paddr prot);
    allocated = t.allocated;
  }

  -- The loop of `pagewalk` from a level on, and the write behind it.
  unfoldable pub pagewalk_loop : ℕ → ℕ → ℕ → ℕ → ℕ → ℕ → Tables → Tables
  pagewalk_loop zero leaf_level current_table vaddr paddr prot t =
      map_entry current_table leaf_level vaddr paddr prot t
  pagewalk_loop (suc level) leaf_level current_table vaddr paddr prot t =
      let entry = entry_addr current_table (suc level) vaddr in
      let t' = ensure_table entry t in
      let deeper =
        pagewalk_loop level leaf_level (vaddr_from_pte virtual_kernel_offset (t'.words entry)) vaddr
          paddr prot t' in
      if ltb leaf_level (suc level)
      then deeper
      else map_entry current_table leaf_level vaddr paddr prot t

  unfoldable pub pagewalk : ℕ → ℕ → ℕ → ℕ → ℕ → Tables → Tables
  pagewalk pgd vaddr paddr prot leaf_level t = pagewalk_loop 2 leaf_level pgd vaddr paddr prot t

  -- The loops over a range, with `rounds` to go. Sums of addresses wrap.
  unfoldable pub map_loop : ℕ → ℕ → ℕ → ℕ → ℕ → ℕ → ℕ → ℕ → Tables → Tables
  map_loop zero step leaf_level pgd vaddr paddr prot offset t = t
  map_loop (suc rounds) step leaf_level pgd vaddr paddr prot offset t =
      map_loop rounds step leaf_level pgd vaddr paddr prot (offset + step)
        (pagewalk pgd ((vaddr + offset) % word) ((paddr + offset) % word) prot leaf_level t)

  unfoldable pub virtual_memory_map : ℕ → ℕ → ℕ → ℕ → ℕ → Tables → Tables
  virtual_memory_map pgd vaddr paddr size prot t =
      map_loop ((size + (2 ^ 12 - 1)) / 2 ^ 12) (2 ^ 12) 0 pgd vaddr paddr prot 0 t

  unfoldable pub virtual_memory_map_pmd : ℕ → ℕ → ℕ → ℕ → ℕ → Tables → Tables
  virtual_memory_map_pmd pgd vaddr paddr size prot t =
      map_loop ((size + (2 ^ 21 - 1)) / 2 ^ 21) (2 ^ 21) 1 pgd vaddr paddr prot 0 t

  -- `virtual_memory_map_mmio` with its static `next_vaddr`: the address it returns, and what it leaves.
  -- `PTE_MMIO_PROT` is 0xe7.
  unfoldable pub virtual_memory_map_mmio : ℕ → ℕ → ℕ → ℕ → ℕ → Tables → ℕ × ℕ × Tables
  virtual_memory_map_mmio kernel_pgd virtual_mmio_offset next_vaddr mmio_paddr size t =
      let result_vaddr = (virtual_mmio_offset + next_vaddr) % word in
      let rounds = (size + (2 ^ 12 - 1)) / 2 ^ 12 in
      (
        result_vaddr,
        (next_vaddr + rounds * 2 ^ 12) % word,
        map_loop rounds (2 ^ 12) 0 kernel_pgd result_vaddr mmio_paddr 0xe7 0 t,
      )

-- The visit of the leaves in a range. `C` is what the callback works on, and `word_at` how it holds memory.
module _ {ℓ} {C : Type ℓ} (virtual_kernel_offset : ℕ) (word_at : C → Words)
    (visit : ℕ → ℕ → C → C) where
  -- The loop over the entries, with `rest` to go; `below` visits a table of the next level.
  unfoldable pub traverse_loop : (ℕ → ℕ → C → C) → ℕ → ℕ → ℕ → ℕ → ℕ → ℕ → ℕ → C → C
  traverse_loop below span table base start end zero i c = c
  traverse_loop below span table base start end (suc rest) i c =
      let entry_vaddr = (base + i * span) % word in
      let pte = word_at c (table + 8 * i) in
      let on = traverse_loop below span table base start end rest (i + 1) in
      if leb ((entry_vaddr + span) % word) start
      then on c
      else if leb end entry_vaddr
      then c
      else if (pte == 0) || (pte % 2 == 0)
      then on c
      else if is_leaf_pte pte
      then on (visit (table + 8 * i) entry_vaddr c)
      else on (below (vaddr_from_pte virtual_kernel_offset pte) entry_vaddr c)

  -- An entry of the last level that is no leaf does not occur; the source would go on to a level -1.
  unfoldable pub virtual_memory_traverse_leafs : ℕ → ℕ → ℕ → ℕ → ℕ → C → C
  virtual_memory_traverse_leafs zero table base start end =
      traverse_loop (λ sub vaddr c. c) (level_span 0) table base start end 512 0
  virtual_memory_traverse_leafs (suc level) table base start end =
      traverse_loop (λ sub vaddr. virtual_memory_traverse_leafs level sub vaddr start end)
        (level_span (suc level)) table base start end 512 0

-- The tables that are freed, the last one first.
pub record Freeing : Type 0 where
  pub left : Words
  pub freed : List ℕ

module _ (virtual_kernel_offset : ℕ) where
  unfoldable pub free_loop : (ℕ → Freeing → Freeing) → ℕ → ℕ → ℕ → Freeing → Freeing
  free_loop below table zero i f = f
  free_loop below table (suc rest) i f =
      let pte = f.left (table + 8 * i) in
      let sub_table = vaddr_from_pte virtual_kernel_offset pte in
      let f' = below sub_table f in
      let emptied : Freeing = record {
        left = write (f'.left) (table + 8 * i) 0;
        freed = sub_table ∷ f'.freed;
      } in
      let cleared : Freeing = record { left = write (f.left) (table + 8 * i) 0; freed = f.freed } in
      free_loop below table rest (i + 1)
        (if (pte == 0) || is_leaf_pte pte then cleared else emptied)

  -- `depth` bounds the recursion, which follows the tables.
  unfoldable pub virtual_memory_free_tables : ℕ → ℕ → ℕ → ℕ → Freeing → Freeing
  virtual_memory_free_tables zero table start_index n = free_loop (λ sub f. f) table n start_index
  virtual_memory_free_tables (suc depth) table start_index n =
      free_loop (λ sub. virtual_memory_free_tables depth sub 0 512) table n start_index
