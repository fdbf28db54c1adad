-- ===== src/MemorySetup.antt =====
-- `memory_setup` of src/kernel/mm/setup.c, without its messages: what the device tree says of memory goes to
-- the page allocator, and both allocators are started. The bounds of the kernel and of the initial ramdisk
-- are arguments.
use first_os.Base.{
  ℕ, zero, suc, ◌+◌, ◌-◌, ◌%◌, ◌<◌, ◌≤◌, ◌≡◌, ◌≢◌, refl, sym, ◌∙◌, ap, false, not, ◌||◌, Option,
  none, some, List, [], ◌∷◌, ◌++◌, ◌==◌, if◌then◌else◌, ◌>>=◌, length, arith, append-nil,
  append_assoc, length-append, ne→==,
}
use mathlib.Core.Path.{subst}
use first_os.Strings.{streql}
use first_os.PageTable.{word, pa2va}
use first_os.Fdt.{Bytes, fdt_total_size, fdt_child_node, fdt_sibling_node}
use first_os.Fdt.Lookup.{string_at, fdt_node_addr_by_path, fdt_property_by_name, fdt_reg_property}
use first_os.PageAllocator.{MemoryRegion, PageAllocator, memory_add, memory_reserve}
use first_os.PageAllocator.Boot.{memory_init}
use first_os.DynamicAllocator.{DynamicAllocator, dynamic_allocator_init}

-- "memory", with a slash in front as a path
abbrev memory_name : List ℕ
memory_name = 109 ∷ 101 ∷ 109 ∷ 111 ∷ 114 ∷ 121 ∷ []

abbrev memory_path : List ℕ
memory_path = 47 ∷ memory_name

-- "device_type"
abbrev device_type_name : List ℕ
device_type_name = 100 ∷ 101 ∷ 118 ∷ 105 ∷ 99 ∷ 101 ∷ 95 ∷ 116 ∷ 121 ∷ 112 ∷ 101 ∷ []

-- "/reserved-memory"
abbrev reserved_path : List ℕ
reserved_path = 47 ∷ 114 ∷ 101 ∷ 115 ∷ 101 ∷ 114 ∷ 118 ∷ 101 ∷ 100 ∷ 45 ∷ memory_name

module _ (fuel : ℕ) (m : Bytes) (virtual_kernel_offset fdt_addr : ℕ) where
  -- The loop over the nodes of "/reserved-memory", each the sibling of the one before.
  unfoldable reserve_nodes : ℕ → ℕ → PageAllocator → Option PageAllocator
  reserve_nodes zero current s = none
  reserve_nodes (suc rounds) current s =
      let on = fdt_reg_property fuel m fdt_addr current >>= λ (address, size).
      fdt_sibling_node fuel m current >>= λ next.
      reserve_nodes rounds next (memory_reserve s (pa2va virtual_kernel_offset address) size) in
      if current == 0 then some s else on

  unfoldable reserve_memory_node : ℕ → PageAllocator → Option PageAllocator
  reserve_memory_node node s =
      let on = fdt_child_node fuel m node >>= λ first. reserve_nodes fuel first s in
      if node == 0 then some s else on

  abbrev start_allocators : DynamicAllocator → ℕ × PageAllocator → PageAllocator × DynamicAllocator
  start_allocators d (status, s) = (s, if status == 0 then dynamic_allocator_init d else d)

  -- What follows once the memory node is known to be one: the regions are added and reserved.
  unfoldable add_memory :
      (initrd_start initrd_end kernel_start kernel_end : ℕ)
      → ℕ
      → PageAllocator
      → Option PageAllocator
  add_memory initrd_start initrd_end kernel_start kernel_end node s =
      fdt_reg_property fuel m fdt_addr node >>= λ (base, size).
      let s1 = memory_add s (pa2va virtual_kernel_offset base) size in
      let s2 = memory_reserve s1 fdt_addr (fdt_total_size m fdt_addr) in
      let s3 = memory_reserve s2 initrd_start ((initrd_end + word - initrd_start) % word) in
      let s4 = memory_reserve s3 kernel_start ((kernel_end + word - kernel_start) % word) in
      fdt_node_addr_by_path fuel m fdt_addr reserved_path >>= λ reserved.
      reserve_memory_node reserved s4

  unfoldable memory_setup :
      (initrd_start initrd_end kernel_start kernel_end : ℕ)
      → PageAllocator
      → DynamicAllocator
      → Option (PageAllocator × DynamicAllocator)
  memory_setup initrd_start initrd_end kernel_start kernel_end s d =
      fdt_node_addr_by_path fuel m fdt_addr memory_path >>= λ node.
      fdt_property_by_name fuel m fdt_addr node device_type_name >>= λ device_type.
      let started = add_memory initrd_start initrd_end kernel_start kernel_end node s >>= λ s'.
      memory_init s' >>= λ done. some (start_allocators d done) in
      if (device_type == 0) || not (streql memory_name (string_at fuel m (device_type + 8)))
      then some (s, d)
      else started

  -- The nodes from `current` on, by their regions: each is the sibling of the one before, and the last has
  -- none.
  abbrev Regions : ℕ → List MemoryRegion → Type 0
  Regions current [] = current ≡ 0
  Regions current (r ∷ rs) =
      (current ≢ 0)
      × (address : ℕ) × (r.addr ≡ pa2va virtual_kernel_offset address)
      × (fdt_reg_property fuel m fdt_addr current ≡ some (address, r.size))
      × (next : ℕ) × (fdt_sibling_node fuel m current ≡ some next)
      × Regions next rs

  -- The region goes to the end of the array, which has room for 100.
  memory_reserve-room :
      (s : PageAllocator) (addr size : ℕ)
      → length s.reserved_memory < 100
      → memory_reserve s addr size ≡ record s {
        reserved_memory = s.reserved_memory ++ record { addr = addr; size = size } ∷ [];
      }
  unfolding memory_reserve
  memory_reserve-room s addr size h =
      let full : (length s.reserved_memory == 100) ≡ false = ground arith in rw full refl

  -- The loop over the nodes of "/reserved-memory" ends, and has reserved the region of each of them, in
  -- order, if the array has room.
  reserve_nodes-Regions :
      (rounds current : ℕ) (rs : List MemoryRegion) (s : PageAllocator)
      → Regions current rs
      → length rs < rounds
      → length s.reserved_memory + length rs ≤ 100
      → reserve_nodes rounds current s
        ≡ some (record s { reserved_memory = s.reserved_memory ++ rs })
  unfolding reserve_nodes
  reserve_nodes-Regions zero current rs s c f h = absurd (omega arith)
  reserve_nodes-Regions (suc rounds) current [] s c f h =
      rw c (ap (λ l. some (record s { reserved_memory = l })) (sym (append-nil s.reserved_memory)))
  reserve_nodes-Regions (suc rounds) current (r ∷ rs) s (ne, address, at, reg, next, on, c) f h =
      let grown = s.reserved_memory ++ r ∷ [] in
      let s' : PageAllocator = record s { reserved_memory = grown } in
      let more : length grown ≡ length s.reserved_memory + 1 =
        length-append s.reserved_memory (r ∷ []) in
      let rest = reserve_nodes-Regions rounds next rs s' c (omega arith) (omega arith) in
      let one : memory_reserve s (pa2va virtual_kernel_offset address) r.size ≡ s' =
        subst (λ a. memory_reserve s a r.size ≡ s') at
          (memory_reserve-room s r.addr r.size (omega arith)) in
      rw (ne→== current 0 ne) (
        rw reg (
          rw on (
            rw one (
              rest
              ∙ ap (λ l. some (record s { reserved_memory = l }))
                  (append_assoc s.reserved_memory (r ∷ []) rs)))))
