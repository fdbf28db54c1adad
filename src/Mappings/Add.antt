-- ===== src/Mappings/Add.antt =====
-- `task_add_mapping` of src/kernel/task/task_mapping.c, which keeps the mappings of a task apart.
use first_os.Base.{
  ℕ, ◌+◌, ◌-◌, ◌/◌, ◌%◌, ◌≤◌, ◌<◌, ◌≡◌, refl, sym, inl, inr, ◌&&◌, Option, none, some, List, [],
  arith, if◌then◌else◌, Bool-cases, none-some, some_inj,
}
use mathlib.Core.Path.{subst}
use first_os.Mappings.{
  Mapping, Added, word, kernel_virtual_base, pte_mem_size, map_anonymous, map_file, map_populate,
  page_addresses, bit_set, align_to_pte, get_mapping_vaddr, insert_mapping, new_mapping, place,
  task_add_mapping,
}
use first_os.Mappings.Layout.{end_of, IsLaid, IsFree, insert_mapping-IsLaid}
use first_os.Mappings.Gap.{get_mapping_vaddr-IsFree}

-- The size of a mapping is the least multiple of the page size that is not less.
pub align_to_pte_lem :
    (size : ℕ)
    → size ≤ word - pte_mem_size
    → (align_to_pte size % pte_mem_size ≡ 0)
      × (size ≤ align_to_pte size)
      × (align_to_pte size < size + pte_mem_size)
unfolding align_to_pte
align_to_pte_lem size h = (omega arith, omega arith, omega arith)

-- A size above that bound is rounded to 0.
align_to_pte-wraps : (size : ℕ) → word - pte_mem_size < size → size < word → align_to_pte size ≡ 0
unfolding align_to_pte
align_to_pte-wraps size h k = omega arith

new_mapping-range :
    (vaddr aligned_size size prot flags file_data : ℕ)
    → let m = new_mapping vaddr aligned_size size prot flags file_data in
      (m.vaddr ≡ vaddr) × (m.size ≡ aligned_size)
unfolding new_mapping
new_mapping-range vaddr aligned_size size prot flags file_data =
    elim (Bool-cases (bit_set flags map_file)) [
      | inl e ↦ rw e (refl, refl)
      | inr e ↦ rw e (refl, refl)
    ]

-- What a successful `task_add_mapping` leaves: the new mapping covers the size that was asked for,
-- met none of the old mappings, and stands in its place in the list, which is laid out as before.
abbrev pub AddedTo : List Mapping → ℕ → Added → Type 0
AddedTo ms size a =
    IsLaid a.mappings
    × (a.mappings ≡ insert_mapping a.mapping ms)
    × IsFree a.mapping.vaddr a.mapping.size ms
    × (end_of a.mapping ≤ kernel_virtual_base)
    × (size ≤ a.mapping.size)

positive : (a b : ℕ) → 0 < a → a ≤ b → 0 < b
positive a b h k = omega arith

new_mapping-AddedTo :
    (ms : List Mapping) (m : Mapping) (r aligned_size size : ℕ) (pages : List ℕ)
    → (m.vaddr ≡ r) × (m.size ≡ aligned_size)
    → IsLaid ms
    → 0 < size
    → size ≤ aligned_size
    → r + aligned_size ≤ kernel_virtual_base
    → IsFree r aligned_size ms
    → AddedTo ms size (record { mapping = m; mappings = insert_mapping m ms; pages = pages })
new_mapping-AddedTo ms m r aligned_size size pages (at, wide) laid pos le fits free =
    let free_m : IsFree m.vaddr m.size ms =
      subst (λ v. IsFree v m.size ms) (sym at) (subst (λ n. IsFree r n ms) (sym wide) free) in
    let fits_m : end_of m ≤ kernel_virtual_base = omega arith in
    (insert_mapping-IsLaid m ms laid (omega arith) fits_m free_m, refl, free_m, fits_m, omega arith)

place-AddedTo :
    (ms : List Mapping) (vaddr aligned_size size prot flags file_data : ℕ) (o : Option ℕ)
    (a : Added)
    → get_mapping_vaddr ms vaddr aligned_size ≡ o
    → IsLaid ms
    → 0 < size
    → size ≤ aligned_size
    → place o ms aligned_size size prot flags file_data ≡ some a
    → AddedTo ms size a
place-AddedTo ms vaddr aligned_size size prot flags file_data none a got laid pos le h = none-some h
place-AddedTo ms vaddr aligned_size size prot flags file_data (some r) a got laid pos le h =
    let (fits, above, free) = get_mapping_vaddr-IsFree ms vaddr aligned_size r laid got in
    subst (λ x. AddedTo ms size x) (some_inj h)
      (new_mapping-AddedTo ms (new_mapping r aligned_size size prot flags file_data) r aligned_size
        size
        (if bit_set flags map_populate then page_addresses r (aligned_size / pte_mem_size) else [])
        (new_mapping-range r aligned_size size prot flags file_data) laid pos le fits free)

-- `task_add_mapping` on mappings that lie in order below the kernel, for a size above 0 that does
-- not wrap when it is rounded up: if it returns a mapping, this covers at least `size` bytes below
-- the kernel's half of the address space, meets none of the old mappings, and is inserted in order,
-- so that the list lies in order again.
pub task_add_mapping-IsLaid :
    (ms : List Mapping) (vaddr size prot flags file_data : ℕ) (a : Added)
    → IsLaid ms
    → 0 < size
    → size ≤ word - pte_mem_size
    → task_add_mapping ms vaddr size prot flags file_data ≡ some a
    → AddedTo ms size a
unfolding task_add_mapping
task_add_mapping-IsLaid ms vaddr size prot flags file_data a laid pos small =
    elim (Bool-cases (bit_set flags map_file && bit_set flags map_anonymous)) [
      | inl e ↦ rw e (λ h. none-some h)
      | inr e ↦ rw e (λ h.
          let (_, le, _) = align_to_pte_lem size small in
          place-AddedTo ms (align_to_pte vaddr) (align_to_pte size) size prot flags file_data _ a
            refl laid pos le h)
    ]
