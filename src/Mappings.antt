-- ===== src/Mappings.antt =====
-- src/kernel/task/task_mapping.c: the memory mappings of a task, a list in order of address. The
-- numbers are 64-bit words, and sums wrap.
pub mod Layout
pub mod Gap
pub mod Add
pub mod Find
pub mod Fault
pub mod Mmap
mod Tests
use first_os.Base.{
  ℕ, zero, suc, ◌+◌, ◌-◌, ◌*◌, ◌/◌, ◌^◌, ◌%◌, Bool, true, false, not, ◌&&◌, Option, none, some,
  List, [], ◌∷◌, ◌==◌, ltb, leb, if◌then◌else◌, bit_and, bit_or,
}
use first_os.Queue.{insert_sorted}

abbrev pub word : ℕ
word = 2 ^ 64

-- `uint64_t` addition
abbrev pub add64 : ℕ → ℕ → ℕ
add64 a b = (a + b) % word

abbrev pub kernel_virtual_base : ℕ
kernel_virtual_base = 0xFFFFFFC000000000

abbrev pub pte_mem_size : ℕ
pte_mem_size = 4096

abbrev pub signal_trampoline_vaddr : ℕ
signal_trampoline_vaddr = 0x1000

abbrev pub user_code_vaddr : ℕ
user_code_vaddr = 0x10000

abbrev pub map_anonymous : ℕ
map_anonymous = 0x20

abbrev pub map_file : ℕ
map_file = 0x1

abbrev pub map_populate : ℕ
map_populate = 0x8000

-- `BACKER_ANON` and `BACKER_FILE`
abbrev pub backer_anon : ℕ
backer_anon = 1

abbrev pub backer_file : ℕ
backer_file = 2

-- `struct mapping`. `file_size` is `none` while the source leaves it unset.
pub record Mapping : Type 0 where
  pub vaddr : ℕ
  pub size : ℕ
  pub prot : ℕ
  pub backer : ℕ
  pub file_data : ℕ
  pub file_size : Option ℕ

-- `if (flags & mask)`
abbrev pub bit_set : ℕ → ℕ → Bool
bit_set flags mask = not (bit_and flags mask == 0)

-- `align_to_pte` of src/kernel/vmm/definitions.h; clearing the low bits is written as a remainder.
unfoldable pub align_to_pte : ℕ → ℕ
align_to_pte addr = let a = (addr + pte_mem_size + word - 1) % word in a - a % pte_mem_size

-- `align_to_floor_pte`
unfoldable pub align_to_floor_pte : ℕ → ℕ
align_to_floor_pte addr = addr - addr % pte_mem_size

unfoldable pub get_mapping_prot : ℕ → ℕ
get_mapping_prot user_prot =
    let base = bit_or (bit_or (bit_or 1 16) 64) 128 in
    let r = bit_or base (if bit_set user_prot 1 then 2 else 0) in
    let w = bit_or r (if bit_set user_prot 2 then bit_or 4 2 else 0) in
    bit_or w (if bit_set user_prot 4 then 8 else 0)

-- The loop of `_get_mapping_vaddr`: the first gap from `result` on that is large enough.
unfoldable pub find_gap : List Mapping → ℕ → ℕ → ℕ
find_gap [] size result = result
find_gap (m ∷ ms) size result =
    let past = find_gap ms size result in
    let moved = find_gap ms size (add64 m.vaddr m.size) in
    if leb (add64 m.vaddr m.size) result
    then past
    else if leb (add64 result size) m.vaddr
    then result
    else moved

-- The address that the search of `_get_mapping_vaddr` starts from.
unfoldable pub gap_start : ℕ → ℕ → ℕ
gap_start vaddr size =
    let result = if vaddr == 0 then user_code_vaddr else vaddr in
    if ltb result (signal_trampoline_vaddr + pte_mem_size)
      && ltb signal_trampoline_vaddr (add64 result size)
    then signal_trampoline_vaddr + pte_mem_size
    else result

-- `none` is the return value -1.
unfoldable pub get_mapping_vaddr : List Mapping → ℕ → ℕ → Option ℕ
get_mapping_vaddr mappings vaddr size =
    let result = find_gap mappings size (gap_start vaddr size) in
    if ltb kernel_virtual_base size
    then none
    else if ltb (kernel_virtual_base - size) result
    then none
    else some result

-- `_insert_mapping`
unfoldable pub insert_mapping : Mapping → List Mapping → List Mapping
insert_mapping mapping mappings = insert_sorted (λ m. m.vaddr) mapping mappings

-- The addresses of the pages that `MAP_POPULATE` installs, in order.
unfoldable pub page_addresses : ℕ → ℕ → List ℕ
page_addresses vaddr zero = []
page_addresses vaddr (suc n) = vaddr ∷ page_addresses (add64 vaddr pte_mem_size) n

-- What `task_add_mapping` returns: the mapping, the new list, and the pages to install.
pub record Added : Type 0 where
  pub mapping : Mapping
  pub mappings : List Mapping
  pub pages : List ℕ

unfoldable pub new_mapping : ℕ → ℕ → ℕ → ℕ → ℕ → ℕ → Mapping
new_mapping vaddr aligned_size size prot flags file_data =
    if bit_set flags map_file
    then record {
      vaddr = vaddr;
      size = aligned_size;
      prot = prot;
      backer = backer_file;
      file_data = file_data;
      file_size = some size;
    }
    else record {
      vaddr = vaddr;
      size = aligned_size;
      prot = prot;
      backer = backer_anon;
      file_data = 0;
      file_size = none;
    }

abbrev pub place : Option ℕ → List Mapping → ℕ → ℕ → ℕ → ℕ → ℕ → Option Added
place none mappings aligned_size size prot flags file_data = none
place (some vaddr) mappings aligned_size size prot flags file_data =
    let m = new_mapping vaddr aligned_size size prot flags file_data in
    some (record {
      mapping = m;
      mappings = insert_mapping m mappings;
      pages =
          if bit_set flags map_populate
          then page_addresses vaddr (aligned_size / pte_mem_size)
          else [];
    })

-- `none` is the null pointer. Allocation of the record is taken to succeed, as in the source.
unfoldable pub task_add_mapping : List Mapping → ℕ → ℕ → ℕ → ℕ → ℕ → Option Added
task_add_mapping mappings vaddr size prot flags file_data =
    if bit_set flags map_file && bit_set flags map_anonymous
    then none
    else place (get_mapping_vaddr mappings (align_to_pte vaddr) (align_to_pte size)) mappings
        (align_to_pte size) size prot flags file_data

unfoldable pub task_find_mapping : List Mapping → ℕ → Option Mapping
task_find_mapping [] vaddr = none
task_find_mapping (m ∷ ms) vaddr =
    let rest = task_find_mapping ms vaddr in
    if leb m.vaddr vaddr && ltb vaddr (add64 m.vaddr m.size)
    then some m
    else if ltb vaddr m.vaddr
    then none
    else rest

-- `task_install_page`: the part of a file that is copied to the page at `vaddr`, as the offset in
-- the file and the count of bytes.
abbrev pub file_part : Mapping → ℕ → Option ℕ → Option (ℕ × ℕ)
file_part m vaddr none = none
file_part m vaddr (some file_size) =
    let offset = (vaddr + word - m.vaddr) % word in
    if ltb offset file_size
    then some (
      offset,
      if leb file_size (add64 offset pte_mem_size) then file_size - offset else pte_mem_size,
    )
    else none

unfoldable pub page_source : Mapping → ℕ → Option (ℕ × ℕ)
page_source m vaddr = if m.backer == backer_file then file_part m vaddr m.file_size else none
