-- ===== src/Mappings/Mmap.antt =====
-- `_syscall_mmap` of src/kernel/interrupts/syscalls.c and `task_create_user_mappings` of
-- src/kernel/task/task_mapping.c: the callers that add mappings.
use first_os.Base.{
  ℕ, ◌-◌, ◌%◌, ◌^◌, ◌≤◌, ◌<◌, ◌≡◌, refl, ◌⊎◌, Bool, false, ◌||◌, Option, none, some, List, arith,
  ◌==◌, if◌then◌else◌,
}
use first_os.Mappings.{
  Mapping, Added, word, pte_mem_size, user_code_vaddr, map_file, map_anonymous, get_mapping_prot,
  task_add_mapping,
}
use first_os.Mappings.Layout.{IsLaid}
use first_os.Mappings.Add.{AddedTo, task_add_mapping-IsLaid}

-- Where no mapping is added, the interrupts stay disabled.
abbrev pub mapped : Bool → List Mapping → Option Added → ℕ × List Mapping × Bool
mapped interrupts mappings none = (word - 1, mappings, false)
mapped interrupts mappings (some a) = (a.mapping.vaddr, a.mappings, interrupts)

-- The result for the caller, the mappings of the task, and whether interrupts are enabled, which is
-- also the first argument.
unfoldable pub syscall_mmap : Bool → List Mapping → ℕ → ℕ → ℕ → ℕ → ℕ × List Mapping × Bool
syscall_mmap interrupts mappings vaddr size prot_arg flags_arg =
    let user_prot = prot_arg % 2 ^ 32 in
    if (size == 0) || (user_prot == 0)
    then (word - 1, mappings, interrupts)
    else mapped interrupts mappings
        (task_add_mapping mappings vaddr size (get_mapping_prot user_prot) (flags_arg % 2 ^ 32) 0)

abbrev pub mappings_or : List Mapping → Option Added → List Mapping
mappings_or mappings none = mappings
mappings_or mappings (some a) = a.mappings

-- The mappings of a new program, without the page of the signal trampoline: the code, the stack and
-- the signal stack. A mapping that cannot be added is left out.
unfoldable pub task_create_user_mappings : List Mapping → ℕ → ℕ → List Mapping
task_create_user_mappings ms file_data file_size =
    let with_code =
      mappings_or ms (task_add_mapping ms user_code_vaddr file_size 0xdb map_file file_data) in
    let with_stack =
      mappings_or with_code
        (task_add_mapping with_code 0x003000000000 16384 0xd7 map_anonymous 0) in
    mappings_or with_stack (task_add_mapping with_stack 0x003800000000 4096 0xd7 map_anonymous 0)

-- What `mmap` leaves: the error and the old mappings, with interrupts as they were where the arguments
-- are refused and disabled where there is no room, or a mapping that was added.
abbrev pub Mmapped : Bool → List Mapping → ℕ → Bool → ℕ × List Mapping × Bool → Type 0
Mmapped refused ms size on (result, ms', on') =
    ((result ≡ word - 1) × (ms' ≡ ms) × (on' ≡ (if refused then on else false)))
    ⊎ ((refused ≡ false)
        × ((a : Added) × AddedTo ms size a
            × (result ≡ a.mapping.vaddr)
            × (ms' ≡ a.mappings)
            × (on' ≡ on)))

mappings_or-IsLaid :
    (ms : List Mapping) (vaddr size prot flags file_data : ℕ) (o : Option Added)
    → task_add_mapping ms vaddr size prot flags file_data ≡ o
    → IsLaid ms
    → 0 < size
    → size ≤ word - pte_mem_size
    → IsLaid (mappings_or ms o)
mappings_or-IsLaid ms vaddr size prot flags file_data none e laid pos small = laid
mappings_or-IsLaid ms vaddr size prot flags file_data (some a) e laid pos small =
    (task_add_mapping-IsLaid ms vaddr size prot flags file_data a laid pos small e).0

-- The mappings of a new program, for a file that is not empty and whose size does not wrap, lie in
-- order below the kernel and apart from each other, when those that the task had before do.
task_create_user_mappings-IsLaid :
    (ms : List Mapping) (file_data file_size : ℕ)
    → IsLaid ms
    → 0 < file_size
    → file_size ≤ word - pte_mem_size
    → IsLaid (task_create_user_mappings ms file_data file_size)
unfolding task_create_user_mappings
task_create_user_mappings-IsLaid ms file_data file_size laid pos small =
    let code =
      mappings_or-IsLaid ms user_code_vaddr file_size 0xdb map_file file_data _ refl laid pos
        small in
    let stack =
      mappings_or-IsLaid _ 0x003000000000 16384 0xd7 map_anonymous 0 _ refl code (omega arith)
        (omega arith) in
    mappings_or-IsLaid _ 0x003800000000 4096 0xd7 map_anonymous 0 _ refl stack (omega arith)
      (omega arith)
