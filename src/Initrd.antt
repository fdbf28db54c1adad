-- ===== src/Initrd.antt =====
-- src/kernel/initrd/initrd_parser.c and initrd.c: the files of the initial ramdisk, an archive of cpio's new
-- format in memory. Memory is that of the device tree; sums of addresses are taken not to wrap.
pub mod Archive
mod Tests
use first_os.Base.{
  ℕ, zero, suc, ◌+◌, Bool, true, false, not, ◌||◌, Option, none, some, List, [], ◌∷◌, ◌==◌,
  if◌then◌else◌, ◌>>=◌,
}
use first_os.Converters.{xtoi32, be64_to_cpu}
use first_os.Strings.{streqln}
use first_os.PageTable.{pa2va}
use first_os.Fdt.{Bytes, align4}
use first_os.Fdt.Lookup.{string_at, read64, fdt_node_addr_by_path, fdt_property_by_name}

-- `sizeof(struct cpio_newc_header)`, and the places of two of its fields
abbrev pub header_size : ℕ
header_size = 110

abbrev pub filesize_at : ℕ
filesize_at = 54

abbrev pub namesize_at : ℕ
namesize_at = 94

-- "070701"
abbrev pub magic : List ℕ
magic = 48 ∷ 55 ∷ 48 ∷ 55 ∷ 48 ∷ 49 ∷ []

-- "TRAILER!!!"
abbrev pub trailer : List ℕ
trailer = 84 ∷ 82 ∷ 65 ∷ 73 ∷ 76 ∷ 69 ∷ 82 ∷ 33 ∷ 33 ∷ 33 ∷ []

unfoldable pub chars_at : ℕ → Bytes → ℕ → List ℕ
chars_at zero m a = []
chars_at (suc n) m a = m a ∷ chars_at n m (a + 1)

unfoldable pub initrd_check_magic : Bytes → ℕ → Bool
initrd_check_magic m file_addr = streqln (string_at 6 m file_addr) magic 6

-- `xtoi32` of a field of eight characters
unfoldable pub field : ℕ → Bytes → ℕ → ℕ
field place m file_addr = xtoi32 (chars_at 8 m (file_addr + place))

-- The address of the path and its size, with the NUL; `none` is the null pointer.
unfoldable pub initrd_get_filepath : Bytes → ℕ → Option (ℕ × ℕ)
initrd_get_filepath m file_addr =
    if initrd_check_magic m file_addr
    then some (file_addr + header_size, field namesize_at m file_addr)
    else none

-- The address and the size of the data.
unfoldable pub initrd_get_filedata : Bytes → ℕ → ℕ × ℕ
initrd_get_filedata m file_addr =
    if initrd_check_magic m file_addr
    then (
      align4 (file_addr + header_size + field namesize_at m file_addr),
      field filesize_at m file_addr,
    )
    else (0, 0)

-- The test for the end of the archive, on the path behind a file.
unfoldable pub ends_archive : Bytes → Option (ℕ × ℕ) → Bool
ends_archive m none = true
ends_archive m (some (name, size)) = streqln (string_at size m name) trailer size

unfoldable pub initrd_get_next_file_addr : Bytes → ℕ → ℕ
initrd_get_next_file_addr m file_addr =
    let path_end = align4 (file_addr + header_size + field namesize_at m file_addr) in
    let next_addr = align4 (path_end + field filesize_at m file_addr) in
    if initrd_check_magic m file_addr
    then (if ends_archive m (initrd_get_filepath m next_addr) then 0 else next_addr)
    else 0

-- The test of one file against the path that is looked for. A file without magic does not come up.
unfoldable pub is_file : Bytes → List ℕ → Option (ℕ × ℕ) → Bool
is_file m filepath none = false
is_file m filepath (some (name, size)) = streqln filepath (string_at size m name) size

unfoldable pub file_loop : ℕ → Bytes → List ℕ → ℕ → Option ℕ
file_loop zero m filepath file_addr = none
file_loop (suc fuel) m filepath file_addr =
    let rest = file_loop fuel m filepath (initrd_get_next_file_addr m file_addr) in
    if file_addr == 0
    then some 0
    else if is_file m filepath (initrd_get_filepath m file_addr)
    then some file_addr
    else rest

unfoldable pub initrd_get_file_addr : ℕ → Bytes → ℕ → List ℕ → Option ℕ
initrd_get_file_addr fuel m initrd_start_addr filepath =
    let found = file_loop fuel m filepath initrd_start_addr in
    if initrd_check_magic m initrd_start_addr then found else some 0

-- "/chosen", "linux,initrd-start" and "linux,initrd-end"
abbrev pub chosen_path : List ℕ
chosen_path = 47 ∷ 99 ∷ 104 ∷ 111 ∷ 115 ∷ 101 ∷ 110 ∷ []

abbrev pub start_name : List ℕ
start_name =
    108 ∷ 105 ∷ 110 ∷ 117 ∷ 120 ∷ 44 ∷ 105 ∷ 110 ∷ 105 ∷ 116 ∷ 114 ∷ 100 ∷ 45 ∷ 115 ∷ 116 ∷ 97 ∷ 114
    ∷ 116 ∷ []

abbrev pub end_name : List ℕ
end_name =
    108 ∷ 105 ∷ 110 ∷ 117 ∷ 120 ∷ 44 ∷ 105 ∷ 110 ∷ 105 ∷ 116 ∷ 114 ∷ 100 ∷ 45 ∷ 101 ∷ 110 ∷ 100 ∷ []

-- `initrd_setup`: the return value, and the new start and end where both properties are there.
unfoldable pub initrd_setup : ℕ → Bytes → ℕ → ℕ → Option (ℕ × Option (ℕ × ℕ))
initrd_setup fuel m virtual_kernel_offset fdt_addr =
    fdt_node_addr_by_path fuel m fdt_addr chosen_path >>= λ chosen_node.
    fdt_property_by_name fuel m fdt_addr chosen_node start_name >>= λ start_prop.
    fdt_property_by_name fuel m fdt_addr chosen_node end_name >>= λ end_prop.
    let start = pa2va virtual_kernel_offset (be64_to_cpu (read64 m (start_prop + 8))) in
    let end = pa2va virtual_kernel_offset (be64_to_cpu (read64 m (end_prop + 8))) in
    some (
      if (start_prop == 0) || (end_prop == 0)
      then (0, none)
      else (if initrd_check_magic m start then 1 else 0, some (start, end)))
