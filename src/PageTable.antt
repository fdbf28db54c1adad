-- ===== src/PageTable.antt =====
-- src/kernel/vmm/virtual_memory.c and definitions.h: page table entries and addresses of Sv39. The
-- offset of the kernel's mapping of physical memory is an argument.
pub mod Entry
pub mod Walk
pub mod Translation
pub mod AddTable
pub mod Step
pub mod Pagewalk
pub mod Range
pub mod Free
pub mod Freed
mod Tests
use first_os.Base.{ℕ, ◌+◌, ◌-◌, ◌*◌, ◌/◌, ◌%◌, ◌^◌, Bool, not, ◌==◌, bit_and, bit_or}

abbrev pub word : ℕ
word = 2 ^ 64

unfoldable pub va2pa : ℕ → ℕ → ℕ
va2pa virtual_kernel_offset virtual_addr = (virtual_addr + word - virtual_kernel_offset) % word

unfoldable pub pa2va : ℕ → ℕ → ℕ
pa2va virtual_kernel_offset physical_addr = (physical_addr + virtual_kernel_offset) % word

-- `prot` is a `uint8_t`.
unfoldable pub make_pte : ℕ → ℕ → ℕ
make_pte paddr prot = bit_or (paddr / 2 ^ 12 * 2 ^ 10 % word) (prot % 2 ^ 8)

abbrev pub pte_ppn_mask : ℕ
pte_ppn_mask = (2 ^ 44 - 1) * 2 ^ 10

unfoldable pub vaddr_from_pte : ℕ → ℕ → ℕ
vaddr_from_pte virtual_kernel_offset pte =
    pa2va virtual_kernel_offset (bit_and pte pte_ppn_mask / 2 ^ 10 * 2 ^ 12 % word)

-- `PTE_READ | PTE_WRITE | PTE_EXECUTE` is 14.
unfoldable pub is_leaf_pte : ℕ → Bool
is_leaf_pte pte = not (bit_and pte 14 == 0)

unfoldable pub level_span : ℕ → ℕ
level_span level = 2 ^ (12 + 9 * level) % word

unfoldable pub get_satp_value : ℕ → ℕ
get_satp_value pgd_paddr = bit_or (8 * 2 ^ 60) (pgd_paddr / 2 ^ 12)
