-- ===== src/PageTable/Entry.antt =====
-- The address in a page table entry of src/kernel/vmm/definitions.h and virtual_memory.c.
use first_os.Base.{
  ℕ, ◌+◌, ◌-◌, ◌*◌, ◌/◌, ◌%◌, ◌^◌, ◌≤◌, ◌<◌, ◌≡◌, ap, ap₂, ◌∙◌, arith, bit_and, bit_or,
}
use first_os.Base.Bits.{and_mask, and_field, or_field}
use first_os.PageTable.{word, va2pa, pa2va, make_pte, pte_ppn_mask, vaddr_from_pte}

pub make_pte-sum :
    (paddr prot : ℕ)
    → paddr < 2 ^ 56
    → prot < 2 ^ 8
    → make_pte paddr prot ≡ paddr / 2 ^ 12 * 2 ^ 10 + prot
unfolding make_pte
make_pte-sum paddr prot h k =
    ap₂ bit_or (omega arith) (omega arith) ∙ or_field 10 (paddr / 2 ^ 12) prot (omega arith)

ppn : (pte : ℕ) → bit_and pte pte_ppn_mask ≡ pte / 2 ^ 10 % 2 ^ 44 * 2 ^ 10
ppn pte = and_field 10 (2 ^ 44 - 1) pte ∙ ap (λ t. t * 2 ^ 10) (and_mask 44 (pte / 2 ^ 10))

-- An entry that `make_pte` makes for a page of the kernel leads back to the page's virtual address,
-- whatever its eight protection bits: for a page aligned physical address of 56 bits.
pub vaddr_from_pte-make_pte :
    (offset vaddr prot : ℕ)
    → offset ≤ vaddr
    → vaddr < word
    → vaddr - offset < 2 ^ 56
    → (vaddr - offset) % 2 ^ 12 ≡ 0
    → prot < 2 ^ 8
    → vaddr_from_pte offset (make_pte (va2pa offset vaddr) prot) ≡ vaddr
unfolding vaddr_from_pte va2pa pa2va
vaddr_from_pte-make_pte offset vaddr prot below in_word small aligned bits =
    let pa : va2pa offset vaddr ≡ vaddr - offset = omega arith in
    let pte = make_pte (va2pa offset vaddr) prot in
    let sum = make_pte-sum (va2pa offset vaddr) prot (omega arith) bits in
    omega (arith, ppn pte, sum, pa)
