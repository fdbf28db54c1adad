-- ===== src/PageTable/Tests.antt =====
-- The theorems on page tables at concrete pages.
use first_os.Base.{
  Option, [], ℕ, ◌+◌, ◌*◌, ◌/◌, ◌%◌, ◌<◌, ◌≡◌, refl, ap, sym, ◌∙◌, inl, inr, none, some, none-some,
  Bool-cases, arith, ◌==◌, if◌then◌else◌, ==→eq, ne→==,
}
use first_os.PageTable.{va2pa, make_pte, vaddr_from_pte}
use first_os.PageTable.Walk.{Freeing, Tables, pagewalk, virtual_memory_map}
use first_os.PageTable.Translation.{Owner, sv39_absent}
use first_os.PageTable.AddTable.{IsPage, make_pte-Valid}
use first_os.PageTable.Step.{TableTree, NotLarger}
use first_os.PageTable.Pagewalk.{Maps, pagewalk-Maps}
use first_os.PageTable.Range.{MapsRange, virtual_memory_map-MapsRange}
use first_os.PageTable.Entry.{vaddr_from_pte-make_pte}

vaddr_from_pte-make_pte_example :
    vaddr_from_pte 0xffffffc000000000 (make_pte (va2pa 0xffffffc000000000 0xffffffc080201000) 0xdf)
    ≡ 0xffffffc080201000
vaddr_from_pte-make_pte_example =
    vaddr_from_pte-make_pte 0xffffffc000000000 0xffffffc080201000 0xdf (omega arith) (omega arith)
      (omega arith) (omega arith) (omega arith)

abbrev offset : ℕ
offset = 0xffffffc000000000

abbrev pages : ℕ → ℕ
pages m = offset + 0x80300000 + m * 4096

abbrev pgd : ℕ
pgd = offset + 0x80201000

abbrev empty : Tables
empty = record { words = λ a. 0; allocated = 0 }

abbrev only_pgd : Owner
only_pgd q = if q == pgd then some (2, 0) else none

all_pages : (m : ℕ) → m < 16 → IsPage offset (pages m)
all_pages m h = (omega arith, omega arith, omega arith, omega arith, omega arith)

apart : (m n : ℕ) → m < 16 → n < 16 → pages m ≡ pages n → m ≡ n
apart m n h k e = omega arith

pgd_only : (q : ℕ) (x : ℕ × ℕ) → only_pgd q ≡ some x → q ≡ pgd
pgd_only q x e = elim (Bool-cases (q == pgd)) [
  | inl same ↦ ==→eq q pgd same
  | inr other ↦ none-some (sym (ap (λ c. if c then some (2, 0) else none) other) ∙ e)
]

empty_tree : TableTree offset pages 16 empty only_pgd
empty_tree = (
  λ q level k e. (ap (λ a. a % 4096) (pgd_only q (level, k) e), λ j h. inl refl),
  λ m h lt.
      ap (λ c. if c then some (2, 0) else none)
        (ne→== (pages m) pgd (λ (e : pages m ≡ pgd). omega arith)),
)

empty_NotLarger : (leaf_level vaddr : ℕ) → NotLarger offset empty.words 2 pgd leaf_level vaddr
empty_NotLarger leaf_level vaddr pte l e =
    none-some (sym (sv39_absent offset empty.words pgd vaddr 2 refl) ∙ e)

pagewalk-Maps_example :
    Maps offset pages 16 empty
      (pagewalk offset pages pgd 0x10000 0x80500000 0xdf 0 empty)
      pgd
      0x10000
      0
      (make_pte 0x80500000 0xdf)
pagewalk-Maps_example =
    pagewalk-Maps offset pages 16 all_pages apart empty only_pgd pgd 0x10000 0x80500000 0xdf 0
      empty_tree refl (omega arith) (omega arith)
      (make_pte-Valid 0x80500000 0xdf (omega arith) (omega arith) (omega arith)
        (λ e. absurd (omega arith)))
      (empty_NotLarger 0 0x10000)

virtual_memory_map-MapsRange_example :
    MapsRange offset pages 16 empty
      (virtual_memory_map offset pages pgd 0x10000 0x80500000 0x3000 0xdf empty)
      pgd
      0x10000
      0x80500000
      0xdf
      3
virtual_memory_map-MapsRange_example =
    virtual_memory_map-MapsRange offset pages 16 all_pages apart pgd 0xdf
      (omega arith, omega arith, λ (e : 0xdf / 2 % 8 ≡ 0). absurd (omega arith)) empty only_pgd
      0x10000 0x80500000 0x3000 empty_tree refl (omega arith) (omega arith) (omega arith)
      (omega arith) (omega arith) (λ k h. empty_NotLarger 0 (0x10000 + k * 4096))

-- A table at 0x1000 whose first entry leads to one at 0x2000, and the first entry of this to the page 0x5000.
abbrev two_tables : Freeing
two_tables = record {
  left = λ a. if a == 0x1000 then 0x801 else if a == 0x2000 then 0x14df else 0;
  freed = [];
}

abbrev two_owned : Owner
two_owned q = if q == 0x1000 then some (1, 0) else if q == 0x2000 then some (0, 0) else none

abbrev pair_or : ℕ × ℕ → Option (ℕ × ℕ) → ℕ × ℕ
pair_or p none = p
pair_or p (some q) = q
