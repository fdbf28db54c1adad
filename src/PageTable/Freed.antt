-- ===== src/PageTable/Freed.antt =====
-- What `virtual_memory_free_tables` of src/kernel/vmm/virtual_memory.c writes to and frees, when the tables form a
-- tree: only its tables, and so not the pages that the leaves lead to.
use first_os.Base.{ℕ, ◌+◌, ◌≤◌, ◌<◌, ◌≡◌, ◌⊎◌, some, List, ◌++◌, All}
use first_os.PageTable.Walk.{Freeing}
use first_os.PageTable.Translation.{Owner}

-- No table of the tree lies at the address.
abbrev pub Outside : Owner → ℕ → Type 0
Outside own a = (q level k : ℕ) → own q ≡ some (level, k) → (a < q) ⊎ (q + 4096 ≤ a)

abbrev pub IsTable : Owner → ℕ → Type 0
IsTable own q = (level : ℕ) × (k : ℕ) × (own q ≡ some (level, k))

-- Memory outside the tables is unchanged, and what has been freed are tables.
abbrev pub Frees : Owner → Freeing → Freeing → Type 0
Frees own f f' =
    ((a : ℕ) → Outside own a → f'.left a ≡ f.left a)
    × ((news : List ℕ) × (f'.freed ≡ news ++ f.freed) × All (IsTable own) news)
