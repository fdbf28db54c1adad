-- ===== src/PageTable/Translation.antt =====
-- The translation of addresses by the tables of src/kernel/vmm/virtual_memory.c. The tables form a tree: each page that holds one belongs to one level and one part of the address space.
use first_os.Base.{
  ℕ, zero, suc, ◌+◌, ◌*◌, ◌/◌, ◌%◌, ◌^◌, ◌≤◌, ◌<◌, ◌≡◌, ◌⊎◌, refl, ap, sym, ◌∙◌, inl, inr, Bool,
  true, false, Option, none, some, arith, ◌==◌, if◌then◌else◌,
}
use mathlib.Core.Path.{subst}
use first_os.PageTable.{vaddr_from_pte, is_leaf_pte}
use first_os.PageTable.Walk.{Words, table_index, entry_addr}

-- The translation of Sv39 from the table of a level on: the entry of the page and its level, where the
-- entries on the way are valid.
unfoldable pub sv39 : ℕ → Words → ℕ → ℕ → ℕ → Option (ℕ × ℕ)
sv39 offset words zero table vaddr =
    let pte = words (entry_addr table 0 vaddr) in
    if pte % 2 == 0 then none else if is_leaf_pte pte then some (pte, 0) else none
sv39 offset words (suc level) table vaddr =
    let pte = words (entry_addr table (suc level) vaddr) in
    let below = sv39 offset words level (vaddr_from_pte offset pte) vaddr in
    if pte % 2 == 0 then none else if is_leaf_pte pte then some (pte, suc level) else below

-- The number of the page of a level that an address is in.
abbrev pub page_of : ℕ → ℕ → ℕ
page_of level vaddr = vaddr % 2 ^ 39 / 2 ^ (12 + 9 * level)

pub page_of-table_index :
    (level vaddr : ℕ)
    → level ≤ 2
    → page_of level vaddr ≡ page_of (suc level) vaddr * 512 + table_index level vaddr
page_of-table_index zero vaddr h = omega arith
page_of-table_index (suc zero) vaddr h = omega arith
page_of-table_index (suc (suc zero)) vaddr h = omega arith
page_of-table_index (suc (suc (suc level))) vaddr h = absurd (omega arith)

pub same_entry :
    (p q i j : ℕ)
    → p % 4096 ≡ 0
    → q % 4096 ≡ 0
    → i < 512
    → j < 512
    → p + 8 * i ≡ q + 8 * j
    → (p ≡ q) × (i ≡ j)
same_entry p q i j hp hq hi hj e = (omega arith, omega arith)

-- Which level and which part of the address space the table in a page is for.
abbrev pub Owner : Type 0
Owner = ℕ → Option (ℕ × ℕ)

abbrev pub Valid : ℕ → Bool → Type 0
Valid pte leaf = (pte % 2 ≡ 1) × (is_leaf_pte pte ≡ leaf)

abbrev pub EntryFor : ℕ → Owner → ℕ → ℕ → ℕ → Type 0
EntryFor offset own pte level n =
    (pte ≡ 0)
    ⊎ (Valid pte true
        ⊎ (Valid pte false
            × ((below : ℕ) × (level ≡ suc below)
                × (own (vaddr_from_pte offset pte) ≡ some (below, n)))))

abbrev pub IsOwned : ℕ → Words → Owner → Type 0
IsOwned offset words own =
    (q level k : ℕ)
    → own q ≡ some (level, k)
    → (q % 4096 ≡ 0)
      × ((j : ℕ) → j < 512 → EntryFor offset own (words (q + 8 * j)) level (k * 512 + j))

-- One step of the translation.
module _ (offset : ℕ) (words : Words) (table vaddr : ℕ) where
  pub sv39_absent :
      (level : ℕ)
      → words (entry_addr table level vaddr) ≡ 0
      → sv39 offset words level table vaddr ≡ none
  unfolding sv39
  sv39_absent zero e = rw e refl
  sv39_absent (suc level) e = rw e refl

  pub sv39_leaf :
      (level : ℕ)
      → Valid (words (entry_addr table level vaddr)) true
      → sv39 offset words level table vaddr ≡ some (words (entry_addr table level vaddr), level)
  unfolding sv39
  sv39_leaf zero (v, l) = rw v (rw l refl)
  sv39_leaf (suc level) (v, l) = rw v (rw l refl)

  pub sv39_below :
      (level : ℕ)
      → Valid (words (entry_addr table (suc level) vaddr)) false
      → sv39 offset words (suc level) table vaddr
        ≡ sv39 offset words level
            (vaddr_from_pte offset (words (entry_addr table (suc level) vaddr)))
            vaddr
  unfolding sv39
  sv39_below level (v, l) = rw v (rw l refl)

-- Two memories translate an address alike if they agree on the entries on its way, or the one has none
-- there and the other one translates it to nothing from there on.
abbrev pub Agree : ℕ → Words → Words → Owner → ℕ → Type 0
Agree offset words words' own vaddr =
    (level q : ℕ)
    → level ≤ 2
    → own q ≡ some (level, page_of (suc level) vaddr)
    → (words' (entry_addr q level vaddr) ≡ words (entry_addr q level vaddr))
      ⊎ ((words (entry_addr q level vaddr) ≡ 0) × (sv39 offset words' level q vaddr ≡ none))

-- The case where the entry is the same in both.
sv39_same :
    (level offset : ℕ) (words words' : Words) (table vaddr : ℕ)
    → words' (entry_addr table level vaddr) ≡ words (entry_addr table level vaddr)
    → Valid (words (entry_addr table level vaddr)) true
    → sv39 offset words' level table vaddr ≡ sv39 offset words level table vaddr
sv39_same level offset words words' table vaddr e v =
    sv39_leaf offset words' table vaddr level (subst (λ x. Valid x true) (sym e) v)
    ∙ ap (λ x. some (x, level)) e
    ∙ sym (sv39_leaf offset words table vaddr level v)

pub owned_below :
    (level vaddr offset pte : ℕ) (own : Owner)
    → suc level ≤ 2
    → own (vaddr_from_pte offset pte)
      ≡ some (level, page_of (suc (suc level)) vaddr * 512 + table_index (suc level) vaddr)
    → own (vaddr_from_pte offset pte) ≡ some (level, page_of (suc level) vaddr)
owned_below level vaddr offset pte own h o =
    o ∙ ap (λ n. some (level, n)) (sym (page_of-table_index (suc level) vaddr h))

pub sv39-Agree :
    (level offset : ℕ) (words words' : Words) (own : Owner) (table vaddr : ℕ)
    → IsOwned offset words own
    → Agree offset words words' own vaddr
    → level ≤ 2
    → own table ≡ some (level, page_of (suc level) vaddr)
    → sv39 offset words' level table vaddr ≡ sv39 offset words level table vaddr
sv39-Agree zero offset words words' own table vaddr owned agree h o = elim (agree zero table h o) [
  | inr (z, n) ↦ n ∙ sym (sv39_absent offset words table vaddr zero z)
  | inl e ↦ elim ((owned table zero _ o).1 (table_index zero vaddr) (omega arith)) [
    | inl z ↦
        sv39_absent offset words' table vaddr zero (e ∙ z)
        ∙ sym (sv39_absent offset words table vaddr zero z)
    | inr (inl v) ↦ sv39_same zero offset words words' table vaddr e v
    | inr (inr (v, (below, l, b))) ↦ absurd (omega arith)
  ]
]
sv39-Agree (suc level) offset words words' own table vaddr owned agree h o =
    elim (agree (suc level) table h o) [
      | inr (z, n) ↦ n ∙ sym (sv39_absent offset words table vaddr (suc level) z)
      | inl e ↦
          elim ((owned table (suc level) _ o).1 (table_index (suc level) vaddr) (omega arith)) [
            | inl z ↦
                sv39_absent offset words' table vaddr (suc level) (e ∙ z)
                ∙ sym (sv39_absent offset words table vaddr (suc level) z)
            | inr (inl v) ↦ sv39_same (suc level) offset words words' table vaddr e v
            | inr (inr (v, (below, l, b))) ↦
                let pte = words (entry_addr table (suc level) vaddr) in
                let same_level : below ≡ level = omega arith in
                sv39_below offset words' table vaddr level (subst (λ x. Valid x false) (sym e) v)
                ∙ ap (λ x. sv39 offset words' level (vaddr_from_pte offset x) vaddr) e
                ∙ sv39-Agree level offset words words' own (vaddr_from_pte offset pte) vaddr owned
                    agree (omega arith)
                    (owned_below level vaddr offset pte own h (
                      b
                      ∙ ap
                          (λ d. some (
                            d,
                            page_of (suc (suc level)) vaddr * 512 + table_index (suc level) vaddr,
                          ))
                          same_level))
                ∙ sym (sv39_below offset words table vaddr level v)
          ]
    ]
