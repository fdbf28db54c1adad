-- ===== src/PageTable/Step.antt =====
-- The steps of `pagewalk` in src/kernel/vmm/virtual_memory.c: the table of the next level, and the write of
-- the entry.
use first_os.Base.{
  ℕ, suc, ◌+◌, ◌*◌, ◌%◌, ◌≤◌, ◌<◌, ◌≡◌, ◌≢◌, refl, ap, ap₂, sym, ◌∙◌, inl, inr, true, false, some,
  Bool-cases, arith, ◌==◌, ne→==, ==→eq, ==→ne,
}
use mathlib.Core.Path.{subst}
use first_os.PageTable.{make_pte, vaddr_from_pte, is_leaf_pte}
use first_os.PageTable.Walk.{
  Words, Tables, write, table_index, entry_addr, add_table, ensure_table, map_entry,
}
use first_os.PageTable.Translation.{
  sv39, page_of, page_of-table_index, same_entry, Owner, Valid, EntryFor, IsOwned, sv39_leaf,
  sv39-Agree, Agree,
}
use first_os.PageTable.AddTable.{
  IsPage, Fresh, Grows, write_same, write_ne, claimed, claimed-Grows, claimed-page,
  add_table-IsOwned, add_table-Fresh, add_table-Agree, entry_new, entries_kept, table_pte_lem,
  level_of, number_of,
}

-- The tables in memory after a step that may add some.
abbrev pub TableTree : ℕ → (ℕ → ℕ) → ℕ → Tables → Owner → Type 0
TableTree offset pages limit t own = IsOwned offset t.words own × Fresh pages limit t.allocated own

-- The entry is not that of a leaf, at the level above `level`.
abbrev pub Ensured : ℕ → (ℕ → ℕ) → ℕ → Tables → Tables → Owner → ℕ → ℕ → ℕ → Type 0
Ensured offset pages limit t t' own table level vaddr =
    (own' : Owner) × Grows own own'
    × TableTree offset pages limit t' own'
    × (t'.allocated ≤ suc t.allocated)
    × Valid (t'.words (entry_addr table (suc level) vaddr)) false
    × (own' (vaddr_from_pte offset (t'.words (entry_addr table (suc level) vaddr)))
        ≡ some (level, page_of (suc level) vaddr))
    × ((w : ℕ) → Agree offset t.words t'.words own w)
    × ((q x n i : ℕ)
        → own q ≡ some (x, n)
        → i < 512
        → q + 8 * i ≢ entry_addr table (suc level) vaddr
        → t'.words (q + 8 * i) ≡ t.words (q + 8 * i))

-- What `pagewalk` has done from a level on: the page of `vaddr` is mapped by `pte`, all pages else are
-- translated as before, and the tables above are as before but for the entry on the way.
abbrev pub Walked : ℕ → (ℕ → ℕ) → ℕ → Tables → Tables → Owner → ℕ → ℕ → ℕ → ℕ → ℕ → Type 0
Walked offset pages limit t t' own table level leaf_level vaddr pte =
    (own' : Owner) × Grows own own'
    × TableTree offset pages limit t' own'
    × (t'.allocated ≤ t.allocated + level)
    × (sv39 offset t'.words level table vaddr ≡ some (pte, leaf_level))
    × ((w q x : ℕ)
        → page_of leaf_level w ≢ page_of leaf_level vaddr
        → x ≤ 2
        → own q ≡ some (x, page_of (suc x) w)
        → sv39 offset t'.words x q w ≡ sv39 offset t.words x q w)
    × ((q x n i : ℕ)
        → own q ≡ some (x, n)
        → i < 512
        → level < x
        → t'.words (q + 8 * i) ≡ t.words (q + 8 * i))

-- No larger page than one of `leaf_level` maps the address.
abbrev pub NotLarger : ℕ → Words → ℕ → ℕ → ℕ → ℕ → Type 0
NotLarger offset words level table leaf_level vaddr =
    (pte l : ℕ) → sv39 offset words level table vaddr ≡ some (pte, l) → l ≤ leaf_level

-- An entry is on the way of the addresses of one page.
pub same_page :
    (own : Owner) (table level vaddr w x q : ℕ)
    → level ≤ 2
    → table % 4096 ≡ 0
    → q % 4096 ≡ 0
    → own table ≡ some (level, page_of (suc level) vaddr)
    → own q ≡ some (x, page_of (suc x) w)
    → entry_addr q x w ≡ entry_addr table level vaddr
    → page_of level w ≡ page_of level vaddr
same_page own table level vaddr w x q h table_page q_page o o_q e =
    let (same_table, same_index) =
      same_entry q table (table_index x w) (table_index level vaddr) q_page table_page (omega arith)
        (omega arith) e in
    let owner : some (x, page_of (suc x) w) ≡ some (level, page_of (suc level) vaddr) =
      sym o_q ∙ ap own same_table ∙ o in
    let same_level : x ≡ level = ap level_of owner in
    page_of-table_index level w h
    ∙ ap₂ (λ a b. a * 512 + b) (ap (λ y. page_of (suc y) w) (sym same_level) ∙ ap number_of owner)
        (ap (λ y. table_index y w) (sym same_level) ∙ same_index)
    ∙ sym (page_of-table_index level vaddr h)

one_more :
    (offset : ℕ) (pages : ℕ → ℕ) (e : ℕ) (t : Tables)
    → (add_table offset pages e t).allocated ≤ suc t.allocated
unfolding add_table
one_more offset pages e t = omega arith

module _ (offset : ℕ) (pages : ℕ → ℕ) (limit : ℕ)
    (all_pages : (m : ℕ) → m < limit → IsPage offset (pages m))
    (apart : (m n : ℕ) → m < limit → n < limit → pages m ≡ pages n → m ≡ n) where
  pub ensure_table-Ensured :
      (t : Tables) (own : Owner) (table level vaddr : ℕ)
      → TableTree offset pages limit t own
      → own table ≡ some (suc level, page_of (suc (suc level)) vaddr)
      → suc level ≤ 2
      → t.allocated < limit
      → is_leaf_pte (t.words (entry_addr table (suc level) vaddr)) ≡ false
      → Ensured offset pages limit t
          (ensure_table offset pages (entry_addr table (suc level) vaddr) t)
          own
          table
          level
          vaddr
  unfolding ensure_table
  ensure_table-Ensured t own table level vaddr (owned, fresh) o h room small =
      let j = table_index (suc level) vaddr in
      let e = entry_addr table (suc level) vaddr in
      let number = sym (page_of-table_index (suc level) vaddr h) in
      elim ((owned table (suc level) _ o).1 j (omega arith)) [
        | inr (inl v) ↦ absurd (let contra : true ≡ false = sym v.1 ∙ small in cc)
        | inr (inr (v, (below, same, b))) ↦
            let nonzero : t.words e ≢ 0 = λ z. absurd (omega (arith, v.0)) in
            let kept : ensure_table offset pages e t ≡ t =
              rw (ne→== (t.words e) 0 nonzero) (rw small refl) in
            let same_level : below ≡ level = omega arith in
            subst (λ t'. Ensured offset pages limit t t' own table level vaddr) (sym kept)
              (
                own,
                (λ q x n o_q. o_q),
                (owned, fresh),
                omega arith,
                v,
                b ∙ ap₂ (λ d n. some (d, n)) same_level number,
                (λ w x q le o_q. inl refl),
                λ q x n i o_q lt ne. refl,
              )
        | inl z ↦
            let added : ensure_table offset pages e t ≡ add_table offset pages e t = rw z refl in
            let k = page_of (suc (suc level)) vaddr in
            let word =
              entry_new offset pages limit all_pages apart t room own table level k j owned fresh o
                (omega arith) z in
            let (valid, leads) =
              table_pte_lem offset (pages t.allocated) (all_pages t.allocated room) in
            let own' =
              claimed offset pages limit all_pages apart t room own table level k j owned fresh o
                (omega arith) z in
            subst (λ t'. Ensured offset pages limit t t' own table level vaddr) (sym added)
              (
                own',
                claimed-Grows offset pages limit all_pages apart t room own table level k j owned
                    fresh o (omega arith) z,
                (
                  add_table-IsOwned offset pages limit all_pages apart t room own table level k j
                      owned fresh o (omega arith) z,
                  add_table-Fresh offset pages limit all_pages apart t room own table level k j
                      owned fresh o (omega arith) z,
                ),
                one_more offset pages e t,
                subst (λ w. Valid w false) (sym word) valid,
                ap own' (ap (vaddr_from_pte offset) word ∙ leads)
                    ∙ claimed-page offset pages limit all_pages apart t room own table level k j
                        owned fresh o (omega arith) z
                    ∙ ap (λ n. some (level, n)) number,
                add_table-Agree offset pages limit all_pages apart t room own table level k j owned
                    fresh o (omega arith) z,
                entries_kept offset pages limit all_pages apart t room own table level k j owned
                    fresh o (omega arith) z,
              )
      ]

  pub map_entry-Walked :
      (t : Tables) (own : Owner) (table leaf_level vaddr paddr prot : ℕ)
      → TableTree offset pages limit t own
      → own table ≡ some (leaf_level, page_of (suc leaf_level) vaddr)
      → leaf_level ≤ 2
      → Valid (make_pte paddr prot) true
      → Walked offset pages limit t
          (map_entry offset pages table leaf_level vaddr paddr prot t)
          own
          table
          leaf_level
          leaf_level
          vaddr
          (make_pte paddr prot)
  unfolding map_entry
  map_entry-Walked t own table leaf_level vaddr paddr prot (owned, fresh) o h valid =
      let e = entry_addr table leaf_level vaddr in
      let pte = make_pte paddr prot in
      let after = write t.words e pte in
      (
        own,
        (λ q x n o_q. o_q),
        (
          (λ q x n o_q. (
            (owned q x n o_q).0,
            λ i lt. elim (Bool-cases (q + 8 * i == e)) [
              | inl at ↦ inr (
                  inl (
                    subst (λ w. Valid w true)
                      (sym (ap after (==→eq _ _ at) ∙ write_same t.words e pte)) valid))
              | inr away ↦
                  subst (λ w. EntryFor offset own w x (n * 512 + i))
                    (sym (write_ne t.words e pte (q + 8 * i) (==→ne _ _ away)))
                    ((owned q x n o_q).1 i lt)
            ],
          )),
          fresh,
        ),
        omega arith,
        sv39_leaf offset after table vaddr leaf_level
              (subst (λ w. Valid w true) (sym (write_same t.words e pte)) valid)
            ∙ ap (λ w. some (w, leaf_level)) (write_same t.words e pte),
        (λ w q x differs le o_q.
            sv39-Agree x offset t.words after own q w owned
              (λ y r le_r o_r. elim (Bool-cases (entry_addr r y w == e)) [
                | inl at ↦ absurd (
                    differs (
                      same_page own table leaf_level vaddr w y r h (owned table leaf_level _ o).0
                        (owned r y _ o_r).0 o o_r (==→eq _ _ at)))
                | inr away ↦ inl (write_ne t.words e pte (entry_addr r y w) (==→ne _ _ away))
              ])
              le o_q),
        λ q x n i o_q lt above. write_ne t.words e pte (q + 8 * i) (λ same.
            let same_table =
              (same_entry q table i (table_index leaf_level vaddr) (owned q x n o_q).0
                (owned table leaf_level _ o).0 lt (omega arith) same).0 in
            let same_level : x ≡ leaf_level = ap level_of (sym o_q ∙ ap own same_table ∙ o) in
            absurd (omega arith)),
      )
