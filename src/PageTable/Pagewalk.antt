-- ===== src/PageTable/Pagewalk.antt =====
-- `pagewalk` of src/kernel/vmm/virtual_memory.c maps one page and leaves the translation of the others.
use first_os.Base.{
  ◌+◌, ℕ, zero, suc, ◌≤◌, ◌<◌, ◌≡◌, ◌≢◌, refl, ap, sym, ◌∙◌, inl, inr, true, false, some,
  Bool-cases, arith, ltb, ltb→lt, ltb→ge,
}
use mathlib.Core.Path.{subst}
use first_os.PageTable.{make_pte, vaddr_from_pte, is_leaf_pte}
use first_os.PageTable.Walk.{
  Tables, table_index, entry_addr, ensure_table, map_entry, pagewalk_loop, pagewalk,
}
use first_os.PageTable.Translation.{
  sv39, page_of, same_entry, Owner, Valid, sv39_leaf, sv39_below, sv39-Agree,
}
use first_os.PageTable.AddTable.{IsPage, level_of}
use first_os.PageTable.Step.{
  TableTree, Ensured, Walked, NotLarger, ensure_table-Ensured, map_entry-Walked,
}

-- The page of the address is mapped by `pte`, all other addresses are translated as before, and the tables
-- form a tree from the same root.
abbrev pub Maps : ℕ → (ℕ → ℕ) → ℕ → Tables → Tables → ℕ → ℕ → ℕ → ℕ → Type 0
Maps offset pages limit t t' pgd vaddr leaf_level pte =
    (own' : Owner) × TableTree offset pages limit t' own'
    × (t'.allocated ≤ t.allocated + 2)
    × (own' pgd ≡ some (2, 0))
    × (sv39 offset t'.words 2 pgd vaddr ≡ some (pte, leaf_level))
    × ((w : ℕ)
        → page_of leaf_level w ≢ page_of leaf_level vaddr
        → sv39 offset t'.words 2 pgd w ≡ sv39 offset t.words 2 pgd w)

module _ (offset : ℕ) (pages : ℕ → ℕ) (limit : ℕ)
    (all_pages : (m : ℕ) → m < limit → IsPage offset (pages m))
    (apart : (m n : ℕ) → m < limit → n < limit → pages m ≡ pages n → m ≡ n) where
  not_leaf :
      (t : Tables) (own : Owner) (table level leaf_level vaddr : ℕ)
      → TableTree offset pages limit t own
      → own table ≡ some (suc level, page_of (suc (suc level)) vaddr)
      → leaf_level < suc level
      → NotLarger offset t.words (suc level) table leaf_level vaddr
      → is_leaf_pte (t.words (entry_addr table (suc level) vaddr)) ≡ false
  unfolding is_leaf_pte
  not_leaf t own table level leaf_level vaddr (owned, fresh) o above smaller =
      elim ((owned table (suc level) _ o).1 (table_index (suc level) vaddr) (omega arith)) [
        | inl z ↦ ap is_leaf_pte z
        | inr (inl v) ↦
            let le = smaller _ (suc level) (sv39_leaf offset t.words table vaddr (suc level) v) in
            absurd (omega arith)
        | inr (inr (v, b)) ↦ v.1
      ]

  -- The step down from a table, whatever the rest of the walk does below it.
  deeper-Walked :
      (t t' t2 : Tables) (own : Owner) (table level leaf_level vaddr pte : ℕ)
      → TableTree offset pages limit t own
      → own table ≡ some (suc level, page_of (suc (suc level)) vaddr)
      → (e : Ensured offset pages limit t t' own table level vaddr)
      → Walked offset pages limit t' t2 e.0
          (vaddr_from_pte offset (t'.words (entry_addr table (suc level) vaddr)))
          level
          leaf_level
          vaddr
          pte
      → Walked offset pages limit t t2 own table (suc level) leaf_level vaddr pte
  deeper-Walked t t' t2 own table level leaf_level vaddr pte (owned, fresh) o
        (own1, grows1, tree1, one, valid, b, agree, kept)
        (own2, grows2, tree2, few, mapped, others, above) =
      let e = entry_addr table (suc level) vaddr in
      let same : t2.words e ≡ t'.words e =
        above table (suc level) _ (table_index (suc level) vaddr) (grows1 table _ _ o) (omega arith)
          (omega arith) in
      (
        own2,
        (λ q x n o_q. grows2 q x n (grows1 q x n o_q)),
        tree2,
        omega arith,
        sv39_below offset t2.words table vaddr level (subst (λ w. Valid w false) (sym same) valid)
            ∙ ap (λ w. sv39 offset t2.words level (vaddr_from_pte offset w) vaddr) same
            ∙ mapped,
        (λ w q x differs le o_q.
            others w q x differs le (grows1 q x _ o_q)
            ∙ sv39-Agree x offset t.words t'.words own q w owned (agree w) le o_q),
        λ q x n i o_q lt higher.
            above q x n i (grows1 q x n o_q) lt (omega arith)
            ∙ kept q x n i o_q lt (λ at.
              let same_table =
                (same_entry q table i (table_index (suc level) vaddr) (owned q x n o_q).0
                  (owned table (suc level) _ o).0 lt (omega arith) at).0 in
              let same_level : x ≡ suc level = ap level_of (sym o_q ∙ ap own same_table ∙ o) in
              absurd (omega arith)),
      )

  pub pagewalk_loop-Walked :
      (level leaf_level : ℕ) (t : Tables) (own : Owner) (table vaddr paddr prot : ℕ)
      → TableTree offset pages limit t own
      → own table ≡ some (level, page_of (suc level) vaddr)
      → leaf_level ≤ level
      → t.allocated + level ≤ limit
      → level ≤ 2
      → Valid (make_pte paddr prot) true
      → NotLarger offset t.words level table leaf_level vaddr
      → Walked offset pages limit t
          (pagewalk_loop offset pages level leaf_level table vaddr paddr prot t)
          own
          table
          level
          leaf_level
          vaddr
          (make_pte paddr prot)
  unfolding pagewalk_loop
  pagewalk_loop-Walked zero zero t own table vaddr paddr prot tree o le room h valid smaller =
      map_entry-Walked offset pages limit all_pages apart t own table zero vaddr paddr prot tree o h
        valid
  pagewalk_loop-Walked zero (suc leaf_level) t own table vaddr paddr prot tree o le room h valid
        smaller =
      absurd (omega arith)
  pagewalk_loop-Walked (suc level) leaf_level t own table vaddr paddr prot tree o le room h valid
        smaller =
      elim (Bool-cases (ltb leaf_level (suc level))) [
        | inl above ↦
            let e = entry_addr table (suc level) vaddr in
            let lt = ltb→lt leaf_level (suc level) above in
            let ensured =
              ensure_table-Ensured offset pages limit all_pages apart t own table level vaddr tree o
                h (omega arith) (not_leaf t own table level leaf_level vaddr tree o lt smaller) in
            let t' = ensure_table offset pages e t in
            let sub = vaddr_from_pte offset (t'.words e) in
            let step : pagewalk_loop offset pages (suc level) leaf_level table vaddr paddr prot t
                ≡ pagewalk_loop offset pages level leaf_level sub vaddr paddr prot t' =
              rw above refl in
            let (own1, grows1, tree1, one, v, b, agree, kept) = ensured in
            let same : sv39 offset t'.words level sub vaddr
                ≡ sv39 offset t.words (suc level) table vaddr =
              sym (sv39_below offset t'.words table vaddr level v)
              ∙ sv39-Agree (suc level) offset t.words t'.words own table vaddr tree.0 (agree vaddr)
                  h o in
            subst
              (λ t2.
                Walked offset pages limit t t2 own table (suc level) leaf_level vaddr
                  (make_pte paddr prot))
              (sym step)
              (deeper-Walked t t' _ own table level leaf_level vaddr (make_pte paddr prot) tree o
                ensured
                (pagewalk_loop-Walked level leaf_level t' own1 sub vaddr paddr prot tree1 b
                  (omega arith) (omega arith) (omega arith) valid
                  (λ pte l found. smaller pte l (sym same ∙ found))))
        | inr there ↦
            let same_level : leaf_level ≡ suc level =
              omega (arith, ltb→ge leaf_level (suc level) there) in
            let step : pagewalk_loop offset pages (suc level) leaf_level table vaddr paddr prot t
                ≡ map_entry offset pages table leaf_level vaddr paddr prot t =
              rw there refl in
            subst
              (λ t2.
                Walked offset pages limit t t2 own table (suc level) leaf_level vaddr
                  (make_pte paddr prot))
              (sym step)
              (subst
                (λ l.
                  Walked offset pages limit t
                    (map_entry offset pages table leaf_level vaddr paddr prot t) own table l
                    leaf_level vaddr (make_pte paddr prot))
                same_level
                (map_entry-Walked offset pages limit all_pages apart t own table leaf_level vaddr
                  paddr prot tree (o ∙ ap (λ l. some (l, page_of (suc l) vaddr)) (sym same_level))
                  (omega arith) valid))
      ]

  -- `pagewalk` with page tables that form a tree maps the page of the address by the entry it makes,
  -- whatever tables are missing on the way, and leaves the translation of the addresses in all other pages.
  -- No page larger than the new one may map the address before.
  pub pagewalk-Maps :
      (t : Tables) (own : Owner) (pgd vaddr paddr prot leaf_level : ℕ)
      → TableTree offset pages limit t own
      → own pgd ≡ some (2, 0)
      → leaf_level ≤ 2
      → t.allocated + 2 ≤ limit
      → Valid (make_pte paddr prot) true
      → NotLarger offset t.words 2 pgd leaf_level vaddr
      → Maps offset pages limit t
          (pagewalk offset pages pgd vaddr paddr prot leaf_level t)
          pgd
          vaddr
          leaf_level
          (make_pte paddr prot)
  unfolding pagewalk
  pagewalk-Maps t own pgd vaddr paddr prot leaf_level tree o h room valid smaller =
      let root : (w : ℕ) → own pgd ≡ some (2, page_of 3 w) =
        λ w. o ∙ ap (λ n. some (2, n)) (omega arith) in
      let (own', grows, tree', few, mapped, others, above) =
        pagewalk_loop-Walked 2 leaf_level t own pgd vaddr paddr prot tree (root vaddr) h room
          (omega arith) valid smaller in
      (
        own',
        tree',
        few,
        grows pgd 2 0 o,
        mapped,
        λ w differs. others w pgd 2 differs (omega arith) (root w),
      )
