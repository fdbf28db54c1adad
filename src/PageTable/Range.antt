-- ===== src/PageTable/Range.antt =====
-- `virtual_memory_map` of src/kernel/vmm/virtual_memory.c maps the pages of a range.
use first_os.Base.{
  ℕ, zero, suc, ◌+◌, ◌-◌, ◌*◌, ◌/◌, ◌%◌, ◌^◌, ◌≤◌, ◌<◌, ◌≡◌, ◌≢◌, refl, ap, sym, ◌∙◌, some, arith,
}
use mathlib.Core.Path.{subst}
use first_os.PageTable.{word, make_pte}
use first_os.PageTable.Walk.{Tables, pagewalk, map_loop, virtual_memory_map}
use first_os.PageTable.Translation.{sv39, page_of, Owner}
use first_os.PageTable.AddTable.{IsPage, make_pte-Valid}
use first_os.PageTable.Step.{TableTree, NotLarger}
use first_os.PageTable.Pagewalk.{pagewalk-Maps}

-- The pages from `vaddr` on, `rounds` of them, are mapped to those from `paddr` on, and all other pages
-- are translated as before.
abbrev pub MapsRange : ℕ → (ℕ → ℕ) → ℕ → Tables → Tables → ℕ → ℕ → ℕ → ℕ → ℕ → Type 0
MapsRange offset pages limit t t' pgd vaddr paddr prot rounds =
    (own' : Owner) × TableTree offset pages limit t' own'
    × (own' pgd ≡ some (2, 0))
    × ((k : ℕ)
        → k < rounds
        → sv39 offset t'.words 2 pgd (vaddr + k * 4096)
          ≡ some (make_pte (paddr + k * 4096) prot, 0))
    × ((w : ℕ)
        → ((k : ℕ) → k < rounds → page_of 0 w ≢ page_of 0 (vaddr + k * 4096))
        → sv39 offset t'.words 2 pgd w ≡ sv39 offset t.words 2 pgd w)

-- The protection of a leaf.
abbrev pub IsLeafProt : ℕ → Type 0
IsLeafProt prot = (prot < 2 ^ 8) × (prot % 2 ≡ 1) × (prot / 2 % 8 ≢ 0)

other_page :
    (vaddr k i : ℕ)
    → k < i
    → i < 2 ^ 27
    → page_of 0 (vaddr + i * 4096) ≢ page_of 0 (vaddr + k * 4096)
other_page vaddr k i h small e = absurd (omega arith)

below_suc :
    (n : ℕ) (P : ℕ → Type 0) → P 0 → ((k : ℕ) → k < n → P (suc k)) → (k : ℕ) → k < suc n → P k
below_suc n P first rest zero h = first
below_suc n P first rest (suc k) h = rest k (omega arith)

module _ (offset : ℕ) (pages : ℕ → ℕ) (limit : ℕ)
    (all_pages : (m : ℕ) → m < limit → IsPage offset (pages m))
    (apart : (m n : ℕ) → m < limit → n < limit → pages m ≡ pages n → m ≡ n) (pgd prot : ℕ)
    (leaf : IsLeafProt prot) where
  map_loop-MapsRange :
      (rounds : ℕ) (t : Tables) (own : Owner) (vaddr paddr from : ℕ)
      → TableTree offset pages limit t own
      → own pgd ≡ some (2, 0)
      → rounds ≤ 2 ^ 27
      → t.allocated + 2 * rounds ≤ limit
      → vaddr + from + rounds * 4096 ≤ word
      → paddr + from + rounds * 4096 ≤ 2 ^ 56
      → ((k : ℕ) → k < rounds → NotLarger offset t.words 2 pgd 0 (vaddr + from + k * 4096))
      → MapsRange offset pages limit t
          (map_loop offset pages rounds (2 ^ 12) 0 pgd vaddr paddr prot from t)
          pgd
          (vaddr + from)
          (paddr + from)
          prot
          rounds
  unfolding map_loop
  map_loop-MapsRange zero t own vaddr paddr from tree o few room in_word near smaller =
      (own, tree, o, (λ k h. absurd (omega arith)), λ w h. refl)
  map_loop-MapsRange (suc rounds) t own vaddr paddr from tree o few room in_word near smaller =
      let a = (vaddr + from) % word in
      let p = (paddr + from) % word in
      let same_a : a ≡ vaddr + from + 0 * 4096 = omega arith in
      let same_p : p ≡ paddr + from + 0 * 4096 = omega arith in
      let valid = make_pte-Valid p prot (omega arith) leaf.0 leaf.1 leaf.2 in
      let t1 = pagewalk offset pages pgd a p prot 0 t in
      let (own1, tree1, more, o1, mapped, others) =
        pagewalk-Maps offset pages limit all_pages apart t own pgd a p prot 0 tree o (omega arith)
          (omega arith) valid
          (subst (λ v. NotLarger offset t.words 2 pgd 0 v) (sym same_a)
            (smaller 0 (omega arith))) in
      let t2 = map_loop offset pages rounds (2 ^ 12) 0 pgd vaddr paddr prot (from + 2 ^ 12) t1 in
      let next : (k : ℕ) → vaddr + (from + 2 ^ 12) + k * 4096 ≡ vaddr + from + suc k * 4096 =
        λ k. omega arith in
      let (own2, tree2, o2, mapped2, others2) =
        map_loop-MapsRange rounds t1 own1 vaddr paddr (from + 2 ^ 12) tree1 o1 (omega arith)
          (omega arith) (omega arith) (omega arith)
          (λ k h pte l found. smaller (suc k) (omega arith) pte l (
            sym (
              others (vaddr + from + suc k * 4096) (λ e.
                other_page (vaddr + from) 0 (suc k) (omega arith) (omega arith)
                  (e ∙ ap (page_of 0) same_a)))
            ∙ ap (λ v. sv39 offset t1.words 2 pgd v) (sym (next k))
            ∙ found)) in
      (
        own2,
        tree2,
        o2,
        below_suc rounds
            (λ k.
              sv39 offset t2.words 2 pgd (vaddr + from + k * 4096)
              ≡ some (make_pte (paddr + from + k * 4096) prot, 0))
            (others2 (vaddr + from + 0 * 4096) (λ k h e.
                other_page (vaddr + from) 0 (suc k) (omega arith) (omega arith)
                  (sym (e ∙ ap (page_of 0) (next k))))
              ∙ ap (λ v. sv39 offset t1.words 2 pgd v) (sym same_a)
              ∙ mapped
              ∙ ap (λ x. some (make_pte x prot, 0)) same_p)
            (λ k h.
              ap (λ v. sv39 offset t2.words 2 pgd v) (sym (next k))
              ∙ mapped2 k (omega arith)
              ∙ ap (λ x. some (make_pte x prot, 0)) (omega arith)),
        λ w differs.
            others2 w (λ k h e. differs (suc k) (omega arith) (e ∙ ap (page_of 0) (next k)))
            ∙ others w (λ e. differs 0 (omega arith) (e ∙ ap (page_of 0) same_a)),
      )

  -- `virtual_memory_map` with page tables that form a tree maps each page of the range to the page of
  -- physical memory at the same distance, with the protection, and leaves the translation of the addresses
  -- in all other pages. The range lies within the words, is at most 2^39 bytes long and has no page that a
  -- larger one maps before.
  pub virtual_memory_map-MapsRange :
      (t : Tables) (own : Owner) (vaddr paddr size : ℕ)
      → TableTree offset pages limit t own
      → own pgd ≡ some (2, 0)
      → size ≤ 2 ^ 39
      → t.allocated + 2 * (size / 4096) ≤ limit
      → size % 4096 ≡ 0
      → vaddr + size ≤ word
      → paddr + size ≤ 2 ^ 56
      → ((k : ℕ) → k < size / 4096 → NotLarger offset t.words 2 pgd 0 (vaddr + k * 4096))
      → MapsRange offset pages limit t
          (virtual_memory_map offset pages pgd vaddr paddr size prot t)
          pgd
          vaddr
          paddr
          prot
          (size / 4096)
  unfolding virtual_memory_map
  virtual_memory_map-MapsRange t own vaddr paddr size tree o few room aligned in_word near smaller =
      let rounds : (size + (2 ^ 12 - 1)) / 2 ^ 12 ≡ size / 4096 = omega arith in
      let v0 : vaddr + 0 ≡ vaddr = omega arith in
      let p0 : paddr + 0 ≡ paddr = omega arith in
      let n = size / 4096 in
      subst
        (λ v.
          MapsRange offset pages limit t
            (virtual_memory_map offset pages pgd vaddr paddr size prot t) pgd v paddr prot n)
        v0
        (subst
          (λ p.
            MapsRange offset pages limit t
              (virtual_memory_map offset pages pgd vaddr paddr size prot t) pgd (vaddr + 0) p prot
              n)
          p0
          (subst
            (λ r.
              MapsRange offset pages limit t
                (map_loop offset pages r (2 ^ 12) 0 pgd vaddr paddr prot 0 t) pgd (vaddr + 0)
                (paddr + 0) prot n)
            (sym rounds)
            (map_loop-MapsRange n t own vaddr paddr 0 tree o (omega arith) room (omega arith)
              (omega arith)
              (λ k h.
                subst (λ v. NotLarger offset t.words 2 pgd 0 v) (ap (λ v. v + k * 4096) (sym v0))
                  (smaller k h)))))
