-- ===== src/PageTable/AddTable.antt =====
-- The step of `pagewalk` in src/kernel/vmm/virtual_memory.c that adds an empty table.
use first_os.Base.{
  ℕ, suc, ◌+◌, ◌-◌, ◌*◌, ◌/◌, ◌%◌, ◌^◌, ◌≤◌, ◌<◌, ◌≡◌, ◌≢◌, ◌⊎◌, refl, ap, ap₂, sym, ◌∙◌, inl, inr,
  true, false, not, Option, none, some, none-some, Bool-cases, arith, ◌==◌, if◌then◌else◌, ne→==,
  ==_refl, ==→eq, ==→ne, bit_and,
}
use mathlib.Core.Path.{subst}
use first_os.Base.Bits.{and_mask, and_field}
use first_os.PageTable.{word, va2pa, make_pte, vaddr_from_pte, is_leaf_pte}
use first_os.PageTable.Entry.{make_pte-sum, vaddr_from_pte-make_pte}
use first_os.PageTable.Walk.{Words, Tables, write, zero_page, table_index, entry_addr, add_table}
use first_os.PageTable.Translation.{
  sv39, same_entry, Owner, Valid, EntryFor, IsOwned, sv39_absent, sv39_below, Agree,
}

pub write_same : (words : Words) (a v : ℕ) → write words a v a ≡ v
unfolding write
write_same words a v = rw (==_refl a) refl

pub write_ne : (words : Words) (a v b : ℕ) → b ≢ a → write words a v b ≡ words b
unfolding write
write_ne words a v b h = rw (ne→== b a h) refl

zero_page_in :
    (words : Words) (page a : ℕ) → page ≤ a → a < page + 4096 → zero_page words page a ≡ 0
unfolding zero_page
zero_page_in words page a h k = ground arith

zero_page_out :
    (words : Words) (page a : ℕ) → (a < page) ⊎ (page + 4096 ≤ a) → zero_page words page a ≡ words a
unfolding zero_page
zero_page_out words page a h = ground arith

leaf_bits : (pte : ℕ) → bit_and pte 14 ≡ pte / 2 % 8 * 2
leaf_bits pte = and_field 1 7 pte ∙ ap (λ x. x * 2) (and_mask 3 (pte / 2))

-- The entry of a leaf, and the one of a table.
pub make_pte-Valid :
    (paddr prot : ℕ)
    → paddr < 2 ^ 56
    → prot < 2 ^ 8
    → prot % 2 ≡ 1
    → prot / 2 % 8 ≢ 0
    → Valid (make_pte paddr prot) true
unfolding is_leaf_pte
make_pte-Valid paddr prot small bits valid leaf =
    let sum = make_pte-sum paddr prot small bits in
    (
      omega (arith, sum),
      ap not (
          ne→== (bit_and (make_pte paddr prot) 14) 0 (λ (e : bit_and (make_pte paddr prot) 14 ≡ 0).
            leaf (omega (arith, sum, leaf_bits (make_pte paddr prot))))),
    )

table_pte-Valid : (paddr : ℕ) → paddr < 2 ^ 56 → Valid (make_pte paddr 1) false
unfolding is_leaf_pte
table_pte-Valid paddr small =
    let sum = make_pte-sum paddr 1 small (omega arith) in
    let zero_bits : bit_and (make_pte paddr 1) 14 ≡ 0 =
      omega (arith, sum, leaf_bits (make_pte paddr 1)) in
    (omega (arith, sum), rw zero_bits refl)

-- A page that can be a table: aligned, and within the kernel's mapping of physical memory.
abbrev pub IsPage : ℕ → ℕ → Type 0
IsPage offset page =
    (offset % 4096 ≡ 0)
    × (page % 4096 ≡ 0)
    × (offset ≤ page)
    × (page < word)
    × (page - offset < 2 ^ 56)

-- The owner with one page more.
abbrev pub claim : Owner → ℕ → ℕ → ℕ → Owner
claim own page level n q = if q == page then some (level, n) else own q

abbrev pub Fresh : (ℕ → ℕ) → ℕ → ℕ → Owner → Type 0
Fresh pages limit allocated own = (m : ℕ) → allocated ≤ m → m < limit → own (pages m) ≡ none

outside :
    (q page i : ℕ)
    → q % 4096 ≡ 0
    → page % 4096 ≡ 0
    → q ≢ page
    → i < 512
    → (q + 8 * i < page) ⊎ (page + 4096 ≤ q + 8 * i)
outside q page i hq hp ne hi = ground arith

claim_new :
    (own : Owner) (page level n q : ℕ) → q ≡ page → claim own page level n q ≡ some (level, n)
claim_new own page level n q e = rw e (rw (==_refl page) refl)

claim_old : (own : Owner) (page level n q : ℕ) → q ≢ page → claim own page level n q ≡ own q
claim_old own page level n q h = rw (ne→== q page h) refl

-- The pages that have an owner keep it.
abbrev pub Grows : Owner → Owner → Type 0
Grows own own' = (q level n : ℕ) → own q ≡ some (level, n) → own' q ≡ some (level, n)

pub EntryFor-Grows :
    (offset pte level n : ℕ) (own own' : Owner)
    → Grows own own'
    → EntryFor offset own pte level n
    → EntryFor offset own' pte level n
EntryFor-Grows offset pte level n own own' g (inl z) = inl z
EntryFor-Grows offset pte level n own own' g (inr (inl v)) = inr (inl v)
EntryFor-Grows offset pte level n own own' g (inr (inr (v, (below, e, o)))) =
    inr (inr (v, (below, e, g _ below n o)))

-- The entry of a page leads to the page.
pub table_pte_lem :
    (offset page : ℕ)
    → IsPage offset page
    → Valid (make_pte (va2pa offset page) 1) false
      × (vaddr_from_pte offset (make_pte (va2pa offset page) 1) ≡ page)
unfolding va2pa
table_pte_lem offset page (offset_page, page_page, above, in_word, near) = (
  table_pte-Valid (va2pa offset page) (omega arith),
  vaddr_from_pte-make_pte offset page 1 above in_word near (omega arith) (omega arith),
)

abbrev pub level_of : Option (ℕ × ℕ) → ℕ
level_of none = 0
level_of (some (level, n)) = level

abbrev pub number_of : Option (ℕ × ℕ) → ℕ
number_of none = 0
number_of (some (level, n)) = n

-- A table that is added to an entry without one.
module _ (offset : ℕ) (pages : ℕ → ℕ) (limit : ℕ)
    (all_pages : (m : ℕ) → m < limit → IsPage offset (pages m))
    (apart : (m n : ℕ) → m < limit → n < limit → pages m ≡ pages n → m ≡ n) (t : Tables)
    (room : t.allocated < limit) (own : Owner) (p level k j : ℕ)
    (owned : IsOwned offset t.words own) (fresh : Fresh pages limit t.allocated own)
    (o : own p ≡ some (suc level, k)) (small : j < 512) (absent : t.words (p + 8 * j) ≡ 0) where
  abbrev page : ℕ
  page = pages t.allocated

  owned-ne : (q x n : ℕ) → own q ≡ some (x, n) → q ≢ page
  owned-ne q x n o_q e =
      none-some (sym (fresh t.allocated (omega arith) room) ∙ ap own (sym e) ∙ o_q)

  pub entry_new :
      (add_table offset pages (p + 8 * j) t).words (p + 8 * j) ≡ make_pte (va2pa offset page) 1
  unfolding add_table
  entry_new = write_same _ _ _

  entries_zero : (i : ℕ) → i < 512 → (add_table offset pages (p + 8 * j) t).words (page + 8 * i) ≡ 0
  unfolding add_table
  entries_zero i h =
      write_ne _ (p + 8 * j) _ _ (λ e. owned-ne p (suc level) k o (
        sym (
          (same_entry page p i j (all_pages t.allocated room).1 (owned p (suc level) k o).0 h small
            e).0)))
      ∙ zero_page_in t.words page (page + 8 * i) (omega arith) (omega arith)

  pub entries_kept :
      (q x n i : ℕ)
      → own q ≡ some (x, n)
      → i < 512
      → q + 8 * i ≢ p + 8 * j
      → (add_table offset pages (p + 8 * j) t).words (q + 8 * i) ≡ t.words (q + 8 * i)
  unfolding add_table
  entries_kept q x n i o_q h ne =
      let apart_q = owned-ne q x n o_q in
      let q_page = (owned q x n o_q).0 in
      let new_page = (all_pages t.allocated room).1 in
      write_ne _ (p + 8 * j) _ _ ne
      ∙ zero_page_out t.words page (q + 8 * i) (outside q page i q_page new_page apart_q h)

  abbrev pub claimed : Owner
  claimed = claim own page level (k * 512 + j)

  pub claimed-Grows : Grows own claimed
  claimed-Grows q x n o_q = claim_old own page level _ q (owned-ne q x n o_q) ∙ o_q

  pub claimed-page : claimed page ≡ some (level, k * 512 + j)
  claimed-page = claim_new own page level _ page refl

  -- The entry where the table is added.
  new_entry :
      (q x n i : ℕ)
      → own q ≡ some (x, n)
      → i < 512
      → q + 8 * i ≡ p + 8 * j
      → EntryFor offset claimed
          ((add_table offset pages (p + 8 * j) t).words (q + 8 * i))
          x
          (n * 512 + i)
  new_entry q x n i o_q h e =
      let (same_table, same_index) =
        same_entry q p i j (owned q x n o_q).0 (owned p (suc level) k o).0 h small e in
      let owner : some (x, n) ≡ some (suc level, k) = sym o_q ∙ ap own same_table ∙ o in
      let (valid, leads) = table_pte_lem offset page (all_pages t.allocated room) in
      let word = ap ((add_table offset pages (p + 8 * j) t).words) e ∙ entry_new in
      inr (
        inr (
          subst (λ w. Valid w false) (sym word) valid,
          (
            level,
            ap level_of owner,
            ap claimed (ap (vaddr_from_pte offset) word ∙ leads)
                ∙ claimed-page
                ∙ ap₂ (λ a b. some (level, a * 512 + b)) (sym (ap number_of owner))
                    (sym same_index),
          ),
        ))

  pub add_table-IsOwned : IsOwned offset (add_table offset pages (p + 8 * j) t).words claimed
  add_table-IsOwned q x n e = elim (Bool-cases (q == page)) [
    | inl new ↦
        let same = ==→eq q page new in
        (
          ap (λ a. a % 4096) same ∙ (all_pages t.allocated room).1,
          λ i h. inl (
              ap (λ a. (add_table offset pages (p + 8 * j) t).words (a + 8 * i)) same
              ∙ entries_zero i h),
        )
    | inr old ↦
        let o_q : own q ≡ some (x, n) = sym (claim_old own page level _ q (==→ne q page old)) ∙ e in
        (
          (owned q x n o_q).0,
          λ i h. elim (Bool-cases (q + 8 * i == p + 8 * j)) [
            | inl at ↦ new_entry q x n i o_q h (==→eq _ _ at)
            | inr away ↦
                subst (λ w. EntryFor offset claimed w x (n * 512 + i))
                  (sym (entries_kept q x n i o_q h (==→ne _ _ away)))
                  (EntryFor-Grows offset (t.words (q + 8 * i)) x (n * 512 + i) own claimed
                    claimed-Grows ((owned q x n o_q).1 i h))
          ],
        )
  ]

  pub add_table-Fresh : Fresh pages limit (add_table offset pages (p + 8 * j) t).allocated claimed
  unfolding add_table
  add_table-Fresh m h lt =
      claim_old own page level _ (pages m)
        (λ e. absurd (let same = apart m t.allocated lt room e in omega arith))
      ∙ fresh m (omega arith) lt

  -- The new table translates nothing, as the entry did.
  translates_nothing :
      (vaddr q x n : ℕ)
      → own q ≡ some (x, n)
      → entry_addr q x vaddr ≡ p + 8 * j
      → sv39 offset (add_table offset pages (p + 8 * j) t).words x q vaddr ≡ none
  translates_nothing vaddr q x n o_q e =
      let words' = (add_table offset pages (p + 8 * j) t).words in
      let same_table =
        (same_entry q p (table_index x vaddr) j (owned q x n o_q).0 (owned p (suc level) k o).0
          (omega arith) small e).0 in
      let same_level : x ≡ suc level = ap level_of (sym o_q ∙ ap own same_table ∙ o) in
      let (valid, leads) = table_pte_lem offset page (all_pages t.allocated room) in
      let word : words' (entry_addr q (suc level) vaddr) ≡ make_pte (va2pa offset page) 1 =
        ap words' (ap (λ y. entry_addr q y vaddr) (sym same_level) ∙ e) ∙ entry_new in
      ap (λ y. sv39 offset words' y q vaddr) same_level
      ∙ sv39_below offset words' q vaddr level (subst (λ w. Valid w false) (sym word) valid)
      ∙ ap (λ w. sv39 offset words' level w vaddr) (ap (vaddr_from_pte offset) word ∙ leads)
      ∙ sv39_absent offset words' page vaddr level
          (entries_zero (table_index level vaddr) (omega arith))

  pub add_table-Agree :
      (vaddr : ℕ) → Agree offset t.words (add_table offset pages (p + 8 * j) t).words own vaddr
  add_table-Agree vaddr x q h o_q = elim (Bool-cases (entry_addr q x vaddr == p + 8 * j)) [
    | inr away ↦ inl (entries_kept q x _ (table_index x vaddr) o_q (omega arith) (==→ne _ _ away))
    | inl at ↦
        inr (ap t.words (==→eq _ _ at) ∙ absent, translates_nothing vaddr q x _ o_q (==→eq _ _ at))
  ]
