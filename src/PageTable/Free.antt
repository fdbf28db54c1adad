-- ===== src/PageTable/Free.antt =====
-- `virtual_memory_free_tables` of src/kernel/vmm/virtual_memory.c unmaps what the entries that it goes over map.
use first_os.Base.{
  ℕ, zero, suc, ◌+◌, ◌*◌, ◌≤◌, ◌<◌, ◌≡◌, ◌⊎◌, refl, ap, ◌∙◌, inl, inr, ◌||◌, none, ◌∷◌, arith, ◌==◌,
  if◌then◌else◌, Bool-cases, ==→eq, ==→ne,
}
use first_os.PageTable.{vaddr_from_pte, is_leaf_pte}
use first_os.PageTable.Walk.{Freeing, write, table_index, free_loop, virtual_memory_free_tables}
use first_os.PageTable.Translation.{sv39, sv39_absent}
use first_os.PageTable.AddTable.{write_same, write_ne}

-- Words are only set to 0.
abbrev pub Zeroed : Freeing → Freeing → Type 0
Zeroed f f' = (a : ℕ) → (f'.left a ≡ f.left a) ⊎ (f'.left a ≡ 0)

Zeroed-trans : (f g h : Freeing) → Zeroed f g → Zeroed g h → Zeroed f h
Zeroed-trans f g h p q a = elim (q a) [
  | inr z ↦ inr z
  | inl e ↦ elim (p a) [ inr z ↦ inr (e ∙ z) | inl d ↦ inl (e ∙ d) ]
]

-- A word that is 0 stays so.
Zeroed-zero : (f g : Freeing) (a : ℕ) → Zeroed f g → f.left a ≡ 0 → g.left a ≡ 0
Zeroed-zero f g a p z = elim (p a) [ inl e ↦ e ∙ z | inr e ↦ e ]

module _ (offset : ℕ) (below : ℕ → Freeing → Freeing)
    (zeroes : (sub : ℕ) (f : Freeing) → Zeroed f (below sub f)) (table : ℕ) where
  -- What the loop leaves of one entry.
  abbrev pub round : ℕ → Freeing → Freeing
  round i f =
      let pte = f.left (table + 8 * i) in
      let sub_table = vaddr_from_pte offset pte in
      let f' = below sub_table f in
      let emptied : Freeing = record {
        left = write f'.left (table + 8 * i) 0;
        freed = sub_table ∷ f'.freed;
      } in
      let cleared : Freeing = record { left = write f.left (table + 8 * i) 0; freed = f.freed } in
      if (pte == 0) || is_leaf_pte pte then cleared else emptied

  write-Zeroed :
      (f g : Freeing) (b : ℕ) (a : ℕ)
      → Zeroed f g
      → (write g.left b 0 a ≡ f.left a) ⊎ (write g.left b 0 a ≡ 0)
  write-Zeroed f g b a p = elim (Bool-cases (a == b)) [
    | inl at ↦ inr (ap (write g.left b 0) (==→eq a b at) ∙ write_same g.left b 0)
    | inr away ↦ elim (p a) [
      | inl e ↦ inl (write_ne g.left b 0 a (==→ne a b away) ∙ e)
      | inr e ↦ inr (write_ne g.left b 0 a (==→ne a b away) ∙ e)
    ]
  ]

  pub round-Zeroed : (i : ℕ) (f : Freeing) → Zeroed f (round i f)
  round-Zeroed i f a =
      elim (Bool-cases ((f.left (table + 8 * i) == 0) || is_leaf_pte (f.left (table + 8 * i)))) [
        | inl e ↦ rw e (write-Zeroed f f (table + 8 * i) a (λ b. inl refl))
        | inr e ↦ rw e (
            write-Zeroed f (below (vaddr_from_pte offset (f.left (table + 8 * i))) f)
              (table + 8 * i) a (zeroes _ f))
      ]

  round-cleared : (i : ℕ) (f : Freeing) → (round i f).left (table + 8 * i) ≡ 0
  round-cleared i f =
      elim (Bool-cases ((f.left (table + 8 * i) == 0) || is_leaf_pte (f.left (table + 8 * i)))) [
        | inl e ↦ rw e (write_same _ _ _)
        | inr e ↦ rw e (write_same _ _ _)
      ]

  free_loop-Zeroed : (rest i : ℕ) (f : Freeing) → Zeroed f (free_loop offset below table rest i f)
  unfolding free_loop
  free_loop-Zeroed zero i f = λ a. inl refl
  free_loop-Zeroed (suc rest) i f =
      Zeroed-trans f (round i f) (free_loop offset below table rest (i + 1) (round i f))
        (round-Zeroed i f) (free_loop-Zeroed rest (i + 1) (round i f))

  free_loop-cleared :
      (rest i j : ℕ) (f : Freeing)
      → i ≤ j
      → j < i + rest
      → (free_loop offset below table rest i f).left (table + 8 * j) ≡ 0
  unfolding free_loop
  free_loop-cleared zero i j f h k = absurd (omega arith)
  free_loop-cleared (suc rest) i j f h k = elim (Bool-cases (j == i)) [
    | inl here ↦
        Zeroed-zero (round i f) (free_loop offset below table rest (i + 1) (round i f))
          (table + 8 * j) (free_loop-Zeroed rest (i + 1) (round i f))
          (ap (λ x. (round i f).left (table + 8 * x)) (==→eq j i here) ∙ round-cleared i f)
    | inr later ↦
        let ne = ==→ne j i later in
        free_loop-cleared rest (i + 1) j (round i f) (omega arith) (omega arith)
  ]

pub free_tables-Zeroed :
    (depth offset table start n : ℕ) (f : Freeing)
    → Zeroed f (virtual_memory_free_tables offset depth table start n f)
unfolding virtual_memory_free_tables
free_tables-Zeroed zero offset table start n f =
    free_loop-Zeroed offset (λ sub g. g) (λ sub g a. inl refl) table n start f
free_tables-Zeroed (suc depth) offset table start n f =
    free_loop-Zeroed offset (λ sub. virtual_memory_free_tables offset depth sub 0 512)
      (λ sub g. free_tables-Zeroed depth offset sub 0 512 g) table n start f

free_tables-cleared :
    (depth offset table start n j : ℕ) (f : Freeing)
    → start ≤ j
    → j < start + n
    → (virtual_memory_free_tables offset depth table start n f).left (table + 8 * j) ≡ 0
unfolding virtual_memory_free_tables
free_tables-cleared zero offset table start n j f =
    free_loop-cleared offset (λ sub g. g) (λ sub g a. inl refl) table n start j f
free_tables-cleared (suc depth) offset table start n j f =
    free_loop-cleared offset (λ sub. virtual_memory_free_tables offset depth sub 0 512)
      (λ sub g. free_tables-Zeroed depth offset sub 0 512 g) table n start j f

-- After `virtual_memory_free_tables` on some entries of a table, no address that is translated by one of them is
-- mapped any more, and the rest of memory is changed only by words set to 0, whatever the table held.
pub virtual_memory_free_tables-unmaps :
    (depth offset level table start n vaddr : ℕ) (f : Freeing)
    → start ≤ table_index level vaddr
    → table_index level vaddr < start + n
    → let f' = virtual_memory_free_tables offset depth table start n f in
      (sv39 offset f'.left level table vaddr ≡ none) × Zeroed f f'
virtual_memory_free_tables-unmaps depth offset level table start n vaddr f h k = (
  sv39_absent offset (virtual_memory_free_tables offset depth table start n f).left table vaddr
      level (free_tables-cleared depth offset table start n (table_index level vaddr) f h k),
  free_tables-Zeroed depth offset table start n f,
)
