-- ===== src/Mappings/Layout.antt =====
-- Mappings that lie one behind the other, below the kernel's half of the address space.
use first_os.Base.{
  ℕ, ◌+◌, ◌≤◌, ◌≡◌, ◌<◌, ◌⊎◌, inl, inr, List, [], ◌∷◌, arith, All, ltb, Bool-cases, ltb→lt, ltb→ge,
}
use first_os.Queue.{insert_sorted, All-insert_sorted}
use first_os.Mappings.{Mapping, add64, kernel_virtual_base, insert_mapping}

-- Below the kernel, sums do not wrap.
pub no_wrap : (a b : ℕ) → a + b ≤ kernel_virtual_base → add64 a b ≡ a + b
no_wrap a b h = omega arith

abbrev pub end_of : Mapping → ℕ
end_of m = m.vaddr + m.size

abbrev pub IsLaid : List Mapping → Type 0
IsLaid [] = Unit
IsLaid (m ∷ ms) = (end_of m ≤ kernel_virtual_base) × All (λ d. end_of m ≤ d.vaddr) ms × IsLaid ms

-- The range of `size` bytes from `vaddr` on meets none of the mappings.
abbrev pub IsFree : ℕ → ℕ → List Mapping → Type 0
IsFree vaddr size ms = All (λ d. (end_of d ≤ vaddr) ⊎ (vaddr + size ≤ d.vaddr)) ms

pub beyond :
    (k l : ℕ) (ms : List Mapping) → k ≤ l → All (λ d. l ≤ d.vaddr) ms → All (λ d. k ≤ d.vaddr) ms
beyond k l [] h a = tt
beyond k l (m ∷ ms) h a = (omega arith, beyond k l ms h a.1)

-- A new mapping in a free range finds its place among the others.
pub insert_mapping-IsLaid :
    (m : Mapping) (ms : List Mapping)
    → IsLaid ms
    → 0 < m.size
    → end_of m ≤ kernel_virtual_base
    → IsFree m.vaddr m.size ms
    → IsLaid (insert_mapping m ms)
unfolding insert_mapping insert_sorted
insert_mapping-IsLaid m [] laid pos fits free = (fits, tt, tt)
insert_mapping-IsLaid m (x ∷ xs) laid pos fits free = elim (Bool-cases (ltb m.vaddr x.vaddr)) [
  | inl e ↦
      let lt = ltb→lt _ _ e in
      let before : end_of m ≤ x.vaddr = omega arith in
      rw e (fits, (before, beyond (end_of m) (end_of x) xs (omega arith) laid.1), laid)
  | inr e ↦
      let ge = ltb→ge _ _ e in
      let behind : end_of x ≤ m.vaddr = omega arith in
      rw e (
        laid.0,
        All-insert_sorted (λ d. d.vaddr) (λ d. end_of x ≤ d.vaddr) m xs behind laid.1,
        insert_mapping-IsLaid m xs laid.2 pos fits free.1,
      )
]
