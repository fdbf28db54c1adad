-- ===== src/Mappings/Gap.antt =====
-- `_get_mapping_vaddr` of src/kernel/task/task_mapping.c: the search for a free range.
use first_os.Base.{
  ℕ, ◌+◌, ◌-◌, ◌≤◌, ◌<◌, ◌≡◌, refl, sym, ◌⊎◌, inl, inr, some, List, [], ◌∷◌, arith, All, ltb, leb,
  Bool-cases, none-some, some_inj, ltb→ge, leb→le, leb→gt,
}
use mathlib.Core.Path.{subst}
use first_os.Mappings.{
  Mapping, add64, kernel_virtual_base, signal_trampoline_vaddr, pte_mem_size, find_gap, gap_start,
  get_mapping_vaddr,
}
use first_os.Mappings.Layout.{no_wrap, end_of, IsLaid, IsFree}

-- The mappings behind a gap do not meet it.
behind_gap :
    (r size l : ℕ) (ms : List Mapping) → r + size ≤ l → All (λ d. l ≤ d.vaddr) ms → IsFree r size ms
behind_gap r size l [] h a = tt
behind_gap r size l (m ∷ ms) h a = (inr (omega arith), behind_gap r size l ms h a.1)

passed : (a b c : ℕ) {d : ℕ} → d ≡ b → b ≤ a → a ≤ c → d ≤ c
passed a b c e h k = omega arith

before_wrap : (r size v : ℕ) → r + size ≤ kernel_virtual_base → add64 r size ≤ v → r + size ≤ v
before_wrap r size v h k = omega arith

refl_le : {a : ℕ} → a ≤ a
refl_le = omega arith

between : (a b c : ℕ) → a < b → b ≤ c → a ≤ c
between a b c h k = omega arith

-- An address from `result` on that, when its range fits below the kernel, meets no mapping.
abbrev Good : List Mapping → ℕ → ℕ → ℕ → Type 0
Good ms size result r = r + size ≤ kernel_virtual_base → (result ≤ r) × IsFree r size ms

find_gap-past :
    (m : Mapping) (ms : List Mapping) (size result r : ℕ)
    → IsLaid (m ∷ ms)
    → add64 m.vaddr m.size ≤ result
    → Good ms size result r
    → Good (m ∷ ms) size result r
find_gap-past m ms size result r laid le good h =
    let (above, free) = good h in
    (above, (inl (passed _ _ _ (sym (no_wrap m.vaddr m.size laid.0)) le above), free))

find_gap-here :
    (m : Mapping) (ms : List Mapping) (size result : ℕ)
    → IsLaid (m ∷ ms)
    → add64 result size ≤ m.vaddr
    → Good (m ∷ ms) size result result
find_gap-here m ms size result laid le h =
    let fits = before_wrap result size m.vaddr h le in
    (omega arith, (inr fits, behind_gap result size (end_of m) ms (omega arith) laid.1))

find_gap-moved :
    (m : Mapping) (ms : List Mapping) (size result r : ℕ)
    → IsLaid (m ∷ ms)
    → result < add64 m.vaddr m.size
    → Good ms size (add64 m.vaddr m.size) r
    → Good (m ∷ ms) size result r
find_gap-moved m ms size result r laid lt good h =
    let (above, free) = good h in
    (
      between result _ r lt above,
      (inl (passed _ _ _ (sym (no_wrap m.vaddr m.size laid.0)) refl_le above), free),
    )

find_gap-Good :
    (ms : List Mapping) (size result : ℕ)
    → IsLaid ms
    → Good ms size result (find_gap ms size result)
unfolding find_gap
find_gap-Good [] size result laid = λ h. (omega arith, tt)
find_gap-Good (m ∷ ms) size result laid = elim (Bool-cases (leb (add64 m.vaddr m.size) result)) [
  | inl e ↦
      let step : find_gap (m ∷ ms) size result ≡ find_gap ms size result = rw e refl in
      subst (λ r. Good (m ∷ ms) size result r) (sym step)
        (find_gap-past m ms size result _ laid (leb→le _ _ e) (find_gap-Good ms size result laid.2))
  | inr e ↦ elim (Bool-cases (leb (add64 result size) m.vaddr)) [
    | inl f ↦
        let step : find_gap (m ∷ ms) size result ≡ result = rw e (rw f refl) in
        subst (λ r. Good (m ∷ ms) size result r) (sym step)
          (find_gap-here m ms size result laid (leb→le _ _ f))
    | inr f ↦
        let step : find_gap (m ∷ ms) size result ≡ find_gap ms size (add64 m.vaddr m.size) =
          rw e (rw f refl) in
        subst (λ r. Good (m ∷ ms) size result r) (sym step)
          (find_gap-moved m ms size result _ laid (leb→gt _ _ e) (find_gap-Good ms size _ laid.2))
  ]
]

-- What `_get_mapping_vaddr` returns, for mappings that lie in order below the kernel: the range of
-- `size` bytes at the result ends below the kernel's half and meets no mapping of the task, and the
-- result is at or above the address where the search starts.
pub get_mapping_vaddr-IsFree :
    (ms : List Mapping) (vaddr size r : ℕ)
    → IsLaid ms
    → get_mapping_vaddr ms vaddr size ≡ some r
    → (r + size ≤ kernel_virtual_base) × (gap_start vaddr size ≤ r) × IsFree r size ms
unfolding get_mapping_vaddr
get_mapping_vaddr-IsFree ms vaddr size r laid = elim (Bool-cases (ltb kernel_virtual_base size)) [
  | inl e ↦ rw e (λ h. none-some h)
  | inr e ↦
      elim (Bool-cases
        (ltb (kernel_virtual_base - size) (find_gap ms size (gap_start vaddr size)))) [
          | inl f ↦ rw e (rw f (λ h. none-some h))
          | inr f ↦
              let small = ltb→ge _ _ e in
              let low = ltb→ge _ _ f in
              rw e (
                rw f (λ h.
                  let fits : find_gap ms size (gap_start vaddr size) + size ≤ kernel_virtual_base =
                    omega arith in
                  let (above, free) = find_gap-Good ms size (gap_start vaddr size) laid fits in
                  subst
                    (λ x.
                      (x + size ≤ kernel_virtual_base)
                      × (gap_start vaddr size ≤ x)
                      × IsFree x size ms)
                    (some_inj h) (fits, above, free)))
        ]
]

-- The search starts behind the page of the signal trampoline, or its first range ends before it.
gap_start-trampoline :
    (vaddr size : ℕ)
    → size ≤ kernel_virtual_base
    → (signal_trampoline_vaddr + pte_mem_size ≤ gap_start vaddr size)
      ⊎ (gap_start vaddr size + size ≤ signal_trampoline_vaddr)
unfolding gap_start
gap_start-trampoline vaddr size s = ground arith
