-- ===== src/Mappings/Fault.antt =====
-- `_page_fault_handler` of src/kernel/interrupts/interrupt_handler.c: what a page fault leads to. The page
-- that `task_install_page` installs is an outcome, whose contents are `page_source`'s; the kill is the
-- scheduler's.
use first_os.Base.{
  ℕ, ◌/◌, ◌%◌, ◌^◌, ◌*◌, ap, ◌∙◌, ◌⊎◌, bit_and, arith, sym, ◌≢◌, ◌≡◌, refl, inl, inr, Bool, true,
  false, not, ◌&&◌, ◌||◌, Option, none, some, List, All, ◌==◌, if◌then◌else◌, Bool-cases,
}
use first_os.Base.Bits.{and_mask, and_field}
use first_os.Scheduler.{Scheduler, Clock, cpu_scheduler_kill}
use first_os.Mappings.{Mapping, bit_set, align_to_floor_pte, task_find_mapping}
use first_os.Mappings.Layout.{IsLaid}
use first_os.Mappings.Find.{Misses, Found, task_find_mapping-Found}

-- The two reasons to kill the task, and the page to install.
pub data Fault : Type 0 where
  segmentation_fault permission_fault : Fault
  translation_fault : Mapping → ℕ → Fault

-- Whether the access that `scause` names lacks its bit in the protection.
unfoldable pub forbidden : ℕ → ℕ → Bool
forbidden scause prot =
    ((scause == 0xc) && not (bit_set prot 8))
    || ((scause == 0xf) && not (bit_set prot 4))
    || ((scause == 0xd) && not (bit_set prot 2))

abbrev pub judge : ℕ → ℕ → Option Mapping → Fault
judge scause vaddr none = segmentation_fault
judge scause vaddr (some m) =
    if forbidden scause m.prot then permission_fault else translation_fault m vaddr

abbrev pub killed_unless_installed : Clock → Fault → Scheduler → Scheduler
killed_unless_installed clock segmentation_fault s = cpu_scheduler_kill clock s
killed_unless_installed clock permission_fault s = cpu_scheduler_kill clock s
killed_unless_installed clock (translation_fault m vaddr) s = s

unfoldable pub page_fault_handler : Clock → List Mapping → ℕ → ℕ → Scheduler → Fault × Scheduler
page_fault_handler clock mappings scause stval s =
    let vaddr = align_to_floor_pte stval in
    let fault = judge scause vaddr (task_find_mapping mappings vaddr) in
    (fault, killed_unless_installed clock fault s)

-- The access of a fault: an instruction fetch, a store or a load, with the bit of the entry that allows it.
abbrev Access : ℕ → ℕ → Type 0
Access scause bit =
    ((scause ≡ 12) × (bit ≡ 3)) ⊎ (((scause ≡ 15) × (bit ≡ 2)) ⊎ ((scause ≡ 13) × (bit ≡ 1)))

abbrev Lacks : ℕ → ℕ → Type 0
Lacks scause prot = (bit : ℕ) × Access scause bit × (prot / 2 ^ bit % 2 ≡ 0)

abbrev Permits : ℕ → ℕ → Type 0
Permits scause prot = (bit : ℕ) → Access scause bit → prot / 2 ^ bit % 2 ≡ 1

bit_and-power : (k prot : ℕ) → bit_and prot (1 * 2 ^ k) ≡ prot / 2 ^ k % 2 * 2 ^ k
bit_and-power k prot = and_field k 1 prot ∙ ap (λ t. t * 2 ^ k) (and_mask 1 (prot / 2 ^ k))

forbidden-Lacks : (scause prot : ℕ) → forbidden scause prot ≡ true → Lacks scause prot
unfolding forbidden
forbidden-Lacks scause prot e =
    let x = bit_and-power 3 prot in
    let w = bit_and-power 2 prot in
    let r = bit_and-power 1 prot in
    elim (one_of scause e) [
      | inl (c, z) ↦ (3, inl (c, refl), omega arith)
      | inr (inl (c, z)) ↦ (2, inr (inl (c, refl)), omega arith)
      | inr (inr (c, z)) ↦ (1, inr (inr (c, refl)), omega arith)
    ]
  where
    one_of :
        (c : ℕ)
        → (((c == 12) && not (not (bit_and prot 8 == 0)))
            || ((c == 15) && not (not (bit_and prot 4 == 0)))
            || ((c == 13) && not (not (bit_and prot 2 == 0))))
          ≡ true
        → ((c ≡ 12) × (bit_and prot 8 ≡ 0))
          ⊎ (((c ≡ 15) × (bit_and prot 4 ≡ 0)) ⊎ ((c ≡ 13) × (bit_and prot 2 ≡ 0)))
    one_of c e = ground arith

allowed-Permits : (scause prot : ℕ) → forbidden scause prot ≡ false → Permits scause prot
unfolding forbidden
allowed-Permits scause prot e bit a =
    let x = bit_and-power 3 prot in
    let w = bit_and-power 2 prot in
    let r = bit_and-power 1 prot in
    elim a [
      | inl (c, b) ↦
          let one : prot / 2 ^ 3 % 2 ≡ 1 =
            let n : bit_and prot 8 ≢ 0 =
              λ z. absurd (let f : false ≡ true = sym e ∙ fetch c z in cc) in
            omega arith in
          ap (λ k. prot / 2 ^ k % 2) b ∙ one
      | inr (inl (c, b)) ↦
          let one : prot / 2 ^ 2 % 2 ≡ 1 =
            let n : bit_and prot 4 ≢ 0 =
              λ z. absurd (let f : false ≡ true = sym e ∙ store c z in cc) in
            omega arith in
          ap (λ k. prot / 2 ^ k % 2) b ∙ one
      | inr (inr (c, b)) ↦
          let one : prot / 2 ^ 1 % 2 ≡ 1 =
            let n : bit_and prot 2 ≢ 0 =
              λ z. absurd (let f : false ≡ true = sym e ∙ load c z in cc) in
            omega arith in
          ap (λ k. prot / 2 ^ k % 2) b ∙ one
    ]
  where
    fetch : scause ≡ 12 → bit_and prot 8 ≡ 0 → forbidden scause prot ≡ true
    fetch c z = ground arith

    store : scause ≡ 15 → bit_and prot 4 ≡ 0 → forbidden scause prot ≡ true
    store c z = ground arith

    load : scause ≡ 13 → bit_and prot 2 ≡ 0 → forbidden scause prot ≡ true
    load c z = ground arith

-- What each outcome says of the task's mappings and of the scheduler.
abbrev pub Judged : Clock → List Mapping → ℕ → ℕ → Scheduler → Fault × Scheduler → Type 0
Judged clock ms scause vaddr s (segmentation_fault, s') =
    All (Misses vaddr) ms × (s' ≡ cpu_scheduler_kill clock s)
Judged clock ms scause vaddr s (permission_fault, s') =
    ((m : Mapping) × Found ms vaddr (some m) × Lacks scause m.prot)
    × (s' ≡ cpu_scheduler_kill clock s)
Judged clock ms scause vaddr s (translation_fault m page, s') =
    (page ≡ vaddr) × (Found ms vaddr (some m) × Permits scause m.prot × (s' ≡ s))

judge-Judged :
    (clock : Clock) (ms : List Mapping) (scause vaddr : ℕ) (s : Scheduler) (o : Option Mapping)
    → Found ms vaddr o
    → let fault = judge scause vaddr o in
      Judged clock ms scause vaddr s (fault, killed_unless_installed clock fault s)
judge-Judged clock ms scause vaddr s none f = (f, refl)
judge-Judged clock ms scause vaddr s (some m) f = elim (Bool-cases (forbidden scause m.prot)) [
  | inl e ↦ rw e ((m, f, forbidden-Lacks scause m.prot e), refl)
  | inr e ↦ rw e (refl, (f, allowed-Permits scause m.prot e, refl))
]

-- A page fault, on mappings that lie in order below the kernel, at the page of the address: where no
-- mapping holds the page, and where the one that holds it lacks the bit of the access (bit 3 for a
-- fetch, 2 for a store, 1 for a load), the handler kills the current task; otherwise it leaves the
-- scheduler as it is and asks for the page of a mapping that holds it and has the bit.
pub page_fault_handler-Judged :
    (clock : Clock) (ms : List Mapping) (scause stval : ℕ) (s : Scheduler)
    → IsLaid ms
    → Judged clock ms scause
        (align_to_floor_pte stval)
        s
        (page_fault_handler clock ms scause stval s)
unfolding page_fault_handler
page_fault_handler-Judged clock ms scause stval s laid =
    judge-Judged clock ms scause (align_to_floor_pte stval) s _
      (task_find_mapping-Found ms (align_to_floor_pte stval) laid)
