-- ===== src/Mappings/Find.antt =====
-- `task_find_mapping` of src/kernel/task/task_mapping.c: the mapping that holds an address.
use first_os.Base.{
  ℕ, ◌≤◌, ◌<◌, ◌≡◌, refl, ap, sym, ◌⊎◌, inl, inr, true, false, ◌&&◌, Option, none, some, List, [],
  ◌∷◌, ◌++◌, arith, All, ltb, leb, Bool-cases, ltb→lt, ltb→ge,
}
use mathlib.Core.Path.{subst}
use first_os.Mappings.{Mapping, add64, kernel_virtual_base, task_find_mapping}
use first_os.Mappings.Layout.{no_wrap, end_of, IsLaid}

-- The address lies outside the mapping.
abbrev pub Misses : ℕ → Mapping → Type 0
Misses vaddr d = (vaddr < d.vaddr) ⊎ (end_of d ≤ vaddr)

-- What the search shall return: a mapping of the list that holds the address, or nothing when every
-- mapping misses it.
abbrev pub Found : List Mapping → ℕ → Option Mapping → Type 0
Found ms vaddr none = All (Misses vaddr) ms
Found ms vaddr (some m) =
    (front : List Mapping) × (back : List Mapping) × (ms ≡ front ++ m ∷ back)
    × (m.vaddr ≤ vaddr)
    × (vaddr < end_of m)

Found-cons :
    (m : Mapping) (ms : List Mapping) (vaddr : ℕ) (o : Option Mapping)
    → Misses vaddr m
    → Found ms vaddr o
    → Found (m ∷ ms) vaddr o
Found-cons m ms vaddr none miss f = (miss, f)
Found-cons m ms vaddr (some d) miss (front, back, e, low, high) =
    (m ∷ front, back, ap (λ l. m ∷ l) e, low, high)

above : (k v : ℕ) (ms : List Mapping) → v < k → All (λ d. k ≤ d.vaddr) ms → All (Misses v) ms
above k v [] h a = tt
above k v (m ∷ ms) h a = (inl (omega arith), above k v ms h a.1)

inside :
    (m : Mapping) (vaddr : ℕ)
    → end_of m ≤ kernel_virtual_base
    → (leb m.vaddr vaddr && ltb vaddr (add64 m.vaddr m.size)) ≡ true
    → (m.vaddr ≤ vaddr) × (vaddr < end_of m)
inside m vaddr fits e = ground (arith, no_wrap m.vaddr m.size)

behind :
    (m : Mapping) (vaddr : ℕ)
    → end_of m ≤ kernel_virtual_base
    → (leb m.vaddr vaddr && ltb vaddr (add64 m.vaddr m.size)) ≡ false
    → m.vaddr ≤ vaddr
    → end_of m ≤ vaddr
behind m vaddr fits e h = ground (arith, no_wrap m.vaddr m.size)

-- The search of a fault handler, on mappings that lie in order below the kernel: a mapping that it
-- returns is one of the list and holds the address, and when it returns none, although it stops at
-- the first mapping behind the address, no mapping holds the address.
pub task_find_mapping-Found :
    (ms : List Mapping) (vaddr : ℕ) → IsLaid ms → Found ms vaddr (task_find_mapping ms vaddr)
unfolding task_find_mapping
task_find_mapping-Found [] vaddr laid = tt
task_find_mapping-Found (m ∷ ms) vaddr laid =
    elim (Bool-cases (leb m.vaddr vaddr && ltb vaddr (add64 m.vaddr m.size))) [
      | inl e ↦
          let step : task_find_mapping (m ∷ ms) vaddr ≡ some m = rw e refl in
          let (low, high) = inside m vaddr laid.0 e in
          subst (λ o. Found (m ∷ ms) vaddr o) (sym step) ([], ms, refl, low, high)
      | inr e ↦ elim (Bool-cases (ltb vaddr m.vaddr)) [
        | inl f ↦
            let step : task_find_mapping (m ∷ ms) vaddr ≡ none = rw e (rw f refl) in
            let lt = ltb→lt _ _ f in
            subst (λ o. Found (m ∷ ms) vaddr o) (sym step)
              (inl lt, above (end_of m) vaddr ms (omega arith) laid.1)
        | inr f ↦
            let step : task_find_mapping (m ∷ ms) vaddr ≡ task_find_mapping ms vaddr =
              rw e (rw f refl) in
            let miss = behind m vaddr laid.0 e (ltb→ge _ _ f) in
            subst (λ o. Found (m ∷ ms) vaddr o) (sym step)
              (Found-cons m ms vaddr _ (inr miss) (task_find_mapping-Found ms vaddr laid.2))
      ]
    ]
