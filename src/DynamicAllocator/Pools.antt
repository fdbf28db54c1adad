-- ===== src/DynamicAllocator/Pools.antt =====
-- `_get_pool_index` of src/kernel/mm/dynamic_allocator.c, and the chunks that `allocate` cuts.
use first_os.Base.{
  ℕ, zero, suc, ◌+◌, ◌-◌, ◌≤◌, ◌<◌, ◌≡◌, refl, ap₂, sym, ◌⊎◌, inl, inr, false, List, [], ◌∷◌, ◌++◌,
  arith, ltb, if◌then◌else◌, Bool-cases, ltb→lt, ge→ltb, lt→ltb, ap, ◌∙◌, ◌*◌, true, ==_refl, has,
  Distinct, Distinct-append_inv, append_assoc, append-nil, get_or,
}
use mathlib.Core.Path.{subst}
use first_os.DList.{LinkedList, Memory, linked_list_insert}
use first_os.DList.Chain.{IsList}
use first_os.DList.Insert.{linked_list_insert-append}
use first_os.PageAllocator.{page_size, word}
use first_os.DynamicAllocator.{chunk_sizes, empty_pools, get_pool_index, carve_loop}

-- The pool for a size is the one with the least chunks that hold it. A size above all chunks has the
-- index 0xFF of pages of its own.
abbrev pub PoolFor : ℕ → ℕ → Type 0
PoolFor size i =
    ((2048 < size) × (i ≡ 0xFF))
    ⊎ ((i < 8)
        × (size ≤ get_or chunk_sizes i 0)
        × ((i ≡ 0) ⊎ (get_or chunk_sizes (i - 1) 0 < size)))

-- `_get_pool_index` on the pools that `dynamic_allocator_init` sets up.
get_pool_index-PoolFor : (size : ℕ) → PoolFor size (get_pool_index (empty_pools chunk_sizes) size 0)
unfolding get_pool_index
get_pool_index-PoolFor size = ground arith

-- The addresses of the chunks from `addr` on, in the page at `block_addr`.
abbrev pub chunks : ℕ → ℕ → ℕ → ℕ → List ℕ
chunks zero chunk_size block_addr addr = []
chunks (suc fuel) chunk_size block_addr addr =
    if ltb addr page_size
    then (block_addr + addr) ∷ chunks fuel chunk_size block_addr (addr + chunk_size)
    else []

fresh : (xs ys : List ℕ) (n : ℕ) → Distinct (xs ++ n ∷ ys) → has n xs ≡ false
fresh xs ys n d =
    let (dx, dy, apart) = Distinct-append_inv xs (n ∷ ys) d in
    elim (Bool-cases (has n xs)) [
      | inl e ↦ let no = apart n e in let self = ==_refl n in ground arith
      | inr e ↦ e
    ]

abbrev pub Carved : LinkedList × Memory → List ℕ → Type 0
Carved (list, nodes) xs = IsList nodes list xs

-- The loop links the chunks that it comes to, when none of them stands in the list yet.
carve_loop-Carved :
    (fuel chunk_size block_addr addr : ℕ) (xs : List ℕ) (list : LinkedList) (nodes : Memory)
    → IsList nodes list xs
    → 0 < block_addr
    → block_addr + page_size + chunk_size < word
    → addr < page_size + chunk_size
    → Distinct (xs ++ chunks fuel chunk_size block_addr addr)
    → Carved
        (carve_loop fuel chunk_size block_addr addr list nodes)
        (xs ++ chunks fuel chunk_size block_addr addr)
unfolding carve_loop
carve_loop-Carved zero c b a xs list nodes is pos room less =
    λ d. subst (λ l. IsList nodes list l) (sym (append-nil xs)) is
carve_loop-Carved (suc fuel) c b a xs list nodes is pos room less =
    elim (Bool-cases (ltb a page_size)) [
      | inl e ↦
          let inside = ltb→lt _ _ e in
          let (list1, nodes1) = linked_list_insert list (b + a) nodes in
          let cut : chunks (suc fuel) c b a ≡ (b + a) ∷ chunks fuel c b (a + c) = rw e refl in
          let step : carve_loop (suc fuel) c b a list nodes
              ≡ carve_loop fuel c b (a + c) list1 nodes1 =
            rw e (
              ap₂ (λ n t. let (l, m) = linked_list_insert list n nodes in carve_loop fuel c b t l m)
                (omega arith) (omega arith)) in
          subst
            (λ cs. Distinct (xs ++ cs) → Carved (carve_loop (suc fuel) c b a list nodes) (xs ++ cs))
            (sym cut)
            (λ d.
              subst (λ r. Carved r (xs ++ (b + a) ∷ chunks fuel c b (a + c))) (sym step)
                (subst (λ l. Carved (carve_loop fuel c b (a + c) list1 nodes1) l)
                  (append_assoc xs ((b + a) ∷ []) (chunks fuel c b (a + c)))
                  (carve_loop-Carved fuel c b (a + c) (xs ++ (b + a) ∷ []) list1 nodes1
                    (linked_list_insert-append (b + a) xs is (omega arith) (fresh xs _ (b + a) d)).0
                    pos room (omega arith)
                    (subst (λ l. Distinct l)
                      (sym (append_assoc xs ((b + a) ∷ []) (chunks fuel c b (a + c)))) d))))
      | inr e ↦ rw e (λ d. subst (λ l. IsList nodes list l) (sym (append-nil xs)) is)
    ]

-- The multiples of the chunk size from the `k`-th on, `n` of them, behind the start of the page.
abbrev pub multiples : ℕ → ℕ → ℕ → ℕ → List ℕ
multiples block_addr chunk_size k zero = []
multiples block_addr chunk_size k (suc n) =
    (block_addr + k * chunk_size) ∷ multiples block_addr chunk_size (suc k) n

chunks-multiples :
    (fuel c b k n : ℕ)
    → n < fuel
    → 0 < c
    → k * c + n * c ≡ page_size
    → chunks fuel c b (k * c) ≡ multiples b c k n
chunks-multiples zero c b k n h pos whole = absurd (omega arith)
chunks-multiples (suc fuel) c b k zero h pos whole =
    let out : ltb (k * c) page_size ≡ false = ge→ltb _ _ (omega arith) in rw out refl
chunks-multiples (suc fuel) c b k (suc n) h pos whole =
    let inside : ltb (k * c) page_size ≡ true = lt→ltb _ _ (omega arith) in
    let further : k * c + c ≡ suc k * c = omega arith in
    rw inside (
      ap (λ l. (b + k * c) ∷ l)
        (ap (chunks fuel c b) further
          ∙ chunks-multiples fuel c b (suc k) n (omega arith) pos (omega arith)))

-- For a page that chunks of the size fill, `n` of them behind the first and no more than 255: the loop
-- that `allocate` runs, with its 256 rounds, links all `n` of them, in order, to the end of the pool's
-- list, when none of them stands in the list yet. The page does not lie at 0 or at the end of memory.
pub carve_loop-IsList :
    (chunk_size n block_addr : ℕ) (xs : List ℕ) (list : LinkedList) (nodes : Memory)
    → IsList nodes list xs
    → chunk_size + n * chunk_size ≡ page_size
    → 0 < chunk_size
    → n ≤ 255
    → 0 < block_addr
    → block_addr + 2 * page_size < word
    → Distinct (xs ++ multiples block_addr chunk_size 1 n)
    → Carved
        (carve_loop 256 chunk_size block_addr chunk_size list nodes)
        (xs ++ multiples block_addr chunk_size 1 n)
carve_loop-IsList c n b xs list nodes is whole pos small above room =
    let one : 1 * c ≡ c = omega arith in
    let all : chunks 256 c b c ≡ multiples b c 1 n =
      ap (chunks 256 c b) (sym one)
      ∙ chunks-multiples 256 c b 1 n (omega arith) pos (omega arith) in
    subst (λ l. Distinct (xs ++ l) → Carved (carve_loop 256 c b c list nodes) (xs ++ l)) all
      (carve_loop-Carved 256 c b c xs list nodes is above (omega arith) (omega arith))
