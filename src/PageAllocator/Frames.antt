-- ===== src/PageAllocator/Frames.antt =====
-- `_allocate_frame_array` of src/kernel/mm/page_allocator.c: the search for a place that overlaps no
-- reserved region.
use first_os.Base.{
  ℕ, zero, suc, ◌+◌, ◌≤◌, ◌<◌, ◌≡◌, refl, ap, sym, ◌⊎◌, inl, inr, true, false, ◌&&◌, Option, none,
  some, List, [], ◌∷◌, arith, All, ltb, if◌then◌else◌, Bool-cases, Option-cases, ltb→ge, length,
  get_or,
}
use mathlib.Core.Path.{subst}
use first_os.PageAllocator.{
  word, add64, MemoryRegion, PageAllocator, find_overlap, frame_array_loop, allocate_frame_array,
}

-- The `size` bytes from `addr` on do not meet the region.
abbrev pub Apart : ℕ → ℕ → MemoryRegion → Type 0
Apart addr size r = (r.addr + r.size ≤ addr) ⊎ (addr + size ≤ r.addr)

-- The region's end, and an array of `size` bytes there, have addresses in 64 bits.
abbrev pub InWord : ℕ → MemoryRegion → Type 0
InWord size r = r.addr + r.size + size < word

-- How many regions end behind `addr`.
abbrev ahead : List MemoryRegion → ℕ → ℕ
ahead [] addr = 0
ahead (r ∷ rs) addr = if ltb addr (r.addr + r.size) then suc (ahead rs addr) else ahead rs addr

ahead_mono : (rs : List MemoryRegion) (a b : ℕ) → a ≤ b → ahead rs b ≤ ahead rs a
ahead_mono [] a b h = omega arith
ahead_mono (r ∷ rs) a b h = step (r.addr + r.size) (ahead rs a) (ahead rs b) (ahead_mono rs a b h)
  where
    step : (e n m : ℕ) → m ≤ n → (if ltb b e then suc m else m) ≤ (if ltb a e then suc n else n)
    step e n m k = ground arith

ahead-length : (rs : List MemoryRegion) (a : ℕ) → ahead rs a ≤ length rs
ahead-length [] a = omega arith
ahead-length (r ∷ rs) a = step (r.addr + r.size) (ahead rs a) (length rs) (ahead-length rs a)
  where
    step : (e n m : ℕ) → n ≤ m → (if ltb a e then suc n else n) ≤ suc m
    step e n m k = ground arith

-- What the inner loop finds: nothing in the way, or an end of a region further on, behind which
-- fewer regions are left.
abbrev Overlap : List MemoryRegion → ℕ → ℕ → Option ℕ → Type 0
Overlap rs addr size none = All (Apart addr size) rs
Overlap rs addr size (some next) =
    (addr < next) × (next + size < word) × (ahead rs next < ahead rs addr)

less-here :
    (a e n m : ℕ) → a < e → m ≤ n → (if ltb e e then suc m else m) < (if ltb a e then suc n else n)
less-here a e n m h k = ground arith

less-later :
    (a b e n m : ℕ)
    → a < b
    → m < n
    → (if ltb b e then suc m else m) < (if ltb a e then suc n else n)
less-later a b e n m h k = ground arith

find_overlap-Overlap :
    (rs : List MemoryRegion) (addr size : ℕ)
    → All (InWord size) rs
    → addr + size < word
    → Overlap rs addr size (find_overlap rs addr (add64 addr size))
unfolding find_overlap
find_overlap-Overlap [] addr size w h = tt
find_overlap-Overlap (r ∷ rs) addr size w h =
    let reg = w.0 in
    elim (Bool-cases (ltb addr (add64 r.addr r.size) && ltb r.addr (add64 addr size))) [
      | inl e ↦
          let step : find_overlap (r ∷ rs) addr (add64 addr size) ≡ some (r.addr + r.size) =
            rw e (ap some (omega arith)) in
          let before : addr < r.addr + r.size = in_way addr size r.addr r.size reg h e in
          subst (λ o. Overlap (r ∷ rs) addr size o) (sym step)
            (
              before,
              reg,
              less-here addr (r.addr + r.size) (ahead rs addr) (ahead rs (r.addr + r.size)) before
                  (ahead_mono rs addr (r.addr + r.size) (omega arith)),
            )
      | inr e ↦
          let step : find_overlap (r ∷ rs) addr (add64 addr size)
              ≡ find_overlap rs addr (add64 addr size) =
            rw e refl in
          subst (λ o. Overlap (r ∷ rs) addr size o) (sym step)
            (pass r rs addr size _ (out_of_way addr size r.addr r.size reg h e)
              (find_overlap-Overlap rs addr size w.1 h))
    ]
  where
    in_way :
        (a s p q : ℕ)
        → p + q + s < word
        → a + s < word
        → (ltb a (add64 p q) && ltb p (add64 a s)) ≡ true
        → a < p + q
    in_way a s p q h k e = ground arith

    out_of_way :
        (a s p q : ℕ)
        → p + q + s < word
        → a + s < word
        → (ltb a (add64 p q) && ltb p (add64 a s)) ≡ false
        → (p + q ≤ a) ⊎ (a + s ≤ p)
    out_of_way a s p q h k e = ground arith

    pass :
        (r : MemoryRegion) (rs : List MemoryRegion) (a s : ℕ) (o : Option ℕ)
        → Apart a s r
        → Overlap rs a s o
        → Overlap (r ∷ rs) a s o
    pass r rs a s none p f = (p, f)
    pass r rs a s (some n) p (before, fits, less) =
        (before, fits, less-later a n (r.addr + r.size) (ahead rs a) (ahead rs n) before less)

-- Where the search ends: with the error 0, or at an address from `addr` on where the array ends no
-- later than `end` and meets no reserved region.
abbrev pub FoundFrames : List MemoryRegion → ℕ → ℕ → ℕ → Option ℕ → Type 0
FoundFrames rs size end addr o =
    (r : ℕ) × (o ≡ some r) × ((r ≡ 0) ⊎ ((addr ≤ r) × (r + size ≤ end) × All (Apart r size) rs))

frame_array_loop-FoundFrames :
    (fuel : ℕ) (rs : List MemoryRegion) (size end addr : ℕ)
    → All (InWord size) rs
    → addr + size < word
    → ahead rs addr < fuel
    → FoundFrames rs size end addr (frame_array_loop fuel rs size end addr)
unfolding frame_array_loop
frame_array_loop-FoundFrames zero rs size end addr w h f = absurd (omega arith)
frame_array_loop-FoundFrames (suc fuel) rs size end addr w h f =
    elim (Bool-cases (ltb end (add64 addr size))) [
      | inl e ↦ (0, rw e refl, inl refl)
      | inr e ↦
          let fits : addr + size ≤ end = let ge = ltb→ge _ _ e in omega arith in
          elim (Option-cases (find_overlap rs addr (add64 addr size))) [
            | inl o ↦
                let clear =
                  subst (λ x. Overlap rs addr size x) o (find_overlap-Overlap rs addr size w h) in
                (addr, rw e (rw o refl), inr (omega arith, fits, clear))
            | inr (next, o) ↦
                let (before, in_word, less) =
                  subst (λ x. Overlap rs addr size x) o (find_overlap-Overlap rs addr size w h) in
                let (r, result, at) =
                  frame_array_loop-FoundFrames fuel rs size end next w in_word (omega arith) in
                (r, rw e (rw o result), further rs size end addr next r before at)
          ]
    ]
  where
    further :
        (rs : List MemoryRegion) (size end addr next r : ℕ)
        → addr < next
        → (r ≡ 0) ⊎ ((next ≤ r) × (r + size ≤ end) × All (Apart r size) rs)
        → (r ≡ 0) ⊎ ((addr ≤ r) × (r + size ≤ end) × All (Apart r size) rs)
    further rs size end addr next r h (inl z) = inl z
    further rs size end addr next r h (inr (a, b, c)) = inr (omega arith, b, c)

abbrev pub first_region : PageAllocator → MemoryRegion
first_region s = get_or s.available_memory 0 (record { addr = 0; size = 0 })

-- `_allocate_frame_array`, when no sum of the reserved regions wraps: the search ends within the
-- rounds that it has fuel for. It returns 0, or an address in the first available region where the
-- frame array ends within that region and meets no reserved region.
pub allocate_frame_array-FoundFrames :
    (s : PageAllocator) (size : ℕ)
    → All (InWord size) s.reserved_memory
    → (first_region s).addr + (first_region s).size < word
    → (first_region s).addr + size < word
    → FoundFrames s.reserved_memory size
        ((first_region s).addr + (first_region s).size)
        (first_region s).addr
        (allocate_frame_array s size)
unfolding allocate_frame_array
allocate_frame_array-FoundFrames s size w h k =
    subst
      (λ e.
        FoundFrames s.reserved_memory size ((first_region s).addr + (first_region s).size)
          (first_region s).addr
          (frame_array_loop (suc (length s.reserved_memory)) s.reserved_memory size e
            (first_region s).addr))
      (sym (no_wrap (first_region s).addr (first_region s).size h))
      (frame_array_loop-FoundFrames (suc (length s.reserved_memory)) s.reserved_memory size _
        (first_region s).addr w k
        (within _ _ (ahead-length s.reserved_memory (first_region s).addr)))
  where
    within : (a b : ℕ) → a ≤ b → a < suc b
    within a b l = omega arith

    no_wrap : (a b : ℕ) → a + b < word → add64 a b ≡ a + b
    no_wrap a b l = omega arith
