-- ===== src/PageAllocator/Buddy.antt =====
-- `_get_buddy` of src/kernel/mm/page_allocator.c: how a block and its buddy lie, and what their
-- merger in `memory_free_pages` makes of them.
use first_os.Base.{
  ℕ, zero, suc, ◌+◌, ◌*◌, ◌/◌, ◌%◌, ◌^◌, ◌<◌, ◌≡◌, refl, ap, sym, ◌∙◌, ◌⊎◌, inl, inr, arith,
  bit_xor, ltb, lt→ltb, true, ◌≤◌,
}
use first_os.Base.Bits.{xor_unset, xor_set}
use native.Mathlib.Nat.{pow-suc, one-le-pow, pow-le-pow_right, mul-div_left}
use first_os.PageAllocator.{page_size, word, add64, sub64, PageAllocator}
use first_os.PageAllocator.Blocks.{page_size_shift, buddy_of}

-- The bytes of a block of an order.
abbrev pub block_size : ℕ → ℕ
block_size order = page_size * 2 ^ order

block_size-pow : (order : ℕ) → block_size order ≡ 2 ^ (12 + order)
block_size-pow zero = refl
block_size-pow (suc order) = omega (
  arith,
  block_size-pow order,
  pow-suc 2 order,
  pow-suc 2 (12 + order),
  ap (λ t. 2 ^ t) (let e : 12 + suc order ≡ suc (12 + order) = omega arith in e),
)

-- Below order 19 the shift of the `int` is the size of the block.
shift-block_size : (order : ℕ) → order < 19 → page_size_shift order ≡ block_size order
unfolding page_size_shift
shift-block_size order small =
    let power : 2 ^ order ≤ 2 ^ 18 = pow-le-pow_right (omega arith) {j = 18} (omega arith) in
    let below : ltb (page_size * 2 ^ order % 2 ^ 32) (2 ^ 31) ≡ true = lt→ltb _ _ (omega arith) in
    rw below (omega arith)

-- `addr` is a block of the order in memory that starts at `base`: it lies a number of blocks behind
-- the start.
pub record IsBlock (base order addr : ℕ) : Type 0 where
  pub index : ℕ
  pub at : addr ≡ base + index * block_size order

abbrev pub BuddyOf : ℕ → ℕ → ℕ → ℕ → Type 0
BuddyOf base order addr buddy =
    ((buddy ≡ addr + block_size order) × IsBlock base (suc order) addr)
    ⊎ ((buddy + block_size order ≡ addr) × IsBlock base (suc order) buddy)

xor_index :
    (k q base addr : ℕ)
    → addr ≡ base + q * 2 ^ k
    → addr < word
    → sub64 addr base / 2 ^ k % 2 ≡ q % 2
xor_index k q base addr at room =
    ap (λ t. t / 2 ^ k % 2) (let e : sub64 addr base ≡ q * 2 ^ k = omega arith in e)
    ∙ ap (λ t. t % 2) (mul-div_left q (one-le-pow k 2 (omega arith)))

buddy_even :
    (k q base addr : ℕ)
    → addr ≡ base + q * 2 ^ k
    → q % 2 ≡ 0
    → addr + 2 * 2 ^ k < word
    → add64 (bit_xor (sub64 addr base) (2 ^ k)) base ≡ addr + 2 ^ k
buddy_even k q base addr at even room =
    omega (arith, xor_unset k (sub64 addr base) (xor_index k q base addr at (omega arith) ∙ even))

buddy_odd :
    (k q base addr : ℕ)
    → addr ≡ base + q * 2 ^ k
    → q % 2 ≡ 1
    → addr < word
    → add64 (bit_xor (sub64 addr base) (2 ^ k)) base + 2 ^ k ≡ addr
buddy_odd k q base addr at odd room =
    omega (arith, xor_set k (sub64 addr base) (xor_index k q base addr at room ∙ odd))

halve_even : (q n : ℕ) → q % 2 ≡ 0 → q * n ≡ q / 2 * (2 * n)
halve_even q n h = ap (λ t. t * n) (let e : q ≡ q / 2 * 2 = omega arith in e) ∙ omega arith

halve_odd : (q n : ℕ) → q % 2 ≡ 1 → q * n ≡ q / 2 * (2 * n) + n
halve_odd q n h = ap (λ t. t * n) (let e : q ≡ q / 2 * 2 + 1 = omega arith in e) ∙ omega arith

block_size-suc : (order : ℕ) → block_size (suc order) ≡ 2 * block_size order
block_size-suc order = omega (arith, pow-suc 2 order)

even_or_odd : (q : ℕ) → (q % 2 ≡ 0) ⊎ (q % 2 ≡ 1)
even_or_odd q = ground arith

-- For the orders below 19, the buddy of a block is the block directly behind it or directly before it, namely the one that
-- makes with it a block of the next order, which starts at the lower of the two.
pub buddy_of-BuddyOf :
    (s : PageAllocator) (order addr : ℕ)
    → order < 19
    → IsBlock s.memory_base_addr order addr
    → addr + 2 * block_size order < word
    → BuddyOf s.memory_base_addr order addr (buddy_of s addr order)
unfolding buddy_of
buddy_of-BuddyOf s order addr small block room =
    let q = block.index in
    let base = s.memory_base_addr in
    let k = 12 + order in
    let wide = block_size-pow order in
    let at_pow : addr ≡ base + q * 2 ^ k = block.at ∙ ap (λ t. base + q * t) wide in
    let same : add64 (bit_xor (sub64 addr base) (page_size_shift order)) base
        ≡ add64 (bit_xor (sub64 addr base) (2 ^ k)) base =
      ap (λ t. add64 (bit_xor (sub64 addr base) t) base) (shift-block_size order small ∙ wide) in
    elim (even_or_odd q) [
      | inl even ↦
          let behind =
            same
            ∙ buddy_even k q base addr at_pow even (room_pow addr order room)
            ∙ ap (λ t. addr + t) (sym wide) in
          inl (
            behind,
            record {
              index = q / 2;
              at =
                  block.at
                  ∙ ap (λ t. base + t)
                      (halve_even q (block_size order) even
                        ∙ ap (λ t. q / 2 * t) (sym (block_size-suc order)));
            },
          )
      | inr odd ↦
          let before =
            ap (λ t. t + block_size order) same
            ∙ ap (λ t. add64 (bit_xor (sub64 addr base) (2 ^ k)) base + t) wide
            ∙ buddy_odd k q base addr at_pow odd (below addr (block_size order) room) in
          inr (
            before,
            record {
              index = q / 2;
              at =
                  lower base q (block_size order) addr _ block.at odd before
                  ∙ ap (λ t. base + q / 2 * t) (sym (block_size-suc order));
            },
          )
    ]
  where
    room_pow : (a o : ℕ) → a + 2 * block_size o < word → a + 2 * 2 ^ (12 + o) < word
    room_pow a o h = omega (arith, block_size-pow o)

    below : (a n : ℕ) → a + 2 * n < word → a < word
    below a n h = omega arith

    lower :
        (base q n a b : ℕ) → a ≡ base + q * n → q % 2 ≡ 1 → b + n ≡ a → b ≡ base + q / 2 * (2 * n)
    lower base q n a b at odd h = omega (arith, halve_odd q n odd)
