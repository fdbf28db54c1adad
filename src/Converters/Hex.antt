-- ===== src/Converters/Hex.antt =====
-- `i32tox` and `xtoi32` of src/converters.c: hexadecimal digits.
use first_os.Base.{
  ℕ, zero, suc, ◌+◌, ◌-◌, ◌*◌, ◌/◌, ◌%◌, ◌^◌, ◌≤◌, ◌<◌, ◌≡◌, refl, ap, ap₂, sym, ◌∙◌, inl, inr,
  some, List, [], ◌∷◌, arith, leb, if◌then◌else◌, Bool-cases, bit_or, get_or, length,
}
use first_os.Base.Bits.{and_mask, or_field}
use native.Mathlib.Nat.{
  pow-suc, one-le-pow, add-mul-mod_self_right, mod-eq_of_lt, mod-lt, div-add-mod', pow-le-pow_right,
}
use first_os.Converters.{
  sar4, hex, hex_digit, itox_loop, itox, i32tox, digit_value, xtoi32_loop, xtoi32,
}

abbrev Reads : List ℕ → ℕ → Type 0
Reads [] k = Unit
Reads (c ∷ cs) k = (digit_value c ≡ some k) × Reads cs (suc k)

Reads-at :
    (cs : List ℕ) (k d : ℕ)
    → Reads cs k
    → d < length cs
    → digit_value (get_or cs d 0) ≡ some (k + d)
Reads-at [] k d r h = absurd (omega arith)
Reads-at (c ∷ cs) k zero r h = r.0 ∙ ap some (omega arith)
Reads-at (c ∷ cs) k (suc d) r h = Reads-at cs (suc k) d r.1 (omega arith) ∙ ap some (omega arith)

hex-Reads : Reads hex 0
unfolding digit_value
hex-Reads = (
  refl,
  (
    refl,
    (
      refl,
      (
        refl,
        (
          refl,
          (
            refl,
            (refl, (refl, (refl, (refl, (refl, (refl, (refl, (refl, (refl, (refl, tt)))))))))),
          ),
        ),
      ),
    ),
  ),
)

-- Each digit that is written is read as its value.
digit_value-hex : (d : ℕ) → d < 16 → digit_value (get_or hex d 0) ≡ some d
digit_value-hex d h = Reads-at hex 0 d hex-Reads h ∙ ap some (omega arith)

digit_value-hex_digit : (x : ℕ) → digit_value (hex_digit x) ≡ some (x % 16)
unfolding hex_digit
digit_value-hex_digit x =
    ap (λ d. digit_value (get_or hex d 0)) (and_mask 4 x) ∙ digit_value-hex (x % 16) (omega arith)

-- `16 ^ n` divides the bits that the shift of a negative number brings in.
fill : (n : ℕ) → n ≤ 15 → 16 ^ (15 - n) * 16 ^ n ≡ 2 ^ 60
fill zero h = omega arith
fill (suc n) h =
    let lower : 15 - n ≡ suc (15 - suc n) = omega arith in
    omega (
      arith,
      fill n (omega arith),
      ap (λ t. 16 ^ (15 - suc n) * t) (pow-suc 16 n),
      ap (λ t. 16 ^ t * 16 ^ n) lower,
      ap (λ t. t * 16 ^ n) (pow-suc 16 (15 - suc n)),
    )

-- The low digits of a number do not depend on its sign.
sar4-low : (n x : ℕ) → n ≤ 15 → sar4 x % 16 ^ n ≡ x / 16 % 16 ^ n
unfolding sar4
sar4-low n x h = elim (Bool-cases (leb (2 ^ 63) x)) [
  | inl e ↦ rw e (
      ap (λ t. (x / 16 + t) % 16 ^ n) (omega (arith, ap (λ t. 15 * t) (fill n h), shape n))
      ∙ add-mul-mod_self_right (x / 16) (15 * 16 ^ (15 - n)) (16 ^ n))
  | inr e ↦ rw e refl
]
  where
    shape : (n : ℕ) → 15 * 16 ^ (15 - n) * 16 ^ n ≡ 15 * (16 ^ (15 - n) * 16 ^ n)
    shape n = omega arith

split_low : (n x : ℕ) → x % 16 ^ suc n ≡ x / 16 % 16 ^ n * 16 + x % 16
split_low n x =
    ap (λ t. t % 16 ^ suc n) parts
    ∙ add-mul-mod_self_right (x / 16 % 16 ^ n * 16 + x % 16) (x / 16 / 16 ^ n) (16 ^ suc n)
    ∙ mod-eq_of_lt
        (omega (arith, pow-suc 16 n, mod-lt (x / 16) {m = 16 ^ n} (one-le-pow n 16 (omega arith))))
  where
    parts : x ≡ x / 16 % 16 ^ n * 16 + x % 16 + x / 16 / 16 ^ n * 16 ^ suc n
    parts =
        omega (arith, ap (λ t. x / 16 / 16 ^ n * t) (pow-suc 16 n), div-add-mod' (x / 16) (16 ^ n))

read_some :
    (k c d v : ℕ) (done : List ℕ)
    → digit_value c ≡ some d
    → xtoi32_loop (suc k) (c ∷ done) v ≡ xtoi32_loop k done (bit_or (v * 2 ^ 4 % 2 ^ 32) d)
unfolding xtoi32_loop
read_some k c d v done e = rw (xtoi32_loop, e) refl

read_digit :
    (k x : ℕ) (done : List ℕ) (v : ℕ)
    → v < 2 ^ 28
    → xtoi32_loop (suc k) (hex_digit x ∷ done) v ≡ xtoi32_loop k done (v * 16 + x % 16)
read_digit k x done v h =
    read_some k (hex_digit x) (x % 16) v done (digit_value-hex_digit x)
    ∙ ap (λ t. xtoi32_loop k done t)
        (ap (λ t. bit_or t (x % 16)) (omega arith) ∙ or_field 4 v (x % 16) (omega arith))

small : (n x : ℕ) → n ≤ 7 → x % 16 ^ n < 2 ^ 28
small n x h = omega (
  arith,
  mod-lt x {m = 16 ^ n} (one-le-pow n 16 (omega arith)),
  pow-le-pow_right {n = 16} (omega arith) h,
)

-- Reading the digits that the loop writes gives the low digits of the number.
xtoi32_loop-itox_loop :
    (n k x : ℕ) (done : List ℕ)
    → n ≤ 8
    → xtoi32_loop (n + k) (itox_loop n x done) 0 ≡ xtoi32_loop k done (x % 16 ^ n)
unfolding itox_loop
xtoi32_loop-itox_loop zero k x done h =
    ap₂ (λ a v. xtoi32_loop a done v) (omega arith) (omega arith)
xtoi32_loop-itox_loop (suc n) k x done h =
    ap (λ t. xtoi32_loop t (itox_loop n (sar4 x) (hex_digit x ∷ done)) 0) (omega arith)
    ∙ xtoi32_loop-itox_loop n (suc k) (sar4 x) (hex_digit x ∷ done) (omega arith)
    ∙ ap (λ v. xtoi32_loop (suc k) (hex_digit x ∷ done) v) (sar4-low n x (omega arith))
    ∙ read_digit k x done (x / 16 % 16 ^ n) (small n (x / 16) (omega arith))
    ∙ ap (λ v. xtoi32_loop k done v) (sym (split_low n x))

-- `xtoi32` reads back what `i32tox` writes, for every 32-bit word.
pub xtoi32-i32tox : (x : ℕ) → x < 2 ^ 32 → xtoi32 (i32tox x) ≡ x
unfolding xtoi32 i32tox itox xtoi32_loop
xtoi32-i32tox x h = xtoi32_loop-itox_loop 8 0 _ [] (omega arith) ∙ extended
  where
    extended : (if leb (2 ^ (32 - 1)) x then x + 2 ^ 64 - 2 ^ 32 else x) % 16 ^ 8 ≡ x
    extended = ground arith
