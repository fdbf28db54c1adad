-- ===== src/Base/Bits/Digit.antt =====
-- One binary digit at a time: each operation is its value on the halves, doubled, plus its value
-- on the lowest digits.
use Prim.Native.Nat.{ℕ, zero, suc, ◌+◌, ◌*◌, ◌/◌, ◌%◌, ◌≤◌, ◌<◌, min, max, digits, bitwise, differ}
use Prim.Native.Nat.{bit_and, bit_or, bit_xor, bit_and-bitwise, bit_or-bitwise, bit_xor-bitwise}
use mathlib.Core.Path.{◌≡◌, refl, ap, ◌∙◌}
use native.Mathlib.Omega.{arith}

module _ (rest : ℕ → ℕ) (op : ℕ → ℕ → ℕ) where
  -- Any count of digits that is enough for `a` gives the same result.
  enough : (k a b l : ℕ) → a ≤ k → a ≤ l → digits rest op k a b ≡ digits rest op l a b
  enough zero zero b zero hk hl = refl
  enough zero zero b (suc l) hk hl = refl
  enough zero (suc a) b l hk hl = absurd (omega arith)
  enough (suc k) zero b zero hk hl = refl
  enough (suc k) zero b (suc l) hk hl = refl
  enough (suc k) (suc a) b zero hk hl = absurd (omega arith)
  enough (suc k) (suc a) b (suc l) hk hl =
      ap (λ t. t * 2 + op (suc a % 2) (b % 2))
        (enough k (suc a / 2) (b / 2) l (omega arith) (omega arith))

  lowest :
      (a b : ℕ)
      → bitwise rest op (suc a) b ≡ bitwise rest op (suc a / 2) (b / 2) * 2 + op (suc a % 2) (b % 2)
  lowest a b =
      ap (λ t. t * 2 + op (suc a % 2) (b % 2))
        (enough a (suc a / 2) (b / 2) (suc a / 2) (omega arith) (omega arith))

pub and_digit : (a b : ℕ) → bit_and a b ≡ bit_and (a / 2) (b / 2) * 2 + min (a % 2) (b % 2)
and_digit zero b = simp bit_and-bitwise (omega arith)
and_digit (suc a) b = simp bit_and-bitwise (lowest (λ y. 0) min a b)

pub or_digit : (a b : ℕ) → bit_or a b ≡ bit_or (a / 2) (b / 2) * 2 + max (a % 2) (b % 2)
or_digit zero b = simp bit_or-bitwise (omega arith)
or_digit (suc a) b = simp bit_or-bitwise (lowest (λ y. y) max a b)

differ_lem : (a b : ℕ) → a < 2 → b < 2 → differ a b ≡ (a + b) % 2
differ_lem zero b ha hb = omega arith
differ_lem (suc zero) zero ha hb = refl
differ_lem (suc zero) (suc zero) ha hb = refl
differ_lem (suc zero) (suc (suc b)) ha hb = absurd (omega arith)
differ_lem (suc (suc a)) b ha hb = absurd (omega arith)

pub xor_digit : (a b : ℕ) → bit_xor a b ≡ bit_xor (a / 2) (b / 2) * 2 + (a % 2 + b % 2) % 2
xor_digit zero b = simp bit_xor-bitwise (omega arith)
xor_digit (suc a) b = simp bit_xor-bitwise (
    lowest (λ y. y) differ a b
    ∙ ap (λ t. bitwise (λ y. y) differ (suc a / 2) (b / 2) * 2 + t)
        (differ_lem (suc a % 2) (b % 2) (omega arith) (omega arith)))
