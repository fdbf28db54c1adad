-- ===== src/Base/Bits.antt =====
-- The bit operations of C at variables. Each law is about an operand whose bits are known: a
-- mask of low ones, a field that is shifted up, a single bit.
mod Digit
use Digit.{and_digit, or_digit, xor_digit}
use Prim.Native.Nat.{ℕ, zero, suc, ◌+◌, ◌-◌, ◌*◌, ◌/◌, ◌%◌, ◌^◌, ◌≤◌, ◌<◌}
use Prim.Native.Nat.{bit_and, bit_or, bit_xor, bit_or-bitwise}
use mathlib.Core.Path.{◌≡◌, refl, ap, ◌∙◌, sym}
use mathlib.Core.WellFounded
use native.Mathlib.Omega.{arith}
use native.Mathlib.Nat.{pow-suc, one-le-pow, div-div-eq-div-mul, mul_comm}
use first_os.Base.Orders.{lt_wf}

and-zero : (a : ℕ) → bit_and a 0 ≡ 0
and-zero a = WellFounded.induction lt_wf {C = λ n. bit_and n 0 ≡ 0} a halve
  where
    halve : (n : ℕ) → ((m : ℕ) → m < n → bit_and m 0 ≡ 0) → bit_and n 0 ≡ 0
    halve zero below = refl
    halve (suc n) below = omega (arith, and_digit (suc n) 0, below (suc n / 2) (omega arith))

or-zero : (a : ℕ) → bit_or a 0 ≡ a
or-zero a = WellFounded.induction lt_wf {C = λ n. bit_or n 0 ≡ n} a halve
  where
    halve : (n : ℕ) → ((m : ℕ) → m < n → bit_or m 0 ≡ m) → bit_or n 0 ≡ n
    halve zero below = refl
    halve (suc n) below = omega (arith, or_digit (suc n) 0, below (suc n / 2) (omega arith))

xor-zero : (a : ℕ) → bit_xor a 0 ≡ a
xor-zero a = WellFounded.induction lt_wf {C = λ n. bit_xor n 0 ≡ n} a halve
  where
    halve : (n : ℕ) → ((m : ℕ) → m < n → bit_xor m 0 ≡ m) → bit_xor n 0 ≡ n
    halve zero below = refl
    halve (suc n) below = omega (arith, xor_digit (suc n) 0, below (suc n / 2) (omega arith))

-- The power of two one bit up, also under a factor.
double : (q k : ℕ) → q * 2 ^ suc k ≡ q * 2 ^ k * 2
double q k = omega (arith, ap (λ (t : ℕ). q * t) (pow-suc 2 k))

-- `a & ((1 << k) - 1)` where `a` is split at bit `k`.
and_low : (k q r : ℕ) → r < 2 ^ k → bit_and (q * 2 ^ k + r) (2 ^ k - 1) ≡ r
and_low zero q r h = omega (arith, and-zero (q * 1 + r))
and_low (suc k) q r h = omega (
  arith,
  and_digit (q * 2 ^ suc k + r) (2 ^ suc k - 1),
  double q k,
  pow-suc 2 k,
  ap (λ (t : ℕ). bit_and t ((2 ^ suc k - 1) / 2)) halved,
  ap (λ (t : ℕ). bit_and (q * 2 ^ k + r / 2) t) ones,
  one-le-pow k 2,
  and_low k q (r / 2) (omega (arith, pow-suc 2 k)),
)
  where
    halved : (q * 2 ^ suc k + r) / 2 ≡ q * 2 ^ k + r / 2
    halved = omega (arith, double q k)

    ones : (2 ^ suc k - 1) / 2 ≡ 2 ^ k - 1
    ones = omega (arith, pow-suc 2 k)

-- A mask of `k` low ones is the remainder by `2 ^ k`.
pub and_mask : (k a : ℕ) → bit_and a (2 ^ k - 1) ≡ a % 2 ^ k
and_mask k a =
    ap (λ (t : ℕ). bit_and t (2 ^ k - 1)) (omega arith)
    ∙ and_low k (a / 2 ^ k) (a % 2 ^ k) (omega (arith, one-le-pow k 2))

halve_up : (q k : ℕ) → q * 2 ^ suc k / 2 ≡ q * 2 ^ k
halve_up q k = omega (arith, double q k)

shift_down : (a k : ℕ) → a / 2 / 2 ^ k ≡ a / 2 ^ suc k
shift_down a k = div-div-eq-div-mul a 2 (2 ^ k) ∙ ap (λ (t : ℕ). a / t) (omega (arith, pow-suc 2 k))

-- A mask that is shifted up by `k` looks at the bits above `k`.
pub and_field : (k m a : ℕ) → bit_and a (m * 2 ^ k) ≡ bit_and (a / 2 ^ k) m * 2 ^ k
and_field zero m a = omega (
  arith,
  ap (λ (t : ℕ). bit_and a t) (let e : m * 1 ≡ m = omega arith in e),
  ap (λ (t : ℕ). bit_and t m) (let e : a / 1 ≡ a = omega arith in e),
)
and_field (suc k) m a = omega (
  arith,
  and_digit a (m * 2 ^ suc k),
  ap (λ (t : ℕ). bit_and (a / 2) t) (halve_up m k),
  and_field k m (a / 2),
  ap (λ (t : ℕ). bit_and t m * 2 ^ k) (shift_down a k),
  double (bit_and (a / 2 ^ suc k) m) k,
  double m k,
)

-- `(q << k) | r` is a sum where `r` fits in `k` bits.
pub or_field : (k q r : ℕ) → r < 2 ^ k → bit_or (q * 2 ^ k) r ≡ q * 2 ^ k + r
or_field zero q r h = ap (λ (t : ℕ). bit_or (q * 1) t) none_left ∙ or-zero (q * 1) ∙ omega arith
  where
    none_left : r ≡ 0
    none_left = omega arith
or_field (suc k) q r h = omega (
  arith,
  or_digit (q * 2 ^ suc k) r,
  ap (λ (t : ℕ). bit_or t (r / 2)) (halve_up q k),
  or_field k q (r / 2) (omega (arith, pow-suc 2 k)),
  double q k,
)

-- The same with the low part on the left.
pub or_low : (k q r : ℕ) → r < 2 ^ k → bit_or r (q * 2 ^ k) ≡ q * 2 ^ k + r
or_low zero q r h = ap (λ (t : ℕ). bit_or t (q * 1)) none_left ∙ or_right (q * 1) ∙ omega arith
  where
    none_left : r ≡ 0
    none_left = omega arith

    or_right : (b : ℕ) → bit_or 0 b ≡ b
    or_right b = bit_or-bitwise 0 b
or_low (suc k) q r h = omega (
  arith,
  or_digit r (q * 2 ^ suc k),
  ap (λ (t : ℕ). bit_or (r / 2) t) (halve_up q k),
  or_low k q (r / 2) (omega (arith, pow-suc 2 k)),
  double q k,
)

bit_up : (k : ℕ) → 2 ^ suc k / 2 ≡ 2 ^ k
bit_up k = omega (arith, pow-suc 2 k)

-- `a ^ (1 << k)` sets bit `k` where it is clear.
pub xor_unset : (k a : ℕ) → a / 2 ^ k % 2 ≡ 0 → bit_xor a (2 ^ k) ≡ a + 2 ^ k
xor_unset zero a h = omega (arith, xor_digit a 1, xor-zero (a / 2))
xor_unset (suc k) a h = omega (
  arith,
  xor_digit a (2 ^ suc k),
  ap (λ (t : ℕ). bit_xor (a / 2) t) (bit_up k),
  xor_unset k (a / 2) (ap (λ (t : ℕ). t % 2) (shift_down a k) ∙ h),
  pow-suc 2 k,
)

-- `a ^ (1 << k)` clears bit `k` where it is set.
pub xor_set : (k a : ℕ) → a / 2 ^ k % 2 ≡ 1 → bit_xor a (2 ^ k) + 2 ^ k ≡ a
xor_set zero a h = omega (arith, xor_digit a 1, xor-zero (a / 2))
xor_set (suc k) a h = omega (
  arith,
  xor_digit a (2 ^ suc k),
  ap (λ (t : ℕ). bit_xor (a / 2) t) (bit_up k),
  xor_set k (a / 2) (ap (λ (t : ℕ). t % 2) (shift_down a k) ∙ h),
  pow-suc 2 k,
)
