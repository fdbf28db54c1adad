-- ===== src/Converters/Decimal.antt =====
-- `itoa` and `atoi` of src/converters.c.
use first_os.Base.{
  ℕ, zero, suc, ◌+◌, ◌/◌, ◌%◌, ◌^◌, ◌≤◌, ◌<◌, ◌≡◌, refl, ap, sym, ◌∙◌, inl, inr, false, none, some,
  List, [], ◌∷◌, arith, ◌==◌, leb, Bool-cases, ==→eq, ne→==,
}
use native.Mathlib.Nat.{pow-suc, one-le-pow}
use first_os.Converters.{itoa_digits, signed, itoa, atoi_loop, atoi}

-- A value that fits in the room is written, and reading it back goes on from the value.
itoa_digits_lem :
    (room value : ℕ) (done : List ℕ)
    → value < 10 ^ room
    → value < 2 ^ 64
    → (s : List ℕ) × (itoa_digits room value done ≡ some s) × (atoi_loop s 0 ≡ atoi_loop done value)
unfolding itoa_digits atoi_loop
itoa_digits_lem zero value done h k =
    let none_left : value ≡ 0 = omega arith in
    (done, rw none_left refl, ap (λ v. atoi_loop done v) (sym none_left))
itoa_digits_lem (suc room) value done h k = elim (Bool-cases (value == 0)) [
  | inl e ↦
      let none_left = ==→eq _ _ e in (done, rw e refl, ap (λ v. atoi_loop done v) (sym none_left))
  | inr e ↦
      let (s, written, same) =
        itoa_digits_lem room (value / 10) ((48 + value % 10) ∷ done) (omega arith) (omega arith) in
      (s, rw e written, same ∙ ap (λ v. atoi_loop done v) (omega arith))
]

-- A value that does not fit leaves the room.
itoa_digits-full :
    (room value : ℕ) (done : List ℕ) → 10 ^ room ≤ value → itoa_digits room value done ≡ none
unfolding itoa_digits
itoa_digits-full zero value done h = rw (ne→== value 0 (λ e. omega arith)) refl
itoa_digits-full (suc room) value done h =
    let more = pow-suc 10 room in
    let some_left = one-le-pow room 10 in
    rw (ne→== value 0 (λ e. omega arith))
      (itoa_digits-full room (value / 10) ((48 + value % 10) ∷ done) (omega arith))

-- `itoa` writes every number from 0 to 9999999999, and `atoi` reads it back.
pub atoi-itoa : (x : ℕ) → x < 10 ^ 10 → (s : List ℕ) × (itoa x ≡ some s) × (atoi s ≡ x)
unfolding itoa atoi atoi_loop
atoi-itoa x h = elim (Bool-cases (x == 0)) [
  | inl e ↦ (48 ∷ [], rw e refl, atoi_zero ∙ sym (==→eq _ _ e))
  | inr e ↦
      let (s, written, same) = itoa_digits_lem 10 x [] h (omega arith) in
      let sign : leb (2 ^ 63) x ≡ false = ground arith in
      (s, rw e (rw sign (ap (signed false) written)), same ∙ atoi_end x)
]
  where
    atoi_zero : atoi_loop (48 ∷ []) 0 ≡ 0
    atoi_zero = refl

    atoi_end : (v : ℕ) → atoi_loop [] v ≡ v
    atoi_end v = refl

-- `itoa` writes behind the end of its ten digits for every positive number of eleven digits or more,
-- although such numbers are in the range of its argument.
pub itoa-overflows : (x : ℕ) → 10 ^ 10 ≤ x → x < 2 ^ 63 → itoa x ≡ none
unfolding itoa
itoa-overflows x h k =
    let nonzero : (x == 0) ≡ false = ground arith in
    let sign : leb (2 ^ 63) x ≡ false = ground arith in
    rw nonzero (rw sign (ap (signed false) (itoa_digits-full 10 x [] h)))
