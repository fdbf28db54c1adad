-- ===== src/Converters.antt =====
-- src/converters.c: big-endian words, and numbers in hexadecimal and decimal. A character is its
-- code; a string is the list of its characters, without the NUL at its end. A signed 64-bit number
-- is its two's complement word.
pub mod Endian
pub mod Hex
pub mod Decimal
mod Tests
use first_os.Base.{
  ℕ, zero, suc, ◌+◌, ◌-◌, ◌*◌, ◌/◌, ◌%◌, ◌^◌, Bool, true, false, ◌&&◌, Option, none, some, List, [],
  ◌∷◌, ◌==◌, ltb, leb, if◌then◌else◌, bit_and, bit_or, get_or,
}

abbrev shr : ℕ → ℕ → ℕ
shr x n = x / 2 ^ n

-- `x << n` on w-bit words
abbrev shl : ℕ → ℕ → ℕ → ℕ
shl w x n = x * 2 ^ n % 2 ^ w

unfoldable pub be32_to_cpu : ℕ → ℕ
be32_to_cpu x =
    bit_or
      (bit_or (bit_or (shr (bit_and x 0xFF000000) 24) (shr (bit_and x 0x00FF0000) 8))
        (shl 32 (bit_and x 0x0000FF00) 8))
      (shl 32 (bit_and x 0x000000FF) 24)

unfoldable pub be64_to_cpu : ℕ → ℕ
be64_to_cpu x =
    let b7 = shr (bit_and x 0xFF00000000000000) 56 in
    let b6 = shr (bit_and x 0x00FF000000000000) 40 in
    let b5 = shr (bit_and x 0x0000FF0000000000) 24 in
    let b4 = shr (bit_and x 0x000000FF00000000) 8 in
    let b3 = shl 64 (bit_and x 0x00000000FF000000) 8 in
    let b2 = shl 64 (bit_and x 0x0000000000FF0000) 24 in
    let b1 = shl 64 (bit_and x 0x000000000000FF00) 40 in
    let b0 = shl 64 (bit_and x 0x00000000000000FF) 56 in
    bit_or (bit_or (bit_or (bit_or (bit_or (bit_or (bit_or b7 b6) b5) b4) b3) b2) b1) b0

abbrev hex : List ℕ
hex = 48 ∷ 49 ∷ 50 ∷ 51 ∷ 52 ∷ 53 ∷ 54 ∷ 55 ∷ 56 ∷ 57 ∷ 97 ∷ 98 ∷ 99 ∷ 100 ∷ 101 ∷ 102 ∷ []

-- `x >> 4` of a negative number shifts ones in.
unfoldable pub sar4 : ℕ → ℕ
sar4 x = if leb (2 ^ 63) x then x / 16 + 15 * 2 ^ 60 else x / 16

unfoldable pub hex_digit : ℕ → ℕ
hex_digit x = get_or hex (bit_and x 0xF) 0

-- The loop of `_itox`, which fills the buffer from its end; `done` is the part already written.
unfoldable pub itox_loop : ℕ → ℕ → List ℕ → List ℕ
itox_loop zero x done = done
itox_loop (suc n) x done = itox_loop n (sar4 x) (hex_digit x ∷ done)

-- `_itox`
unfoldable pub itox : ℕ → ℕ → List ℕ
itox x n = itox_loop n x []

-- A w-bit number extended to 64 bits by its sign.
abbrev extend : ℕ → ℕ → ℕ
extend w x = if leb (2 ^ (w - 1)) x then x + 2 ^ 64 - 2 ^ w else x

unfoldable pub i64tox : ℕ → List ℕ
i64tox x = itox x 16

unfoldable pub i32tox : ℕ → List ℕ
i32tox x = itox (extend 32 x) 8

unfoldable pub i8tox : ℕ → List ℕ
i8tox x = itox (extend 8 x) 2

-- The value of a hexadecimal digit; `none` is the `break`.
unfoldable pub digit_value : ℕ → Option ℕ
digit_value c =
    if leb 48 c && leb c 57
    then some (c - 48)
    else if leb 97 c && leb c 102
    then some (10 + (c - 97))
    else if leb 65 c && leb c 70
    then some (10 + (c - 65))
    else none

-- The loop of `xtoi32`; the first argument counts the digits that it may still read.
unfoldable pub xtoi32_loop : ℕ → List ℕ → ℕ → ℕ
xtoi32_loop zero buf result = result
xtoi32_loop (suc n) [] result = result
xtoi32_loop (suc n) (c ∷ buf) result = elim (digit_value c) [
  | none ↦ result
  | some digit ↦ xtoi32_loop n buf (bit_or (result * 2 ^ 4 % 2 ^ 32) digit)
]

unfoldable pub xtoi32 : List ℕ → ℕ
xtoi32 buf = xtoi32_loop 8 buf 0

-- The digits of `itoa`: `done` are the ones already in `digits`, the last one first. There is room
-- for as many more as the first argument says; `none` is a write behind the end of `digits`.
unfoldable pub itoa_digits : ℕ → ℕ → List ℕ → Option (List ℕ)
itoa_digits zero value done = if value == 0 then some done else none
itoa_digits (suc room) value done =
    let rest = itoa_digits room (value / 10) ((48 + value % 10) ∷ done) in
    if value == 0 then some done else rest

abbrev signed : Bool → Option (List ℕ) → Option (List ℕ)
signed is_negative none = none
signed is_negative (some digits) = some (if is_negative then 45 ∷ digits else digits)

unfoldable pub itoa : ℕ → Option (List ℕ)
itoa x =
    if x == 0
    then some (48 ∷ [])
    else if leb (2 ^ 63) x
    then signed true (itoa_digits 10 (2 ^ 64 - x) [])
    else signed false (itoa_digits 10 x [])

unfoldable pub atoi_loop : List ℕ → ℕ → ℕ
atoi_loop [] result = result
atoi_loop (c ∷ buf) result = atoi_loop buf ((result * 10 + (c + 2 ^ 64 - 48)) % 2 ^ 64)

unfoldable pub atoi : List ℕ → ℕ
atoi buf = atoi_loop buf 0
