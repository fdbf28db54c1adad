-- ===== src/Converters/Tests.antt =====
-- Runs of the converters, and the theorems on them at concrete numbers.
use first_os.Base.{ℕ, ◌-◌, ◌^◌, ◌≡◌, refl, none, some, List, [], ◌∷◌, arith}
use first_os.Converters.{
  be32_to_cpu, be64_to_cpu, i32tox, xtoi32, itoa, atoi, itox, itox_loop, sar4, hex_digit,
  itoa_digits,
}
use first_os.Converters.Hex.{xtoi32-i32tox}
use first_os.Converters.Decimal.{atoi-itoa, itoa-overflows}

be64_to_cpu_run : be64_to_cpu 0x0123456789abcdef ≡ 0xefcdab8967452301
unfolding be64_to_cpu
be64_to_cpu_run = refl

be32_to_cpu_run : be32_to_cpu 0x12345678 ≡ 0x78563412
unfolding be32_to_cpu
be32_to_cpu_run = refl

i32tox_run : i32tox 0xffff00a7 ≡ 102 ∷ 102 ∷ 102 ∷ 102 ∷ 48 ∷ 48 ∷ 97 ∷ 55 ∷ []
unfolding i32tox itox itox_loop sar4 hex_digit
i32tox_run = refl

itoa_run : itoa (2 ^ 64 - 42) ≡ some (45 ∷ 52 ∷ 50 ∷ [])
unfolding itoa itoa_digits
itoa_run = refl

xtoi32-i32tox_example : xtoi32 (i32tox 0xdeadbeef) ≡ 0xdeadbeef
xtoi32-i32tox_example = xtoi32-i32tox 0xdeadbeef (omega arith)

atoi-itoa_example : (s : List ℕ) × (itoa 907 ≡ some s) × (atoi s ≡ 907)
atoi-itoa_example = atoi-itoa 907 (omega arith)

itoa-overflows_example : itoa 12345678901 ≡ none
itoa-overflows_example = itoa-overflows 12345678901 (omega arith) (omega arith)
