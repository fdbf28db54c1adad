-- ===== src/Converters/Endian.antt =====
-- `be32_to_cpu` of src/converters.c reverses the four bytes of a word.
use first_os.Base.{ℕ, ◌+◌, ◌*◌, ◌/◌, ◌%◌, ◌^◌, ◌<◌, ◌≡◌, ap, ap₂, ◌∙◌, arith, bit_and, bit_or}
use first_os.Base.Bits.{and_mask, and_field, or_low}
use first_os.Converters.{be32_to_cpu}

-- `(x & (0xFF << k))`: the byte of `x` at bit `k`, in its place.
byte_at : (x k : ℕ) → bit_and x (255 * 2 ^ k) ≡ x / 2 ^ k % 256 * 2 ^ k
byte_at x k = and_field k 255 x ∙ ap (λ t. t * 2 ^ k) (and_mask 8 (x / 2 ^ k))

reversed :
    (b0 b1 b2 b3 : ℕ)
    → b0 < 256
    → b1 < 256
    → b2 < 256
    → b3 < 256
    → bit_or (bit_or (bit_or b3 (b2 * 2 ^ 8)) (b1 * 2 ^ 16)) (b0 * 2 ^ 24)
      ≡ b3 + b2 * 2 ^ 8 + b1 * 2 ^ 16 + b0 * 2 ^ 24
reversed b0 b1 b2 b3 h0 h1 h2 h3 =
    ap (λ t. bit_or (bit_or t (b1 * 2 ^ 16)) (b0 * 2 ^ 24)) (or_low 8 b2 b3 (omega arith))
    ∙ ap (λ t. bit_or t (b0 * 2 ^ 24)) (or_low 16 b1 (b2 * 2 ^ 8 + b3) (omega arith))
    ∙ or_low 24 b0 (b1 * 2 ^ 16 + (b2 * 2 ^ 8 + b3)) (omega arith)
    ∙ omega arith

-- The word with the bytes `b0`, `b1`, `b2`, `b3`, the lowest first, becomes the word with these
-- bytes in the opposite order.
be32_to_cpu-bytes :
    (b0 b1 b2 b3 : ℕ)
    → b0 < 256
    → b1 < 256
    → b2 < 256
    → b3 < 256
    → be32_to_cpu (b0 + b1 * 2 ^ 8 + b2 * 2 ^ 16 + b3 * 2 ^ 24)
      ≡ b3 + b2 * 2 ^ 8 + b1 * 2 ^ 16 + b0 * 2 ^ 24
unfolding be32_to_cpu
be32_to_cpu-bytes b0 b1 b2 b3 h0 h1 h2 h3 =
    let x = b0 + b1 * 2 ^ 8 + b2 * 2 ^ 16 + b3 * 2 ^ 24 in
    let e3 : bit_and x 0xFF000000 / 2 ^ 24 ≡ b3 = omega (arith, byte_at x 24) in
    let e2 : bit_and x 0x00FF0000 / 2 ^ 8 ≡ b2 * 2 ^ 8 = omega (arith, byte_at x 16) in
    let e1 : bit_and x 0x0000FF00 * 2 ^ 8 % 2 ^ 32 ≡ b1 * 2 ^ 16 = omega (arith, byte_at x 8) in
    let e0 : bit_and x 0x000000FF * 2 ^ 24 % 2 ^ 32 ≡ b0 * 2 ^ 24 = omega (arith, and_mask 8 x) in
    ap₂ bit_or (ap₂ bit_or (ap₂ bit_or e3 e2) e1) e0 ∙ reversed b0 b1 b2 b3 h0 h1 h2 h3
