-- ===== src/Strings.antt =====
-- src/string.c: strings. A string is the list of the characters that stand before its NUL, none of
-- which is 0; a read behind the end of the list gives the NUL.
pub mod Compare
pub mod Token
mod Tests
use first_os.Base.{
  ℕ, zero, suc, ◌+◌, ◌-◌, ◌^◌, Bool, true, false, not, ◌&&◌, ◌||◌, List, [], ◌∷◌, ◌==◌, leb,
  if◌then◌else◌, get_or, drop,
}

unfoldable pub kstrlen : List ℕ → ℕ
kstrlen [] = 0
kstrlen (c ∷ s) = let rest = kstrlen s in if c == 0 then 0 else suc rest

-- The loop of `streqln`, with `len - i` steps to go: both arguments stand at index `i`.
unfoldable pub streqln : List ℕ → List ℕ → ℕ → Bool
streqln a b zero = true
streqln [] b (suc n) = 0 == get_or b 0 0
streqln (x ∷ a) [] (suc n) = x == 0
streqln (x ∷ a) (y ∷ b) (suc n) =
    let rest = streqln a b n in if not (x == 0) && not (y == 0) && (x == y) then rest else x == y

-- The length -1 is a `uint32_t`.
unfoldable pub streql : List ℕ → List ℕ → Bool
streql a b = streqln a b (2 ^ 32 - 1)

-- The loop of `strtoken` at index `i`; the list is the rest of the string from there on.
unfoldable pub strtoken_loop : List ℕ → List ℕ → ℕ → ℕ → ℕ
strtoken_loop [] token tokenlen i = i
strtoken_loop (c ∷ s) token tokenlen i =
    let rest = strtoken_loop s token tokenlen (suc i) in
    if (c == 0) || streqln (c ∷ s) token tokenlen then i else rest

unfoldable pub strtoken : List ℕ → List ℕ → ℕ → ℕ
strtoken s token offset = strtoken_loop (drop offset s) token (kstrlen token) offset

-- The loop of `strslice`, with `n` characters to go: what it writes to the buffer.
unfoldable pub strslice_loop : List ℕ → ℕ → ℕ → ℕ → List ℕ
strslice_loop s offset i zero = 0 ∷ []
strslice_loop s offset i (suc n) = get_or s (offset + i) 0 ∷ strslice_loop s offset (suc i) n

unfoldable pub strslice : List ℕ → ℕ → ℕ → List ℕ
strslice s offset n = strslice_loop s offset 0 n

unfoldable pub is_numeric : ℕ → Bool
is_numeric s = leb 48 s && leb s 57
