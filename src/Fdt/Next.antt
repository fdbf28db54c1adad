-- ===== src/Fdt/Next.antt =====
-- `_fdt_next_token_addr` of src/fdt/fdt_parser.c: from one token to the next.
use first_os.Base.{
  ℕ, zero, suc, ◌+◌, ◌*◌, ◌<◌, ◌≡◌, ◌≢◌, refl, ap, sym, ◌∙◌, some, List, [], ◌∷◌, ◌++◌, arith,
  ne→==, length,
}
use first_os.Fdt.{
  Bytes, read32, align4, token_nop, skip_name, skip_nops, past_token, fdt_next_token_addr,
}
use first_os.Fdt.Tree.{
  Token, begin_node, prop, end_node, the_end, Stored, NonZero, TokenAt, behind, Nops, Short, At,
}

skip_name_lem :
    (fuel : ℕ) (m : Bytes) (a : ℕ) (name : List ℕ)
    → NonZero name
    → Stored m a (name ++ 0 ∷ [])
    → length name < fuel
    → skip_name fuel m a ≡ some (a + length name)
unfolding skip_name
skip_name_lem zero m a name n s h = absurd (omega arith)
skip_name_lem (suc fuel) m a [] n s h = ground arith
skip_name_lem (suc fuel) m a (c ∷ cs) n s h =
    rw (ne→== (m a) 0 (λ e. n.0 (sym s.0 ∙ e)))
      (skip_name_lem fuel m (a + 1) cs n.1 s.1 (omega arith) ∙ ap some (omega arith))

skip_nops_lem :
    (fuel : ℕ) (m : Bytes) (a n : ℕ)
    → Nops m a n
    → n < fuel
    → read32 m (a + 4 * n) ≢ token_nop
    → skip_nops fuel m a ≡ some (a + 4 * n)
unfolding skip_nops
skip_nops_lem zero m a n s h other = absurd (omega arith)
skip_nops_lem (suc fuel) m a zero s h other =
    rw (ne→== (read32 m a) token_nop (λ e. other (ap (read32 m) (omega arith) ∙ e)))
      (ap some (omega arith))
skip_nops_lem (suc fuel) m a (suc n) s h other = rw s.0 (
    skip_nops_lem fuel m (a + 4) n s.1 (omega arith) (λ e. other (ap (read32 m) (omega arith) ∙ e))
    ∙ ap some (omega arith))

-- Every token but the last one has a next.
abbrev pub Goes : Token → Type 0
Goes the_end = ⊥
Goes _ = Unit

past_token_lem :
    (fuel : ℕ) (m : Bytes) (a : ℕ) (t : Token)
    → TokenAt m a t
    → Short fuel t
    → Goes t
    → past_token fuel m a ≡ some (behind a t)
unfolding past_token
past_token_lem fuel m a (begin_node name) s h g =
    rw s.0 (rw (skip_name_lem fuel m (a + 4) name s.1 s.2 h) refl)
past_token_lem fuel m a (prop nameoff value) s h g =
    rw s.0 (ap (λ n. some (align4 (a + 12 + n))) s.1)
past_token_lem fuel m a end_node s h g = rw s refl
past_token_lem fuel m a the_end s h g = absurd g

token-ne-nop : (m : Bytes) (a : ℕ) (t : Token) → TokenAt m a t → read32 m a ≢ token_nop
token-ne-nop m a (begin_node name) s e = absurd (omega (arith, s.0))
token-ne-nop m a (prop nameoff value) s e = absurd (omega (arith, s.0))
token-ne-nop m a end_node s e = absurd (omega arith)
token-ne-nop m a the_end s e = absurd (omega arith)

lt-behind : (a : ℕ) (t : Token) → a < behind a t
unfolding align4
lt-behind a (begin_node name) = omega arith
lt-behind a (prop nameoff value) = omega arith
lt-behind a end_node = omega arith
lt-behind a the_end = omega arith

-- From a token with another one behind it, `_fdt_next_token_addr` returns the address of that one,
-- which is further on.
pub fdt_next_token_addr_lem :
    (fuel : ℕ) (m : Bytes) (a : ℕ) (t u : Token) (ts : List Token)
    → At fuel m a (t ∷ u ∷ ts)
    → Goes t
    → (next : ℕ) × (fdt_next_token_addr fuel m a ≡ some next) × (a < next) × At fuel m next (u ∷ ts)
unfolding fdt_next_token_addr
fdt_next_token_addr_lem fuel m a t u ts (s, short, (n, few, nops, rest)) g = (
  behind a t + 4 * n,
  rw (past_token_lem fuel m a t s short g)
      (skip_nops_lem fuel m (behind a t) n nops few (token-ne-nop m _ u rest.0)),
  omega (arith, lt-behind a t),
  rest,
)
