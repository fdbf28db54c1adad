-- ===== src/Fdt/Property.antt =====
-- `fdt_property_by_name` and `fdt_node_is_compatible` of src/fdt/fdt_parser.c on the tokens of a node.
use first_os.Base.{
  ℕ, zero, suc, ◌+◌, ◌-◌, ◌%◌, ◌^◌, ◌≤◌, ◌<◌, ◌≡◌, ◌≢◌, ◌⊎◌, refl, ap, ap₂, sym, ◌∙◌, inl, inr,
  Bool, true, false, Option, none, some, some_inj, none-some, Bool-cases, List, [], ◌∷◌, ◌++◌,
  arith, ◌==◌, ltb, if◌then◌else◌, ne→==, ◌>>=◌, length, take,
}
use mathlib.Core.Path.{subst}
use first_os.Converters.{be32_to_cpu}
use first_os.Strings.{streql}
use first_os.Strings.Compare.{streqln_lem}
use first_os.Fdt.{Bytes, read32, fdt_next_token_addr}
use first_os.Fdt.Tree.{
  Token, begin_node, prop, end_node, the_end, Stored, NonZero, TokenAt, At, node, Nodes, no_nodes,
  and_node, prop_tokens, tokens,
}
use first_os.Fdt.Next.{Goes, fdt_next_token_addr_lem}
use first_os.Fdt.Walk.{prop_count}
use first_os.Fdt.Lookup.{
  string_at, fdt_property_name, fdt_next_property_addr, property_loop, fdt_property_by_name,
  compatible_loop, fdt_node_is_compatible, entry_end, compatible_name,
}

pub string_at_lem :
    (fuel : ℕ) (m : Bytes) (a : ℕ) (s : List ℕ)
    → NonZero s
    → Stored m a (s ++ 0 ∷ [])
    → length s < fuel
    → string_at fuel m a ≡ s
unfolding string_at
string_at_lem zero m a s n h lt = absurd (omega arith)
string_at_lem (suc fuel) m a [] n h lt = rw h.0 refl
string_at_lem (suc fuel) m a (c ∷ s) n h lt =
    rw (ne→== (m a) 0 (λ e. n.0 (sym h.0 ∙ e)))
      (ap₂ (λ x xs. x ∷ xs) h.0 (string_at_lem fuel m (a + 1) s n.1 h.1 (omega arith)))

take_all : (n : ℕ) (s : List ℕ) → length s ≤ n → take n s ≡ s
take_all zero [] h = refl
take_all zero (c ∷ s) h = absurd (omega arith)
take_all (suc n) [] h = refl
take_all (suc n) (c ∷ s) h = ap (λ xs. c ∷ xs) (take_all n s (omega arith))

abbrev Fits : List ℕ → Type 0
Fits s = NonZero s × length s < 2 ^ 32

streql_ne : (a b : List ℕ) → Fits a → Fits b → streql a b ≡ false → a ≢ b
unfolding streql
streql_ne a b ha hb h e =
    let same = (streqln_lem a b (2 ^ 32 - 1) ha.0 hb.0).1 (ap (take (2 ^ 32 - 1)) e) in
    true-false (sym same ∙ h)
  where
    true-false : true ≡ false → ⊥
    true-false p = cc

streql_eq : (a b : List ℕ) → Fits a → Fits b → streql a b ≡ true → a ≡ b
unfolding streql
streql_eq a b ha hb h =
    sym (take_all (2 ^ 32 - 1) a (omega (arith, ha.1)))
    ∙ (streqln_lem a b (2 ^ 32 - 1) ha.0 hb.0).0 h
    ∙ take_all (2 ^ 32 - 1) b (omega (arith, hb.1))

-- The strings block holds `name_of nameoff` at each offset that a property has.
abbrev pub Names : ℕ → Bytes → ℕ → (ℕ → List ℕ) → List (ℕ × List ℕ) → Type 0
Names fuel m fdt_addr name_of [] = Unit
Names fuel m fdt_addr name_of ((nameoff, value) ∷ ps) =
    (NonZero (name_of nameoff)
      × (length (name_of nameoff) < fuel)
      × (length (name_of nameoff) < 2 ^ 32)
      × Stored m (fdt_addr + be32_to_cpu (read32 m (fdt_addr + 12)) + nameoff)
          (name_of nameoff ++ 0 ∷ []))
    × Names fuel m fdt_addr name_of ps

-- The first property with the name, as the address behind its token, and the null pointer if there is
-- none.
abbrev pub FirstNamed : Bytes → ℕ → (ℕ → List ℕ) → List ℕ → List (ℕ × List ℕ) → Option ℕ → Type 0
FirstNamed m a name_of name [] o = o ≡ some 0
FirstNamed m a name_of name ((nameoff, value) ∷ ps) o =
    ((name_of nameoff ≡ name)
      × ((q : ℕ) × (a < q) × (o ≡ some (q + 4)) × TokenAt m q (prop nameoff value)))
    ⊎ ((name_of nameoff ≢ name) × FirstNamed m a name_of name ps o)

FirstNamed-before :
    (ps : List (ℕ × List ℕ)) (m : Bytes) (a b : ℕ) (name_of : ℕ → List ℕ) (name : List ℕ)
    (o : Option ℕ)
    → a < b
    → FirstNamed m b name_of name ps o
    → FirstNamed m a name_of name ps o
FirstNamed-before [] m a b name_of name o lt f = f
FirstNamed-before ((nameoff, value) ∷ ps) m a b name_of name o lt f = elim f [
  | inl (same, (q, lt_q, e, at)) ↦ inl (same, (q, omega arith, e, at))
  | inr (other, rest) ↦ inr (other, FirstNamed-before ps m a b name_of name o lt rest)
]

-- A round of the loop of `fdt_property_by_name` at a property.
module _ (rounds fuel : ℕ) (m : Bytes) (fdt_addr a b : ℕ) (name : List ℕ) (nameoff : ℕ)
    (value found : List ℕ) (next : fdt_next_token_addr fuel m a ≡ some b) (positive : a < b)
    (at : TokenAt m b (prop nameoff value)) (nonzero : NonZero found) (short : length found < fuel)
    (stored : Stored m
      (fdt_addr + be32_to_cpu (read32 m (fdt_addr + 12)) + nameoff)
      (found ++ 0 ∷ [])) where
  fdt_next_property_addr-prop : fdt_next_property_addr fuel m a ≡ some b
  unfolding fdt_next_property_addr
  fdt_next_property_addr-prop = rw next (rw at.0 refl)

  name_read : string_at fuel m (fdt_property_name m fdt_addr (b + 4)) ≡ found
  unfolding fdt_property_name
  name_read =
      ap (λ n. string_at fuel m (fdt_addr + be32_to_cpu (read32 m (fdt_addr + 12)) + n))
        (ap (λ x. be32_to_cpu (read32 m x)) (omega arith) ∙ at.2)
      ∙ string_at_lem fuel m _ found nonzero stored short

  property_loop-prop :
      property_loop (suc rounds) fuel m fdt_addr name a
      ≡ (if streql found name then some (b + 4) else property_loop rounds fuel m fdt_addr name b)
  unfolding property_loop
  property_loop-prop =
      rw fdt_next_property_addr-prop
        (rw (ne→== b 0 (λ (e : b ≡ 0). omega arith)) (rw name_read refl))

-- A token that is no property ends the loop.
Other : Token → Type 0
Other (prop nameoff value) = ⊥
Other _ = Unit

property_loop-Other :
    (rounds fuel : ℕ) (m : Bytes) (fdt_addr a b : ℕ) (name : List ℕ) (t : Token)
    → fdt_next_token_addr fuel m a ≡ some b
    → TokenAt m b t
    → Other t
    → property_loop (suc rounds) fuel m fdt_addr name a ≡ some 0
unfolding property_loop fdt_next_property_addr Other
property_loop-Other rounds fuel m fdt_addr a b name (begin_node n) next at o =
    rw next (rw at.0 refl)
property_loop-Other rounds fuel m fdt_addr a b name (prop n v) next at o = absurd o
property_loop-Other rounds fuel m fdt_addr a b name end_node next at o = rw next (rw at refl)
property_loop-Other rounds fuel m fdt_addr a b name the_end next at o = rw next (rw at refl)

property_loop-FirstNamed :
    (ps : List (ℕ × List ℕ)) (u : Token) (ts : List Token) (rounds fuel : ℕ) (m : Bytes)
    (fdt_addr a : ℕ) (t : Token) (name_of : ℕ → List ℕ) (name : List ℕ)
    → Goes t
    → Other u
    → prop_count ps < rounds
    → Fits name
    → Names fuel m fdt_addr name_of ps
    → At fuel m a (t ∷ prop_tokens ps (u ∷ ts))
    → FirstNamed m a name_of name ps (property_loop rounds fuel m fdt_addr name a)
unfolding prop_count
property_loop-FirstNamed ps u ts zero fuel m fdt_addr a t name_of name g o h f ns at =
    absurd (omega arith)
property_loop-FirstNamed [] u ts (suc rounds) fuel m fdt_addr a t name_of name g o h f ns at =
    let (b, next_b, lt_b, at_b) = fdt_next_token_addr_lem fuel m a t u ts at g in
    property_loop-Other rounds fuel m fdt_addr a b name u next_b at_b.0 o
property_loop-FirstNamed ((nameoff, value) ∷ ps) u ts (suc rounds) fuel m fdt_addr a t name_of name
      g o h f ns at =
    let (b, next_b, lt_b, at_b) =
      fdt_next_token_addr_lem fuel m a t (prop nameoff value) (prop_tokens ps (u ∷ ts)) at g in
    let ((nonzero, short, small, stored), names) = ns in
    let step =
      property_loop-prop rounds fuel m fdt_addr a b name nameoff value (name_of nameoff) next_b lt_b
        at_b.0 nonzero short stored in
    let fits : Fits (name_of nameoff) = (nonzero, small) in
    elim (Bool-cases (streql (name_of nameoff) name)) [
      | inl e ↦ inl (
        streql_eq (name_of nameoff) name fits f e,
        (
          b,
          lt_b,
          step
              ∙ ap (λ c. if c then some (b + 4) else property_loop rounds fuel m fdt_addr name b) e,
          at_b.0,
        ),
      )
      | inr e ↦ inr (
        streql_ne (name_of nameoff) name fits f e,
        subst (λ r. FirstNamed m a name_of name ps r)
            (sym (
              step
              ∙ ap (λ c. if c then some (b + 4) else property_loop rounds fuel m fdt_addr name b)
                  e))
            (FirstNamed-before ps m a b name_of name _ lt_b (
              property_loop-FirstNamed ps u ts rounds fuel m fdt_addr b (prop nameoff value) name_of
                name tt o (omega arith) f names at_b)),
      )
    ]

-- `fdt_property_by_name` at a node, with fuel for its properties, returns the first property of the name,
-- as the address behind its token, and the null pointer if the node has none; the names of the
-- properties stand in the strings block.
pub fdt_property_by_name-FirstNamed :
    (name_of_node : List ℕ) (props : List (ℕ × List ℕ)) (children : Nodes) (ts : List Token)
    (fuel : ℕ) (m : Bytes) (fdt_addr a : ℕ) (name_of : ℕ → List ℕ) (name : List ℕ)
    → a ≢ 0
    → prop_count props < fuel
    → NonZero name
    → length name < 2 ^ 32
    → Names fuel m fdt_addr name_of props
    → At fuel m a (tokens (node name_of_node props children) ts)
    → FirstNamed m a name_of name props (fdt_property_by_name fuel m fdt_addr a name)
unfolding fdt_property_by_name tokens Other
fdt_property_by_name-FirstNamed n props no_nodes ts fuel m fdt_addr a name_of name nonzero enough nz
      small names at =
    rw (ne→== a 0 nonzero) (
      property_loop-FirstNamed props end_node ts fuel fuel m fdt_addr a (begin_node n) name_of name
        tt tt enough (nz, small) names at)
fdt_property_by_name-FirstNamed n props (and_node (node n' ps' cs') ns) ts fuel m fdt_addr a name_of
      name nonzero enough nz small names at =
    rw (ne→== a 0 nonzero) (
      property_loop-FirstNamed props (begin_node n') _ fuel fuel m fdt_addr a (begin_node n) name_of
        name tt tt enough (nz, small) names at)

-- What the result of a test, or of a computation that may run out of fuel, inherits.
module _ (r : ℕ) where
  zero_if :
      (p q : Bool) (x : ℕ) (rest : Option ℕ)
      → x ≡ 0
      → (rest ≡ some r → r ≡ 0)
      → (if p then (if q then some x else rest) else some 0) ≡ some r
      → r ≡ 0
  zero_if true true x rest h k e = sym (some_inj e) ∙ h
  zero_if true false x rest h k e = k e
  zero_if false q x rest h k e = sym (some_inj e)

  zero_bind :
      (o : Option ℕ) (f : ℕ → Option ℕ)
      → ((e : ℕ) → f e ≡ some r → r ≡ 0)
      → (o >>= f) ≡ some r
      → r ≡ 0
  zero_bind none f k e = none-some e
  zero_bind (some a) f k e = k a e

compatible_loop-lost :
    (rounds fuel : ℕ) (m : Bytes) (node_addr : ℕ) (compatible : List ℕ) (s len i r : ℕ)
    → node_addr % 2 ^ 8 ≡ 0
    → compatible_loop rounds fuel m node_addr compatible s len i ≡ some r
    → r ≡ 0
unfolding compatible_loop
compatible_loop-lost zero fuel m node_addr compatible s len i r h e = none-some e
compatible_loop-lost (suc rounds) fuel m node_addr compatible s len i r h e =
    zero_if r (ltb i len) (streql (string_at fuel m (s + i)) compatible) (node_addr % 2 ^ 8) _ h
      (zero_bind r (entry_end fuel m s len i) _
        (λ j. compatible_loop-lost rounds fuel m node_addr compatible s len (j + 1) r h))
      e

-- At a node whose address is a multiple of 256, `fdt_node_is_compatible` answers 0 whatever the node is
-- compatible with: the address is returned as a `uint8_t`.
fdt_node_is_compatible-lost :
    (fuel : ℕ) (m : Bytes) (fdt_addr node_addr : ℕ) (compatible : List ℕ) (r : ℕ)
    → node_addr % 2 ^ 8 ≡ 0
    → fdt_node_is_compatible fuel m fdt_addr node_addr compatible ≡ some r
    → r ≡ 0
unfolding fdt_node_is_compatible
fdt_node_is_compatible-lost fuel m fdt_addr node_addr compatible r h =
    zero_bind r (fdt_property_by_name fuel m fdt_addr node_addr compatible_name) _ (λ p.
      choose (p == 0) _ (
        compatible_loop-lost fuel fuel m node_addr compatible (p + 8) (be32_to_cpu (read32 m p)) 0 r
          h))
  where
    choose :
        (c : Bool) (o : Option ℕ)
        → (o ≡ some r → r ≡ 0)
        → (if c then some 0 else o) ≡ some r
        → r ≡ 0
    choose true o k e = sym (some_inj e)
    choose false o k e = k e
