-- ===== src/Fdt/Walk.antt =====
-- `fdt_child_node` and `fdt_sibling_node` of src/fdt/fdt_parser.c on the tokens of a tree.
use first_os.Base.{
  ℕ, zero, suc, ◌+◌, ◌-◌, ◌≤◌, ◌<◌, ◌≡◌, ◌≢◌, refl, ap, sym, ◌∙◌, Option, some, List, [], ◌∷◌,
  arith, ne→==,
}
use mathlib.Core.Path.{subst}
use first_os.Fdt.{
  Bytes, read32, token_begin_node, token_end_node, token_prop, token_end, fdt_next_token_addr,
  sibling_loop, fdt_sibling_node, child_loop, fdt_child_node,
}
use first_os.Fdt.Tree.{
  Token, begin_node, prop, end_node, At, Node, node, Nodes, no_nodes, and_node, prop_tokens, tokens,
  tokens_of,
}
use first_os.Fdt.Next.{Goes, fdt_next_token_addr_lem}

-- One round of the loop of `fdt_sibling_node`, by the word it comes to.
module _ (rounds fuel : ℕ) (m : Bytes) (a b d : ℕ)
    (next : fdt_next_token_addr fuel m a ≡ some b) where
  sibling_loop-begin :
      read32 m b ≡ token_begin_node
      → sibling_loop (suc rounds) fuel m a (suc d) ≡ sibling_loop rounds fuel m b (suc (suc d))
  unfolding sibling_loop
  sibling_loop-begin e = rw next (
      rw e (
        rw (ne→== (suc d + 1) 1 (λ (h : suc d + 1 ≡ 1). omega arith))
          (ap (λ k. sibling_loop rounds fuel m b k) (omega arith))))

  sibling_loop-end :
      read32 m b ≡ token_end_node
      → sibling_loop (suc rounds) fuel m a (suc d) ≡ sibling_loop rounds fuel m b d
  unfolding sibling_loop
  sibling_loop-end e = rw next (
      rw e (
        rw (ne→== (suc d) 0 (λ (h : suc d ≡ 0). omega arith))
          (ap (λ k. sibling_loop rounds fuel m b k) (omega arith))))

  sibling_loop-prop :
      read32 m b ≡ token_prop
      → sibling_loop (suc rounds) fuel m a d ≡ sibling_loop rounds fuel m b d
  unfolding sibling_loop
  sibling_loop-prop e = rw next (rw e refl)

  -- The rounds that return.
  sibling_loop-found : read32 m b ≡ token_begin_node → sibling_loop (suc rounds) fuel m a 0 ≡ some b
  unfolding sibling_loop
  sibling_loop-found e = rw next (rw e refl)

  sibling_loop-last : read32 m b ≡ token_end_node → sibling_loop (suc rounds) fuel m a 0 ≡ some 0
  unfolding sibling_loop
  sibling_loop-last e = rw next (rw e refl)

  sibling_loop-the_end : read32 m b ≡ token_end → sibling_loop (suc rounds) fuel m a d ≡ some 0
  unfolding sibling_loop
  sibling_loop-the_end e = rw next (rw e refl)

-- The walk over some tokens from one that goes on: after `k` rounds it stands before `rest`, at the same
-- depth.
abbrev Walked : ℕ → ℕ → Bytes → ℕ → ℕ → List Token → Type 0
Walked k fuel m a d rest =
    (a' : ℕ) × (t : Token) × Goes t
    × (a ≤ a')
    × At fuel m a' (t ∷ rest)
    × ((r : ℕ) → sibling_loop (k + r) fuel m a d ≡ sibling_loop r fuel m a' d)

unfoldable pub prop_count : List (ℕ × List ℕ) → ℕ
prop_count [] = 0
prop_count (p ∷ ps) = suc (prop_count ps)

walk_props :
    (ps : List (ℕ × List ℕ)) (rest : List Token) (fuel : ℕ) (m : Bytes) (a d : ℕ) (t : Token)
    → Goes t
    → At fuel m a (t ∷ prop_tokens ps rest)
    → Walked (prop_count ps) fuel m a d rest
unfolding prop_count
walk_props [] rest fuel m a d t g at =
    (a, t, g, omega arith, at, λ r. ap (λ k. sibling_loop k fuel m a d) (omega arith))
walk_props ((nameoff, value) ∷ ps) rest fuel m a d t g at =
    let (b, next, further, at_b) =
      fdt_next_token_addr_lem fuel m a t (prop nameoff value) (prop_tokens ps rest) at g in
    let (a', t', g', le, at', same) = walk_props ps rest fuel m b d (prop nameoff value) tt at_b in
    (
      a',
      t',
      g',
      omega arith,
      at',
      λ r.
          ap (λ k. sibling_loop k fuel m a d) (omega arith)
          ∙ sibling_loop-prop (prop_count ps + r) fuel m a b d next at_b.0.0
          ∙ same r,
    )

-- How many tokens a node has.
unfoldable mutual
  pub token_count : Node → ℕ
  token_count (node name props children) = suc (prop_count props + suc (token_count_of children))

  pub token_count_of : Nodes → ℕ
  token_count_of no_nodes = 0
  token_count_of (and_node n ns) = token_count n + token_count_of ns

mutual
  unfolding tokens token_count

  walk_node :
      (n : Node) (rest : List Token) (fuel : ℕ) (m : Bytes) (a d : ℕ) (t : Token)
      → Goes t
      → At fuel m a (t ∷ tokens n rest)
      → Walked (token_count n) fuel m a (suc d) rest
  walk_node (node name props children) rest fuel m a d t g at =
      let inner = tokens_of children (end_node ∷ rest) in
      let (b, next_b, further, at_b) =
        fdt_next_token_addr_lem fuel m a t (begin_node name) (prop_tokens props inner) at g in
      let (p, t_p, g_p, le_p, at_p, same_p) =
        walk_props props inner fuel m b (suc (suc d)) (begin_node name) tt at_b in
      let (c, t_c, g_c, le_c, at_c, same_c) =
        walk_nodes children (end_node ∷ rest) fuel m p (suc d) t_p g_p at_p in
      let (e, next_e, further_e, at_e) =
        fdt_next_token_addr_lem fuel m c t_c end_node rest at_c g_c in
      (
        e,
        end_node,
        tt,
        omega arith,
        at_e,
        λ r.
            ap (λ k. sibling_loop k fuel m a (suc d)) (omega arith)
            ∙ sibling_loop-begin (prop_count props + (token_count_of children + suc r)) fuel m a b d
                next_b at_b.0.0
            ∙ same_p (token_count_of children + suc r)
            ∙ same_c (suc r)
            ∙ sibling_loop-end r fuel m c e (suc d) next_e at_e.0,
      )

  walk_nodes :
      (ns : Nodes) (rest : List Token) (fuel : ℕ) (m : Bytes) (a d : ℕ) (t : Token)
      → Goes t
      → At fuel m a (t ∷ tokens_of ns rest)
      → Walked (token_count_of ns) fuel m a (suc d) rest
  walk_nodes no_nodes rest fuel m a d t g at =
      (a, t, g, omega arith, at, λ r. ap (λ k. sibling_loop k fuel m a (suc d)) (omega arith))
  walk_nodes (and_node n ns) rest fuel m a d t g at =
      let (b, t_b, g_b, le_b, at_b, same_b) = walk_node n (tokens_of ns rest) fuel m a d t g at in
      let (c, t_c, g_c, le_c, at_c, same_c) = walk_nodes ns rest fuel m b d t_b g_b at_b in
      (
        c,
        t_c,
        g_c,
        omega arith,
        at_c,
        λ r.
            ap (λ k. sibling_loop k fuel m a (suc d)) (omega arith)
            ∙ same_b (token_count_of ns + r)
            ∙ same_c r,
      )

-- The first of some nodes that stand before `rest`: the null pointer if there is none, else an address
-- further on where the node and the others stand.
abbrev pub FirstOf : ℕ → Bytes → ℕ → Nodes → List Token → Option ℕ → Type 0
FirstOf fuel m a no_nodes rest o = o ≡ some 0
FirstOf fuel m a (and_node n ns) rest o =
    (b : ℕ) × (o ≡ some b) × (a < b) × At fuel m b (tokens n (tokens_of ns rest))

FirstOf-before :
    (ns : Nodes) (rest : List Token) (o : Option ℕ) (fuel : ℕ) (m : Bytes) (a b : ℕ)
    → a < b
    → FirstOf fuel m b ns rest o
    → FirstOf fuel m a ns rest o
FirstOf-before no_nodes rest o fuel m a b lt f = f
FirstOf-before (and_node n ns) rest o fuel m a b lt (c, e, further, at) = (c, e, omega arith, at)

-- The last two steps of `fdt_sibling_node`, from before the end of the node.
sibling_loop-FirstOf :
    (ns : Nodes) (ts : List Token) (r fuel : ℕ) (m : Bytes) (a c : ℕ) (t : Token)
    → Goes t
    → a ≤ c
    → At fuel m c (t ∷ end_node ∷ tokens_of ns (end_node ∷ ts))
    → FirstOf fuel m a ns (end_node ∷ ts) (sibling_loop (suc (suc r)) fuel m c 1)
unfolding tokens
sibling_loop-FirstOf no_nodes ts r fuel m a c t g le at =
    let (e, next_e, lt_e, at_e) =
      fdt_next_token_addr_lem fuel m c t end_node (end_node ∷ ts) at g in
    let (f, next_f, lt_f, at_f) = fdt_next_token_addr_lem fuel m e end_node end_node ts at_e tt in
    sibling_loop-end (suc r) fuel m c e 0 next_e at_e.0
    ∙ sibling_loop-last r fuel m e f 0 next_f at_f.0
sibling_loop-FirstOf (and_node (node name props children) ns) ts r fuel m a c t g le at =
    let body = prop_tokens props (tokens_of children (end_node ∷ tokens_of ns (end_node ∷ ts))) in
    let (e, next_e, lt_e, at_e) =
      fdt_next_token_addr_lem fuel m c t end_node (begin_node name ∷ body) at g in
    let (f, next_f, lt_f, at_f) =
      fdt_next_token_addr_lem fuel m e end_node (begin_node name) body at_e tt in
    (
      f,
      sibling_loop-end (suc r) fuel m c e 0 next_e at_e.0
          ∙ sibling_loop-found r fuel m e f 0 next_f at_f.0.0,
      omega arith,
      at_f,
    )

-- `fdt_sibling_node` at a node, with fuel for its tokens, returns the next of its siblings, past all that
-- the node holds, and the null pointer at the last one.
pub fdt_sibling_node-FirstOf :
    (n : Node) (ns : Nodes) (ts : List Token) (fuel : ℕ) (m : Bytes) (a : ℕ)
    → a ≢ 0
    → token_count n ≤ fuel
    → At fuel m a (tokens n (tokens_of ns (end_node ∷ ts)))
    → FirstOf fuel m a ns (end_node ∷ ts) (fdt_sibling_node fuel m a)
unfolding fdt_sibling_node tokens token_count
fdt_sibling_node-FirstOf (node name props children) ns ts fuel m a nonzero enough at =
    let after = end_node ∷ tokens_of ns (end_node ∷ ts) in
    let (p, t_p, g_p, le_p, at_p, same_p) =
      walk_props props (tokens_of children after) fuel m a 1 (begin_node name) tt at in
    let (c, t_c, g_c, le_c, at_c, same_c) = walk_nodes children after fuel m p 0 t_p g_p at_p in
    let r = fuel - token_count (node name props children) in
    let step : fdt_sibling_node fuel m a ≡ sibling_loop (suc (suc r)) fuel m c 1 =
      rw (ne→== a 0 nonzero) (
        ap (λ k. sibling_loop k fuel m a 1) (omega arith)
        ∙ same_p (token_count_of children + suc (suc r))
        ∙ same_c (suc (suc r))) in
    subst (λ o. FirstOf fuel m a ns (end_node ∷ ts) o) (sym step)
      (sibling_loop-FirstOf ns ts r fuel m a c t_c g_c (omega arith) at_c)

child_loop-FirstOf :
    (ps : List (ℕ × List ℕ)) (ns : Nodes) (ts : List Token) (rounds fuel : ℕ) (m : Bytes) (a : ℕ)
    (t : Token)
    → Goes t
    → prop_count ps < rounds
    → At fuel m a (t ∷ prop_tokens ps (tokens_of ns (end_node ∷ ts)))
    → FirstOf fuel m a ns (end_node ∷ ts) (child_loop rounds fuel m a)
unfolding child_loop prop_count tokens
child_loop-FirstOf ps ns ts zero fuel m a t g h at = absurd (omega arith)
child_loop-FirstOf [] no_nodes ts (suc rounds) fuel m a t g h at =
    let (b, next_b, lt_b, at_b) = fdt_next_token_addr_lem fuel m a t end_node ts at g in
    rw next_b (rw at_b.0 refl)
child_loop-FirstOf [] (and_node (node name props children) ns) ts (suc rounds) fuel m a t g h at =
    let body = prop_tokens props (tokens_of children (end_node ∷ tokens_of ns (end_node ∷ ts))) in
    let (b, next_b, lt_b, at_b) = fdt_next_token_addr_lem fuel m a t (begin_node name) body at g in
    (b, rw next_b (rw at_b.0.0 refl), lt_b, at_b)
child_loop-FirstOf ((nameoff, value) ∷ ps) ns ts (suc rounds) fuel m a t g h at =
    let (b, next_b, lt_b, at_b) =
      fdt_next_token_addr_lem fuel m a t (prop nameoff value)
        (prop_tokens ps (tokens_of ns (end_node ∷ ts))) at g in
    let step : child_loop (suc rounds) fuel m a ≡ child_loop rounds fuel m b =
      rw next_b (rw at_b.0.0 refl) in
    subst (λ o. FirstOf fuel m a ns (end_node ∷ ts) o) (sym step)
      (FirstOf-before ns (end_node ∷ ts) _ fuel m a b lt_b
        (child_loop-FirstOf ps ns ts rounds fuel m b (prop nameoff value) tt (omega arith) at_b))

-- `fdt_child_node` at a node, with fuel for its properties, returns its first child, and the null pointer
-- where it has none.
pub fdt_child_node-FirstOf :
    (name : List ℕ) (props : List (ℕ × List ℕ)) (children : Nodes) (ts : List Token) (fuel : ℕ)
    (m : Bytes) (a : ℕ)
    → a ≢ 0
    → prop_count props < fuel
    → At fuel m a (tokens (node name props children) ts)
    → FirstOf fuel m a children (end_node ∷ ts) (fdt_child_node fuel m a)
unfolding fdt_child_node tokens
fdt_child_node-FirstOf name props children ts fuel m a nonzero enough at =
    subst (λ o. FirstOf fuel m a children (end_node ∷ ts) o)
      (sym (
        let step : fdt_child_node fuel m a ≡ child_loop fuel fuel m a =
          rw (ne→== a 0 nonzero) refl in
        step))
      (child_loop-FirstOf props children ts fuel fuel m a (begin_node name) tt enough at)
