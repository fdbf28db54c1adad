-- ===== src/Fdt/Tree.antt =====
-- What a device tree in memory stands for: a tree of named nodes with properties, written as the
-- tokens of the structure block. NOPs may stand behind each token.
use first_os.Base.{ℕ, zero, suc, ◌+◌, ◌*◌, ◌<◌, ◌≡◌, ◌≢◌, List, [], ◌∷◌, ◌++◌, length, All}
use first_os.Converters.{be32_to_cpu}
use first_os.Fdt.{
  Bytes, read32, align4, token_begin_node, token_end_node, token_prop, token_nop, token_end,
}

pub data Token : Type 0 where
  begin_node : List ℕ → Token
  prop : ℕ → List ℕ → Token
  end_node the_end : Token

-- The bytes of the list stand from `a` on.
abbrev pub Stored : Bytes → ℕ → List ℕ → Type 0
Stored m a [] = Unit
Stored m a (c ∷ cs) = (m a ≡ c) × Stored m (a + 1) cs

abbrev pub NonZero : List ℕ → Type 0
NonZero cs = All (λ c. c ≢ 0) cs

-- A token at an address: its word, and what follows the word.
abbrev pub TokenAt : Bytes → ℕ → Token → Type 0
TokenAt m a (begin_node name) =
    (read32 m a ≡ token_begin_node) × NonZero name × Stored m (a + 4) (name ++ 0 ∷ [])
TokenAt m a (prop nameoff value) =
    (read32 m a ≡ token_prop)
    × (be32_to_cpu (read32 m (a + 4)) ≡ length value)
    × (be32_to_cpu (read32 m (a + 8)) ≡ nameoff)
    × Stored m (a + 12) value
TokenAt m a end_node = read32 m a ≡ token_end_node
TokenAt m a the_end = read32 m a ≡ token_end

-- Where the next word begins.
abbrev pub behind : ℕ → Token → ℕ
behind a (begin_node name) = align4 (a + 4 + length name + 1)
behind a (prop nameoff value) = align4 (a + 12 + length value)
behind a end_node = a + 4
behind a the_end = a + 4

abbrev pub Nops : Bytes → ℕ → ℕ → Type 0
Nops m a zero = Unit
Nops m a (suc n) = (read32 m a ≡ token_nop) × Nops m (a + 4) n

-- The name of a node is shorter than the fuel.
abbrev pub Short : ℕ → Token → Type 0
Short fuel (begin_node name) = length name < fuel
Short fuel (prop nameoff value) = Unit
Short fuel end_node = Unit
Short fuel the_end = Unit

-- The tokens stand one behind the other from `a` on. Names and runs of NOPs are shorter than the fuel.
abbrev pub At : ℕ → Bytes → ℕ → List Token → Type 0
At fuel m a [] = Unit
At fuel m a (t ∷ ts) =
    TokenAt m a t
    × Short fuel t
    × ((n : ℕ) × (n < fuel) × Nops m (behind a t) n × At fuel m (behind a t + 4 * n) ts)

mutual
  pub data Node : Type 0 where
    node : List ℕ → List (ℕ × List ℕ) → Nodes → Node

  pub data Nodes : Type 0 where
    no_nodes : Nodes
    and_node : Node → Nodes → Nodes

abbrev pub prop_tokens : List (ℕ × List ℕ) → List Token → List Token
prop_tokens [] rest = rest
prop_tokens ((nameoff, value) ∷ ps) rest = prop nameoff value ∷ prop_tokens ps rest

-- The tokens of a node and of a list of nodes, before the tokens that follow.
unfoldable mutual
  pub tokens : Node → List Token → List Token
  tokens (node name props children) rest =
      begin_node name ∷ prop_tokens props (tokens_of children (end_node ∷ rest))

  pub tokens_of : Nodes → List Token → List Token
  tokens_of no_nodes rest = rest
  tokens_of (and_node n ns) rest = tokens n (tokens_of ns rest)
