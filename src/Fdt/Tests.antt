-- ===== src/Fdt/Tests.antt =====
-- The functions of src/fdt on a small tree in memory, and the theorems on them at that tree.
use first_os.Base.{ℕ, ◌+◌, ◌-◌, ◌≡◌, refl, arith, some, List, [], ◌∷◌, get_or, ltb, if◌then◌else◌}
use first_os.Converters.{be32_to_cpu}
use first_os.Fdt.{
  Bytes, read32, align4, fdt_root_node, fdt_child_node, fdt_sibling_node, fdt_parent_node,
  sibling_loop, fdt_next_token_addr, past_token, skip_name, skip_nops, parent_loop, child_loop,
}
use first_os.Strings.{streql, streqln, strtoken, strtoken_loop, kstrlen}
use first_os.Fdt.Tree.{end_node, the_end, At, NonZero, Node, node, no_nodes, and_node, tokens}
use first_os.Fdt.Walk.{
  FirstOf, prop_count, token_count, fdt_sibling_node-FirstOf, fdt_child_node-FirstOf,
}
use first_os.Fdt.Property.{FirstNamed, fdt_property_by_name-FirstNamed}
use first_os.Fdt.Lookup.{
  fdt_property_by_name, fdt_node_addr_by_path, fdt_node_is_compatible, path_loop, property_loop,
  fdt_next_property_addr, fdt_property_name, compatible_loop, string_at, fdt_node_name,
}

-- A root with the property "len" and the nodes "a" and "b"; a NOP stands between them.
abbrev blob : List ℕ
blob =
    208 ∷ 13 ∷ 254 ∷ 237 ∷ 0 ∷ 0 ∷ 0 ∷ 112 ∷ 0 ∷ 0 ∷ 0 ∷ 40 ∷ 0 ∷ 0 ∷ 0 ∷ 100 ∷ 0 ∷ 0 ∷ 0 ∷ 0 ∷ 0
    ∷ 0 ∷ 0 ∷ 0 ∷ 0 ∷ 0 ∷ 0 ∷ 0 ∷ 0 ∷ 0 ∷ 0 ∷ 0 ∷ 0 ∷ 0 ∷ 0 ∷ 0 ∷ 0 ∷ 0 ∷ 0 ∷ 0 ∷ 0 ∷ 0 ∷ 0 ∷ 1 ∷ 0
    ∷ 0 ∷ 0 ∷ 0 ∷ 0 ∷ 0 ∷ 0 ∷ 3 ∷ 0 ∷ 0 ∷ 0 ∷ 4 ∷ 0 ∷ 0 ∷ 0 ∷ 0 ∷ 0 ∷ 0 ∷ 0 ∷ 7 ∷ 0 ∷ 0 ∷ 0 ∷ 1 ∷ 97
    ∷ 0 ∷ 0 ∷ 0 ∷ 0 ∷ 0 ∷ 0 ∷ 2 ∷ 0 ∷ 0 ∷ 0 ∷ 4 ∷ 0 ∷ 0 ∷ 0 ∷ 1 ∷ 98 ∷ 0 ∷ 0 ∷ 0 ∷ 0 ∷ 0 ∷ 0 ∷ 2 ∷ 0
    ∷ 0 ∷ 0 ∷ 2 ∷ 0 ∷ 0 ∷ 0 ∷ 9 ∷ 108 ∷ 101 ∷ 110 ∷ 0 ∷ []

abbrev fdt : ℕ
fdt = 4096

abbrev image : Bytes
image a = get_or blob (a - fdt) 0

abbrev a_name : List ℕ
a_name = 97 ∷ []

abbrev b_name : List ℕ
b_name = 98 ∷ []

abbrev len_name : List ℕ
len_name = 108 ∷ 101 ∷ 110 ∷ []

abbrev a_node : Node
a_node = node a_name [] no_nodes

abbrev b_node : Node
b_node = node b_name [] no_nodes

abbrev root_props : List (ℕ × List ℕ)
root_props = (0, 0 ∷ 0 ∷ 0 ∷ 7 ∷ []) ∷ []

abbrev root_node : Node
root_node = node [] root_props (and_node a_node (and_node b_node no_nodes))

root : fdt_root_node 8 image fdt ≡ some (fdt + 40)
unfolding fdt_root_node read32 be32_to_cpu
root = refl

b_node-At : At 16 image (fdt + 80) (tokens b_node (end_node ∷ the_end ∷ []))
unfolding tokens read32 align4
b_node-At = (
  (refl, ((λ (e : 98 ≡ 0). omega arith), tt), (refl, (refl, tt))),
  omega arith,
  (
    0,
    omega arith,
    tt,
    (
      refl,
      tt,
      (0, omega arith, tt, (refl, tt, (0, omega arith, tt, (refl, tt, (0, omega arith, tt, tt))))),
    ),
  ),
)

a_node-At : At 16 image (fdt + 64) (tokens a_node (tokens b_node (end_node ∷ the_end ∷ [])))
unfolding tokens read32 align4
a_node-At = (
  (refl, ((λ (e : 97 ≡ 0). omega arith), tt), (refl, (refl, tt))),
  omega arith,
  (0, omega arith, tt, (refl, tt, (1, omega arith, (refl, tt), b_node-At))),
)

root_node-At : At 16 image (fdt + 40) (tokens root_node (the_end ∷ []))
unfolding tokens read32 align4 be32_to_cpu
root_node-At = (
  (refl, tt, (refl, tt)),
  omega arith,
  (
    0,
    omega arith,
    tt,
    ((refl, refl, refl, (refl, (refl, (refl, (refl, tt))))), tt, (0, omega arith, tt, a_node-At)),
  ),
)

fdt_sibling_node-FirstOf_example :
    FirstOf 16 image
      (fdt + 64)
      (and_node b_node no_nodes)
      (end_node ∷ the_end ∷ [])
      (fdt_sibling_node 16 image (fdt + 64))
unfolding token_count tokens prop_count
fdt_sibling_node-FirstOf_example =
    fdt_sibling_node-FirstOf a_node (and_node b_node no_nodes) (the_end ∷ []) 16 image (fdt + 64)
      (λ (e : fdt + 64 ≡ 0). omega arith) (omega arith) a_node-At

fdt_child_node-FirstOf_example :
    FirstOf 16 image
      (fdt + 40)
      (and_node a_node (and_node b_node no_nodes))
      (end_node ∷ the_end ∷ [])
      (fdt_child_node 16 image (fdt + 40))
unfolding prop_count
fdt_child_node-FirstOf_example =
    fdt_child_node-FirstOf [] root_props (and_node a_node (and_node b_node no_nodes)) (the_end ∷ [])
      16 image (fdt + 40) (λ (e : fdt + 40 ≡ 0). omega arith) (omega arith) root_node-At

-- Any offset stands for "len" here, as the only one in use is 0.
fdt_property_by_name-FirstNamed_example :
    FirstNamed image
      (fdt + 40)
      (λ nameoff. len_name)
      len_name
      root_props
      (fdt_property_by_name 16 image fdt (fdt + 40) len_name)
unfolding prop_count be32_to_cpu read32
fdt_property_by_name-FirstNamed_example =
    fdt_property_by_name-FirstNamed [] root_props (and_node a_node (and_node b_node no_nodes))
      (the_end ∷ []) 16 image fdt (fdt + 40) (λ nameoff. len_name) len_name
      (λ (e : fdt + 40 ≡ 0). omega arith) (omega arith) len_nonzero (omega arith)
      ((len_nonzero, omega arith, omega arith, (refl, (refl, (refl, (refl, tt))))), tt) root_node-At
  where
    len_nonzero : NonZero len_name
    len_nonzero = (
      (λ (e : 108 ≡ 0). omega arith),
      ((λ (e : 101 ≡ 0). omega arith), ((λ (e : 110 ≡ 0). omega arith), tt)),
    )

sibling_runs : fdt_sibling_node 16 image (fdt + 64) ≡ some (fdt + 80)
unfolding fdt_sibling_node read32 be32_to_cpu sibling_loop fdt_next_token_addr past_token skip_name
    skip_nops align4
sibling_runs = refl

parent_runs : fdt_parent_node 16 image fdt (fdt + 80) ≡ some (fdt + 40)
unfolding fdt_sibling_node read32 be32_to_cpu sibling_loop fdt_next_token_addr past_token skip_name
    skip_nops align4 fdt_parent_node fdt_root_node parent_loop
parent_runs = refl

-- "/b"
path_runs : fdt_node_addr_by_path 16 image fdt (47 ∷ b_name) ≡ some (fdt + 80)
unfolding fdt_sibling_node read32 be32_to_cpu sibling_loop fdt_next_token_addr past_token skip_name
    skip_nops align4 fdt_node_addr_by_path path_loop fdt_root_node fdt_child_node child_loop streqln
    strtoken fdt_node_name string_at strtoken_loop kstrlen
path_runs = refl

-- A header with the strings block behind it, and a node at a multiple of 256 that is compatible with "abc".
abbrev header : List ℕ
header =
    208 ∷ 13 ∷ 254 ∷ 237 ∷ 0 ∷ 0 ∷ 2 ∷ 0 ∷ 0 ∷ 0 ∷ 1 ∷ 0 ∷ 0 ∷ 0 ∷ 0 ∷ 40 ∷ 0 ∷ 0 ∷ 0 ∷ 0 ∷ 0 ∷ 0
    ∷ 0 ∷ 0 ∷ 0 ∷ 0 ∷ 0 ∷ 0 ∷ 0 ∷ 0 ∷ 0 ∷ 0 ∷ 0 ∷ 0 ∷ 0 ∷ 0 ∷ 0 ∷ 0 ∷ 0 ∷ 0 ∷ 99 ∷ 111 ∷ 109 ∷ 112
    ∷ 97 ∷ 116 ∷ 105 ∷ 98 ∷ 108 ∷ 101 ∷ 0 ∷ []

abbrev device : List ℕ
device =
    0 ∷ 0 ∷ 0 ∷ 1 ∷ 0 ∷ 0 ∷ 0 ∷ 0 ∷ 0 ∷ 0 ∷ 0 ∷ 3 ∷ 0 ∷ 0 ∷ 0 ∷ 4 ∷ 0 ∷ 0 ∷ 0 ∷ 0 ∷ 97 ∷ 98 ∷ 99 ∷ 0
    ∷ 0 ∷ 0 ∷ 0 ∷ 2 ∷ 0 ∷ 0 ∷ 0 ∷ 9 ∷ []

abbrev aligned_image : Bytes
aligned_image a = if ltb a 4352 then get_or header (a - 4096) 0 else get_or device (a - 4352) 0

abbrev abc : List ℕ
abc = 97 ∷ 98 ∷ 99 ∷ []

compatible_runs : fdt_node_is_compatible 16 aligned_image fdt 4352 abc ≡ some 0
unfolding read32 be32_to_cpu fdt_next_token_addr past_token skip_name skip_nops align4
    fdt_node_is_compatible fdt_property_by_name property_loop fdt_next_property_addr streql streqln
    string_at fdt_property_name compatible_loop
compatible_runs = refl
