-- ===== src/Fdt/Lookup.antt =====
-- The lookups of src/fdt/fdt_parser.c: properties by name, nodes by path and by compatibility, and the
-- `reg` property. A name is the string at its address, read up to the NUL.
use first_os.Base.{
  ℕ, zero, suc, ◌+◌, ◌*◌, ◌%◌, ◌^◌, not, ◌&&◌, ◌||◌, Option, none, some, List, [], ◌∷◌, ◌==◌, ltb,
  if◌then◌else◌, ◌>>=◌, get_or, drop,
}
use first_os.Converters.{be32_to_cpu, be64_to_cpu}
use first_os.Strings.{streql, streqln, strtoken}
use first_os.Fdt.{
  Bytes, read32, token_begin_node, token_prop, token_end, fdt_next_token_addr, fdt_root_node,
  fdt_sibling_node, fdt_child_node, fdt_parent_node,
}

unfoldable pub read64 : Bytes → ℕ → ℕ
read64 m a = read32 m a + read32 m (a + 4) * 2 ^ 32

-- The characters from `a` on, at most as many as the fuel.
unfoldable pub string_at : ℕ → Bytes → ℕ → List ℕ
string_at zero m a = []
string_at (suc fuel) m a =
    let rest = string_at fuel m (a + 1) in if m a == 0 then [] else m a ∷ rest

unfoldable pub fdt_node_name : ℕ → ℕ
fdt_node_name node_addr = node_addr + 4

-- A property is the address of its `struct fdt_property`: `len` at 0, `nameoff` at 4, `data` at 8.
unfoldable pub fdt_property_name : Bytes → ℕ → ℕ → ℕ
fdt_property_name m fdt_addr property =
    fdt_addr + be32_to_cpu (read32 m (fdt_addr + 12)) + be32_to_cpu (read32 m (property + 4))

unfoldable pub fdt_next_property_addr : ℕ → Bytes → ℕ → Option ℕ
fdt_next_property_addr fuel m addr = fdt_next_token_addr fuel m addr >>= λ property_addr.
    some (if read32 m property_addr == token_prop then property_addr else 0)

unfoldable pub property_loop : ℕ → ℕ → Bytes → ℕ → List ℕ → ℕ → Option ℕ
property_loop zero fuel m fdt_addr property_name a = none
property_loop (suc rounds) fuel m fdt_addr property_name a =
    fdt_next_property_addr fuel m a >>= λ next.
    let rest = property_loop rounds fuel m fdt_addr property_name next in
    let name = string_at fuel m (fdt_property_name m fdt_addr (next + 4)) in
    if next == 0 then some 0 else if streql name property_name then some (next + 4) else rest

unfoldable pub fdt_property_by_name : ℕ → Bytes → ℕ → ℕ → List ℕ → Option ℕ
fdt_property_by_name fuel m fdt_addr node_addr property_name =
    if node_addr == 0 then some 0 else property_loop fuel fuel m fdt_addr property_name node_addr

-- The loops of `fdt_node_is_compatible` over the strings of the property: to the end of one, and from
-- one to the next. The result is a `uint8_t`.
unfoldable pub entry_end : ℕ → Bytes → ℕ → ℕ → ℕ → Option ℕ
entry_end zero m s len i = none
entry_end (suc fuel) m s len i =
    let rest = entry_end fuel m s len (i + 1) in
    if ltb i len && not (m (s + i) == 0) then rest else some i

unfoldable pub compatible_loop : ℕ → ℕ → Bytes → ℕ → List ℕ → ℕ → ℕ → ℕ → Option ℕ
compatible_loop zero fuel m node_addr compatible s len i = none
compatible_loop (suc rounds) fuel m node_addr compatible s len i =
    let rest = entry_end fuel m s len i >>= λ e.
    compatible_loop rounds fuel m node_addr compatible s len (e + 1) in
    if ltb i len
    then (if streql (string_at fuel m (s + i)) compatible then some (node_addr % 2 ^ 8) else rest)
    else some 0

-- "compatible"
abbrev pub compatible_name : List ℕ
compatible_name = 99 ∷ 111 ∷ 109 ∷ 112 ∷ 97 ∷ 116 ∷ 105 ∷ 98 ∷ 108 ∷ 101 ∷ []

unfoldable pub fdt_node_is_compatible : ℕ → Bytes → ℕ → ℕ → List ℕ → Option ℕ
fdt_node_is_compatible fuel m fdt_addr node_addr compatible =
    fdt_property_by_name fuel m fdt_addr node_addr compatible_name >>= λ prop.
    let found =
      compatible_loop fuel fuel m node_addr compatible (prop + 8) (be32_to_cpu (read32 m prop)) 0 in
    if prop == 0 then some 0 else found

unfoldable pub by_compatible_loop : ℕ → ℕ → Bytes → ℕ → List ℕ → ℕ → Option ℕ
by_compatible_loop zero fuel m fdt_addr compatible a = none
by_compatible_loop (suc rounds) fuel m fdt_addr compatible a =
    fdt_next_token_addr fuel m a >>= λ next.
    let rest = by_compatible_loop rounds fuel m fdt_addr compatible next in
    let found = fdt_node_is_compatible fuel m fdt_addr next compatible in
    if read32 m next == token_begin_node
    then (found >>= λ r. if r == 0 then rest else some next)
    else if read32 m next == token_end
    then some 0
    else rest

unfoldable pub fdt_node_addr_by_compatible : ℕ → Bytes → ℕ → List ℕ → Option ℕ
fdt_node_addr_by_compatible fuel m fdt_addr compatible = fdt_root_node fuel m fdt_addr >>= λ root.
    by_compatible_loop fuel fuel m fdt_addr compatible root

-- "/"
abbrev pub slash : List ℕ
slash = 47 ∷ []

-- The path behind the part that has been matched, and behind a slash there.
abbrev pub path_rest : List ℕ → ℕ → List ℕ
path_rest p q = if get_or (drop q p) 0 0 == 47 then drop 1 (drop q p) else drop q p

unfoldable pub path_loop : ℕ → ℕ → Bytes → ℕ → List ℕ → ℕ → Option ℕ
path_loop zero fuel m current_addr p q = none
path_loop (suc rounds) fuel m current_addr p q =
    let name = fdt_node_name current_addr in
    let p' = path_rest p q in
    let down = fdt_child_node fuel m current_addr >>= λ child.
    let rest = path_loop rounds fuel m child p' (strtoken p' slash 0) in
    if child == 0 then some 0 else rest in
    let on = fdt_sibling_node fuel m current_addr >>= λ sibling.
    let rest = path_loop rounds fuel m sibling p q in if sibling == 0 then some 0 else rest in
    if streqln (string_at fuel m name) p q && ((m (name + q) == 0) || (m (name + q) == 64))
    then (if get_or p' 0 0 == 0 then some current_addr else down)
    else on

unfoldable pub fdt_node_addr_by_path : ℕ → Bytes → ℕ → List ℕ → Option ℕ
fdt_node_addr_by_path fuel m fdt_addr path = fdt_root_node fuel m fdt_addr >>= λ root.
    let found = path_loop fuel fuel m root path 0 in
    if (root == 0) || not (get_or path 0 0 == 47) then some 0 else found

-- "#address-cells" and "#size-cells"
abbrev pub address_cells_name : List ℕ
address_cells_name =
    35 ∷ 97 ∷ 100 ∷ 100 ∷ 114 ∷ 101 ∷ 115 ∷ 115 ∷ 45 ∷ 99 ∷ 101 ∷ 108 ∷ 108 ∷ 115 ∷ []

abbrev pub size_cells_name : List ℕ
size_cells_name = 35 ∷ 115 ∷ 105 ∷ 122 ∷ 101 ∷ 45 ∷ 99 ∷ 101 ∷ 108 ∷ 108 ∷ 115 ∷ []

-- The loop of `fdt_get_node_cells`, whose rounds all ask for the parent of the same node.
unfoldable pub fdt_get_node_cells : ℕ → ℕ → Bytes → ℕ → ℕ → Option (ℕ × ℕ)
fdt_get_node_cells zero fuel m fdt_addr node_addr = none
fdt_get_node_cells (suc rounds) fuel m fdt_addr node_addr =
    fdt_parent_node fuel m fdt_addr node_addr >>= λ parent.
    let again = fdt_get_node_cells rounds fuel m fdt_addr node_addr in
    let found = fdt_property_by_name fuel m fdt_addr parent address_cells_name >>= λ address_prop.
    fdt_property_by_name fuel m fdt_addr parent size_cells_name >>= λ size_prop.
    if not (address_prop == 0) && not (size_prop == 0)
    then some (be32_to_cpu (read32 m (address_prop + 8)), be32_to_cpu (read32 m (size_prop + 8)))
    else again in
    if node_addr == 0 then some (0, 0) else found

-- "reg"
abbrev pub reg_name : List ℕ
reg_name = 114 ∷ 101 ∷ 103 ∷ []

abbrev pub cells : Bytes → ℕ → ℕ → ℕ
cells m count a = if count == 1 then be32_to_cpu (read32 m a) else be64_to_cpu (read64 m a)

-- The values for `*address` and `*size`.
unfoldable pub fdt_reg_property : ℕ → Bytes → ℕ → ℕ → Option (ℕ × ℕ)
fdt_reg_property fuel m fdt_addr node_addr =
    fdt_property_by_name fuel m fdt_addr node_addr reg_name >>= λ reg_prop.
    fdt_get_node_cells fuel fuel m fdt_addr node_addr >>= λ (address_cells, size_cells). some (
      if reg_prop == 0 then (0, 0) else (
        cells m address_cells (reg_prop + 8),
        cells m size_cells (reg_prop + 8 + address_cells * 4),
      ))
