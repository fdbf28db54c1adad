-- ===== src/Fdt.antt =====
-- src/fdt/fdt_parser.c and src/fdt/fdt.c: the flattened device tree, read from memory. Memory is a
-- function from addresses to bytes, and sums of addresses are taken not to wrap. A loop over memory
-- takes fuel, and `none` says that it is used up; the address 0 is the null pointer.
pub mod Tree
pub mod Next
pub mod Walk
pub mod Lookup
pub mod Property
mod Tests
use first_os.Base.{
  ℕ, zero, suc, ◌+◌, ◌-◌, ◌*◌, ◌/◌, ◌%◌, ◌^◌, Bool, true, false, ◌&&◌, ◌||◌, Option, none, some,
  List, [], ◌∷◌, ◌==◌, ltb, if◌then◌else◌, ◌>>=◌, get_or, set, replicate,
}
use first_os.Converters.{be32_to_cpu}

abbrev pub Bytes : Type 0
Bytes = ℕ → ℕ

-- `*(uint32_t *)a`, in the processor's order of bytes
unfoldable pub read32 : Bytes → ℕ → ℕ
read32 m a = m a + m (a + 1) * 2 ^ 8 + m (a + 2) * 2 ^ 16 + m (a + 3) * 2 ^ 24

-- `(a + 3) & ~3`
unfoldable pub align4 : ℕ → ℕ
align4 a = (a + 3) / 4 * 4

abbrev pub token_begin_node : ℕ
token_begin_node = 0x01000000

abbrev pub token_end_node : ℕ
token_end_node = 0x02000000

abbrev pub token_prop : ℕ
token_prop = 0x03000000

abbrev pub token_nop : ℕ
token_nop = 0x04000000

abbrev pub token_end : ℕ
token_end = 0x09000000

-- The two inner loops of `_fdt_next_token_addr`: to the NUL of a name, and behind the NOPs.
unfoldable pub skip_name : ℕ → Bytes → ℕ → Option ℕ
skip_name zero m a = none
skip_name (suc fuel) m a = let rest = skip_name fuel m (a + 1) in if m a == 0 then some a else rest

unfoldable pub skip_nops : ℕ → Bytes → ℕ → Option ℕ
skip_nops zero m a = none
skip_nops (suc fuel) m a =
    let rest = skip_nops fuel m (a + 4) in if read32 m a == token_nop then rest else some a

-- The address behind the token and its contents.
unfoldable pub past_token : ℕ → Bytes → ℕ → Option ℕ
past_token fuel m a =
    if read32 m a == token_prop
    then some (align4 (a + 12 + be32_to_cpu (read32 m (a + 4))))
    else if read32 m a == token_begin_node
    then (skip_name fuel m (a + 4) >>= λ e. some (align4 (e + 1)))
    else if read32 m a == token_end_node
    then some (a + 4)
    else some a

unfoldable pub fdt_next_token_addr : ℕ → Bytes → ℕ → Option ℕ
fdt_next_token_addr fuel m a = past_token fuel m a >>= skip_nops fuel m

-- `_fdt_check_magic`, and what `fdt_setup` returns with the new `fdt_addr`
unfoldable pub fdt_check_magic : Bytes → ℕ → Bool
fdt_check_magic m fdt = read32 m fdt == be32_to_cpu 0xd00dfeed

unfoldable pub fdt_setup : Bytes → ℕ → ℕ → ℕ × ℕ
fdt_setup m fdt_addr new_addr = if fdt_check_magic m new_addr then (0, new_addr) else (1, fdt_addr)

unfoldable pub fdt_total_size : Bytes → ℕ → ℕ
fdt_total_size m fdt_addr = be32_to_cpu (read32 m (fdt_addr + 4))

unfoldable pub fdt_root_node : ℕ → Bytes → ℕ → Option ℕ
fdt_root_node fuel m fdt_addr =
    let start_addr = fdt_addr + be32_to_cpu (read32 m (fdt_addr + 8)) in
    let next = fdt_next_token_addr fuel m start_addr in
    if fdt_addr == 0
    then some 0
    else if read32 m start_addr == token_begin_node
    then some start_addr
    else (next >>= λ token_addr.
        some (if read32 m token_addr == token_begin_node then token_addr else 0))

-- The loop of `fdt_sibling_node`. The depth is never below 0 at the head of the loop: the step to -1
-- returns.
unfoldable pub sibling_loop : ℕ → ℕ → Bytes → ℕ → ℕ → Option ℕ
sibling_loop zero fuel m a depth = none
sibling_loop (suc rounds) fuel m a depth = fdt_next_token_addr fuel m a >>= λ next.
    let deeper = sibling_loop rounds fuel m next (depth + 1) in
    let higher = sibling_loop rounds fuel m next (depth - 1) in
    let same = sibling_loop rounds fuel m next depth in
    if read32 m next == token_begin_node
    then (if depth + 1 == 1 then some next else deeper)
    else if read32 m next == token_end_node
    then (if depth == 0 then some 0 else higher)
    else if read32 m next == token_end
    then some 0
    else same

unfoldable pub fdt_sibling_node : ℕ → Bytes → ℕ → Option ℕ
fdt_sibling_node fuel m node_addr =
    if node_addr == 0 then some 0 else sibling_loop fuel fuel m node_addr 1

unfoldable pub child_loop : ℕ → ℕ → Bytes → ℕ → Option ℕ
child_loop zero fuel m a = none
child_loop (suc rounds) fuel m a = fdt_next_token_addr fuel m a >>= λ next.
    let rest = child_loop rounds fuel m next in
    if read32 m next == token_begin_node
    then some next
    else if (read32 m next == token_end_node) || (read32 m next == token_end)
    then some 0
    else rest

unfoldable pub fdt_child_node : ℕ → Bytes → ℕ → Option ℕ
fdt_child_node fuel m node_addr =
    if node_addr == 0 then some 0 else child_loop fuel fuel m node_addr

-- The loop of `fdt_parent_node`. A write behind the 32 entries of the stack changes nothing here; the
-- source writes out of bounds.
unfoldable pub parent_loop : ℕ → ℕ → Bytes → ℕ → ℕ → ℕ → List ℕ → Option ℕ
parent_loop zero fuel m node_addr a depth parent_stack = none
parent_loop (suc rounds) fuel m node_addr a depth parent_stack =
    fdt_next_token_addr fuel m a >>= λ next.
    let deeper =
      parent_loop rounds fuel m node_addr next (depth + 1) (set parent_stack (depth + 1) next) in
    let higher = parent_loop rounds fuel m node_addr next (depth - 1) parent_stack in
    let same = parent_loop rounds fuel m node_addr next depth parent_stack in
    if read32 m next == token_begin_node
    then (if next == node_addr then some (get_or parent_stack depth 0) else deeper)
    else if read32 m next == token_end_node
    then higher
    else if read32 m next == token_end
    then some 0
    else same

unfoldable pub fdt_parent_node : ℕ → Bytes → ℕ → ℕ → Option ℕ
fdt_parent_node fuel m fdt_addr node_addr = fdt_root_node fuel m fdt_addr >>= λ root.
    if (node_addr == 0) || (node_addr == root)
    then some 0
    else parent_loop fuel fuel m node_addr root 1 (set (replicate 32 0) 1 root)
