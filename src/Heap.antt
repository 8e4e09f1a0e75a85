-- ===== src/Heap.antt =====
-- kernel/memory/malloc.c, without its debugging output: the list of nodes in the kernel's heap.
-- A node is at its address in the byte memory of Vmm, and takes 20 bytes. `total_malloc_pages` and
-- `malloc_phys_address` are only set before they are used, but for the `memset` of
-- `calloc_more_pages`, which reads the first. The loops over the list take fuel, as `map_address`
-- does, and `none` means that it ran out; the null pointer is 0.
pub mod Tests
pub mod Chain
pub mod Free
pub mod Init
pub mod Merge
pub mod Next
pub mod Node
pub mod Place
pub mod Split
use ab_os.Base.{
  ℕ, zero, suc, ◌+◌, ◌-◌, ◌*◌, ◌/◌, ◌%◌, Bool, true, false, not, ◌&&◌, ◌||◌, Memory, update,
  u32_mod, ltb, leb, ◌==◌, if◌then◌else◌, Option, none, some,
}
use ab_os.Base.Words.{load32, store32}
use ab_os.Pmm.{allocate_blocks}
use ab_os.Str.{memset}
use ab_os.Vmm.{Vmm, map_address, page_size}

pub record Heap : Type 0 where
  pub vmm : Vmm
  pub malloc_head : ℕ
  pub malloc_virt_address : ℕ
  pub malloc_phys_address : ℕ
  pub total_malloc_pages : ℕ
  pub heap_end : ℕ

-- `sizeof(malloc_node_t)`.
abbrev pub node_size : ℕ
node_size = 20

-- The fields of the node at an address.
abbrev pub size_of : Memory → ℕ → ℕ
size_of m node = load32 m node

abbrev pub is_free : Memory → ℕ → Bool
is_free m node = not (m (node + 4) % 256 == 0)

abbrev pub next_of : Memory → ℕ → ℕ
next_of m node = load32 m (node + 8)

abbrev pub prev_of : Memory → ℕ → ℕ
prev_of m node = load32 m (node + 12)

abbrev pub address_of : Memory → ℕ → ℕ
address_of m node = load32 m (node + 16)

abbrev pub set_free : ℕ → Bool → Memory → Memory
set_free node free m = update m (node + 4) (if free then 1 else 0)

-- The five assignments that make a node.
pub set_node : ℕ → ℕ → Bool → ℕ → ℕ → ℕ → Memory → Memory
set_node node size free next prev address m =
    let m' = set_free node free (store32 m node size) in
    store32 (store32 (store32 m' (node + 8) next) (node + 12) prev) (node + 16) address

abbrev pub with_memory : Heap → Memory → Heap
with_memory h m = let v = h.vmm in record h { vmm = record v { memory = m } }

-- `PTE_PRESENT | PTE_WRITABLE | PTE_USER`.
abbrev heap_flags : ℕ
heap_flags = 7

-- The loops that map the pages; `map_address` takes `fuel`, and its result is not looked at.
pub map_pages : ℕ → ℕ → ℕ → ℕ → ℕ → Vmm → Option Vmm
map_pages fuel zero i phys virt v = some v
map_pages fuel (suc rounds) i phys virt v =
    elim (map_address fuel v.directory ((phys + i * page_size) % u32_mod) virt heap_flags v) [
      | none ↦ none
      | some t ↦ map_pages fuel rounds (i + 1) phys ((virt + page_size) % u32_mod) t.1
    ]

-- The address that it returns, and the new state.
pub malloc_init : ℕ → Heap → Option (ℕ × Heap)
malloc_init fuel h =
    let virt = h.malloc_virt_address in
    let v = h.vmm in
    let (phys, pmm') = allocate_blocks 256 v.pmm in
    elim (map_pages fuel 256 0 phys virt (record v { pmm = pmm' })) [
      | none ↦ none
      | some v' ↦ some (
        (virt + node_size) % u32_mod,
        record h {
          vmm = record v' {
            memory =
                set_node virt (256 * page_size - node_size) true 0 0 ((virt + node_size) % u32_mod)
                  v'.memory;
          };
          malloc_head = virt;
          malloc_phys_address = phys;
          total_malloc_pages = 256;
          heap_end = (virt + 256 * page_size) % u32_mod;
        },
      )
    ]

-- The last node of a list.
pub last_node : ℕ → Memory → ℕ → Option ℕ
last_node zero m temp = none
last_node (suc fuel) m temp =
    let rest = last_node fuel m (next_of m temp) in if next_of m temp == 0 then some temp else rest

pub malloc_more_pages : ℕ → ℕ → Heap → Option (ℕ × Heap)
unfolding last_node
malloc_more_pages fuel size h =
    let pages = (if size % page_size == 0 then size / page_size else size / page_size + 1) in
    let v = h.vmm in
    let (phys, pmm') = allocate_blocks pages v.pmm in
    let virt = h.heap_end in
    elim (last_node fuel v.memory h.malloc_head) [
      | none ↦ none
      | some temp ↦ elim (map_pages fuel pages 0 phys virt (record v { pmm = pmm' })) [
        | none ↦ none
        | some v' ↦
            let size' = (pages * page_size + u32_mod - node_size) % u32_mod in
            let m = store32 (set_node virt size' false 0 temp virt v'.memory) (temp + 8) virt in
            some (
              virt,
              record h {
                vmm = record v' { memory = m };
                malloc_phys_address = phys;
                total_malloc_pages = pages;
                heap_end = (virt + pages * page_size) % u32_mod;
              },
            )
      ]
    ]

pub calloc_more_pages : ℕ → ℕ → Heap → Option (ℕ × Heap)
calloc_more_pages fuel size h = elim (malloc_more_pages fuel size h) [
  | none ↦ none
  | some (ptr, h') ↦
      some (ptr, with_memory h' (memset ptr 0 (h'.total_malloc_pages * page_size) h'.vmm.memory))
]

-- The two nodes that `split_blocks` makes of a free one.
pub split_node : ℕ → ℕ → Memory → Memory
unfolding set_node
split_node temp size m =
    let old_node = (temp + size + node_size) % u32_mod in
    let rest = (size_of m temp + 2 * u32_mod - size - node_size) % u32_mod in
    let m' =
      set_node old_node rest true (next_of m temp) temp ((old_node + node_size) % u32_mod) m in
    set_node temp size false old_node (prev_of m' temp) ((temp + node_size) % u32_mod) m'

-- A pointer and the new state.
pub split_blocks : ℕ → ℕ → ℕ → Heap → Option (ℕ × Heap)
split_blocks fuel node size h =
    let m = h.vmm.memory in
    if is_free m node
    then (if leb ((size + node_size) % u32_mod) (size_of m node)
        then some ((node + node_size) % u32_mod, with_memory h (split_node node size m))
        else malloc_more_pages fuel size h)
    else some (0, h)
