-- ===== src/Heap/Tests.antt =====
-- A heap with one node, and one with two.
use ab_os.Base.{ℕ, refl, [], ◌∷◌, ◌≡◌, ◌≢◌, true, false, Memory, none, some, arith}
use ab_os.Heap.Merge.{merge_free_blocks, merge_blocks, merge_free_blocks-merge_blocks}
use ab_os.Heap.Chain.{Block, IsChain, Change, IsNode-own}
use ab_os.Heap.{with_memory, Heap, next_of, address_of, set_node}
use ab_os.Heap.Free.{malloc_free}
use ab_os.Heap.Node.{IsNode, IsNode-same, set_node_ne, set_node-IsNode}
use ab_os.Heap.Free.{malloc_free_stuck}

abbrev pub heap_of : Memory → Heap
heap_of m = record {
  vmm = record {
    memory = m;
    pmm = record { memory_map = λ w. 0; max_blocks = 8; used_blocks = 0 };
    directory = 0x8000;
    cr3 = 0x8000;
    paging = true;
  };
  malloc_head = 0x1000;
  malloc_virt_address = 0x1000;
  malloc_phys_address = 0;
  total_malloc_pages = 1;
  heap_end = 0x2000;
}

abbrev pub one : Heap
one = heap_of (set_node 0x1000 4076 true 0 0 0x1014 (λ a. 0))

pub one-IsNode : IsNode one.vmm.memory 0x1000 4076 true 0 0
one-IsNode =
    set_node-IsNode 0x1000 4076 true 0 0 (λ a. 0) (omega arith) (omega arith) (omega arith)
      (omega arith)

abbrev two : Heap
two = heap_of (set_node 0x1000 100 false 0x1078 0 0x1014 (λ a. 0))

two-IsNode : IsNode two.vmm.memory 0x1000 100 false 0x1078 0
two-IsNode =
    set_node-IsNode 0x1000 100 false 0x1078 0 (λ a. 0) (omega arith) (omega arith) (omega arith)
      (omega arith)

two-next : next_of two.vmm.memory 0x1000 ≢ 0
two-next = omega (arith, two-IsNode.next_is)

two-address : address_of two.vmm.memory 0x1000 ≢ 0x108c
two-address = omega (arith, two-IsNode.address_is)

malloc_free_stuck_example : malloc_free 50 0x108c two ≡ none
malloc_free_stuck_example = malloc_free_stuck 50 0x108c two two-next two-address

-- Two free blocks.
abbrev tail_free : Memory
tail_free = set_node 0x1078 200 true 0 0x1000 0x108c (λ a. 0)

abbrev both_free : Memory
both_free = set_node 0x1000 100 true 0x1078 0 0x1014 tail_free

abbrev block : ℕ → Block
block size = record { size = size; free = true }

both_free-IsChain : IsChain both_free 0x1000 (block 100 ∷ block 200 ∷ [])
both_free-IsChain = (
  IsNode-own (
      set_node-IsNode 0x1000 100 true 0x1078 0 tail_free (omega arith) (omega arith) (omega arith)
        (omega arith)),
  (
    IsNode-own (
        IsNode-same tail_free both_free 0x1078 200 true 0 0x1000
          (λ b l l'. set_node_ne 0x1000 100 true 0x1078 0 0x1014 tail_free b (omega arith))
          (set_node-IsNode 0x1078 200 true 0 0x1000 (λ a. 0) (omega arith) (omega arith)
            (omega arith) (omega arith))),
    tt,
  ),
)

merge_free_blocks-merge_blocks_example :
    (m' : Memory) × (merge_free_blocks 9 (heap_of both_free)
      ≡ some (with_memory (heap_of both_free) m'))
    × Change both_free m' 0x1000
        (block 100 ∷ block 200 ∷ [])
        (merge_blocks (block 100 ∷ block 200 ∷ []))
merge_free_blocks-merge_blocks_example =
    merge_free_blocks-merge_blocks 9 0x1000 (block 100 ∷ block 200 ∷ []) (heap_of both_free)
      both_free-IsChain refl (omega arith) (omega arith) (omega arith)

-- They become one.
merged : merge_blocks (block 100 ∷ block 200 ∷ []) ≡ block 320 ∷ []
unfolding merge_blocks
merged = refl
