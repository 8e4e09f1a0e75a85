-- ===== src/Heap/Init.antt =====
-- `init_malloc` of kernel/kernel.c: the first node, of one page at 0x400000.
use ab_os.Base.{ℕ, ◌+◌, ◌-◌, update, Option, some, ◌>>=◌}
use ab_os.Base.Words.{store32}
use ab_os.Pmm.{allocate_blocks}
use ab_os.Vmm.{map_address, page_size}
use ab_os.Heap.{Heap, node_size}

abbrev pub malloc_start : ℕ
malloc_start = 0x40_0000

-- The address of the node is not set, nor is `heap_end`.
pub init_malloc : ℕ → Heap → Option Heap
init_malloc fuel h = do
  let v = h.vmm
  let (phys, pmm') = allocate_blocks 1 v.pmm
  (ok, v') ← map_address fuel v.directory phys malloc_start 7 (record v { pmm = pmm' })
  let sized = update (store32 v'.memory malloc_start (page_size - node_size)) (malloc_start + 4) 1
  some (record h {
    vmm = record v' { memory = store32 (store32 sized (malloc_start + 8) 0) (malloc_start + 12) 0 };
    malloc_head = malloc_start;
    malloc_virt_address = malloc_start;
    malloc_phys_address = phys;
    total_malloc_pages = 1;
  })
