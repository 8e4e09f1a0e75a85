-- ===== src/Syscalls/Allocate.antt =====
-- `sys_malloc` and `sys_free`, and what they do to a heap whose blocks lie one behind the other.
use ab_os.Base.{
  ℕ, suc, ◌+◌, ◌-◌, ◌≤◌, ◌<◌, ◌≡◌, ◌≢◌, ◌⊎◌, refl, sym, ◌∙◌, true, false, List, [], ◌∷◌, length,
  arith, update_ne, u32_mod, ◌==◌, ltb, if◌then◌else◌, Option, some, ◌>>=◌,
}
use ab_os.Heap.{next_of, Heap, malloc_init, node_size, set_free, prev_of, with_memory}
use ab_os.Heap.Next.{malloc_next, malloc_next-first_fit}
use ab_os.Heap.Merge.{merge_free_blocks, merge_blocks, merge_free_blocks-merge_blocks}
use ab_os.Heap.Free.{malloc_free, malloc_free_first}
use ab_os.Heap.Node.{set_free-IsNode}
use ab_os.Heap.Place.{first_fit, front, back, first_fit-InUse, first_fit-length}
use ab_os.Heap.Chain.{
  Block, span, head_of, after, IsChain, InUse, Change-trans, IsNode-own, IsChain-same, InUse-inside,
}
use ab_os.Syscalls.{Kernel}

-- The pointer; without a list it is that of the first node, whatever the size.
pub sys_malloc : ℕ → ℕ → Kernel → Option (ℕ × Kernel)
sys_malloc fuel bytes k =
    let h = k.heap in
    if h.malloc_head == 0
    then (malloc_init fuel h >>= λ r. some (r.0, record k { heap = r.1 }))
    else (do
      (ptr, h') ← malloc_next fuel bytes h
      h'' ← merge_free_blocks fuel h'
      some (ptr, record k { heap = h'' }))

pub sys_free : ℕ → ℕ → Kernel → Option Kernel
sys_free fuel ptr k = malloc_free fuel ptr k.heap >>= λ h. some (record k { heap = h })

-- A heap whose list is that of the blocks, in memory that does not wrap.
pub record IsHeap (h : Heap) (node : ℕ) (bs : List Block) : Type 0 where
  pub chain : IsChain h.vmm.memory node bs
  pub first : h.malloc_head ≡ head_of node bs
  pub some_block : 0 < head_of node bs
  pub not_null : 0 < node
  pub inside : node + span bs < u32_mod

-- What an allocation leaves.
pub record Allocated (h h' : Heap) (node size ptr : ℕ) (bs bs' : List Block) : Type 0 where
  pub heap : IsHeap h' node bs'
  pub still : (a : ℕ) → InUse node bs a → InUse node bs' a
  pub kept : (a : ℕ) → InUse node bs a → h'.vmm.memory a ≡ h.vmm.memory a
  pub fresh : (a : ℕ) → ptr ≤ a → a < ptr + size → InUse node bs a → ⊥
  pub owned : (a : ℕ) → ptr ≤ a → a < ptr + size → InUse node bs' a

pub sys_malloc-first_fit :
    (fuel size node ptr : ℕ) (bs bs' : List Block) (k : Kernel)
    → IsHeap k.heap node bs
    → 0 < size
    → size + node_size < u32_mod
    → length bs + 1 < fuel
    → first_fit size node bs ≡ some (ptr, bs')
    → (h' : Heap) × (sys_malloc fuel size k ≡ some (ptr, record k { heap = h' }))
      × Allocated k.heap h' node size ptr bs (merge_blocks bs')
unfolding sys_malloc
sys_malloc-first_fit fuel size node ptr bs bs' k h some_bytes small enough found =
    let (m1, r, d) =
      malloc_next-first_fit fuel size node ptr bs bs' k.heap h.chain h.first h.not_null h.inside
        some_bytes small (omega arith) found in
    let (m2, r', d') =
      merge_free_blocks-merge_blocks fuel node bs' (with_memory k.heap m1) d.chain
        (h.first ∙ sym d.head_same) h.not_null (omega (arith, d.span_same, h.inside))
        (omega (arith, first_fit-length size node ptr bs bs' found)) in
    let t = Change-trans d d' in
    let z : (k.heap.malloc_head == 0) ≡ false = ground (arith, h.first, h.some_block) in
    (
      with_memory k.heap m2,
      rw (z, r, r') refl,
      record {
        heap = record {
          chain = t.chain;
          first = h.first ∙ sym t.head_same;
          some_block = omega (arith, t.head_same, h.some_block);
          not_null = h.not_null;
          inside = omega (arith, t.span_same, h.inside);
        };
        still = t.still;
        kept = t.kept;
        fresh = λ a l l'. (first_fit-InUse size node ptr a bs bs' found l l').2;
        owned = λ a l l'. d'.still a (first_fit-InUse size node ptr a bs bs' found l l').1;
      },
    )

-- A block given back.
abbrev pub release : Block → Block
release b = record b { free = true }

-- `sys_free` of the first block of a list of two or more marks it free and merges the list; the
-- blocks that are then in use keep their bytes.
pub sys_free-first :
    (fuel node : ℕ) (a b : Block) (bs : List Block) (k : Kernel)
    → IsHeap k.heap node (a ∷ b ∷ bs)
    → length bs + 2 < fuel
    → (h' : Heap) × (sys_free (suc fuel) (node + node_size) k ≡ some (record k { heap = h' }))
      × IsHeap h' node (merge_blocks (release a ∷ b ∷ bs))
      × ((x : ℕ) → InUse node (release a ∷ b ∷ bs) x → h'.vmm.memory x ≡ k.heap.vmm.memory x)
unfolding sys_free
sys_free-first fuel node a b bs k h enough =
    let m = k.heap.vmm.memory in
    let m1 = set_free node true m in
    let more : next_of m node ≢ 0 = omega (arith, h.chain.0.next_is) in
    let same : (x : ℕ) → (x < node + 4) ⊎ (node + 4 < x) → m1 x ≡ m x =
      λ x apart. update_ne m (node + 4) x 1 (omega arith) in
    let c : IsChain m1 node (release a ∷ b ∷ bs) = (
      IsNode-own
          (set_free-IsNode m node a.size a.free true (after node a) (prev_of m node) h.chain.0),
      IsChain-same m m1 (after node a) (b ∷ bs) (λ x l l'. same x (omega arith)) h.chain.1,
    ) in
    let (m2, r, d) =
      merge_free_blocks-merge_blocks fuel node (release a ∷ b ∷ bs) (with_memory k.heap m1) c
        h.first h.not_null (omega (arith, h.inside)) (omega arith) in
    (
      with_memory k.heap m2,
      rw
          (
            malloc_free_first fuel (node + node_size) node k.heap h.first more h.chain.0.address_is,
            r,
          )
          refl,
      record {
        chain = d.chain;
        first = h.first ∙ sym d.head_same;
        some_block = omega (arith, d.head_same, h.some_block);
        not_null = h.not_null;
        inside = omega (arith, d.span_same, h.inside);
      },
      λ x u.
          let (l, l') = InUse-inside node (release a ∷ b ∷ bs) x u in
          d.kept x u ∙ same x (omega arith),
    )

abbrev pub whole : ℕ → Block
whole total = record { size = total; free = true }

first_fit-whole :
    (size node total : ℕ)
    → size + node_size < total
    → first_fit size node (whole total ∷ [])
      ≡ some (node + node_size, front size ∷ back size (whole total) ∷ [])
unfolding first_fit
first_fit-whole size node total fits =
    let e : (total == size + node_size) ≡ false = ground (arith, fits) in
    let l : ltb (size + node_size) total ≡ true = ground (arith, fits) in rw (e, l) refl

-- In a heap that is one free block of `total` bytes, `sys_malloc` of a positive size, which with the 20
-- bytes of one more header is less than `total`, returns the pointer behind the header, and `sys_free`
-- of that pointer makes it one free block of the same size again. (Where the size and a header are just
-- `total` the block is taken whole, and `sys_free` frees nothing.)
pub sys_free-sys_malloc :
    (fuel size node total : ℕ) (k : Kernel)
    → IsHeap k.heap node (whole total ∷ [])
    → 0 < size
    → size + node_size < total
    → 2 < fuel
    → (k1 : Kernel) × (k2 : Kernel) × (sys_malloc fuel size k ≡ some (node + node_size, k1))
      × (sys_free (suc fuel) (node + node_size) k1 ≡ some k2)
      × IsHeap k2.heap node (whole total ∷ [])
unfolding merge_blocks
sys_free-sys_malloc fuel size node total k h some_bytes fits enough =
    let (h1, r, d) =
      sys_malloc-first_fit fuel size node (node + node_size) (whole total ∷ [])
        (front size ∷ back size (whole total) ∷ []) k h some_bytes (omega (arith, h.inside))
        (omega arith) (first_fit-whole size node total fits) in
    let k1 = record k { heap = h1 } in
    let (h2, r', i, _) =
      sys_free-first fuel node (front size) (back size (whole total)) [] k1 d.heap (omega arith) in
    let e : size + (total - size - node_size + node_size) ≡ total = omega arith in
    (k1, record k { heap = h2 }, r, r', rw (sym e) i)
