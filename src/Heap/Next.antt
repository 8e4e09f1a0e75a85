-- ===== src/Heap/Next.antt =====
-- `malloc_next`, and that it takes the first fit in a list whose blocks lie one behind the other.
use ab_os.Vmm.{page_size}
use ab_os.Base.{
  ℕ, zero, suc, ◌+◌, ◌%◌, ◌<◌, ◌≡◌, refl, ap, sym, ◌∙◌, Bool, false, Memory, List, [], ◌∷◌, arith,
  length, u32_mod, ltb, ◌==◌, ◌&&◌, if◌then◌else◌, Option, none, some,
}
use ab_os.Base.Words.{load32-lt}
use ab_os.Heap.{
  Heap, node_size, size_of, is_free, next_of, prev_of, address_of, set_free, with_memory,
  split_blocks, malloc_more_pages,
}
use ab_os.Heap.Node.{IsNode}
use ab_os.Heap.Split.{split_blocks_lem}
use ab_os.Heap.Place.{
  first_fit, take-Change, Split-Change, exact, larger, further, placed, some_pair, and_left,
  and_right, before-none, no_fuel, before-some,
}
use ab_os.Heap.Chain.{Block, span, head_of, head_of-lt, after, IsChain, Change, Change-cons}

-- The search of `malloc_next` through the list. `some none` is the end of the list.
pub next_loop : ℕ → ℕ → ℕ → Heap → Option (Option (ℕ × Heap))
next_loop zero size temp h = none
next_loop (suc fuel) size temp h =
    let m = h.vmm.memory in
    let wanted = (size + node_size) % u32_mod in
    let rest = next_loop fuel size (next_of m temp) h in
    if temp == 0
    then some none
    else if is_free m temp && size_of m temp == wanted
    then some (some ((temp + node_size) % u32_mod, with_memory h (set_free temp false m)))
    else if is_free m temp && ltb wanted (size_of m temp)
    then elim (split_blocks fuel temp size h) [ none ↦ none | some r ↦ some (some r) ]
    else rest

-- The search for the node of new pages, which leaves out the last node of the list.
pub cur_loop : ℕ → ℕ → ℕ → ℕ → Heap → Option (ℕ × Heap)
cur_loop zero ptr size cur h = none
cur_loop (suc fuel) ptr size cur h =
    let m = h.vmm.memory in
    let rest = cur_loop fuel ptr size (next_of m cur) h in
    if next_of m cur == 0
    then some (ptr, h)
    else if address_of m cur == ptr
    then split_blocks fuel cur size h
    else rest

pub malloc_next : ℕ → ℕ → Heap → Option (ℕ × Heap)
unfolding next_loop cur_loop
malloc_next fuel size h =
    if size == 0 then some (0, h) else elim (next_loop fuel size h.malloc_head h) [
      | none ↦ none
      | some (some r) ↦ some r
      | some none ↦ elim (malloc_more_pages fuel size h) [
        | none ↦ none
        | some (ptr, h') ↦
            if ltb size page_size then cur_loop fuel ptr size h'.malloc_head h' else some (ptr, h')
      ]
    ]

-- One round of `next_loop`, in terms of the block.
round :
    (fuel size node : ℕ) (b : Block) (bs : List Block) (h : Heap)
    → IsChain h.vmm.memory node (b ∷ bs)
    → 0 < node
    → node + node_size < u32_mod
    → size + node_size < u32_mod
    → next_loop (suc fuel) size node h ≡ (
        if b.free && b.size == size + node_size
        then some (some (node + node_size, with_memory h (set_free node false h.vmm.memory)))
        else if b.free && ltb (size + node_size) b.size
        then elim (split_blocks fuel node size h) [ none ↦ none | some r ↦ some (some r) ]
        else next_loop fuel size (head_of (after node b) bs) h)
unfolding next_loop
round fuel size node b bs h (n, c) pos inside small =
    let w : (size + node_size) % u32_mod ≡ size + node_size = omega arith in
    let p : (node + node_size) % u32_mod ≡ node + node_size = omega arith in
    let z : (node == 0) ≡ false = ground (arith, pos) in
    rw (z, w, p, n.free_is, n.size_is, n.next_is) refl

IsNode-free :
    {m : Memory} {node size : ℕ} {free free' : Bool} {next prev : ℕ}
    → IsNode m node size free next prev
    → free ≡ free'
    → IsNode m node size free' next prev
IsNode-free n e = record {
  size_is = n.size_is;
  free_is = n.free_is ∙ e;
  next_is = n.next_is;
  prev_is = n.prev_is;
  address_is = n.address_is;
}

-- `next_loop` from the first node of a list that has no fit comes to its end.
next_loop-none :
    (fuel size node : ℕ) (bs : List Block) (h : Heap)
    → IsChain h.vmm.memory node bs
    → 0 < node
    → node + span bs < u32_mod
    → size + node_size < u32_mod
    → length bs < fuel
    → first_fit size node bs ≡ none
    → next_loop fuel size (head_of node bs) h ≡ some none
unfolding next_loop first_fit
next_loop-none zero size node bs h c pos inside small enough nowhere = no_fuel (length bs) enough
next_loop-none (suc fuel) size node [] h c pos inside small enough nowhere = refl
next_loop-none (suc fuel) size node (b ∷ bs) h c pos inside small enough nowhere =
    rw (round fuel size node b bs h c pos (omega arith) small) (elim (placed size node b bs) [
      | exact e p ↦ cc
      | larger e l p ↦ cc
      | further e l p ↦
          rw (e, l)
            (next_loop-none fuel size (after node b) bs h c.1 (omega arith) (omega arith) small
              (omega arith) (before-none b (first_fit size (after node b) bs) (sym p ∙ nowhere)))
    ])

-- `next_loop` finds the first fit.
next_loop-some :
    (fuel size node ptr : ℕ) (bs bs' : List Block) (h : Heap)
    → IsChain h.vmm.memory node bs
    → 0 < node
    → node + span bs < u32_mod
    → size + node_size < u32_mod
    → length bs < fuel
    → first_fit size node bs ≡ some (ptr, bs')
    → (m' : Memory) × (next_loop fuel size (head_of node bs) h
        ≡ some (some (ptr, with_memory h m')))
      × Change h.vmm.memory m' node bs bs'
unfolding first_fit
next_loop-some zero size node ptr bs bs' h c pos inside small enough found =
    no_fuel (length bs) enough
next_loop-some (suc fuel) size node ptr [] bs' h c pos inside small enough found = cc
next_loop-some (suc fuel) size node ptr (b ∷ bs) bs' h c pos inside small enough found =
    let go = round fuel size node b bs h c pos (omega arith) small in
    elim (placed size node b bs) [
      | exact e p ↦
          let (q, s) = some_pair (sym p ∙ found) in
          let m' = set_free node false h.vmm.memory in
          (
            m',
            go ∙ rw e (ap (λ (t : ℕ). some (some (t, with_memory h m'))) q),
            rw (sym s) (take-Change b c (and_left b.free (b.size == size + node_size) e)),
          )
      | larger e l p ↦
          let (q, s) = some_pair (sym p ∙ found) in
          let unused = and_left b.free (ltb (size + node_size) b.size) l in
          let fits : size + node_size < b.size =
            ground (arith, and_right b.free (ltb (size + node_size) b.size) l) in
          let (m', r, d) =
            split_blocks_lem fuel node size b.size (head_of (after node b) bs)
              (prev_of h.vmm.memory node) h (IsNode-free c.0 unused) (omega arith) (omega arith)
              (head_of-lt (after node b) bs (omega arith)) (load32-lt h.vmm.memory (node + 12)) in
          (
            m',
            go ∙ rw (e, l, r) (ap (λ (t : ℕ). some (some (t, with_memory h m'))) q),
            rw (sym s) (Split-Change b c unused m' size (omega arith) d),
          )
      | further e l p ↦
          let (bs'', q, s) =
            before-some b (first_fit size (after node b) bs) ptr bs' (sym p ∙ found) in
          let (m', r, d) =
            next_loop-some fuel size (after node b) ptr bs bs'' h c.1 (omega arith) (omega arith)
              small (omega arith) q in
          (m', go ∙ rw (e, l) r, rw s (Change-cons b c d))
    ]

-- `malloc_next` takes the first fit.
pub malloc_next-first_fit :
    (fuel size node ptr : ℕ) (bs bs' : List Block) (h : Heap)
    → IsChain h.vmm.memory node bs
    → h.malloc_head ≡ head_of node bs
    → 0 < node
    → node + span bs < u32_mod
    → 0 < size
    → size + node_size < u32_mod
    → length bs < fuel
    → first_fit size node bs ≡ some (ptr, bs')
    → (m' : Memory) × (malloc_next fuel size h ≡ some (ptr, with_memory h m'))
      × Change h.vmm.memory m' node bs bs'
unfolding malloc_next
malloc_next-first_fit fuel size node ptr bs bs' h c first pos inside some_bytes small enough found =
    let z : (size == 0) ≡ false = ground (arith, some_bytes) in
    let (m', r, d) = next_loop-some fuel size node ptr bs bs' h c pos inside small enough found in
    (m', rw (z, ap (λ (t : ℕ). next_loop fuel size t h) first ∙ r) refl, d)
