-- ===== src/Heap/Free.antt =====
-- `malloc_free`, and what it does to a list of at least two nodes.
use ab_os.Base.{
  true, ap, ◌∙◌, arith, ℕ, zero, suc, ◌≡◌, ◌≢◌, refl, ==_ne, true, ◌==◌, if◌then◌else◌, Option,
  none, some,
}
use ab_os.Heap.{Heap, next_of, address_of, set_free, with_memory}
use ab_os.Heap.Merge.{merge_free_blocks}

-- The loop of `malloc_free` does not change `temp`.
pub free_loop : ℕ → ℕ → ℕ → Heap → Option Heap
free_loop zero ptr temp h = none
free_loop (suc fuel) ptr temp h =
    let m = h.vmm.memory in
    let rest = free_loop fuel ptr temp h in
    if next_of m temp == 0
    then some h
    else if address_of m temp == ptr
    then merge_free_blocks fuel (with_memory h (set_free temp true m))
    else rest

pub malloc_free : ℕ → ℕ → Heap → Option Heap
unfolding free_loop
malloc_free fuel ptr h = free_loop fuel ptr h.malloc_head h

-- The loop keeps its place.
free_loop_stuck :
    (fuel ptr : ℕ) (temp : ℕ) (h : Heap)
    → next_of h.vmm.memory temp ≢ 0
    → address_of h.vmm.memory temp ≢ ptr
    → free_loop fuel ptr temp h ≡ none
unfolding free_loop
free_loop_stuck zero ptr temp h more other = refl
free_loop_stuck (suc fuel) ptr temp h more other =
    rw (==_ne (next_of h.vmm.memory temp) 0 more, ==_ne (address_of h.vmm.memory temp) ptr other)
      (free_loop_stuck fuel ptr temp h more other)

-- With two nodes in the list, `malloc_free` of any pointer but that of the first node never
-- returns: no number of rounds is enough, since the loop does not go on to the next node.
pub malloc_free_stuck :
    (fuel ptr : ℕ) (h : Heap)
    → next_of h.vmm.memory h.malloc_head ≢ 0
    → address_of h.vmm.memory h.malloc_head ≢ ptr
    → malloc_free fuel ptr h ≡ none
unfolding malloc_free
malloc_free_stuck fuel ptr h more other = free_loop_stuck fuel ptr h.malloc_head h more other

-- At a first node that has a next one, and its own pointer.
pub malloc_free_first :
    (fuel ptr node : ℕ) (h : Heap)
    → h.malloc_head ≡ node
    → next_of h.vmm.memory node ≢ 0
    → address_of h.vmm.memory node ≡ ptr
    → malloc_free (suc fuel) ptr h
      ≡ merge_free_blocks fuel (with_memory h (set_free node true h.vmm.memory))
unfolding malloc_free free_loop
malloc_free_first fuel ptr node h first more own =
    let e : (address_of h.vmm.memory node == ptr) ≡ true = ground (arith, own) in
    let go : free_loop (suc fuel) ptr node h
        ≡ merge_free_blocks fuel (with_memory h (set_free node true h.vmm.memory)) =
      rw (==_ne (next_of h.vmm.memory node) 0 more, e) refl in
    ap (λ (t : ℕ). free_loop (suc fuel) ptr t h) first ∙ go
