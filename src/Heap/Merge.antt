-- ===== src/Heap/Merge.antt =====
-- `merge_free_blocks`.
use ab_os.Base.{
  ℕ, zero, suc, ◌+◌, ◌%◌, ◌&&◌, ◌||◌, Memory, u32_mod, ◌==◌, if◌then◌else◌, Option, none, some,
}
use ab_os.Base.Words.{store32}
use ab_os.Base.{
  true, false, ◌≡◌, ◌⊎◌, inl, inr, refl, ap, ◌∙◌, ◌≤◌, ◌<◌, List, [], ◌∷◌, arith, length, zero, suc,
  Bool-cases, false,
}
use ab_os.Base.Words.{store32_ne, load32-store32, load32-store32_ne}
use ab_os.Heap.Chain.{
  Block, span, head_of, after, IsChain, Change, IsChain-same, head_of-lt, InUse-inside, Change-cons,
  Change-trans, Change-refl,
}
use ab_os.Heap.Place.{and_left, and_right, not_used, no_fuel}
use ab_os.Heap.{Heap, node_size, size_of, is_free, next_of, with_memory}

-- The body of the `if` of `merge_free_blocks`.
pub merge_next : ℕ → Memory → Memory
merge_next temp m =
    let sum = (size_of m temp + (size_of m (next_of m temp) + node_size)) % u32_mod in
    let m' = store32 m temp sum in store32 m' (temp + 8) (next_of m' (next_of m' temp))

-- The loop of `merge_free_blocks`, from a node on.
pub merge_loop : ℕ → ℕ → Memory → Option Memory
unfolding merge_next
merge_loop zero temp m = none
merge_loop (suc fuel) temp m =
    let after = next_of m temp in
    let m' = if is_free m temp && is_free m after then merge_next temp m else m in
    let rest = merge_loop fuel (next_of m' temp) m' in
    if temp == 0 || after == 0 then some m else rest

pub merge_free_blocks : ℕ → Heap → Option Heap
merge_free_blocks fuel h = elim (merge_loop fuel h.malloc_head h.vmm.memory) [
  | none ↦ none
  | some m ↦ some (with_memory h m)
]

-- The block that two blocks become.
abbrev pub join : Block → Block → Block
join a b = record { size = a.size + (b.size + node_size); free = true }

-- A block that is free takes in the next one, if that is free too, but not more than one.
unfoldable pub merge_blocks : List Block → List Block
merge_blocks [] = []
merge_blocks (a ∷ []) = a ∷ []
merge_blocks (a ∷ b ∷ bs) =
    let joined = join a b ∷ merge_blocks bs in
    let kept = a ∷ merge_blocks (b ∷ bs) in if a.free && b.free then joined else kept

-- The list after `merge_next` at its first node.
merge_next-Change :
    (m : Memory) (node : ℕ) (a b : Block) (bs : List Block)
    → IsChain m node (a ∷ b ∷ bs)
    → node + span (a ∷ b ∷ bs) < u32_mod
    → (a.free && b.free) ≡ true
    → Change m (merge_next node m) node (a ∷ b ∷ bs) (join a b ∷ bs)
unfolding merge_next
merge_next-Change m node a b bs (n, (n', c)) inside both =
    let free_a = and_left a.free b.free both in
    let free_b = and_right a.free b.free both in
    let sum = a.size + (b.size + node_size) in
    let m1 = store32 m node sum in
    let next = head_of (after (after node a) b) bs in
    let m2 = store32 m1 (node + 8) next in
    let far : (x : ℕ) → (x < node) ⊎ (node + node_size ≤ x) → m2 x ≡ m x = λ x out.
      store32_ne m1 (node + 8) next x (omega arith) ∙ store32_ne m node sum x (omega arith) in
    let s : (size_of m node + (size_of m (next_of m node) + node_size)) % u32_mod ≡ sum =
      rw (n.size_is, n.next_is, n'.size_is) (omega arith) in
    let t : next_of m1 (next_of m1 node) ≡ next =
      (ap (λ (x : ℕ). next_of m1 x)
          (load32-store32_ne m node sum (node + 8) (omega arith) ∙ n.next_is)
        ∙ load32-store32_ne m node sum (after node a + 8) (omega arith)
        ∙ n'.next_is) in
    let e : after node (join a b) ≡ after (after node a) b = omega arith in
    rw (s, t)
      (record {
        chain = rw e (
          record {
            size_is =
                load32-store32_ne m1 (node + 8) next node (omega arith)
                ∙ load32-store32 m node sum (omega arith);
            free_is =
                rw
                  (
                    store32_ne m1 (node + 8) next (node + 4) (omega arith),
                    store32_ne m node sum (node + 4) (omega arith),
                  )
                  (n.free_is ∙ free_a);
            next_is =
                load32-store32 m1 (node + 8) next
                  (head_of-lt (after (after node a) b) bs (omega arith));
            prev_is = refl;
            address_is =
                load32-store32_ne m1 (node + 8) next (node + 16) (omega arith)
                ∙ load32-store32_ne m node sum (node + 16) (omega arith)
                ∙ n.address_is;
          },
          IsChain-same m m2 (after (after node a) b) bs (λ x l l'. far x (omega arith)) c,
        );
        head_same = refl;
        span_same = omega arith;
        still = λ x u. elim u [
          | inl (used, l, l') ↦ not_used a free_a used
          | inr (inl (used, l, l')) ↦ not_used b free_b used
          | inr (inr there) ↦ rw e (inr there)
        ];
        kept = λ x u. let (l, l') = InUse-inside node (a ∷ b ∷ bs) x u in far x (omega arith);
        outside = λ x out. far x (omega arith);
      })

merge_blocks-both :
    (a b : Block) (bs : List Block)
    → (a.free && b.free) ≡ true
    → merge_blocks (a ∷ b ∷ bs) ≡ join a b ∷ merge_blocks bs
unfolding merge_blocks
merge_blocks-both a b bs both = rw both refl

merge_blocks-one :
    (a b : Block) (bs : List Block)
    → (a.free && b.free) ≡ false
    → merge_blocks (a ∷ b ∷ bs) ≡ a ∷ merge_blocks (b ∷ bs)
unfolding merge_blocks
merge_blocks-one a b bs one = rw one refl

-- One round of the loop at a node that has a next one.
module _ (fuel : ℕ) (m : Memory) (node : ℕ) (a b : Block) (bs : List Block)
    (c : IsChain m node (a ∷ b ∷ bs)) (pos : 0 < node) where
  round-both :
      (a.free && b.free) ≡ true
      → merge_loop (suc fuel) node m
        ≡ merge_loop fuel (next_of (merge_next node m) node) (merge_next node m)
  unfolding merge_loop
  round-both both =
      let (n, (n', c')) = c in
      let z : (node == 0) ≡ false = ground (arith, pos) in
      let z' : (after node a == 0) ≡ false = ground (arith, pos) in
      rw (z, n.next_is, z', n.free_is, n'.free_is, both) refl

  round-one :
      (a.free && b.free) ≡ false → merge_loop (suc fuel) node m ≡ merge_loop fuel (after node a) m
  unfolding merge_loop
  round-one one =
      let (n, (n', c')) = c in
      let z : (node == 0) ≡ false = ground (arith, pos) in
      let z' : (after node a == 0) ≡ false = ground (arith, pos) in
      rw (z, n.next_is, z', n.free_is, n'.free_is, one, n.next_is) refl

round-last :
    (fuel : ℕ) (m : Memory) (node : ℕ) (a : Block)
    → IsChain m node (a ∷ [])
    → 0 < node
    → (merge_loop (suc fuel) node m ≡ some m) × Change m m node (a ∷ []) (merge_blocks (a ∷ []))
unfolding merge_loop merge_blocks
round-last fuel m node a (n, c) pos =
    let z : (node == 0) ≡ false = ground (arith, pos) in
    (rw (z, n.next_is) refl, Change-refl m node (a ∷ []) (n, c))

round-end :
    (fuel : ℕ) (m : Memory) (node : ℕ)
    → (merge_loop (suc fuel) 0 m ≡ some m) × Change m m node [] (merge_blocks [])
unfolding merge_loop merge_blocks
round-end fuel m node = (refl, Change-refl m node [] tt)

-- `merge_loop` from the first node of a list.
merge_loop-Change :
    (fuel : ℕ) (m : Memory) (node : ℕ) (bs : List Block)
    → IsChain m node bs
    → 0 < node
    → node + span bs < u32_mod
    → length bs < fuel
    → (m' : Memory) × (merge_loop fuel (head_of node bs) m ≡ some m')
      × Change m m' node bs (merge_blocks bs)
merge_loop-Change zero m node bs c pos inside enough = no_fuel (length bs) enough
merge_loop-Change (suc fuel) m node [] c pos inside enough =
    (m, (round-end fuel m node).0, (round-end fuel m node).1)
merge_loop-Change (suc fuel) m node (a ∷ []) c pos inside enough =
    (m, (round-last fuel m node a c pos).0, (round-last fuel m node a c pos).1)
merge_loop-Change (suc fuel) m node (a ∷ b ∷ bs) c pos inside enough =
    elim (Bool-cases (a.free && b.free)) [
      | inl both ↦
          let d = merge_next-Change m node a b bs c inside both in
          let (m', r, d') =
            merge_loop-Change fuel (merge_next node m) (after node (join a b)) bs d.chain.1
              (omega arith) (omega (arith, d.span_same)) (omega arith) in
          (
            m',
            round-both fuel m node a b bs c pos both
                ∙ ap (λ (t : ℕ). merge_loop fuel t (merge_next node m)) d.chain.0.next_is
                ∙ r,
            rw (merge_blocks-both a b bs both) (Change-trans d (Change-cons (join a b) d.chain d')),
          )
      | inr one ↦
          let (m', r, d) =
            merge_loop-Change fuel m (after node a) (b ∷ bs) c.1 (omega arith) (omega arith)
              (omega arith) in
          (
            m',
            round-one fuel m node a b bs c pos one ∙ r,
            rw (merge_blocks-one a b bs one) (Change-cons a c d),
          )
    ]

-- `merge_free_blocks` of a list whose blocks lie one behind the other returns, with fuel for each
-- block and one more round, and leaves the list of `merge_blocks`: the bytes of the blocks in use and
-- those around the list stay as they were.
pub merge_free_blocks-merge_blocks :
    (fuel node : ℕ) (bs : List Block) (h : Heap)
    → IsChain h.vmm.memory node bs
    → h.malloc_head ≡ head_of node bs
    → 0 < node
    → node + span bs < u32_mod
    → length bs < fuel
    → (m' : Memory) × (merge_free_blocks fuel h ≡ some (with_memory h m'))
      × Change h.vmm.memory m' node bs (merge_blocks bs)
unfolding merge_free_blocks
merge_free_blocks-merge_blocks fuel node bs h c first pos inside enough =
    let (m', r, d) = merge_loop-Change fuel h.vmm.memory node bs c pos inside enough in
    let e : merge_loop fuel h.malloc_head h.vmm.memory ≡ some m' =
      ap (λ (t : ℕ). merge_loop fuel t h.vmm.memory) first ∙ r in
    (m', rw (merge_free_blocks, e) refl, d)
