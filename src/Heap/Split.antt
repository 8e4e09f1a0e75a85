-- ===== src/Heap/Split.antt =====
-- `split_blocks` of a free node that is large enough.
use ab_os.Base.{
  ℕ, ◌+◌, ◌-◌, ◌*◌, ◌%◌, ◌≤◌, ◌<◌, ◌≡◌, ◌⊎◌, refl, ◌∙◌, true, false, Memory, u32_mod, leb, some,
  arith,
}
use ab_os.Heap.{Heap, node_size, set_node, split_node, split_blocks, with_memory}
use ab_os.Heap.Node.{IsNode, IsNode-same, set_node_ne, set_node-IsNode}

-- What a split leaves: the node with the size that was asked for, in use, then a free node with the
-- rest, and every byte outside the two headers as it was.
pub record Split (m m' : Memory) (node size total next prev : ℕ) : Type 0 where
  pub taken : IsNode m' node size false (node + size + node_size) prev
  pub rest : IsNode m' (node + size + node_size) (total - size - node_size) true next node
  pub outside :
      (b : ℕ)
      → (b < node) ⊎ (node + node_size ≤ b)
      → (b < node + size + node_size) ⊎ (node + size + node_size + node_size ≤ b)
      → m' b ≡ m b

module _ (m : Memory) (node size total next prev : ℕ) (n : IsNode m node total true next prev)
    (fits : size + node_size ≤ total) (inside : node + node_size + total < u32_mod)
    (next_word : next < u32_mod) (prev_word : prev < u32_mod) where
  abbrev old : ℕ
  old = node + size + node_size

  abbrev first : Memory
  first = set_node old (total - size - node_size) true next node (old + node_size) m

  first-same : (b : ℕ) → node ≤ b → b < node + node_size → first b ≡ m b
  first-same b l l' =
      set_node_ne old (total - size - node_size) true next node (old + node_size) m b (omega arith)

  abbrev both : Memory
  both = set_node node size false old prev (node + node_size) first

  split_node_lem : split_node node size m ≡ both
  unfolding split_node
  split_node_lem =
      let e : (node + size + node_size) % u32_mod ≡ old = omega arith in
      let e' : (old + node_size) % u32_mod ≡ old + node_size = omega arith in
      let e'' : (node + node_size) % u32_mod ≡ node + node_size = omega arith in
      let r : (total + 2 * u32_mod - size - node_size) % u32_mod ≡ total - size - node_size =
        omega arith in
      rw
        (
          n.size_is,
          n.next_is,
          e,
          e',
          e'',
          r,
          (IsNode-same m first node total true next prev first-same n).prev_is,
        )
        refl

  both-Split : Split m both node size total next prev
  both-Split = record {
    taken =
        set_node-IsNode node size false old prev first (omega arith) (omega arith) prev_word
          (omega arith);
    rest =
        IsNode-same first both old (total - size - node_size) true next node
          (λ b l l'. set_node_ne node size false old prev (node + node_size) first b (omega arith))
          (set_node-IsNode old (total - size - node_size) true next node m (omega arith) next_word
            (omega arith) (omega arith));
    outside = λ b out out'.
        set_node_ne node size false old prev (node + node_size) first b out
        ∙ set_node_ne old (total - size - node_size) true next node (old + node_size) m b out';
  }

pub split_blocks_lem :
    (fuel node size total next prev : ℕ) (h : Heap)
    → IsNode h.vmm.memory node total true next prev
    → size + node_size ≤ total
    → node + node_size + total < u32_mod
    → next < u32_mod
    → prev < u32_mod
    → (m' : Memory) × (split_blocks fuel node size h ≡ some (node + node_size, with_memory h m'))
      × Split h.vmm.memory m' node size total next prev
unfolding split_blocks
split_blocks_lem fuel node size total next prev h n fits inside nw pw =
    let e : (node + node_size) % u32_mod ≡ node + node_size = omega arith in
    let t : leb ((size + node_size) % u32_mod) total ≡ true = ground arith in
    (
      both h.vmm.memory node size total next prev n fits inside nw pw,
      rw
          (
            n.free_is,
            n.size_is,
            t,
            e,
            split_node_lem h.vmm.memory node size total next prev n fits inside nw pw,
          )
          refl,
      both-Split h.vmm.memory node size total next prev n fits inside nw pw,
    )

-- `split_blocks` of a free node with room for the size and one more header, in memory that does not
-- wrap, returns the address behind the node's header, and splits the node in two.
pub split_blocks-Split :
    (fuel node size total next prev : ℕ) (h : Heap)
    → IsNode h.vmm.memory node total true next prev
    → size + node_size ≤ total
    → node + node_size + total < u32_mod
    → next < u32_mod
    → prev < u32_mod
    → (h' : Heap) × (split_blocks fuel node size h ≡ some (node + node_size, h'))
      × Split h.vmm.memory h'.vmm.memory node size total next prev
split_blocks-Split fuel node size total next prev h n fits inside nw pw =
    let (m', e, s) = split_blocks_lem fuel node size total next prev h n fits inside nw pw in
    (with_memory h m', e, s)
