-- ===== src/Heap/Node.antt =====
-- One node: what `set_node` stores and leaves alone, and the two nodes of a split.
use ab_os.Base.{
  ℕ, ◌+◌, ◌%◌, ◌≤◌, ◌<◌, ◌≡◌, ◌⊎◌, refl, ap, ◌∙◌, Bool, true, false, not, Memory, update_ne,
  update_self, u32_mod, ◌==◌, if◌then◌else◌, arith,
}
use ab_os.Base.Words.{store32, store32_ne, load32-store32, load32-store32_ne, load32_cong}
use ab_os.Heap.{node_size, size_of, is_free, next_of, prev_of, address_of, set_free, set_node}

-- The fields of a node.
pub record IsNode (m : Memory) (node size : ℕ) (free : Bool) (next prev : ℕ) : Type 0 where
  pub size_is : size_of m node ≡ size
  pub free_is : is_free m node ≡ free
  pub next_is : next_of m node ≡ next
  pub prev_is : prev_of m node ≡ prev
  pub address_is : address_of m node ≡ node + node_size

-- `set_node` stores in the 20 bytes of its node only.
pub set_node_ne :
    (node size : ℕ) (free : Bool) (next prev address : ℕ) (m : Memory) (b : ℕ)
    → (b < node) ⊎ (node + node_size ≤ b)
    → set_node node size free next prev address m b ≡ m b
unfolding set_node
set_node_ne node size free next prev address m b apart =
    let m1 = store32 m node size in
    let m2 = set_free node free m1 in
    let m3 = store32 m2 (node + 8) next in
    let m4 = store32 m3 (node + 12) prev in
    store32_ne m4 (node + 16) address b (omega arith)
    ∙ store32_ne m3 (node + 12) prev b (omega arith)
    ∙ store32_ne m2 (node + 8) next b (omega arith)
    ∙ update_ne m1 (node + 4) b (if free then 1 else 0) (omega arith)
    ∙ store32_ne m node size b (omega arith)

free_read : (free : Bool) → not ((if free then 1 else 0) % 256 == 0) ≡ free
free_read true = refl
free_read false = refl

pub set_node-IsNode :
    (node size : ℕ) (free : Bool) (next prev : ℕ) (m : Memory)
    → size < u32_mod
    → next < u32_mod
    → prev < u32_mod
    → node + node_size < u32_mod
    → IsNode (set_node node size free next prev (node + node_size) m) node size free next prev
unfolding set_node
set_node-IsNode node size free next prev m hs hn hp ha =
    let m1 = store32 m node size in
    let m2 = set_free node free m1 in
    let m3 = store32 m2 (node + 8) next in
    let m4 = store32 m3 (node + 12) prev in
    let a = node + node_size in
    let m5 = store32 m4 (node + 16) a in
    record {
      size_is =
          load32-store32_ne m4 (node + 16) a node (omega arith)
          ∙ load32-store32_ne m3 (node + 12) prev node (omega arith)
          ∙ load32-store32_ne m2 (node + 8) next node (omega arith)
          ∙ load32_cong m2 m1 node
              (λ b l l'. update_ne m1 (node + 4) b (if free then 1 else 0) (omega arith))
          ∙ load32-store32 m node size hs;
      free_is =
          ap (λ (t : ℕ). not (t % 256 == 0))
            (store32_ne m4 (node + 16) a (node + 4) (omega arith)
              ∙ store32_ne m3 (node + 12) prev (node + 4) (omega arith)
              ∙ store32_ne m2 (node + 8) next (node + 4) (omega arith)
              ∙ update_self m1 (node + 4) (if free then 1 else 0))
          ∙ free_read free;
      next_is =
          load32-store32_ne m4 (node + 16) a (node + 8) (omega arith)
          ∙ load32-store32_ne m3 (node + 12) prev (node + 8) (omega arith)
          ∙ load32-store32 m2 (node + 8) next hn;
      prev_is =
          load32-store32_ne m4 (node + 16) a (node + 12) (omega arith)
          ∙ load32-store32 m3 (node + 12) prev hp;
      address_is = load32-store32 m4 (node + 16) a ha;
    }

-- A node is read from its 20 bytes.
pub IsNode-same :
    (m m' : Memory) (node size : ℕ) (free : Bool) (next prev : ℕ)
    → ((b : ℕ) → node ≤ b → b < node + node_size → m' b ≡ m b)
    → IsNode m node size free next prev
    → IsNode m' node size free next prev
IsNode-same m m' node size free next prev same n = record {
  size_is = load32_cong m' m node (λ b l l'. same b (omega arith) (omega arith)) ∙ n.size_is;
  free_is = rw (same (node + 4) (omega arith) (omega arith)) n.free_is;
  next_is = load32_cong m' m (node + 8) (λ b l l'. same b (omega arith) (omega arith)) ∙ n.next_is;
  prev_is = load32_cong m' m (node + 12) (λ b l l'. same b (omega arith) (omega arith)) ∙ n.prev_is;
  address_is =
      load32_cong m' m (node + 16) (λ b l l'. same b (omega arith) (omega arith)) ∙ n.address_is;
}

-- A node after its flag is set.
pub set_free-IsNode :
    (m : Memory) (node size : ℕ) (old free : Bool) (next prev : ℕ)
    → IsNode m node size old next prev
    → IsNode (set_free node free m) node size free next prev
set_free-IsNode m node size old free next prev n =
    let v : ℕ = if free then 1 else 0 in
    let same : (b : ℕ) → (b < node + 4) ⊎ (node + 4 < b) → set_free node free m b ≡ m b =
      λ b apart. update_ne m (node + 4) b v (omega arith) in
    record {
      size_is =
          load32_cong (set_free node free m) m node (λ b l l'. same b (omega arith)) ∙ n.size_is;
      free_is = ap (λ (t : ℕ). not (t % 256 == 0)) (update_self m (node + 4) v) ∙ free_read free;
      next_is =
          load32_cong (set_free node free m) m (node + 8) (λ b l l'. same b (omega arith))
          ∙ n.next_is;
      prev_is =
          load32_cong (set_free node free m) m (node + 12) (λ b l l'. same b (omega arith))
          ∙ n.prev_is;
      address_is =
          load32_cong (set_free node free m) m (node + 16) (λ b l l'. same b (omega arith))
          ∙ n.address_is;
    }
