-- ===== src/Heap/Chain.antt =====
-- Lists of nodes that lie one behind the other, each with its bytes behind its header.
use ab_os.Base.{
  u32_mod, ℕ, ◌+◌, ◌≤◌, ◌<◌, ◌≡◌, ◌⊎◌, inl, inr, refl, ap, ◌∙◌, Bool, false, Memory, List, [], ◌∷◌,
  arith,
}
use ab_os.Heap.{node_size, prev_of}
use ab_os.Heap.Node.{IsNode, IsNode-same}

pub record Block : Type 0 where
  pub size : ℕ
  pub free : Bool

-- The bytes of a list of blocks and their headers.
abbrev pub span : List Block → ℕ
span [] = 0
span (b ∷ bs) = node_size + b.size + span bs

-- The pointer to a list whose first node would be at an address.
abbrev pub head_of : ℕ → List Block → ℕ
head_of node [] = 0
head_of node (b ∷ bs) = node

pub head_of-lt : (end : ℕ) (bs : List Block) → end < u32_mod → head_of end bs < u32_mod
head_of-lt end [] l = omega arith
head_of-lt end (b ∷ bs) l = l

-- The address behind a block.
abbrev pub after : ℕ → Block → ℕ
after node b = node + node_size + b.size

-- The nodes in memory are those of the blocks, in order. The pointers back are left open:
-- `merge_free_blocks` does not keep them.
abbrev pub IsChain : Memory → ℕ → List Block → Type 0
IsChain m node [] = Unit
IsChain m node (b ∷ bs) =
    IsNode m node b.size b.free (head_of (after node b) bs) (prev_of m node)
    × IsChain m (after node b) bs

-- A byte of a block that is in use.
abbrev pub InUse : ℕ → List Block → ℕ → Type 0
InUse node [] a = ⊥
InUse node (b ∷ bs) a =
    ((b.free ≡ false) × (node + node_size ≤ a) × (a < after node b)) ⊎ InUse (after node b) bs a

pub InUse-inside :
    (node : ℕ) (bs : List Block) (a : ℕ)
    → InUse node bs a
    → (node + node_size ≤ a) × (a < node + span bs)
InUse-inside node [] a u = elim u [ ]
InUse-inside node (b ∷ bs) a (inl (used, l, l')) = (l, omega arith)
InUse-inside node (b ∷ bs) a (inr u) =
    let (l, l') = InUse-inside (after node b) bs a u in (omega arith, omega arith)

pub IsNode-own :
    {m : Memory} {node size : ℕ} {free : Bool} {next prev : ℕ}
    → IsNode m node size free next prev
    → IsNode m node size free next (prev_of m node)
IsNode-own n = record {
  size_is = n.size_is;
  free_is = n.free_is;
  next_is = n.next_is;
  prev_is = refl;
  address_is = n.address_is;
}

pub IsChain-same :
    (m m' : Memory) (node : ℕ) (bs : List Block)
    → ((a : ℕ) → node ≤ a → a < node + span bs → m' a ≡ m a)
    → IsChain m node bs
    → IsChain m' node bs
IsChain-same m m' node [] same c = tt
IsChain-same m m' node (b ∷ bs) same (n, c) = (
  IsNode-own (
      IsNode-same m m' node b.size b.free (head_of (after node b) bs) (prev_of m node)
        (λ a l l'. same a l (omega arith)) n),
  IsChain-same m m' (after node b) bs (λ a l l'. same a (omega arith) (omega arith)) c,
)

-- What an operation on the list does: the nodes are those of the new blocks, in the same place; what
-- was in use is in use, and keeps its bytes; the bytes around the list are not touched.
pub record Change (m m' : Memory) (node : ℕ) (bs bs' : List Block) : Type 0 where
  pub chain : IsChain m' node bs'
  pub head_same : head_of node bs' ≡ head_of node bs
  pub span_same : span bs' ≡ span bs
  pub still : (a : ℕ) → InUse node bs a → InUse node bs' a
  pub kept : (a : ℕ) → InUse node bs a → m' a ≡ m a
  pub outside : (a : ℕ) → (a < node) ⊎ (node + span bs ≤ a) → m' a ≡ m a

pub Change-refl :
    (m : Memory) (node : ℕ) (bs : List Block) → IsChain m node bs → Change m m node bs bs
Change-refl m node bs c = record {
  chain = c;
  head_same = refl;
  span_same = refl;
  still = λ a u. u;
  kept = λ a u. refl;
  outside = λ a out. refl;
}

pub Change-trans :
    {m m' m'' : Memory} {node : ℕ} {bs bs' bs'' : List Block}
    → Change m m' node bs bs'
    → Change m' m'' node bs' bs''
    → Change m m'' node bs bs''
Change-trans c d = record {
  chain = d.chain;
  head_same = d.head_same ∙ c.head_same;
  span_same = d.span_same ∙ c.span_same;
  still = λ a u. d.still a (c.still a u);
  kept = λ a u. d.kept a (c.still a u) ∙ c.kept a u;
  outside = λ a out. d.outside a (omega (arith, c.span_same)) ∙ c.outside a out;
}

-- A change behind the first block of a list.
pub Change-cons :
    {m m' : Memory} {node : ℕ} (b : Block) {bs bs' : List Block}
    → IsChain m node (b ∷ bs)
    → Change m m' (after node b) bs bs'
    → Change m m' node (b ∷ bs) (b ∷ bs')
Change-cons {m} {m'} {node} b {bs} {bs'} (n, c) d = record {
  chain = (
    rw (d.head_same) (
        IsNode-own (
          IsNode-same m m' node b.size b.free (head_of (after node b) bs) (prev_of m node)
            (λ a l l'. d.outside a (inl (omega arith))) n)),
    d.chain,
  );
  head_same = refl;
  span_same = ap (λ (t : ℕ). node_size + b.size + t) d.span_same;
  still = λ a u. elim u [ inl here ↦ inl here | inr there ↦ inr (d.still a there) ];
  kept = λ a u. elim u [ inl (used, l, l') ↦ d.outside a (inl l') | inr there ↦ d.kept a there ];
  outside = λ a out. d.outside a (omega arith);
}
