-- ===== src/Heap/Place.antt =====
-- First fit, which is what `malloc_next` does to a list of blocks.
use ab_os.Base.{
  ℕ, ◌+◌, ◌-◌, ◌≤◌, ◌<◌, ◌≡◌, ◌⊎◌, inl, inr, refl, sym, ◌∙◌, Bool, true, false, Memory, List, [],
  ◌∷◌, arith, update_ne, length, ltb, ◌==◌, ◌&&◌, if◌then◌else◌, Option, none, some, Bool-cases,
}
use ab_os.Heap.{node_size, prev_of, set_free}
use ab_os.Heap.Node.{set_free-IsNode}
use ab_os.Heap.Split.{Split}
use ab_os.Heap.Chain.{
  Block, head_of, after, IsChain, InUse, Change, IsNode-own, IsChain-same, InUse-inside,
}

abbrev pub take : Block → Block
take b = record b { free = false }

-- The two blocks that a block is split in.
abbrev pub front : ℕ → Block
front size = record { size = size; free = false }

abbrev pub back : ℕ → Block → Block
back size b = record { size = b.size - size - node_size; free = true }

abbrev pub before : Block → Option (ℕ × List Block) → Option (ℕ × List Block)
before b none = none
before b (some (ptr, bs)) = some (ptr, b ∷ bs)

-- The address of the first block that is free and of the size, or larger, and the blocks after it
-- is taken. The size that is asked for is compared with a header too many: a block that is taken
-- whole has 20 bytes more than asked for.
unfoldable pub first_fit : ℕ → ℕ → List Block → Option (ℕ × List Block)
first_fit size node [] = none
first_fit size node (b ∷ bs) =
    let rest = first_fit size (after node b) bs in
    if b.free && b.size == size + node_size
    then some (node + node_size, take b ∷ bs)
    else if b.free && ltb (size + node_size) b.size
    then some (node + node_size, front size ∷ back size b ∷ bs)
    else before b rest

pub no_fuel : {A : Type 0} (n : ℕ) → n < 0 → A
no_fuel n less = ground (arith, less)

pub not_used : {A : Type 0} (b : Block) → b.free ≡ true → b.free ≡ false → A
not_used b unused used = ground (arith, unused, used)

module _ {m : Memory} {node : ℕ} (b : Block) {bs : List Block} (c : IsChain m node (b ∷ bs))
    (unused : b.free ≡ true) where
  pub take-Change : Change m (set_free node false m) node (b ∷ bs) (take b ∷ bs)
  take-Change =
      let same : (a : ℕ) → (a < node + 4) ⊎ (node + 4 < a) → set_free node false m a ≡ m a =
        λ a apart. update_ne m (node + 4) a 0 (omega arith) in
      record {
        chain = (
          IsNode-own (
              set_free-IsNode m node b.size b.free false (head_of (after node b) bs)
                (prev_of m node) c.0),
          IsChain-same m (set_free node false m) (after node b) bs (λ a l l'. same a (omega arith))
              c.1,
        );
        head_same = refl;
        span_same = refl;
        still =
            λ a u. elim u [ inl (used, l, l') ↦ not_used b unused used | inr there ↦ inr there ];
        kept = λ a u. elim u [
          | inl (used, l, l') ↦ not_used b unused used
          | inr there ↦ let (l, l') = InUse-inside (after node b) bs a there in same a (omega arith)
        ];
        outside = λ a out. same a (omega arith);
      }

  pub Split-Change :
      (m' : Memory) (size : ℕ)
      → size + node_size ≤ b.size
      → Split m m' node size b.size (head_of (after node b) bs) (prev_of m node)
      → Change m m' node (b ∷ bs) (front size ∷ back size b ∷ bs)
  Split-Change m' size fits s =
      let o : after node (front size) ≡ node + size + node_size = omega arith in
      let e : after (node + size + node_size) (back size b) ≡ after node b = omega arith in
      record {
        chain =
            rw (o, e)
              (
                IsNode-own s.taken,
                (
                  IsNode-own s.rest,
                  IsChain-same m m' (after node b) bs
                      (λ a l l'. s.outside a (omega arith) (omega arith)) c.1,
                ),
              );
        head_same = refl;
        span_same = omega arith;
        still = λ a u. elim u [
          | inl (used, l, l') ↦ not_used b unused used
          | inr there ↦ rw (o, e) (inr (inr there))
        ];
        kept = λ a u. elim u [
          | inl (used, l, l') ↦ not_used b unused used
          | inr there ↦
              let (l, l') = InUse-inside (after node b) bs a there in
              s.outside a (omega arith) (omega arith)
        ];
        outside = λ a out. s.outside a (omega arith) (omega arith);
      }

-- The three cases of `first_fit`.
pub data Placed (size node : ℕ) (b : Block) (bs : List Block) : Type 0 where
  exact :
      (b.free && b.size == size + node_size) ≡ true
      → first_fit size node (b ∷ bs) ≡ some (node + node_size, take b ∷ bs)
      → Placed size node b bs
  larger :
      (b.free && b.size == size + node_size) ≡ false
      → (b.free && ltb (size + node_size) b.size) ≡ true
      → first_fit size node (b ∷ bs) ≡ some (node + node_size, front size ∷ back size b ∷ bs)
      → Placed size node b bs
  further :
      (b.free && b.size == size + node_size) ≡ false
      → (b.free && ltb (size + node_size) b.size) ≡ false
      → first_fit size node (b ∷ bs) ≡ before b (first_fit size (after node b) bs)
      → Placed size node b bs

pub placed : (size node : ℕ) (b : Block) (bs : List Block) → Placed size node b bs
unfolding first_fit
placed size node b bs = elim (Bool-cases (b.free && b.size == size + node_size)) [
  | inl e ↦ exact e (rw e refl)
  | inr e ↦ elim (Bool-cases (b.free && ltb (size + node_size) b.size)) [
    | inl l ↦ larger e l (rw (e, l) refl)
    | inr l ↦ further e l (rw (e, l) refl)
  ]
]

pub some_pair :
    {a a' : ℕ} {bs bs' : List Block}
    → ◌≡◌ {A = Option (ℕ × List Block)} (some (a, bs)) (some (a', bs'))
    → (a ≡ a') × (bs ≡ bs')
some_pair e = (cc, cc)

pub and_left : (b b' : Bool) → (b && b') ≡ true → b ≡ true
and_left true b' e = refl
and_left false b' e = e

pub and_right : (b b' : Bool) → (b && b') ≡ true → b' ≡ true
and_right true b' e = e
and_right false b' e = cc

pub before-none : (b : Block) (r : Option (ℕ × List Block)) → before b r ≡ none → r ≡ none
before-none b none e = refl
before-none b (some r) e = cc

pub before-some :
    (b : Block) (r : Option (ℕ × List Block)) (ptr : ℕ) (bs' : List Block)
    → before b r ≡ some (ptr, bs')
    → (bs'' : List Block) × (r ≡ some (ptr, bs'')) × (bs' ≡ b ∷ bs'')
before-some b none ptr bs' e = cc
before-some b (some (ptr', bs'')) ptr bs' e = (bs'', cc, cc)

pub first_fit-length :
    (size node ptr : ℕ) (bs bs' : List Block)
    → first_fit size node bs ≡ some (ptr, bs')
    → length bs' ≤ length bs + 1
unfolding first_fit
first_fit-length size node ptr [] bs' found = cc
first_fit-length size node ptr (b ∷ bs) bs' found = elim (placed size node b bs) [
  | exact e p ↦ rw (sym (some_pair (sym p ∙ found)).1) (omega arith)
  | larger e g p ↦ rw (sym (some_pair (sym p ∙ found)).1) (omega arith)
  | further e g p ↦
      let (bs'', q, s) = before-some b (first_fit size (after node b) bs) ptr bs' (sym p ∙ found) in
      rw s (omega (arith, first_fit-length size (after node b) ptr bs bs'' q))
]

-- The bytes of the block that `first_fit` takes were not in use, and are then.
pub first_fit-InUse :
    (size node ptr a : ℕ) (bs bs' : List Block)
    → first_fit size node bs ≡ some (ptr, bs')
    → ptr ≤ a
    → a < ptr + size
    → (node ≤ a) × InUse node bs' a × (InUse node bs a → ⊥)
unfolding first_fit
first_fit-InUse size node ptr a [] bs' found l l' = cc
first_fit-InUse size node ptr a (b ∷ bs) bs' found l l' = elim (placed size node b bs) [
  | exact e p ↦
      let (q, s) = some_pair (sym p ∙ found) in
      let unused = and_left b.free (b.size == size + node_size) e in
      let whole : b.size ≡ size + node_size =
        ground (arith, and_right b.free (b.size == size + node_size) e) in
      (
        omega arith,
        rw (sym s) (inl (refl, omega arith, omega arith)),
        λ u. elim u [
          | inl (used, k, k') ↦ not_used b unused used
          | inr there ↦ let (k, k') = InUse-inside (after node b) bs a there in omega arith
        ],
      )
  | larger e g p ↦
      let (q, s) = some_pair (sym p ∙ found) in
      let unused = and_left b.free (ltb (size + node_size) b.size) g in
      let fits : size + node_size < b.size =
        ground (arith, and_right b.free (ltb (size + node_size) b.size) g) in
      (
        omega arith,
        rw (sym s) (inl (refl, omega arith, omega arith)),
        λ u. elim u [
          | inl (used, k, k') ↦ not_used b unused used
          | inr there ↦ let (k, k') = InUse-inside (after node b) bs a there in omega arith
        ],
      )
  | further e g p ↦
      let (bs'', q, s) = before-some b (first_fit size (after node b) bs) ptr bs' (sym p ∙ found) in
      let (k, u, n) = first_fit-InUse size (after node b) ptr a bs bs'' q l l' in
      (
        omega arith,
        rw s (inr u),
        λ t. elim t [ inl (used, k', k'') ↦ omega arith | inr there ↦ n there ],
      )
]
