-- ===== src/Vmm/Init/Blocks.antt =====
-- The blocks of three allocations in a row.
use native.Mathlib.Decide.{dec_le}
use ab_os.Pmm.Find.{FreeBetween}
use ab_os.Base.{
  suc, ◌+◌, ◌≤◌, ℕ, ◌*◌, ◌%◌, ◌^◌, ◌<◌, ◌≡◌, ◌≢◌, sym, ap, ◌∙◌, true, false, arith, u32_mod,
}
use ab_os.Pmm.{Pmm, allocate_blocks, block_size}
use ab_os.Pmm.Alloc.{IsReady, success, failure, allocate_blocks-Allocation, allocate_blocks-IsReady}
use ab_os.Pmm.Blocks.{is_used}

-- Three pages for two tables and a directory.
pub record AreBlocks (table table2 dir : ℕ) : Type 0 where
  pub words : (table < u32_mod) × (table2 < u32_mod) × (dir < u32_mod)
  pub aligned : (table % 4096 ≡ 0) × (table2 % 4096 ≡ 0) × (dir % 4096 ≡ 0)
  pub distinct : (table ≢ table2) × (table ≢ dir) × (table2 ≢ dir)

-- The first block of an allocation: free before, used after.
record Taken (s : Pmm) (r : ℕ × Pmm) : Type 0 where
  number : ℕ
  at : r.0 ≡ number * block_size
  below : number < 2 ^ 20
  before : is_used s number ≡ false
  used : is_used r.1 number ≡ true

taken :
    (n : ℕ) (s : Pmm)
    → 0 < n
    → IsReady s
    → (allocate_blocks n s).0 ≢ 0
    → Taken s (allocate_blocks n s)
taken n s pos ready got = elim (allocate_blocks-Allocation n s pos ready) [
  | success p at ne fits free lowest m ↦ record {
    number = p;
    at = at;
    below = omega (arith, fits, ready.small);
    before = free p (omega arith) (omega arith);
    used = m.usage p ∙ ground arith;
  }
  | failure e full ↦ absurd (got (ap (λ (r : ℕ × Pmm). r.0) e))
]

still_used :
    (n : ℕ) (s : Pmm) (q : ℕ)
    → 0 < n
    → IsReady s
    → is_used s q ≡ true
    → is_used (allocate_blocks n s).1 q ≡ true
still_used n s q pos ready used = elim (allocate_blocks-Allocation n s pos ready) [
  | success p at ne fits free lowest m ↦ m.usage q ∙ ground (arith, used)
  | failure e full ↦ rw e used
]

apart : (s : Pmm) (p q : ℕ) → is_used s p ≡ true → is_used s q ≡ false → p ≢ q
apart s p q used free e =
    let clash : true ≡ false = sym used ∙ ap (λ (i : ℕ). is_used s i) e ∙ free in cc

pub three_blocks :
    (s : Pmm)
    → IsReady s
    → let r = allocate_blocks 1 s in
      let r2 = allocate_blocks 1 r.1 in
      let r3 = allocate_blocks 3 r2.1 in r.0 ≢ 0 → r2.0 ≢ 0 → r3.0 ≢ 0 → AreBlocks r.0 r2.0 r3.0
three_blocks s ready got got2 got3 =
    let s1 = (allocate_blocks 1 s).1 in
    let s2 = (allocate_blocks 1 s1).1 in
    let ready1 = allocate_blocks-IsReady 1 s (omega arith) ready in
    let ready2 = allocate_blocks-IsReady 1 s1 (omega arith) ready1 in
    let t = taken 1 s (omega arith) ready got in
    let t2 = taken 1 s1 (omega arith) ready1 got2 in
    let t3 = taken 3 s2 (omega arith) ready2 got3 in
    let d = apart s1 t.number t2.number t.used t2.before in
    let d' =
      apart s2 t.number t3.number (still_used 1 s1 t.number (omega arith) ready1 t.used)
        t3.before in
    let d'' = apart s2 t2.number t3.number t2.used t3.before in
    record {
      words = (
        omega (arith, t.at, t.below),
        omega (arith, t2.at, t2.below),
        omega (arith, t3.at, t3.below),
      );
      aligned = (omega (arith, t.at), omega (arith, t2.at), omega (arith, t3.at));
      distinct = (
        omega (arith, t.at, t2.at, d),
        omega (arith, t.at, t3.at, d'),
        omega (arith, t2.at, t3.at, d''),
      );
    }

-- With the first two blocks in use, the others are above them.
pub three_above :
    (s : Pmm)
    → IsReady s
    → is_used s 1 ≡ true
    → let r = allocate_blocks 1 s in
      let r2 = allocate_blocks 1 r.1 in
      let r3 = allocate_blocks 3 r2.1 in
      r.0 ≢ 0 → r2.0 ≢ 0 → r3.0 ≢ 0 → (0x2000 ≤ r.0) × (0x2000 ≤ r2.0) × (0x2000 ≤ r3.0)
three_above s ready used got got2 got3 =
    let s1 = (allocate_blocks 1 s).1 in
    let s2 = (allocate_blocks 1 s1).1 in
    let ready1 = allocate_blocks-IsReady 1 s (omega arith) ready in
    let ready2 = allocate_blocks-IsReady 1 s1 (omega arith) ready1 in
    let used1 = still_used 1 s 1 (omega arith) ready used in
    let used2 = still_used 1 s1 1 (omega arith) ready1 used1 in
    let t = taken 1 s (omega arith) ready got in
    let t2 = taken 1 s1 (omega arith) ready1 got2 in
    let t3 = taken 3 s2 (omega arith) ready2 got3 in
    (
      omega (arith, t.at, got, apart s 1 t.number used t.before),
      omega (arith, t2.at, got2, apart s1 1 t2.number used1 t2.before),
      omega (arith, t3.at, got3, apart s2 1 t3.number used2 t3.before),
    )

-- One block more: a run that is free stays free but for its first block.
one_more :
    (s : Pmm) (lo n : ℕ)
    → IsReady s
    → FreeBetween s lo (lo + suc n)
    → lo + suc n ≤ s.max_blocks
    → ((allocate_blocks 1 s).0 ≢ 0)
      × FreeBetween (allocate_blocks 1 s).1 (lo + 1) (lo + 1 + n)
      × ((allocate_blocks 1 s).1.max_blocks ≡ s.max_blocks)
one_more s lo n ready free fits = elim (allocate_blocks-Allocation 1 s (omega arith) ready) [
  | success p at ne fits' free' lowest m ↦
      let run : FreeBetween s lo (lo + 1) = λ q l l'. free q l (omega arith) in
      let early : p ≤ lo = elim (dec_le p lo) [
        | yes l ↦ l
        | no l ↦ absurd (lowest lo (omega (arith, l)) run)
      ] in
      (
        ne,
        λ q l l'. m.usage q ∙ ground (arith, free q (omega arith) (omega arith), early),
        m.max_blocks,
      )
  | failure e full ↦ absurd (full lo (omega (arith, fits)) (λ q l l'. free q l (omega arith)))
]

-- Five free blocks in a row are enough for the three allocations.
pub five_free :
    (s : Pmm) (lo : ℕ)
    → IsReady s
    → FreeBetween s lo (lo + 5)
    → lo + 5 ≤ s.max_blocks
    → let r = allocate_blocks 1 s in
      let r2 = allocate_blocks 1 r.1 in (r.0 ≢ 0) × (r2.0 ≢ 0) × ((allocate_blocks 3 r2.1).0 ≢ 0)
five_free s lo ready free fits =
    let s1 = (allocate_blocks 1 s).1 in
    let ready1 = allocate_blocks-IsReady 1 s (omega arith) ready in
    let (got, free1, max1) = one_more s lo 4 ready free fits in
    let (got2, free2, max2) = one_more s1 (lo + 1) 3 ready1 free1 (omega (arith, max1, fits)) in
    let s2 = (allocate_blocks 1 s1).1 in
    let ready2 = allocate_blocks-IsReady 1 s1 (omega arith) ready1 in
    (
      got,
      got2,
      elim (allocate_blocks-Allocation 3 s2 (omega arith) ready2) [
        | success p at ne fits' free' lowest m ↦ ne
        | failure e full ↦ absurd (
            full (lo + 2) (omega (arith, max1, max2, fits))
              (λ q l l'. free2 q (omega arith) (omega arith)))
      ],
    )

-- One allocation from a run that is free: it ends no later than the run's first blocks.
early :
    (n : ℕ) (s : Pmm) (lo : ℕ)
    → 0 < n
    → IsReady s
    → FreeBetween s lo (lo + n)
    → (allocate_blocks n s).0 ≢ 0
    → (allocate_blocks n s).0 ≤ lo * block_size
early n s lo pos ready free got = elim (allocate_blocks-Allocation n s pos ready) [
  | success p at ne fits free' lowest m ↦
      let l : p ≤ lo = elim (dec_le p lo) [
        | yes l ↦ l
        | no l ↦ absurd (lowest lo (omega (arith, l)) free)
      ] in
      omega (arith, at, l)
  | failure e full ↦ absurd (got (ap (λ (r : ℕ × Pmm). r.0) e))
]

-- The three allocations are no higher than the five blocks.
pub five_early :
    (s : Pmm) (lo : ℕ)
    → IsReady s
    → FreeBetween s lo (lo + 5)
    → lo + 5 ≤ s.max_blocks
    → let r = allocate_blocks 1 s in
      let r2 = allocate_blocks 1 r.1 in
      let r3 = allocate_blocks 3 r2.1 in
      (r.0 ≤ lo * 4096) × (r2.0 ≤ (lo + 1) * 4096) × (r3.0 ≤ (lo + 2) * 4096)
five_early s lo ready free fits =
    let s1 = (allocate_blocks 1 s).1 in
    let s2 = (allocate_blocks 1 s1).1 in
    let ready1 = allocate_blocks-IsReady 1 s (omega arith) ready in
    let ready2 = allocate_blocks-IsReady 1 s1 (omega arith) ready1 in
    let (got, got2, got3) = five_free s lo ready free fits in
    let (_, free1, max1) = one_more s lo 4 ready free fits in
    let (_, free2, max2) = one_more s1 (lo + 1) 3 ready1 free1 (omega (arith, max1, fits)) in
    (
      early 1 s lo (omega arith) ready (λ q l l'. free q l (omega arith)) got,
      early 1 s1 (lo + 1) (omega arith) ready1 (λ q l l'. free1 q l (omega arith)) got2,
      early 3 s2 (lo + 2) (omega arith) ready2 (λ q l l'. free2 q (omega arith) (omega arith)) got3,
    )

-- The allocator after three successful allocations: its size, and its counter.
pub three_ready :
    (s : Pmm)
    → IsReady s
    → let r2 = allocate_blocks 1 (allocate_blocks 1 s).1 in
      let r3 = allocate_blocks 3 r2.1 in
      r3.0 ≢ 0 → (r3.1.max_blocks ≤ 2 ^ 20) × (r3.1.used_blocks < u32_mod)
three_ready s ready got3 =
    let s1 = (allocate_blocks 1 s).1 in
    let s2 = (allocate_blocks 1 s1).1 in
    let ready1 = allocate_blocks-IsReady 1 s (omega arith) ready in
    let ready2 = allocate_blocks-IsReady 1 s1 (omega arith) ready1 in
    elim (allocate_blocks-Allocation 3 s2 (omega arith) ready2) [
      | success p at ne fits free lowest m ↦
          (omega (arith, m.max_blocks, ready2.small), omega (arith, m.used_blocks))
      | failure e full ↦ absurd (got3 (ap (λ (r : ℕ × Pmm). r.0) e))
    ]
