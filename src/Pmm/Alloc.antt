-- ===== src/Pmm/Alloc.antt =====
-- `allocate_blocks` and `free_blocks`: what a caller gets, and the counter of used blocks.
use mathlib.Core.Bool.{false≢true}
use native.Mathlib.Decide.{dec_le}
use ab_os.Base.{
  ℕ, ◌+◌, ◌*◌, ◌/◌, ◌%◌, ◌^◌, ◌≤◌, ◌<◌, ◌≡◌, ◌≢◌, refl, sym, ap, ◌∙◌, inl, inr, ◌⊎◌, true, arith,
  ==_ne, u32_mod, for_range, max,
}
use ab_os.Pmm.{
  Pmm, set_block, free_blocks, find_free_blocks, allocate_blocks, block_size, minus_one,
}
use ab_os.Pmm.Blocks.{is_used}
use ab_os.Pmm.Find.{FreeBetween, found, absent, find_free_blocks-FirstFit}
use ab_os.Pmm.Range.{Marked, set_loop-Marked, free_blocks-Cleared}

-- What `allocate_blocks n` in state `s` returns. On success the blocks are the lowest free run;
-- on failure there is none, and nothing changed.
pub data Allocation (s : Pmm) (n : ℕ) (r : ℕ × Pmm) : Type 0 where
  success :
      (p : ℕ)
      → r.0 ≡ p * block_size
      → r.0 ≢ 0
      → p + n ≤ s.max_blocks
      → FreeBetween s p (p + n)
      → ((p' : ℕ) → p' < p → ¬ FreeBetween s p' (p' + n))
      → Marked s p n ((s.used_blocks + n) % u32_mod) r.1
      → Allocation s n r
  failure :
      r ≡ (0, s) → ((p : ℕ) → p + n ≤ s.max_blocks → ¬ FreeBetween s p (p + n)) → Allocation s n r

-- The bitmap is of the size that `initialize_pmm` gives at most, and block 0 is reserved.
pub record IsReady (s : Pmm) : Type 0 where
  pub small : s.max_blocks ≤ 2 ^ 20
  pub reserved : is_used s 0 ≡ true

-- For a positive number of blocks, in a bitmap of at most 2 ^ 20 blocks whose block 0 is used,
-- `allocate_blocks` returns the address of the lowest free run of that length, which is not 0,
-- marks just its blocks as used and adds their number to the counter, modulo 2 ^ 32; or there is
-- no such run, and it returns 0 and changes nothing.
pub allocate_blocks-Allocation :
    (n : ℕ) (s : Pmm) → 0 < n → IsReady s → Allocation s n (allocate_blocks n s)
unfolding allocate_blocks
allocate_blocks-Allocation n s pos ready =
    elim (find_free_blocks-FirstFit n s pos (omega (arith, ready.small))) [
      | found free fits lowest ↦
          let p = find_free_blocks n s in
          let s' = for_range n 0 (λ i. set_block ((p + i) % u32_mod)) s in
          let h = set_loop-Marked s p n (omega (arith, ready.small)) in
          let ne : p ≢ 0 =
            λ e. false≢true (sym (free 0 (omega arith) (omega arith)) ∙ ready.reserved) in
          rw (==_ne p minus_one (omega (arith, ready.small))) (
            success p (omega (arith, ready.small)) (omega (arith, ready.small, ne)) fits free lowest
              (record {
                usage = λ q. unfold is_used in h.usage q;
                max_blocks = h.max_blocks;
                used_blocks = rw h.used_blocks;
              }))
      | absent none_found no_run ↦ rw none_found (failure refl no_run)
    ]

-- An allocation keeps block 0 reserved, and the size of the bitmap.
pub allocate_blocks-IsReady :
    (n : ℕ) (s : Pmm) → 0 < n → IsReady s → IsReady (allocate_blocks n s).1
allocate_blocks-IsReady n s pos ready = elim (allocate_blocks-Allocation n s pos ready) [
  | success p at ne fits free lowest m ↦ record {
    small = omega (arith, m.max_blocks, ready.small);
    reserved = m.usage 0 ∙ ground (arith, ready.reserved);
  }
  | failure e no_run ↦ rw e ready
]

-- If `allocate_blocks` of a positive number of blocks succeeds in a bitmap of at most 2 ^ 20
-- blocks whose block 0 is used, giving the run that it returned back restores the use of every
-- block, and the counter if that was a 32-bit number.
pub free_blocks-allocate_blocks :
    (n : ℕ) (s : Pmm)
    → 0 < n
    → IsReady s
    → s.used_blocks < u32_mod
    → (allocate_blocks n s).0 ≢ 0
    → let s' = free_blocks ((allocate_blocks n s).0 / block_size) n (allocate_blocks n s).1 in
      ((q : ℕ) → is_used s' q ≡ is_used s q) × (s'.used_blocks ≡ s.used_blocks)
free_blocks-allocate_blocks n s pos ready word got =
    elim (allocate_blocks-Allocation n s pos ready) [
      | success p at ne fits free lowest m ↦
          let e : (allocate_blocks n s).0 / block_size ≡ p = omega (arith, at) in
          let c = free_blocks-Cleared p n (allocate_blocks n s).1 (omega (arith, ready.small)) in
          rw e (
            (λ q. c.usage q ∙ rw (m.usage q) (ground (arith, free q))),
            omega (arith, c.used_blocks, m.used_blocks, ready.small),
          )
      | failure e no_run ↦ absurd (got (ap (λ (r : ℕ × Pmm). r.0) e))
    ]

-- The memory that two successful allocations in a row return does not overlap, for positive
-- numbers of blocks in a bitmap of at most 2 ^ 20 blocks whose block 0 is used.
pub allocate_blocks_disjoint :
    (n m : ℕ) (s : Pmm)
    → 0 < n
    → 0 < m
    → IsReady s
    → (allocate_blocks n s).0 ≢ 0
    → (allocate_blocks m (allocate_blocks n s).1).0 ≢ 0
    → ((allocate_blocks n s).0 + n * block_size ≤ (allocate_blocks m (allocate_blocks n s).1).0)
      ⊎ ((allocate_blocks m (allocate_blocks n s).1).0 + m * block_size ≤ (allocate_blocks n s).0)
allocate_blocks_disjoint n m s pos pos' ready got got' =
    elim (allocate_blocks-Allocation n s pos ready) [
      | success p at ne fits free lowest h ↦
          elim (allocate_blocks-Allocation m (allocate_blocks n s).1 pos'
            (allocate_blocks-IsReady n s pos ready)) [
              | success p' at' ne' fits' free' lowest' h' ↦ elim (dec_le (p + n) p') [
                | yes before ↦ inl (omega (arith, at, at'))
                | no l ↦ elim (dec_le (p' + m) p) [
                  | yes after ↦ inr (omega (arith, at, at'))
                  | no l' ↦
                      let q = max p p' in
                      absurd (
                        false≢true
                          (sym (free' q (omega arith) (omega arith)) ∙ h.usage q ∙ ground arith))
                ]
              ]
              | failure e no_run ↦ absurd (got' (ap (λ (r : ℕ × Pmm). r.0) e))
            ]
      | failure e no_run ↦ absurd (got (ap (λ (r : ℕ × Pmm). r.0) e))
    ]
