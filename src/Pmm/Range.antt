-- ===== src/Pmm/Range.antt =====
-- The loops over a range of blocks: which blocks are used afterwards, and the counter.
use ab_os.Base.{
  ℕ, ◌+◌, ◌-◌, ◌/◌, ◌%◌, ◌≤◌, ◌<◌, ◌≡◌, refl, ◌∙◌, inl, inr, Bool, true, not, ◌&&◌, ◌||◌, arith,
  ltb, leb, ◌==◌, Bool-cases, u32_mod, for_range, for_range_inv,
}
use ab_os.Pmm.{
  Pmm, set_block, unset_block, free_blocks, initialize_memory_region, deinit_memory_region,
  initialize_pmm, release_round, occupy_round, block_size,
}
use ab_os.Pmm.Blocks.{is_used, is_used-set_block, is_used-unset_block}

-- `q` is one of the `n` blocks from `lo` on.
abbrev pub in_range : ℕ → ℕ → ℕ → Bool
in_range lo n q = leb lo q && ltb q (lo + n)

-- `s'` is `s` with the `n` blocks from `lo` on marked as used, and its counter at `c`.
pub record Marked (s : Pmm) (lo n c : ℕ) (s' : Pmm) : Type 0 where
  pub usage : (q : ℕ) → is_used s' q ≡ (in_range lo n q || is_used s q)
  pub max_blocks : s'.max_blocks ≡ s.max_blocks
  pub used_blocks : s'.used_blocks ≡ c

-- The same, with the blocks marked as free.
pub record Cleared (s : Pmm) (lo n c : ℕ) (s' : Pmm) : Type 0 where
  pub usage : (q : ℕ) → is_used s' q ≡ (not (in_range lo n q) && is_used s q)
  pub max_blocks : s'.max_blocks ≡ s.max_blocks
  pub used_blocks : s'.used_blocks ≡ c

pub set_loop-Marked :
    (s : Pmm) (lo n : ℕ)
    → lo + n ≤ u32_mod
    → Marked s lo n s.used_blocks (for_range n 0 (λ i. set_block ((lo + i) % u32_mod)) s)
set_loop-Marked s lo n fits =
    for_range_inv (λ k. Marked s lo k s.used_blocks) (λ i. set_block ((lo + i) % u32_mod)) n
      (λ k t l h. record {
        usage = λ q. rw (is_used-set_block ((lo + k) % u32_mod) q t, h.usage q) (ground arith);
        max_blocks = unfold set_block in h.max_blocks;
        used_blocks = unfold set_block in h.used_blocks;
      })
      n 0 s (omega arith)
      (record { usage = λ q. ground arith; max_blocks = refl; used_blocks = refl })

pub unset_loop-Cleared :
    (s : Pmm) (lo n : ℕ)
    → lo + n ≤ u32_mod
    → Cleared s lo n s.used_blocks (for_range n 0 (λ i. unset_block ((lo + i) % u32_mod)) s)
unset_loop-Cleared s lo n fits =
    for_range_inv (λ k. Cleared s lo k s.used_blocks) (λ i. unset_block ((lo + i) % u32_mod)) n
      (λ k t l h. record {
        usage = λ q. rw (is_used-unset_block ((lo + k) % u32_mod) q t, h.usage q) (ground arith);
        max_blocks = unfold unset_block in h.max_blocks;
        used_blocks = unfold unset_block in h.used_blocks;
      })
      n 0 s (omega arith)
      (record { usage = λ q. ground arith; max_blocks = refl; used_blocks = refl })

-- `free_blocks` marks its range as free, and takes its length off the counter.
pub free_blocks-Cleared :
    (lo n : ℕ) (s : Pmm)
    → lo + n ≤ u32_mod
    → Cleared s lo n ((s.used_blocks + u32_mod - n) % u32_mod) (free_blocks lo n s)
unfolding free_blocks
free_blocks-Cleared lo n s fits =
    let h = unset_loop-Cleared s lo n fits in
    record {
      usage = λ q. unfold is_used in h.usage q;
      max_blocks = h.max_blocks;
      used_blocks = rw (h.used_blocks) refl;
    }

is_used-occupy_round :
    (lo k q : ℕ) (s : Pmm) → is_used (occupy_round lo k s) q ≡ (lo + k == q || is_used s q)
unfolding is_used
is_used-occupy_round lo k q s = is_used-set_block (lo + k) q s

is_used-release_round :
    (lo k q : ℕ) (s : Pmm) → is_used (release_round lo k s) q ≡ (not (lo + k == q) && is_used s q)
unfolding is_used
is_used-release_round lo k q s = is_used-unset_block (lo + k) q s

occupy-Marked :
    (s : Pmm) (lo n : ℕ)
    → s.used_blocks < u32_mod
    → Marked s lo n ((s.used_blocks + n) % u32_mod) (for_range n 0 (occupy_round lo) s)
occupy-Marked s lo n word =
    for_range_inv (λ k. Marked s lo k ((s.used_blocks + k) % u32_mod)) (occupy_round lo) n
      (λ k t l h. record {
        usage = λ q. is_used-occupy_round lo k q t ∙ rw (h.usage q) (ground arith);
        max_blocks = unfold set_block in h.max_blocks;
        used_blocks = unfold set_block in omega (arith, h.used_blocks);
      })
      n 0 s (omega arith)
      (record { usage = λ q. ground arith; max_blocks = refl; used_blocks = omega arith })

release-Cleared :
    (s : Pmm) (lo n : ℕ)
    → s.used_blocks < u32_mod
    → n ≤ u32_mod
    → Cleared s lo n ((s.used_blocks + u32_mod - n) % u32_mod) (for_range n 0 (release_round lo) s)
release-Cleared s lo n word fits =
    for_range_inv (λ k. Cleared s lo k ((s.used_blocks + u32_mod - k) % u32_mod)) (release_round lo)
      n
      (λ k t l h. record {
        usage = λ q. is_used-release_round lo k q t ∙ rw (h.usage q) (ground arith);
        max_blocks = unfold unset_block in h.max_blocks;
        used_blocks = unfold unset_block in omega (arith, h.used_blocks);
      })
      n 0 s (omega arith)
      (record { usage = λ q. ground arith; max_blocks = refl; used_blocks = omega arith })

-- For a 32-bit counter, `deinit_memory_region` marks the whole blocks of its region as used, and
-- no other, and adds their number to the counter, modulo 2 ^ 32.
pub deinit_memory_region-Marked :
    (base_address size : ℕ) (s : Pmm)
    → s.used_blocks < u32_mod
    → Marked s
        (base_address / block_size)
        (size / block_size)
        ((s.used_blocks + size / block_size) % u32_mod)
        (deinit_memory_region base_address size s)
unfolding deinit_memory_region
deinit_memory_region-Marked base_address size s word =
    occupy-Marked s (base_address / block_size) (size / block_size) word

-- For a 32-bit counter and size, `initialize_memory_region` marks the whole blocks of its region
-- as free, but for block 0, which it marks as used unless the region holds no whole block; other
-- blocks stay. The counter falls by the number of blocks, modulo 2 ^ 32.
pub initialize_memory_region_lem :
    (base_address size : ℕ) (s : Pmm)
    → s.used_blocks < u32_mod
    → size < u32_mod
    → let lo = base_address / block_size in
      let n = size / block_size in
      let s' = initialize_memory_region base_address size s in
      ((q : ℕ)
        → is_used s' q ≡ ((not (n == 0) && q == 0) || (not (in_range lo n q) && is_used s q)))
      × (s'.max_blocks ≡ s.max_blocks)
      × (s'.used_blocks ≡ (s.used_blocks + u32_mod - n) % u32_mod)
unfolding initialize_memory_region
initialize_memory_region_lem base_address size s word fits =
    let lo = base_address / block_size in
    let n = size / block_size in
    elim (Bool-cases (n == 0)) [
      | inl empty ↦ rw empty (λ q. ground arith, refl, ground arith)
      | inr more ↦
          let s' = for_range n 0 (release_round lo) s in
          let h = release-Cleared s lo n word (omega arith) in
          rw more (
            (λ q. rw (is_used-set_block 0 q s', h.usage q) (ground arith)),
            unfold set_block in h.max_blocks,
            unfold set_block in h.used_blocks,
          )
    ]

-- From a counter of 0, `initialize_pmm` marks every one of its 1048575 blocks as used, and counts
-- them all.
pub initialize_pmm_lem :
    (s : Pmm)
    → s.used_blocks ≡ 0
    → let s' = initialize_pmm s in
      (s'.max_blocks ≡ 1_048_575)
      × (s'.used_blocks ≡ s'.max_blocks)
      × ((q : ℕ) → q < s'.max_blocks → is_used s' q ≡ true)
unfolding initialize_pmm
initialize_pmm_lem s zeroed =
    let h =
      deinit_memory_region-Marked 0 0xffff_ffff (record s { max_blocks = 1_048_575 })
        (omega arith) in
    (
      h.max_blocks,
      omega (arith, h.max_blocks, h.used_blocks),
      λ q l. h.usage q ∙ ground (arith, h.max_blocks),
    )
