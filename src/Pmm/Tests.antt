-- ===== src/Pmm/Tests.antt =====
-- Runs of the block allocator on small bitmaps.
use native.Mathlib.Decide.{ℕ_discrete}
use ab_os.Base.{
  for_range, ℕ, ◌+◌, ◌-◌, ◌*◌, ◌/◌, ◌%◌, ◌≤◌, ◌<◌, ◌≡◌, ◌⊎◌, refl, true, not, ◌&&◌, ◌||◌, arith,
  ◌==◌, u32_mod, update,
}
use ab_os.Base.Bits.{test_bit}
use ab_os.Pmm.{
  Pmm, allocate_blocks, free_blocks, find_free_blocks, find_loop, set_block,
  initialize_memory_region, block_size,
}
use ab_os.Pmm.Blocks.{is_used}
use ab_os.Pmm.Range.{in_range, initialize_memory_region_lem}
use ab_os.Pmm.Alloc.{
  Allocation, IsReady, allocate_blocks-Allocation, free_blocks-allocate_blocks,
  allocate_blocks_disjoint,
}
use ab_os.Pmm.Count.{IsCounted, count_used, allocate_blocks-IsCounted}

-- Eight blocks, of which 0, 1 and 3 are used.
abbrev pub few : Pmm
few = record { memory_map = update (λ w. 0) 0 0xb; max_blocks = 8; used_blocks = 3 }

pub few-IsReady : IsReady few
unfolding is_used test_bit
few-IsReady = record { small = omega arith; reserved = refl }

few-IsCounted : IsCounted few
unfolding count_used is_used test_bit
few-IsCounted = refl

few_first : (allocate_blocks 2 few).0 ≡ 4 * 4096
unfolding allocate_blocks find_free_blocks find_loop
few_first = refl

few_second : (allocate_blocks 1 (allocate_blocks 2 few).1).0 ≡ 2 * 4096
unfolding allocate_blocks find_free_blocks find_loop set_block for_range
few_second = refl

pub few_one : (allocate_blocks 1 few).0 ≡ 0x2000
unfolding allocate_blocks find_free_blocks find_loop
few_one = refl

-- A run that is longer than what is left.
few_full : (allocate_blocks 5 few).0 ≡ 0
unfolding allocate_blocks find_free_blocks find_loop
few_full = refl

allocate_blocks-Allocation_example : Allocation few 2 (allocate_blocks 2 few)
allocate_blocks-Allocation_example = allocate_blocks-Allocation 2 few (omega arith) few-IsReady

free_blocks-allocate_blocks_example :
    let s' = free_blocks ((allocate_blocks 2 few).0 / block_size) 2 (allocate_blocks 2 few).1 in
    ((q : ℕ) → is_used s' q ≡ is_used few q) × (s'.used_blocks ≡ 3)
free_blocks-allocate_blocks_example =
    free_blocks-allocate_blocks 2 few (omega arith) few-IsReady (omega arith)
      (omega (arith, few_first))

allocate_blocks_disjoint_example :
    ((allocate_blocks 2 few).0 + 2 * block_size ≤ (allocate_blocks 1 (allocate_blocks 2 few).1).0)
    ⊎ ((allocate_blocks 1 (allocate_blocks 2 few).1).0 + 1 * block_size ≤ (allocate_blocks 2 few).0)
allocate_blocks_disjoint_example =
    allocate_blocks_disjoint 2 1 few (omega arith) (omega arith) few-IsReady
      (omega (arith, few_first)) (omega (arith, few_second))

allocate_blocks-IsCounted_example : IsCounted (allocate_blocks 2 few).1
allocate_blocks-IsCounted_example =
    allocate_blocks-IsCounted 2 few (omega arith) few-IsReady few-IsCounted

few_used : (q : ℕ) → 0 ≤ q → q < 2 → is_used few q ≡ true
unfolding is_used test_bit
few_used q l h = elim (ℕ_discrete q 0) [
  | yes e ↦ rw e refl
  | no ne ↦ let e : q ≡ 1 = omega arith in rw e refl
]

initialize_memory_region_lem_example :
    let s' = initialize_memory_region 4096 12288 few in
    ((q : ℕ) → is_used s' q ≡ ((not (3 == 0) && q == 0) || (not (in_range 1 3 q) && is_used few q)))
    × (s'.max_blocks ≡ 8)
    × (s'.used_blocks ≡ (3 + u32_mod - 3) % u32_mod)
initialize_memory_region_lem_example =
    initialize_memory_region_lem 4096 12288 few (omega arith) (omega arith)

abbrev zeroed : Pmm
zeroed = record { memory_map = λ w. 0; max_blocks = 0; used_blocks = 0 }
