-- ===== src/Pmm/Count.antt =====
-- The counter `used_blocks` against the number of blocks that the bitmap marks as used.
use ab_os.Base.{ℕ, zero, suc, ◌+◌, ◌-◌, ◌^◌, ◌≤◌, ◌<◌, ◌≡◌, ap, true, arith, if◌then◌else◌, min}
use ab_os.Pmm.{Pmm, free_blocks, allocate_blocks}
use ab_os.Pmm.Blocks.{is_used}
use ab_os.Pmm.Find.{FreeBetween}
use ab_os.Pmm.Range.{Marked, Cleared, free_blocks-Cleared}
use ab_os.Pmm.Alloc.{IsReady, success, failure, allocate_blocks-Allocation}

-- The number of blocks below `k` that are used.
unfoldable pub count_used : Pmm → ℕ → ℕ
count_used s zero = 0
count_used s (suc k) = count_used s k + (if is_used s k then 1 else 0)

-- The counter is right.
abbrev pub IsCounted : Pmm → Type 0
IsCounted s = s.used_blocks ≡ count_used s s.max_blocks

count_used-le : (s : Pmm) (k : ℕ) → count_used s k ≤ k
unfolding count_used
count_used-le s zero = omega arith
count_used-le s (suc k) = ground (arith, count_used-le s k)

-- Marking free blocks adds those of them that lie below `k`.
count_used-Marked :
    {s s' : Pmm} {p n c : ℕ}
    → Marked s p n c s'
    → FreeBetween s p (p + n)
    → (k : ℕ) → count_used s' k ≡ count_used s k + (min k (p + n) - p)
unfolding count_used
count_used-Marked m free zero = omega arith
count_used-Marked m free (suc k) = ground (arith, count_used-Marked m free k, m.usage k, free k)

-- Freeing used blocks takes them off.
count_used-Cleared :
    {s s' : Pmm} {p n c : ℕ}
    → Cleared s p n c s'
    → ((q : ℕ) → p ≤ q → q < p + n → is_used s q ≡ true)
    → (k : ℕ) → count_used s' k + (min k (p + n) - p) ≡ count_used s k
unfolding count_used
count_used-Cleared m used zero = omega arith
count_used-Cleared m used (suc k) = ground (arith, count_used-Cleared m used k, m.usage k, used k)

-- If the counter is the number of used blocks, it still is after `allocate_blocks` of a positive
-- number of blocks, in a bitmap of at most 2 ^ 20 blocks whose block 0 is used.
pub allocate_blocks-IsCounted :
    (n : ℕ) (s : Pmm) → 0 < n → IsReady s → IsCounted s → IsCounted (allocate_blocks n s).1
allocate_blocks-IsCounted n s pos ready right = elim (allocate_blocks-Allocation n s pos ready) [
  | success p at ne fits free lowest m ↦ omega (
    arith,
    m.used_blocks,
    ready.small,
    right,
    ap (count_used (allocate_blocks n s).1) m.max_blocks,
    count_used-Marked m free s.max_blocks,
    count_used-le (allocate_blocks n s).1 s.max_blocks,
  )
  | failure e no_run ↦ rw e right
]

-- If the counter is the number of used blocks, it still is after `free_blocks` of a range of used
-- blocks below `max_blocks`, which is 2 ^ 20 at most.
pub free_blocks-IsCounted :
    (lo n : ℕ) (s : Pmm)
    → s.max_blocks ≤ 2 ^ 20
    → lo + n ≤ s.max_blocks
    → ((q : ℕ) → lo ≤ q → q < lo + n → is_used s q ≡ true)
    → IsCounted s
    → IsCounted (free_blocks lo n s)
free_blocks-IsCounted lo n s small fits used right =
    let m = free_blocks-Cleared lo n s (omega arith) in
    omega (
      arith,
      m.used_blocks,
      right,
      ap (count_used (free_blocks lo n s)) m.max_blocks,
      count_used-Cleared m used s.max_blocks,
      count_used-le s s.max_blocks,
    )
