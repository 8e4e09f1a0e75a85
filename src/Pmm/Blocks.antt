-- ===== src/Pmm/Blocks.antt =====
-- Which blocks the bitmap marks as used, and what one `set_block` or `unset_block` changes.
use native.Mathlib.Nat.{one-le-pow}
use ab_os.Base.{
  ℕ, ◌/◌, ◌%◌, ◌^◌, ◌≡◌, inl, inr, Bool, not, ◌&&◌, ◌||◌, arith, ◌==◌, Bool-cases, bit_and,
}
use ab_os.Base.Bits.{test_bit, test_bit-set, test_bit-clear, bit_and-pow}
use ab_os.Pmm.{Pmm, set_block, unset_block}

-- The bit of block `q`.
unfoldable pub is_used : Pmm → ℕ → Bool
is_used s q = test_bit (s.memory_map (q / 32)) (q % 32)

-- Two blocks are equal if they have one word and one bit.
eq_of_parts : (b q : ℕ) → b / 32 ≡ q / 32 → (b % 32 == q % 32) ≡ (b == q)
eq_of_parts b q e = ground arith

-- `set_block` marks its block as used, and no other block changes.
pub is_used-set_block : (b q : ℕ) (s : Pmm) → is_used (set_block b s) q ≡ (b == q || is_used s q)
unfolding is_used set_block
is_used-set_block b q s = elim (Bool-cases (b / 32 == q / 32)) [
  | inl same ↦
      let e : b / 32 ≡ q / 32 = ground arith in
      rw (same, e, test_bit-set) (ground (arith, eq_of_parts b q))
  | inr other ↦ rw other (ground (arith))
]

pub is_used-unset_block :
    (b q : ℕ) (s : Pmm) → is_used (unset_block b s) q ≡ (not (b == q) && is_used s q)
unfolding is_used unset_block
is_used-unset_block b q s = elim (Bool-cases (b / 32 == q / 32)) [
  | inl same ↦
      let e : b / 32 ≡ q / 32 = ground arith in
      rw
        (
          same,
          e,
          test_bit-clear 32 (s.memory_map (q / 32)) (b % 32) (q % 32) (omega arith) (omega arith),
        )
        (ground (arith, eq_of_parts b q))
  | inr other ↦ rw other (ground (arith))
]

-- The test that `find_free_blocks` makes.
pub bit_and-eq-zero : (w k : ℕ) → (bit_and w (2 ^ k) == 0) ≡ not (test_bit w k)
bit_and-eq-zero w k = ground (arith, bit_and-pow k w, one-le-pow k 2)
