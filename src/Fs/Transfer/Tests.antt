-- ===== src/Fs/Transfer/Tests.antt =====
-- A file that is saved and loaded.
use ab_os.Base.{ℕ, zero, suc, ◌+◌, ◌*◌, ◌^◌, ◌<◌, ◌≤◌, ◌≡◌, ◌≢◌, ◌⊎◌, refl, update, arith}
use ab_os.Base.Words.{load32}
use ab_os.Fs.{Inode, size_of, load_file, save_file, direct_pointer, bytes_to_blocks-ceiling}
use ab_os.Fs.Tests.{mounted}
use ab_os.Fs.Transfer.{block_count, HasBlocks, Apart, load_file-save_file}

-- A file of 5000 bytes, in the blocks 40 and 41.
abbrev two : Inode
two = update (update (update (update (λ a. 0) 5 0x88) 6 0x13) 33 40) 37 41

two-size : size_of two ≡ 5000
unfolding load32
two-size = refl

two-block_count : block_count two ≡ 2
two-block_count = omega (arith, two-size, bytes_to_blocks-ceiling (size_of two))

two-near : (i : ℕ) → i < 2 → direct_pointer two i < 2 ^ 25
unfolding load32
two-near zero l = omega arith
two-near (suc zero) l = omega arith
two-near (suc (suc i)) l = absurd (omega arith)

two-distinct : (i k : ℕ) → i < k → k < 2 → direct_pointer two i ≢ direct_pointer two k
unfolding load32
two-distinct zero zero l l' = absurd (omega arith)
two-distinct zero (suc zero) l l' = omega arith
two-distinct (suc i) zero l l' = absurd (omega arith)
two-distinct (suc i) (suc zero) l l' = absurd (omega arith)
two-distinct i (suc (suc k)) l l' = absurd (omega arith)

two-HasBlocks : HasBlocks two
two-HasBlocks = record {
  few = omega (arith, two-block_count);
  near = λ i l. two-near i (omega (arith, two-block_count));
  distinct = λ i k l l'. two-distinct i k l (omega (arith, two-block_count));
}

load_file-save_file_example :
    let s' = load_file 0x200 two 0x5_0000 (save_file 0x100 two 0x4_0000 mounted) in
    ((i j : ℕ)
      → i < block_count two
      → j < 4096
      → s'.memory (0x5_0000 + 0x200 + 4096 * i + j)
        ≡ mounted.memory (0x4_0000 + 0x100 + 4096 * i + j))
    × ((b : ℕ)
        → (b < 0x5_0000 + 0x200) ⊎ (0x5_0000 + 0x200 + 4096 * block_count two ≤ b)
        → s'.memory b ≡ mounted.memory b)
    × ((b : ℕ) → Apart two (block_count two) b → s'.disk b ≡ mounted.disk b)
load_file-save_file_example =
    load_file-save_file 0x100 0x200 0x4_0000 0x5_0000 two mounted two-HasBlocks
      (omega (arith, two-block_count)) (omega (arith, two-block_count))
