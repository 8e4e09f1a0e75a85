-- ===== src/Format/Layout.antt =====
-- Where the superblock of the formatter puts the parts of the disk.
use ab_os.Base.{ℕ, ◌+◌, ◌*◌, ◌/◌, ◌≤◌, ◌<◌, ◌≡◌, arith}
use ab_os.Fs.{Superblock, bytes_to_blocks-ceiling}
use ab_os.Format.{format_superblock, bitmap_blocks}

-- The parts follow each other, and the table of inodes stays before the data but for the inodes from
-- the last multiple of 64 on.
pub record Parts (num_inodes : ℕ) (sb : Superblock) : Type 0 where
  pub inode_map : (sb.first_inode_bitmap_block ≡ 2) × (sb.num_inodes_bitmap ≡ 1)
  pub data_map : (sb.first_data_bitmap_block ≡ 3) × (sb.num_data_bitmap ≡ 1)
  pub inode_table : (sb.first_inode_block ≡ 4) × (sb.num_inodes ≡ num_inodes)
  pub data_start : sb.first_data_block ≡ 4 + num_inodes / 64
  pub inside :
      (i : ℕ)
      → i < num_inodes / 64 * 64
      → sb.first_inode_block * 4096 + 64 * i + 64 ≤ sb.first_data_block * 4096
  pub behind :
      (i : ℕ)
      → num_inodes / 64 * 64 ≤ i
      → sb.first_data_block * 4096 ≤ sb.first_inode_block * 4096 + 64 * i

-- For up to 10000 files the bitmaps take one block each, the parts of the disk follow each other, and
-- an inode of the table ends before the first data block, but for the inodes from the last multiple
-- of 64 on: they start behind the start of the first data block.
pub format_superblock-Parts :
    (num_files file_blocks : ℕ)
    → num_files ≤ 10000
    → Parts (num_files + 2) (format_superblock num_files file_blocks)
unfolding format_superblock bitmap_blocks
format_superblock-Parts num_files file_blocks few =
    let blocks = bytes_to_blocks-ceiling (512 * 2880) in
    record {
      inode_map = ground arith;
      data_map = ground (arith, blocks);
      inode_table = ground (arith, blocks);
      data_start = ground (arith, blocks);
      inside = λ i l. ground (arith, blocks);
      behind = λ i l. ground (arith, blocks);
    }
