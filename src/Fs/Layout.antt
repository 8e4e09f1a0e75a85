-- ===== src/Fs/Layout.antt =====
-- kernel/fs/fs.h: the structures on the disk. The superblock is a record of its words; an inode and
-- a directory entry are their 64 bytes.
use ab_os.Base.{
  ℕ, ◌≡◌, ◌≤◌, ◌<◌, arith, ◌+◌, ◌*◌, ◌/◌, ◌%◌, Memory, ltb, if◌then◌else◌, List, [], ◌∷◌,
}
use ab_os.Base.Words.{load32, store32}

-- `superblock_t`, without its padding.
pub record Superblock : Type 0 where
  pub num_inodes : ℕ
  pub num_inodes_bitmap : ℕ
  pub num_data_bitmap : ℕ
  pub num_inodes_per_block : ℕ
  pub num_inodes_per_sector : ℕ
  pub num_inode_blocks : ℕ
  pub first_inode_bitmap : ℕ
  pub first_inode_bitmap_block : ℕ
  pub first_data_bitmap_block : ℕ
  pub first_data_bitmap : ℕ
  pub first_inode_block : ℕ
  pub first_data_block : ℕ
  pub inode_size : ℕ
  pub num_datablocks : ℕ
  pub max_file_size : ℕ
  pub root_i_number : ℕ
  pub first_free_inode_bit : ℕ
  pub first_free_data_bit : ℕ
  pub device_number : ℕ

-- The words of a superblock, in the order of its fields.
unfoldable pub superblock_words : Superblock → List ℕ
superblock_words s =
    s.num_inodes ∷ s.num_inodes_bitmap ∷ s.num_data_bitmap ∷ s.num_inodes_per_block
    ∷ s.num_inodes_per_sector ∷ s.num_inode_blocks ∷ s.first_inode_bitmap
    ∷ s.first_inode_bitmap_block ∷ s.first_data_bitmap_block ∷ s.first_data_bitmap
    ∷ s.first_inode_block ∷ s.first_data_block ∷ s.inode_size ∷ s.num_datablocks ∷ s.max_file_size
    ∷ s.root_i_number ∷ s.first_free_inode_bit ∷ s.first_free_data_bit ∷ s.device_number ∷ []

-- Words in a row, from an address on.
unfoldable pub store_words : ℕ → List ℕ → Memory → Memory
store_words a [] m = m
store_words a (w ∷ ws) m = store_words (a + 4) ws (store32 m a w)

-- `inode_t`: `i_number` at 0, `file_type` at 4, `size` at 5, the times at 9, 17 and 25,
-- `direct_pointers` at 33, `max_count` at 62.
abbrev pub Inode : Type 0
Inode = Memory

abbrev pub i_number_of : Inode → ℕ
i_number_of inode = load32 inode 0

abbrev pub file_type_of : Inode → ℕ
file_type_of inode = inode 4 % 256

abbrev pub size_of : Inode → ℕ
size_of inode = load32 inode 5

abbrev pub direct_pointer : Inode → ℕ → ℕ
direct_pointer inode i = load32 inode (33 + 4 * i)

abbrev pub max_count_of : Inode → ℕ
max_count_of inode = inode 62 % 256

abbrev pub set_direct_pointer : ℕ → ℕ → Inode → Inode
set_direct_pointer i block inode = store32 inode (33 + 4 * i) block

-- `(inode_t){0}`.
abbrev pub no_inode : Inode
no_inode a = 0

abbrev pub inode_bytes : ℕ
inode_bytes = 64

abbrev pub sector_bytes : ℕ
sector_bytes = 512

-- `bytes_to_blocks` of format_disk.c: the sectors, and then the blocks, that a size takes.
-- `load_file`, `save_file` and `get_inode_in_dir` repeat its lines.
pub bytes_to_blocks : ℕ → ℕ
bytes_to_blocks size =
    let sectors = (if ltb 0 (size % 512) then size / 512 + 1 else size / 512) in
    if ltb 0 (sectors % 8) then sectors / 8 + 1 else sectors / 8

-- `bytes_to_blocks` rounds the bytes up to whole blocks of 4096.
pub bytes_to_blocks-ceiling :
    (bytes : ℕ)
    → (bytes_to_blocks bytes ≡ (bytes + 4095) / 4096)
      × (bytes ≤ 4096 * bytes_to_blocks bytes)
      × (4096 * bytes_to_blocks bytes < bytes + 4096)
unfolding bytes_to_blocks
bytes_to_blocks-ceiling bytes = ground arith

abbrev pub file_type_file : ℕ
file_type_file = 0

abbrev pub file_type_dir : ℕ
file_type_dir = 1
