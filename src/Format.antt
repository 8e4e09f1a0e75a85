-- ===== src/Format.antt =====
-- format_disk.c: the program that makes the disk image. The image is a file: `position` and `extent`
-- are where the next write goes and where the file ends. A write succeeds. A directory
-- has fewer than 2 ^ 26 entries, so the size of its data fits in 32 bits, as those of files do. The
-- messages are left out.
mod Tests
pub mod Tree
pub mod Bitmaps
pub mod Boot
pub mod Files
pub mod Layout
pub mod Counts
use ab_os.Base.{
  ℕ, zero, suc, ◌+◌, ◌-◌, ◌*◌, ◌/◌, ◌%◌, Bool, true, false, not, ◌&&◌, Memory, update, max, ltb,
  leb, ◌==◌, if◌then◌else◌, u32_mod, for_range, List, [], ◌∷◌,
}
use ab_os.Base.Words.{load32, store32}
use ab_os.Fs.{
  Superblock, Inode, no_inode, set_direct_pointer, bytes_to_blocks, superblock_words, store_words,
  file_type_dir, file_type_file, i_number_of, direct_pointer,
}
use ab_os.Format.Tree.{
  TreeEntry, Entries, dots, regular, directory, other, last, more, entry_count, is_prekernel,
  is_kernel,
}

pub record Formatter : Type 0 where
  pub image : Memory
  pub position : ℕ
  pub extent : ℕ
  pub superblock : Superblock
  pub num_files : ℕ
  pub file_blocks : ℕ
  pub first_block : ℕ
  pub next_inode_id : ℕ

-- The last statements of `get_file_info`.
pub info_total : ℕ × Formatter → Formatter
info_total (dir_entries, s) = record s {
  file_blocks = (s.file_blocks + bytes_to_blocks (dir_entries * 64)) % u32_mod;
}

mutual
  -- The loop of `get_file_info`: `dir_entries`, and the globals. An entry that is no directory
  -- cannot be opened as one, which `get_file_info` reports as success.
  pub info_loop : Entries → ℕ → Formatter → ℕ × Formatter
  info_loop last dir_entries s = (dir_entries, s)
  info_loop (more e es) dir_entries s =
      let (n, s') = info_entry e dir_entries s in info_loop es n s'

  pub info_entry : TreeEntry → ℕ → Formatter → ℕ × Formatter
  info_entry dots dir_entries s = (dir_entries, s)
  info_entry (regular name size bytes) dir_entries s = (
    dir_entries + 1,
    record s {
      num_files = (s.num_files + 1) % u32_mod;
      file_blocks = (s.file_blocks + bytes_to_blocks size) % u32_mod;
    },
  )
  info_entry (directory name inner) dir_entries s = (
    dir_entries + 1,
    info_total (info_loop inner 2 (record s { num_files = (s.num_files + 1) % u32_mod })),
  )
  info_entry (other name) dir_entries s =
      (dir_entries + 1, record s { num_files = (s.num_files + 1) % u32_mod })

pub get_file_info : Entries → Formatter → Formatter
get_file_info es s = info_total (info_loop es 2 s)

-- `fwrite` of `n` bytes.
pub fwrite : Memory → ℕ → Formatter → Formatter
fwrite bytes n s = record s {
  image = for_range n 0 (λ i m. update m (s.position + i) (bytes i)) s.image;
  position = s.position + n;
  extent = max s.extent (s.position + n);
}

pub seek : ℕ → Formatter → Formatter
seek position s = record s { position = position }

-- Rounded up to whole blocks of bits.
pub bitmap_blocks : ℕ → ℕ
bitmap_blocks bits = if bits % 32768 == 0 then bits / 32768 else bits / 32768 + 1

-- The superblock that `write_superblock` makes: the disk has 2880 sectors, and the fields that it
-- does not set are 0.
pub format_superblock : ℕ → ℕ → Superblock
unfolding bitmap_blocks
format_superblock num_files file_blocks =
    let num_inodes = (num_files + 2) % u32_mod in
    let inode_maps = bitmap_blocks num_inodes in
    let data_map = 2 + inode_maps in
    let inode_blocks = num_inodes / 64 in
    let data_blocks =
      (bytes_to_blocks (512 * 2880) + 4 * u32_mod - data_map - inode_blocks - 1) % u32_mod in
    let first_inode = data_map + bitmap_blocks data_blocks in
    let first_data = first_inode + inode_blocks in
    record {
      num_inodes = num_inodes;
      num_inodes_bitmap = inode_maps;
      num_data_bitmap = bitmap_blocks data_blocks;
      num_inodes_per_block = 64;
      num_inodes_per_sector = 8;
      num_inode_blocks = inode_blocks;
      first_inode_bitmap = 0;
      first_inode_bitmap_block = 2;
      first_data_bitmap_block = data_map;
      first_data_bitmap = 0;
      first_inode_block = first_inode;
      first_data_block = first_data;
      inode_size = 64;
      num_datablocks = (first_data + file_blocks) % u32_mod;
      max_file_size = 0xFFFFFFFF;
      root_i_number = 0;
      first_free_inode_bit = num_inodes;
      first_free_data_bit = (first_data + file_blocks) % u32_mod;
      device_number = 1;
    }

abbrev pub zeros : Memory
zeros a = 0

pub write_superblock : Formatter → Formatter
unfolding fwrite
write_superblock s =
    let sb = format_superblock s.num_files s.file_blocks in
    fwrite (store_words 0 (superblock_words sb) zeros) 4096 (record s { superblock = sb })

-- A word, and the other words of a bitmap, which are all ones.
pub write_bitmap : ℕ → ℕ → Formatter → Formatter
unfolding fwrite
write_bitmap chunk blocks s =
    for_range (blocks * 4096 / 4 - 1) 0 (λ i. fwrite (store32 zeros 0 0xFFFFFFFF) 4)
      (fwrite (store32 zeros 0 chunk) 4 s)

pub write_inode_bitmap : Formatter → Formatter
unfolding write_bitmap
write_inode_bitmap s = write_bitmap 0x000000FF s.superblock.num_inodes_bitmap s

pub write_data_bitmap : Formatter → Formatter
unfolding write_bitmap
write_data_bitmap s = write_bitmap 0x01FFFFFF s.superblock.num_data_bitmap s
