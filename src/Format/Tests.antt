-- ===== src/Format/Tests.antt =====
-- Small trees, and a disk of zeros.
use ab_os.Base.{ℕ, ◌+◌, ◌<◌, ◌≡◌, refl, true, ltb, leb, ◌||◌, [], ◌∷◌, arith, u32_mod}
use ab_os.Fs.{Fs, Inode, inode_sector, inode_in, read_sectors, bytes_to_blocks-ceiling}
use ab_os.Fs.Tests.{mounted}
use ab_os.Fs.Bitmap.{find_free_bit, loaded, is_set}
use ab_os.Format.{Formatter, format_superblock, get_file_info, write_bitmap, zeros}
use ab_os.Format.Tree.{
  Entries, dots, regular, last, more, entry_count, starts_with, same_name, is_kernel, is_prekernel,
}
use ab_os.Format.Counts.{named_count, inner_blocks, tree_blocks, listed, listed_inside}
use ab_os.Format.Bitmaps.{write_bitmap-find_free_bit}
use ab_os.Format.Layout.{Parts, format_superblock-Parts}
use ab_os.Format.Files.{write_file_data, write_inode}
use ab_os.Format.Files.Blocks.{write_file_data-get_file_info}
use ab_os.Format.Files.Inodes.{inode_in-write_inode}
use ab_os.Format.Files.Numbers.{all_files, reserved, write_file_data-format_superblock}

-- ".", "..", and a file "a" of 5000 bytes.
abbrev one_file : Entries
one_file = more dots (more dots (more (regular (b'a' ∷ []) 5000 zeros) last))

-- ".", "..", "prekernel.bin" and "kernel.bin".
abbrev kernels : Entries
kernels = more dots (
    more dots (
      more
        (regular
          (b'p' ∷ b'r' ∷ b'e' ∷ b'k' ∷ b'e' ∷ b'r' ∷ b'n' ∷ b'e' ∷ b'l' ∷ b'.' ∷ b'b' ∷ b'i' ∷ b'n'
            ∷ [])
          5000 zeros)
        (more
          (regular (b'k' ∷ b'e' ∷ b'r' ∷ b'n' ∷ b'e' ∷ b'l' ∷ b'.' ∷ b'b' ∷ b'i' ∷ b'n' ∷ []) 20000
            zeros)
          last)))

abbrev pub blank : Formatter
blank = record {
  image = zeros;
  position = 8192;
  extent = 8192;
  superblock = mounted.superblock;
  num_files = 0;
  file_blocks = 0;
  first_block = 14;
  next_inode_id = 4;
}

one_file-listed : listed one_file ≡ true
unfolding listed listed_inside entry_count named_count is_kernel same_name
one_file-listed = refl

one_file_room : 14 + tree_blocks one_file < u32_mod
unfolding tree_blocks inner_blocks entry_count
one_file_room = omega (arith, bytes_to_blocks-ceiling 5000, bytes_to_blocks-ceiling 192)

write_file_data-get_file_info_example :
    (write_file_data one_file 1 1 blank).first_block
    ≡ 14 + (get_file_info one_file blank).file_blocks
write_file_data-get_file_info_example =
    write_file_data-get_file_info one_file 1 1 blank blank (omega arith) one_file_room
      one_file-listed refl

kernels-reserved : reserved kernels ≡ 2
unfolding reserved starts_with is_prekernel is_kernel same_name
kernels-reserved = refl

kernels_room : 4 + all_files kernels < u32_mod
unfolding all_files
kernels_room = omega arith

write_file_data-format_superblock_example :
    (write_file_data kernels 1 1 blank).next_inode_id
    ≡ (format_superblock (get_file_info kernels blank).num_files 9).first_free_inode_bit
write_file_data-format_superblock_example =
    write_file_data-format_superblock kernels 1 1 9 blank blank refl refl kernels-reserved
      kernels_room

format_superblock-Parts_example : Parts (100 + 2) (format_superblock 100 9)
format_superblock-Parts_example = format_superblock-Parts 100 9 (omega arith)

-- A disk with the bitmap that the formatter writes to block 2.
abbrev with_bitmap : Fs
with_bitmap = let s = mounted in record s { disk = (write_bitmap 0xFF 1 blank).image }

write_bitmap-find_free_bit_example :
    ((find_free_bit 2 1 with_bitmap).0 ≡ 8)
    × ((q : ℕ)
        → q < 32768
        → is_set (loaded 2 with_bitmap).memory with_bitmap.block_buffer q ≡ (ltb q 8 || leb 32 q))
write_bitmap-find_free_bit_example =
    write_bitmap-find_free_bit 8 1 2 blank with_bitmap (omega arith) (omega arith) refl
      (omega arith) (λ b l l'. refl)

abbrev numbered : Inode
numbered a = a

abbrev with_inode : Fs
with_inode = let s = mounted in record s { disk = (write_inode 9 numbered blank).image }

inode_in-write_inode_example :
    inode_in 9 (read_sectors 1 (inode_sector 9 with_inode) with_inode.sector_buffer with_inode) 7
    ≡ 7
inode_in-write_inode_example =
    inode_in-write_inode 9 7 numbered blank with_inode (omega arith) refl (omega arith) (λ b. refl)
