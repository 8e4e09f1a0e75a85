-- ===== src/Format/Files/Blocks.antt =====
-- The blocks that `write_file_data` takes, against those that `get_file_info` counts.
use ab_os.Base.{
  ℕ, ◌+◌, ◌*◌, ◌%◌, ◌≤◌, ◌<◌, ◌≡◌, refl, ◌∙◌, true, false, Memory, u32_mod, arith, List,
}
use ab_os.Base.Words.{load32}
use ab_os.Fs.{bytes_to_blocks}
use ab_os.Format.Tree.{
  TreeEntry, Entries, dots, regular, directory, other, last, more, entry_count, is_kernel,
}
use ab_os.Format.{Formatter, fwrite, seek, get_file_info}
use ab_os.Format.Counts.{
  inner_blocks, entry_blocks, tree_blocks, listed, listed_inside, listed_entry,
  get_file_info_blocks,
}
use ab_os.Format.Files.{
  after_file, file_start, entry_number, name_entry, write_inode, write_contents, write_regular,
  open_directory, close_directory, write_loop, write_entry, write_file_data,
}

-- Past the kernel's blocks a file takes the blocks that follow.
after_file_lem :
    (name : List ℕ) (n first_block : ℕ)
    → 14 ≤ first_block
    → first_block + n < u32_mod
    → is_kernel name ≡ false
    → after_file name n first_block ≡ first_block + n
unfolding after_file file_start
after_file_lem name n first_block past room plain = rw plain (ground arith)

-- What the operations do to `first_block`.
name_entry_first :
    (name : List ℕ) (entry : Memory) (s : Formatter)
    → (name_entry name entry s).1.first_block ≡ s.first_block
unfolding name_entry entry_number fwrite
name_entry_first name entry s = ground arith

write_regular_first :
    (name : List ℕ) (size : ℕ) (bytes : Memory) (i_number : ℕ) (s : Formatter)
    → (write_regular name size bytes i_number s).first_block
      ≡ after_file name (bytes_to_blocks size) s.first_block
unfolding write_regular write_inode write_contents fwrite seek
write_regular_first name size bytes i_number s = refl

open_directory_first :
    (es : Entries) (curr parent : ℕ) (s : Formatter)
    → (open_directory es curr parent s).1.first_block
      ≡ (s.first_block + bytes_to_blocks (entry_count es * 64)) % u32_mod
unfolding open_directory write_inode fwrite seek
open_directory_first es curr parent s = refl

close_directory_first :
    (es : Entries) (s : Formatter) → (close_directory es s).first_block ≡ s.first_block
unfolding close_directory fwrite
close_directory_first es s = refl

mutual
  unfolding write_loop inner_blocks listed_inside seek

  write_loop_first :
      (es : Entries) (dir : ℕ) (entry : Memory) (s : Formatter)
      → 14 ≤ s.first_block
      → s.first_block + inner_blocks es < u32_mod
      → listed_inside es ≡ true
      → (write_loop es dir entry s).first_block ≡ s.first_block + inner_blocks es
  write_loop_first last dir entry s past room h = omega arith
  write_loop_first (more e es) dir entry s past room h =
      let r = write_entry e dir entry s in
      let first = write_entry_first e dir entry s past (omega arith) (ground arith) in
      let rest =
        write_loop_first es dir r.0 r.1 (omega (arith, first)) (omega (arith, first))
          (ground arith) in
      omega (arith, first, rest)

  write_entry_first :
      (e : TreeEntry) (dir : ℕ) (entry : Memory) (s : Formatter)
      → 14 ≤ s.first_block
      → s.first_block + entry_blocks e < u32_mod
      → listed_entry e ≡ true
      → (write_entry e dir entry s).1.first_block ≡ s.first_block + entry_blocks e
  write_entry_first dots dir entry s past room h = omega arith
  write_entry_first (regular name size bytes) dir entry s past room h =
      let r = name_entry name entry s in
      let e = name_entry_first name entry s in
      write_regular_first name size bytes (load32 r.0 0) r.1
      ∙ after_file_lem name (bytes_to_blocks size) r.1.first_block (omega (arith, e))
          (omega (arith, e)) (ground arith)
      ∙ omega (arith, e)
  write_entry_first (directory name inner) dir entry s past room h =
      let r = name_entry name entry s in
      let i_number = load32 r.0 0 in
      let e = name_entry_first name entry s in
      let o = open_directory inner i_number dir r.1 in
      let f = open_directory_first inner i_number dir r.1 in
      let inside =
        write_loop_first inner i_number o.0 o.1 (omega (arith, e, f)) (omega (arith, e, f))
          (ground arith) in
      close_directory_first inner (write_loop inner i_number o.0 o.1) ∙ omega (arith, e, f, inside)
  write_entry_first (other name) dir entry s past room h =
      name_entry_first name entry s ∙ omega arith

write_file_data_first :
    (es : Entries) (curr parent : ℕ) (s : Formatter)
    → 14 ≤ s.first_block
    → s.first_block + tree_blocks es < u32_mod
    → listed es ≡ true
    → (write_file_data es curr parent s).first_block ≡ s.first_block + tree_blocks es
unfolding write_file_data tree_blocks listed
write_file_data_first es curr parent s past room h =
    let o = open_directory es curr parent s in
    let f = open_directory_first es curr parent s in
    let inside =
      write_loop_first es curr o.0 o.1 (omega (arith, f)) (omega (arith, f)) (ground arith) in
    close_directory_first es (write_loop es curr o.0 o.1) ∙ omega (arith, f, inside)

-- Past the kernel's blocks, and for a tree in which each directory lists "." and ".." and no file is
-- "kernel.bin", `write_file_data` takes as many blocks, one after the other, as `get_file_info`
-- counts from 0, if their number fits in 32 bits.
pub write_file_data-get_file_info :
    (es : Entries) (curr parent : ℕ) (s t : Formatter)
    → 14 ≤ s.first_block
    → s.first_block + tree_blocks es < u32_mod
    → listed es ≡ true
    → t.file_blocks ≡ 0
    → (write_file_data es curr parent s).first_block
      ≡ s.first_block + (get_file_info es t).file_blocks
write_file_data-get_file_info es curr parent s t past room h empty = omega (
  arith,
  write_file_data_first es curr parent s past room h,
  get_file_info_blocks es t (omega arith) h,
)
