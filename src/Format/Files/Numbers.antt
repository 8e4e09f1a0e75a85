-- ===== src/Format/Files/Numbers.antt =====
-- The inode numbers that `write_file_data` gives, against the files that `get_file_info` counts.
use ab_os.Base.{ℕ, ◌+◌, ◌%◌, ◌<◌, ◌≡◌, refl, Bool, true, false, ◌||◌, Memory, u32_mod, arith, List}
use ab_os.Base.Words.{load32}
use ab_os.Format.Tree.{
  TreeEntry, Entries, dots, regular, directory, other, last, more, is_kernel, is_prekernel,
}
use ab_os.Format.{
  Formatter, fwrite, seek, info_loop, info_entry, info_total, get_file_info, format_superblock,
}
use ab_os.Format.Files.{
  entry_number, name_entry, write_inode, write_contents, write_regular, open_directory,
  close_directory, write_loop, write_entry, write_file_data,
}

-- The files and directories below a directory, and those with a number of their own.
abbrev one_if : Bool → ℕ
one_if true = 1
one_if false = 0

unfoldable mutual
  pub all_files : Entries → ℕ
  all_files last = 0
  all_files (more e es) = files_of e + all_files es

  pub files_of : TreeEntry → ℕ
  files_of dots = 0
  files_of (regular name size bytes) = 1
  files_of (directory name inner) = 1 + all_files inner
  files_of (other name) = 1

abbrev pub is_reserved : List ℕ → Bool
is_reserved name = is_prekernel name || is_kernel name

unfoldable mutual
  pub reserved : Entries → ℕ
  reserved last = 0
  reserved (more e es) = reserved_of e + reserved es

  pub reserved_of : TreeEntry → ℕ
  reserved_of dots = 0
  reserved_of (regular name size bytes) = one_if (is_reserved name)
  reserved_of (directory name inner) = one_if (is_reserved name) + reserved inner
  reserved_of (other name) = one_if (is_reserved name)

mutual
  unfolding info_loop all_files info_total

  info_loop_files :
      (es : Entries) (n : ℕ) (s : Formatter)
      → s.num_files + all_files es < u32_mod
      → (info_loop es n s).1.num_files ≡ s.num_files + all_files es
  info_loop_files last n s room = omega arith
  info_loop_files (more e es) n s room =
      let r = info_entry e n s in
      let first = info_entry_files e n s (omega arith) in
      omega (arith, first, info_loop_files es r.0 r.1 (omega (arith, first)))

  info_entry_files :
      (e : TreeEntry) (n : ℕ) (s : Formatter)
      → s.num_files + files_of e < u32_mod
      → (info_entry e n s).1.num_files ≡ s.num_files + files_of e
  info_entry_files dots n s room = omega arith
  info_entry_files (regular name size bytes) n s room = omega arith
  info_entry_files (directory name inner) n s room =
      let s' = record s { num_files = (s.num_files + 1) % u32_mod } in
      omega (arith, info_loop_files inner 2 s' (omega arith))
  info_entry_files (other name) n s room = omega arith

name_entry_next :
    (name : List ℕ) (entry : Memory) (s : Formatter)
    → s.next_inode_id + 1 < u32_mod
    → (name_entry name entry s).1.next_inode_id + one_if (is_reserved name) ≡ s.next_inode_id + 1
unfolding name_entry entry_number fwrite
name_entry_next name entry s room = ground arith

write_regular_next :
    (name : List ℕ) (size : ℕ) (bytes : Memory) (i_number : ℕ) (s : Formatter)
    → (write_regular name size bytes i_number s).next_inode_id ≡ s.next_inode_id
unfolding write_regular write_inode write_contents fwrite seek
write_regular_next name size bytes i_number s = refl

open_directory_next :
    (es : Entries) (curr parent : ℕ) (s : Formatter)
    → (open_directory es curr parent s).1.next_inode_id ≡ s.next_inode_id
unfolding open_directory write_inode fwrite seek
open_directory_next es curr parent s = refl

close_directory_next :
    (es : Entries) (s : Formatter) → (close_directory es s).next_inode_id ≡ s.next_inode_id
unfolding close_directory fwrite
close_directory_next es s = refl

mutual
  unfolding write_loop all_files reserved seek

  write_loop_next :
      (es : Entries) (dir : ℕ) (entry : Memory) (s : Formatter)
      → s.next_inode_id + all_files es < u32_mod
      → (write_loop es dir entry s).next_inode_id + reserved es ≡ s.next_inode_id + all_files es
  write_loop_next last dir entry s room = omega arith
  write_loop_next (more e es) dir entry s room =
      let r = write_entry e dir entry s in
      let first = write_entry_next e dir entry s (omega arith) in
      omega (arith, first, write_loop_next es dir r.0 r.1 (omega (arith, first)))

  write_entry_next :
      (e : TreeEntry) (dir : ℕ) (entry : Memory) (s : Formatter)
      → s.next_inode_id + files_of e < u32_mod
      → (write_entry e dir entry s).1.next_inode_id + reserved_of e ≡ s.next_inode_id + files_of e
  write_entry_next dots dir entry s room = omega arith
  write_entry_next (regular name size bytes) dir entry s room =
      let r = name_entry name entry s in
      omega (
        arith,
        name_entry_next name entry s (omega arith),
        write_regular_next name size bytes (load32 r.0 0) r.1,
      )
  write_entry_next (directory name inner) dir entry s room =
      let r = name_entry name entry s in
      let i_number = load32 r.0 0 in
      let o = open_directory inner i_number dir r.1 in
      let e = name_entry_next name entry s (omega arith) in
      let f = open_directory_next inner i_number dir r.1 in
      let inside = write_loop_next inner i_number o.0 o.1 (omega (arith, e, f)) in
      omega (arith, e, f, inside, close_directory_next inner (write_loop inner i_number o.0 o.1))
  write_entry_next (other name) dir entry s room = name_entry_next name entry s (omega arith)

write_file_data_next :
    (es : Entries) (curr parent : ℕ) (s : Formatter)
    → s.next_inode_id + all_files es < u32_mod
    → (write_file_data es curr parent s).next_inode_id + reserved es
      ≡ s.next_inode_id + all_files es
unfolding write_file_data
write_file_data_next es curr parent s room =
    let o = open_directory es curr parent s in
    let f = open_directory_next es curr parent s in
    let inside = write_loop_next es curr o.0 o.1 (omega (arith, f)) in
    omega (arith, f, inside, close_directory_next es (write_loop es curr o.0 o.1))

-- From 4 on, and for a tree that holds "prekernel.bin" and "kernel.bin" once each, the first number
-- that `write_file_data` does not give is the free inode bit of the superblock that `write_superblock`
-- makes from the count of `get_file_info`, which starts at 0.
pub write_file_data-format_superblock :
    (es : Entries) (curr parent blocks : ℕ) (s t : Formatter)
    → s.next_inode_id ≡ 4
    → t.num_files ≡ 0
    → reserved es ≡ 2
    → 4 + all_files es < u32_mod
    → (write_file_data es curr parent s).next_inode_id
      ≡ (format_superblock (get_file_info es t).num_files blocks).first_free_inode_bit
unfolding get_file_info info_total format_superblock
write_file_data-format_superblock es curr parent blocks s t four none_yet two room = omega (
  arith,
  write_file_data_next es curr parent s (omega arith),
  info_loop_files es 2 t (omega arith),
)
