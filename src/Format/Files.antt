-- ===== src/Format/Files.antt =====
-- format_disk.c: `write_file_data`, which gives the directories and the files their inodes and their
-- blocks, and `main`. A name has at most 59 characters, which `dir_entry` holds.
pub mod Blocks
pub mod Inodes
pub mod Numbers
use ab_os.Base.{
  ℕ, zero, suc, ◌+◌, ◌-◌, ◌*◌, ◌/◌, ◌%◌, Bool, true, false, not, ◌&&◌, Memory, update, max, ltb,
  leb, ◌==◌, if◌then◌else◌, u32_mod, for_range, List, [], ◌∷◌,
}
use ab_os.Base.Words.{load32, store32}
use ab_os.Fs.{
  Superblock, Inode, no_inode, set_direct_pointer, bytes_to_blocks, file_type_dir, file_type_file,
  i_number_of, direct_pointer,
}
use ab_os.Format.Tree.{
  TreeEntry, Entries, dots, regular, directory, other, last, more, entry_count, is_prekernel,
  is_kernel,
}
use ab_os.Format.{
  Formatter, fwrite, seek, zeros, get_file_info, write_superblock, write_inode_bitmap,
  write_data_bitmap,
}

-- `time_created` of an inode, at its place.
abbrev set_time : ℕ → ℕ → ℕ → Inode → Inode
set_time second minute hour inode =
    store32
      (update (update (update (update (update inode 25 second) 26 minute) 27 hour) 28 28) 29 7) 30
      2025

-- The loops that give a file or a directory its blocks: the inode's `n` pointers from `first` on. The
-- array has seven, and the loops test no bound: the stores from the eighth on are over what stands
-- behind the array, which are the last bytes of the inode and then the stack. Here those last are the
-- offsets from 64 on, which no `fwrite` reads; what they are in the program is not modelled.
pub set_pointers : ℕ → ℕ → Inode → Inode
set_pointers first n = for_range n 0 (λ i. set_direct_pointer i ((first + i) % u32_mod))

-- An inode with its type, its size and its time.
pub make_inode : ℕ → ℕ → ℕ → Inode → Inode
make_inode i_number file_type size inode =
    store32 (update (store32 inode 0 i_number) 4 file_type) 5 size

-- The two `fseek`s and the `fwrite` of an inode.
pub write_inode : ℕ → Inode → Formatter → Formatter
unfolding fwrite seek
write_inode i_number inode s =
    fwrite inode 64
      (seek ((s.superblock.first_inode_block + i_number / 64) * 4096 + i_number % 64 * 64) s)

-- `strcpy` of a name to `dir_entry`, which keeps what it has behind the terminator.
pub set_name : ℕ → List ℕ → Memory → Memory
set_name at [] entry = update entry at 0
set_name at (c ∷ cs) entry = set_name (at + 1) cs (update entry at c)

-- What the entry of a file takes for its number.
pub entry_number : List ℕ → Formatter → ℕ × Formatter
entry_number name s =
    if is_prekernel name
    then (2, s)
    else if is_kernel name
    then (3, s)
    else (s.next_inode_id, record s { next_inode_id = (s.next_inode_id + 1) % u32_mod })

-- Where the blocks of a file start, and `first_block` behind them: blocks 7 to 13 are kept for the
-- kernel.
pub file_start : List ℕ → ℕ → ℕ
file_start name first_block =
    if is_kernel name
    then 7
    else if leb first_block 13 && leb 7 first_block
    then first_block + 7
    else first_block

pub after_file : List ℕ → ℕ → ℕ → ℕ
unfolding file_start
after_file name n first_block =
    if is_kernel name && not (first_block == 0)
    then first_block
    else (file_start name first_block + n) % u32_mod

-- The bytes of a file in sectors, and the zeros up to the end of its last block.
pub write_contents : ℕ → Memory → Formatter → Formatter
unfolding fwrite
write_contents size bytes s = fwrite zeros ((4096 - size % 4096) % 4096) (fwrite bytes size s)

pub write_regular : List ℕ → ℕ → Memory → ℕ → Formatter → Formatter
unfolding make_inode set_pointers write_inode write_contents seek
write_regular name size bytes i_number s =
    let n = bytes_to_blocks size in
    let start = file_start name s.first_block in
    let inode =
      set_pointers start n (set_time 6 13 18 (make_inode i_number file_type_file size no_inode)) in
    let s1 =
      write_inode i_number inode (record s { first_block = after_file name n s.first_block }) in
    write_contents size bytes (seek (direct_pointer inode 0 * 4096) s1)

-- The inode of a directory, and its entries "." and "..": `dir_entry`, and the state.
pub open_directory : Entries → ℕ → ℕ → Formatter → Memory × Formatter
unfolding make_inode set_pointers write_inode fwrite seek set_name
open_directory es curr_inode parent_inode s =
    let dir_size = entry_count es * 64 in
    let n = bytes_to_blocks dir_size in
    let inode =
      set_pointers s.first_block n
        (set_time 0 40 15 (make_inode curr_inode file_type_dir dir_size no_inode)) in
    let s1 =
      write_inode curr_inode inode (record s { first_block = (s.first_block + n) % u32_mod }) in
    let entry = set_name 4 (b'.' ∷ []) (store32 zeros 0 curr_inode) in
    let above = set_name 4 (b'.' ∷ b'.' ∷ []) (store32 entry 0 parent_inode) in
    (above, fwrite above 64 (fwrite entry 64 (seek (direct_pointer inode 0 * 4096) s1)))

-- The zeros behind the entries.
pub close_directory : Entries → Formatter → Formatter
unfolding fwrite
close_directory es s = fwrite zeros ((4096 - entry_count es * 64 % 4096) % 4096) s

-- The entry of a file in its directory.
pub name_entry : List ℕ → Memory → Formatter → Memory × Formatter
unfolding fwrite set_name entry_number
name_entry name dir_entry s =
    let (i_number, s') = entry_number name s in
    let dir_entry' = set_name 4 name (store32 dir_entry 0 i_number) in
    (dir_entry', fwrite dir_entry' 64 s')

mutual
  -- The loop of `write_file_data` over the entries.
  pub write_loop : Entries → ℕ → Memory → Formatter → Formatter
  write_loop last dir dir_entry s = s
  write_loop (more e es) dir dir_entry s =
      let (dir_entry', s') = write_entry e dir dir_entry s in write_loop es dir dir_entry' s'

  pub write_entry : TreeEntry → ℕ → Memory → Formatter → Memory × Formatter
  write_entry dots dir dir_entry s = (dir_entry, s)
  write_entry (regular name size bytes) dir dir_entry s =
      let (dir_entry', s') = name_entry name dir_entry s in
      (dir_entry', seek s'.position (write_regular name size bytes (load32 dir_entry' 0) s'))
  write_entry (directory name inner) dir dir_entry s =
      let (dir_entry', s') = name_entry name dir_entry s in
      let (inner_entry, s'') = open_directory inner (load32 dir_entry' 0) dir s' in
      let closed = close_directory inner (write_loop inner (load32 dir_entry' 0) inner_entry s'') in
      (dir_entry', seek s'.position closed)
  write_entry (other name) dir dir_entry s = name_entry name dir_entry s

pub write_file_data : Entries → ℕ → ℕ → Formatter → Formatter
unfolding close_directory
write_file_data es curr_inode parent_inode s =
    let (dir_entry, s') = open_directory es curr_inode parent_inode s in
    close_directory es (write_loop es curr_inode dir_entry s')

-- `diff` is the whole size of the image so far.
pub init_inode_data_blocks : Entries → Formatter → Formatter
unfolding fwrite seek
init_inode_data_blocks es s =
    let s1 = write_file_data es 1 1 (record s { first_block = s.superblock.first_data_block }) in
    let s2 = seek s1.extent s1 in
    for_range (bytes_to_blocks (s2.position % u32_mod)) 0 (λ i. fwrite zeros 4096) s2

-- `main`, from an image with the boot block on.
pub format_disk : Entries → Formatter → Formatter
format_disk es s =
    init_inode_data_blocks es
      (write_data_bitmap (write_inode_bitmap (write_superblock (get_file_info es s))))
