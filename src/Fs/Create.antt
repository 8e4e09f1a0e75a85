-- ===== src/Fs/Create.antt =====
-- `get_parent_inode`, `create_file` and `print_dir`. `shift` is as in Fs.Marks. The arrays and the
-- structure on the stack are at the addresses `temp` and `entry`. The formatted output of `print_dir`
-- is the list of the bytes of the names, each with whether the entry is a file, the last one first.
pub mod Bits
pub mod Enter
mod Tests
pub mod Link
use ab_os.Base.{
  ℕ, zero, suc, ◌+◌, ◌-◌, ◌*◌, ◌/◌, ◌%◌, Bool, true, false, not, ◌&&◌, Memory, update, ltb, ◌==◌,
  if◌then◌else◌, u32_mod, for_range, Option, none, some, ◌>>=◌, List, [], ◌∷◌,
}
use ab_os.Base.Words.{load32, store32}
use ab_os.Str.{memset, memcpy, strcpy, strlen, strrchr}
use ab_os.Fs.{
  Fs, Superblock, Inode, no_inode, i_number_of, size_of, file_type_of, file_type_file,
  file_type_dir, direct_pointer, set_direct_pointer, bytes_to_blocks, superblock_words, store_words,
  read_sectors, write_sectors, get_inode, get_name_path, update_inode,
}
use ab_os.Fs.Bitmap.{find_free_bit}
use ab_os.Fs.Marks.{set_inode_bitmap, set_data_bitmap}

abbrev pub superblock_address : ℕ
superblock_address = 0x8C00

pub update_superblock : Fs → Fs
update_superblock s =
    write_sectors 1 8 superblock_address (record s {
      memory = store_words superblock_address (superblock_words s.superblock) s.memory;
    })

-- `temp` is the array with the copy of the path.
pub get_parent_inode : ℕ → ℕ → ℕ → Fs → Option (Inode × Fs)
get_parent_inode fuel temp path s = do
  size ← strlen fuel s.memory path
  copied ← strcpy fuel temp path s.memory
  slash ← strrchr fuel copied path b'/'
  let cut = record s { memory = update copied (temp + (slash - path)) 0 }
  if slash == 0
      then some (s.current_dir_inode, record s { memory = copied })
      else (strlen fuel cut.memory temp >>= λ n.
          if n == 0 then some (cut.root_inode, cut) else get_inode fuel temp cut)

-- The next free bits, searched for on the disk.
pub search_inode : Fs → Fs
search_inode s =
    let (bit, s') = find_free_bit s.first_inode_bitmap_block s.num_inodes_bitmap s in
    let sb = s'.superblock in record s' { superblock = record sb { first_free_inode_bit = bit } }

pub search_data : Fs → Fs
search_data s =
    let (bit, s') = find_free_bit s.first_data_bitmap_block s.num_data_bitmap s in
    let sb = s'.superblock in record s' { superblock = record sb { first_free_data_bit = bit } }

-- The block that `create_file` takes.
abbrev pub next_block : Fs → ℕ
next_block s = (s.first_data_block + s.first_free_data_bit) % u32_mod

abbrev block_buffer_bytes : ℕ
block_buffer_bytes = 16384

-- The case of a parent that takes one more block. The third block gets no pointer.
pub grow_parent : ℕ → ℕ → Inode → Fs → Inode × Fs
unfolding search_data
grow_parent old new parent s =
    let parent' = set_direct_pointer new (next_block s) parent in
    let sector = direct_pointer parent' new * 8 % u32_mod in
    let loaded = read_sectors 8 sector s.block_buffer (search_data s) in
    let cleared = record loaded {
      memory = memset loaded.block_buffer 0 block_buffer_bytes loaded.memory;
    } in
    if ltb old new && ltb old 2
    then (parent', update_inode parent' (write_sectors 8 sector s.block_buffer cleared))
    else (parent, s)

-- The search of a block for an entry that is free, which takes `new_entry`.
pub link_entry : ℕ → ℕ → ℕ → Fs → Option Fs
link_entry zero dir_entry new_entry s = none
link_entry (suc rounds) dir_entry new_entry s =
    let rest = link_entry rounds (dir_entry + 64) new_entry s in
    if load32 s.memory dir_entry == 0
    then some (record s { memory = memcpy dir_entry new_entry 64 s.memory })
    else rest

-- The loop over the blocks of the parent.
pub link_loop : ℕ → ℕ → ℕ → Inode → Fs → Fs
unfolding link_entry
link_loop zero i new_entry parent s = s
link_loop (suc rounds) i new_entry parent s =
    let sector = direct_pointer parent i * 8 % u32_mod in
    let loaded = read_sectors 8 sector s.block_buffer s in
    let rest = link_loop rounds (i + 1) new_entry parent loaded in
    elim (link_entry 64 loaded.block_buffer new_entry loaded) [
      | none ↦ rest
      | some linked ↦ write_sectors 8 sector linked.block_buffer linked
    ]

-- What the copies of the inode that are kept become.
pub keep_inode : Inode → Fs → Fs
keep_inode parent s = record s {
  current_dir_inode =
      if i_number_of s.current_dir_inode == i_number_of parent then parent else s.current_dir_inode;
  root_inode = if i_number_of s.root_inode == i_number_of parent then parent else s.root_inode;
}

-- The bits of the new inode, and the inode.
pub new_file : (ℕ → ℕ) → Fs → Inode × Fs
unfolding search_inode search_data
new_file shift s =
    let i_number = s.first_free_inode_bit in
    let s1 = search_inode (set_inode_bitmap shift i_number true s) in
    let block = next_block s1 in
    let s2 = search_data (set_data_bitmap shift block true s1) in
    let numbered = set_direct_pointer 0 block (store32 no_inode 0 i_number) in
    (store32 (update numbered 4 file_type_file) 5 4096, s2)

-- The entry for the new inode in the directory.
pub link : ℕ → Inode → Inode → Fs → Fs
unfolding grow_parent link_loop keep_inode
link entry inode parent s =
    let old = bytes_to_blocks (size_of parent) in
    let new = bytes_to_blocks ((size_of parent + 64) % u32_mod) in
    let (grown, s1) = grow_parent old new parent s in
    let s2 = link_loop new 0 entry grown s1 in
    let sized = store32 grown 5 ((size_of grown + 64) % u32_mod) in
    keep_inode sized (update_inode sized s2)

pub create_file : (ℕ → ℕ) → ℕ → ℕ → ℕ → ℕ → Fs → Option (Inode × Fs)
unfolding get_parent_inode new_file link update_superblock
create_file shift fuel temp entry path s = do
  (parent, s1) ← get_parent_inode fuel temp path s
  let (inode, s2) = new_file shift s1
  let s3 = update_inode inode s2
  let m = store32 (memset entry 0 64 s3.memory) entry (i_number_of inode)
  name ← get_name_path fuel m path
  named ← strcpy fuel (entry + 4) name m
  some (inode, update_superblock (link entry inode parent (record s3 { memory = named })))

-- The loop over the entries of a block: the entries seen, and the output.
pub entries_loop : ℕ → ℕ → ℕ → ℕ → List (Memory × Bool) → Fs → (ℕ × List (Memory × Bool)) × Fs
entries_loop zero dir_entry total num out s = ((num, out), s)
entries_loop (suc rounds) dir_entry total num out s =
    let i_number = load32 s.memory dir_entry in
    let s' =
      read_sectors 1 ((s.first_inode_block * 8 + i_number / 8) % u32_mod) s.sector_buffer s in
    let inode : Inode = λ a. s'.memory (s'.sector_buffer + 64 * (i_number % 8) + a) in
    let line : Memory × Bool =
      ((λ a. s'.memory (dir_entry + 4 + a)), file_type_of inode == file_type_file) in
    if not (ltb num total)
    then ((num, out), s)
    else if i_number == 0
    then entries_loop rounds (dir_entry + 64) total num out s
    else entries_loop rounds (dir_entry + 64) total (num + 1) (line ∷ out) s'

pub blocks_loop : ℕ → ℕ → Inode → ℕ → ℕ → List (Memory × Bool) → Fs → List (Memory × Bool) × Fs
unfolding entries_loop
blocks_loop zero i dir total num out s = (out, s)
blocks_loop (suc rounds) i dir total num out s =
    let loaded = read_sectors 8 (direct_pointer dir i * 8 % u32_mod) s.block_buffer s in
    let ((num', out'), s') = entries_loop 64 loaded.block_buffer total num out loaded in
    blocks_loop rounds (i + 1) dir total num' out' s'

-- A path without a slash makes `index` the address of 0 less `path`.
pub print_dir : ℕ → ℕ → Fs → Option ((Bool × List (Memory × Bool)) × Fs)
unfolding blocks_loop
print_dir fuel path s = do
  slash ← strrchr fuel s.memory path b'/'
  let index = (slash + u32_mod - path) % u32_mod
  let cut = record s { memory = update s.memory ((path + index) % u32_mod) 0 }
  (dir, s') ← (if index == 0 then some (cut.root_inode, cut) else get_inode fuel path cut)
  let (out, s'') = blocks_loop (bytes_to_blocks (size_of dir)) 0 dir (size_of dir / 64) 0 [] s'
  if file_type_of dir == file_type_dir then some ((true, out), s'') else some ((false, []), s')
