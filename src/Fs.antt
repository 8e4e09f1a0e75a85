-- ===== src/Fs.antt =====
-- kernel/fs/fs_commands.c with the layouts of fs.h: the disk, the lookup of paths, and inodes.
-- Kernel memory and the disk are bytes. An inode is its 64 bytes. The ATA device is taken at what
-- its commands do: the sectors of a transfer, in order, 256 words of 16 bits each; the waiting is
-- left out. The walks along strings and paths take fuel, and `none` means that it ran out.
pub mod Tests
mod Layout
pub mod Bitmap
pub mod Disk
pub mod Create
pub mod Marks
pub mod Mount
pub mod Path
pub mod Transfer
pub use Layout.*
use ab_os.Base.{
  ℕ, zero, suc, ◌+◌, ◌-◌, ◌*◌, ◌/◌, ◌%◌, ◌^◌, Bool, true, false, not, ◌&&◌, Memory, update, u32_mod,
  ltb, ◌==◌, if◌then◌else◌, for_range, Option, none, some, bit_and,
}
use ab_os.Base.Words.{load32}
use ab_os.Str.{strcmp, memset}

-- The disk, kernel memory with the addresses of the two buffers and of `str_buffer`, the
-- superblock, and the two inodes that are kept.
pub record Fs : Type 0 where
  pub disk : Memory
  pub memory : Memory
  pub block_buffer : ℕ
  pub sector_buffer : ℕ
  pub str_buffer : ℕ
  pub superblock : Superblock
  pub open superblock use *
  pub current_dir_inode : Inode
  pub root_inode : Inode

-- The address of a sector on the disk: the commands take 28 bits of its number.
pub sector_address : ℕ → ℕ
sector_address starting_sector = starting_sector % 2 ^ 28 * sector_bytes

-- One word from `src` of one memory to `dst` of another.
pub move_word : Memory → ℕ → ℕ → ℕ → Memory → Memory
move_word source src dst j m =
    update (update m (dst + 2 * j) (source (src + 2 * j))) (dst + 2 * j + 1)
      (source (src + 2 * j + 1))

-- `rw_sectors(…, READ)` and `rw_sectors(…, WRITE)`.
pub read_sectors : ℕ → ℕ → ℕ → Fs → Fs
unfolding sector_address move_word
read_sectors sectors starting_sector address s = record s {
  memory =
      for_range (sectors * 256) 0 (move_word s.disk (sector_address starting_sector) address)
        s.memory;
}

pub write_sectors : ℕ → ℕ → ℕ → Fs → Fs
unfolding sector_address move_word
write_sectors sectors starting_sector address s = record s {
  disk =
      for_range (sectors * 256) 0 (move_word s.memory address (sector_address starting_sector))
        s.disk;
}

-- `offset` is what the variable of that name holds before the loop, which does not initialise it. The
-- two functions have one each.
pub load_file : ℕ → Inode → ℕ → Fs → Fs
load_file offset inode address = for_range (bytes_to_blocks (size_of inode)) 0 (λ i.
    read_sectors 8 (direct_pointer inode i * 8 % u32_mod) ((address + offset + 4096 * i) % u32_mod))

pub save_file : ℕ → Inode → ℕ → Fs → Fs
save_file offset inode address = for_range (bytes_to_blocks (size_of inode)) 0 (λ i.
    write_sectors 8 (direct_pointer inode i * 8 % u32_mod)
      ((address + offset + 4096 * i) % u32_mod))

-- `inode_sector`.
unfoldable pub inode_sector : ℕ → Fs → ℕ
inode_sector i_number s =
    (i_number * inode_bytes + s.first_inode_block * 4096) % u32_mod / sector_bytes

-- The inode in `sector_buffer` that a number stands for.
abbrev pub inode_in : ℕ → Fs → Inode
inode_in i_number s a = s.memory (s.sector_buffer + inode_bytes * (i_number % 8) + a)

-- The loop over the 64 entries in `block_buffer`: `some none` is that none has the name.
pub entry_loop : ℕ → ℕ → ℕ → ℕ → Fs → Option (Option (Inode × Fs))
entry_loop fuel zero dir_entry file s = some none
entry_loop fuel (suc rounds) dir_entry file s =
    let i_number = load32 s.memory dir_entry in
    let rest = entry_loop fuel rounds (dir_entry + 64) file s in
    if i_number == 0 then rest else elim (strcmp fuel s.memory (dir_entry + 4) file) [
      | none ↦ none
      | some r ↦
          if r == 0
          then (let s' = read_sectors 1 (inode_sector i_number s) s.sector_buffer s in
              some (some (inode_in i_number s', s')))
          else rest
    ]

pub block_loop : ℕ → ℕ → ℕ → Inode → ℕ → Fs → Option (Inode × Fs)
unfolding entry_loop
block_loop fuel zero i current_dir file s = some (no_inode, s)
block_loop fuel (suc rounds) i current_dir file s =
    let s' = read_sectors 8 (direct_pointer current_dir i * 8 % u32_mod) s.block_buffer s in
    elim (entry_loop fuel 64 s.block_buffer file s') [
      | none ↦ none
      | some (some r) ↦ some r
      | some none ↦ block_loop fuel rounds (i + 1) current_dir file s'
    ]

pub get_inode_in_dir : ℕ → Inode → ℕ → Fs → Option (Inode × Fs)
unfolding block_loop
get_inode_in_dir fuel current_dir file s =
    block_loop fuel (bytes_to_blocks (size_of current_dir)) 0 current_dir file s

-- The store of the terminator, and the lookup of the name in `str_buffer`.
pub lookup : ℕ → Inode → ℕ → Fs → Option (Inode × Fs)
lookup fuel current_inode str_index s =
    get_inode_in_dir fuel current_inode s.str_buffer
      (record s { memory = update s.memory (s.str_buffer + str_index) 0 })

-- The loop of `get_inode`, with what follows it.
pub path_loop : ℕ → ℕ → Inode → ℕ → Fs → Option (Inode × Fs)
path_loop zero index current_inode str_index s = none
path_loop (suc fuel) index current_inode str_index s =
    let c = s.memory index in
    if c == 0
    then lookup fuel current_inode str_index s
    else if c == b'/'
    then elim (lookup fuel current_inode str_index s) [
      | none ↦ none
      | some (inode, s') ↦
          if i_number_of inode == 0
          then some (no_inode, s')
          else path_loop fuel (index + 1) inode 0
              (record s' { memory = memset s'.str_buffer 0 60 s'.memory })
    ]
    else if ltb str_index 59
    then path_loop fuel (index + 1) current_inode (str_index + 1)
        (record s { memory = update s.memory (s.str_buffer + str_index) c })
    else some (no_inode, s)

-- The last tests of the source return an inode whose number is 0 as `(inode_t){0}`.
pub get_inode : ℕ → ℕ → Fs → Option (Inode × Fs)
unfolding path_loop lookup
get_inode fuel path s =
    let cleared = record s { memory = memset s.str_buffer 0 60 s.memory } in
    let absolute = cleared.memory path == b'/' in
    elim (path_loop fuel (if absolute then path + 1 else path)
      (if absolute then s.root_inode else s.current_dir_inode) 0 cleared) [
        | none ↦ none
        | some (inode, s') ↦ some ((if i_number_of inode == 0 then no_inode else inode), s')
      ]

-- The loop of `get_name_path`.
pub name_loop : ℕ → Memory → ℕ → ℕ → Option ℕ
name_loop zero m temp temp2 = none
name_loop (suc fuel) m temp temp2 =
    let rest = name_loop fuel m (temp + 1) (if m temp == b'/' then temp + 1 else temp2) in
    if m temp == 0 then some temp2 else rest

pub get_name_path : ℕ → Memory → ℕ → Option ℕ
unfolding name_loop
get_name_path fuel m path = name_loop fuel m path path

-- The sector that `update_inode` reads and writes.
abbrev pub update_sector : ℕ → Fs → ℕ
update_sector i_number s = (s.first_inode_block * 8 + i_number / 8) % u32_mod

-- `*temp = inode`, with `temp` in `sector_buffer`.
pub store_inode : Inode → Fs → Fs
store_inode inode s =
    let temp = s.sector_buffer + inode_bytes * (i_number_of inode % 8) in
    record s { memory = for_range inode_bytes 0 (λ a m. update m (temp + a) (inode a)) s.memory }

pub update_inode : Inode → Fs → Fs
update_inode inode s =
    let sector = update_sector (i_number_of inode) s in
    let loaded = read_sectors 1 sector s.sector_buffer s in
    write_sectors 1 sector s.sector_buffer (store_inode inode loaded)
