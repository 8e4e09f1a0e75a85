-- ===== src/Fs/Disk.antt =====
-- The transfers, and the place of an inode on the disk.
use ab_os.Base.{
  ℕ, ◌+◌, ◌-◌, ◌*◌, ◌/◌, ◌%◌, ◌^◌, ◌<◌, ◌≤◌, ◌⊎◌, ◌≡◌, refl, ◌&&◌, Memory, update, ltb, leb,
  if◌then◌else◌, for_range, for_range_inv, arith,
}
use ab_os.Fs.{
  Fs, Inode, i_number_of, inode_bytes, sector_address, move_word, read_sectors, write_sectors,
  store_inode, update_sector, update_inode,
}

move_loop :
    (source : Memory) (src dst n : ℕ) (m : Memory) (b : ℕ)
    → for_range n 0 (move_word source src dst) m b
      ≡ (if leb dst b && ltb b (dst + 2 * n) then source (src + (b - dst)) else m b)
move_loop source src dst n m =
    for_range_inv
      (λ k m'.
        (b : ℕ)
        → m' b ≡ (if leb dst b && ltb b (dst + 2 * k) then source (src + (b - dst)) else m b))
      (move_word source src dst) n (λ k m' l h b. unfold move_word in ground (arith, h b)) n 0 m
      (omega arith) (λ b. ground arith)

-- A read puts the bytes of its sectors at the address, and changes no other byte of memory.
pub read_sectors_lem :
    (sectors starting_sector address : ℕ) (s : Fs) (b : ℕ)
    → starting_sector < 2 ^ 28
    → (read_sectors sectors starting_sector address s).memory b ≡ (
        if leb address b && ltb b (address + 512 * sectors)
        then s.disk (starting_sector * 512 + (b - address))
        else s.memory b)
unfolding read_sectors sector_address
read_sectors_lem sectors starting_sector address s b lba =
    ground
      (arith, move_loop s.disk (sector_address starting_sector) address (sectors * 256) s.memory b)

-- A write puts bytes of memory in its sectors, and changes no other byte of the disk.
pub write_sectors_lem :
    (sectors starting_sector address : ℕ) (s : Fs) (b : ℕ)
    → starting_sector < 2 ^ 28
    → (write_sectors sectors starting_sector address s).disk b ≡ (
        if leb (starting_sector * 512) b && ltb b (starting_sector * 512 + 512 * sectors)
        then s.memory (address + (b - starting_sector * 512))
        else s.disk b)
unfolding write_sectors sector_address
write_sectors_lem sectors starting_sector address s b lba =
    ground
      (arith, move_loop s.memory address (sector_address starting_sector) (sectors * 256) s.disk b)

store_inode_lem :
    (inode : Inode) (s : Fs) (b : ℕ)
    → let temp = s.sector_buffer + inode_bytes * (i_number_of inode % 8) in
      (store_inode inode s).memory b
      ≡ (if leb temp b && ltb b (temp + 64) then inode (b - temp) else s.memory b)
unfolding store_inode
store_inode_lem inode s =
    let temp = s.sector_buffer + inode_bytes * (i_number_of inode % 8) in
    for_range_inv
      (λ k m'.
        (b : ℕ) → m' b ≡ (if leb temp b && ltb b (temp + k) then inode (b - temp) else s.memory b))
      (λ a m. update m (temp + a) (inode a)) inode_bytes (λ k m' l h b. ground (arith, h b))
      inode_bytes 0 s.memory (omega arith) (λ b. ground arith)

store_inode_disk : (inode : Inode) (s : Fs) (b : ℕ) → (store_inode inode s).disk b ≡ s.disk b
unfolding store_inode
store_inode_disk inode s b = refl

pub read_sectors_rest :
    (sectors starting_sector address : ℕ) (s : Fs) (b : ℕ)
    → ((read_sectors sectors starting_sector address s).disk b ≡ s.disk b)
      × ((read_sectors sectors starting_sector address s).sector_buffer ≡ s.sector_buffer)
unfolding read_sectors
read_sectors_rest sectors starting_sector address s b = (refl, refl)

pub read_sectors_buffer :
    (sectors starting_sector address : ℕ) (s : Fs)
    → (read_sectors sectors starting_sector address s).block_buffer ≡ s.block_buffer
unfolding read_sectors
read_sectors_buffer sectors starting_sector address s = refl

write_sectors_memory :
    (sectors starting_sector address : ℕ) (s : Fs) (b : ℕ)
    → (write_sectors sectors starting_sector address s).memory b ≡ s.memory b
unfolding write_sectors
write_sectors_memory sectors starting_sector address s b = refl

-- Where the disk keeps an inode.
abbrev pub inode_place : ℕ → Fs → ℕ
inode_place i_number s = s.first_inode_block * 4096 + 64 * i_number

-- `update_inode` puts the 64 bytes of an inode in its place behind the first inode block, and changes
-- no other byte of the disk, if the place is within the 2 ^ 28 sectors that the device addresses.
pub update_inode_lem :
    (inode : Inode) (s : Fs) (b : ℕ)
    → s.first_inode_block * 8 + i_number_of inode / 8 < 2 ^ 28
    → let place = inode_place (i_number_of inode) s in
      (update_inode inode s).disk b
      ≡ (if leb place b && ltb b (place + 64) then inode (b - place) else s.disk b)
unfolding update_inode
update_inode_lem inode s b lba =
    let sector = s.first_inode_block * 8 + i_number_of inode / 8 in
    let e : update_sector (i_number_of inode) s ≡ sector = omega arith in
    let loaded = read_sectors 1 sector s.sector_buffer s in
    let at = s.sector_buffer + (b - sector * 512) in
    rw e (
      ground (
        arith,
        write_sectors_lem 1 sector s.sector_buffer (store_inode inode loaded) b lba,
        store_inode_lem inode loaded at,
        store_inode_disk inode loaded b,
        read_sectors_rest 1 sector s.sector_buffer s b,
        read_sectors_rest 1 sector s.sector_buffer s (sector * 512 + (at - s.sector_buffer)),
        read_sectors_lem 1 sector s.sector_buffer s at lba,
      ))

-- In memory it uses the buffer of a sector only.
pub update_inode_memory :
    (inode : Inode) (s : Fs) (b : ℕ)
    → s.first_inode_block * 8 + i_number_of inode / 8 < 2 ^ 28
    → (b < s.sector_buffer) ⊎ (s.sector_buffer + 512 ≤ b)
    → (update_inode inode s).memory b ≡ s.memory b
unfolding update_inode
update_inode_memory inode s b lba out =
    let sector = s.first_inode_block * 8 + i_number_of inode / 8 in
    let e : update_sector (i_number_of inode) s ≡ sector = omega arith in
    let loaded = read_sectors 1 sector s.sector_buffer s in
    rw e (
      ground (
        arith,
        write_sectors_memory 1 sector s.sector_buffer (store_inode inode loaded) b,
        store_inode_lem inode loaded b,
        read_sectors_rest 1 sector s.sector_buffer s b,
        read_sectors_lem 1 sector s.sector_buffer s b lba,
      ))
