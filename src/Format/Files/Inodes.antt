-- ===== src/Format/Files/Inodes.antt =====
-- The inodes that the formatter writes, as the kernel reads them.
use ab_os.Base.{ℕ, ◌+◌, ◌-◌, ◌*◌, ◌/◌, ◌%◌, ◌<◌, ◌≡◌, ap, ◌∙◌, arith, u32_mod}
use ab_os.Fs.{Fs, Inode, inode_sector, inode_in, read_sectors}
use ab_os.Fs.Disk.{read_sectors_lem, read_sectors_rest}
use ab_os.Format.{Formatter, seek}
use ab_os.Format.Bitmaps.{fwrite_lem}
use ab_os.Format.Files.{write_inode}

-- The place that the formatter computes for an inode is the one that `get_inode_in_dir` computes: on
-- a disk with the image that `write_inode` leaves, and with the same first inode block, the inode that
-- the kernel takes from its sector has the 64 bytes written, if they end below 2 ^ 32. This is so for
-- each such number, those divisible by 8 included.
pub inode_in-write_inode :
    (i_number a : ℕ) (inode : Inode) (s : Formatter) (k : Fs)
    → a < 64
    → k.first_inode_block ≡ s.superblock.first_inode_block
    → i_number * 64 + k.first_inode_block * 4096 < u32_mod
    → ((b : ℕ) → k.disk b ≡ (write_inode i_number inode s).image b)
    → inode_in i_number (read_sectors 1 (inode_sector i_number k) k.sector_buffer k) a ≡ inode a
unfolding write_inode seek
inode_in-write_inode i_number a inode s k l first room same =
    let sector = inode_sector i_number k in
    let at = k.sector_buffer + 64 * (i_number % 8) + a in
    let place = (s.superblock.first_inode_block + i_number / 64) * 4096 + i_number % 64 * 64 in
    let e : sector ≡ k.first_inode_block * 8 + i_number / 8 = unfold inode_sector in omega arith in
    let f : sector * 512 + (at - k.sector_buffer) ≡ place + a = omega arith in
    let b = (read_sectors_rest 1 sector k.sector_buffer k 0).1 in
    let g : (read_sectors 1 sector k.sector_buffer k).sector_buffer + 64 * (i_number % 8) + a ≡ at =
      omega (arith, b) in
    let loaded = read_sectors 1 sector k.sector_buffer k in
    ap loaded.memory g
    ∙ grind (
      arith,
      read_sectors_lem 1 sector k.sector_buffer k at (omega arith),
      ap k.disk f,
      same (place + a),
      fwrite_lem inode 64 (record s { position = place }) (place + a),
    )
