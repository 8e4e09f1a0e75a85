-- ===== src/Syscalls/Open.antt =====
-- `sys_open`, and that it does not create.
use ab_os.Base.{
  ℕ, arith, true, ◌≡◌, refl, false, ◌==◌, some, ◌+◌, ◌%◌, ◌&&◌, if◌then◌else◌, u32_mod, Option,
  ◌>>=◌,
}
use ab_os.Base.Bits.{bit_and-zero}
use ab_os.Pmm.{minus_one}
use ab_os.Fs.{Fs, Inode, i_number_of, get_inode, size_of, load_file}
use ab_os.Syscalls.{
  Kernel, has_flag, o_creat, no_file, put, enter_inode, file_loop, map_file, blocks_for,
}
use ab_os.Fs.Create.{create_file}

-- `shift` is as in Fs.Marks, `offset` as in `load_file`, and `temp` and `entry` as in `create_file`.
module _ (shift : ℕ → ℕ) (offset temp entry fuel : ℕ) where
  -- The inode of a path, or of a new file if the flag says so. `none` inside is the failure.
  pub find_inode : ℕ → ℕ → Fs → Option (Inode × Fs)
  find_inode path flags s = do
    (inode, s') ← get_inode fuel path s
    if i_number_of inode == 0 && has_flag flags o_creat
        then create_file shift fuel temp entry path s'
        else some (inode, s')

  -- `sys_open` from the table of inodes on. `temp` of the source points at the inode's cell, and is
  -- indexed once more.
  pub open_inode : Inode → ℕ → Kernel → Option (ℕ × Kernel)
  unfolding enter_inode file_loop map_file
  open_inode inode flags k = do
    let (index, k1) = enter_inode inode k
    file ← file_loop fuel index 0 k1.open_files
    let opened = record no_file {
      inode_index = index % 256;
      max_count = 1;
      flags = flags;
      address = k1.file_virtual_address;
    }
    let loaded = k1.open_inodes (index + index % 256)
    k2 ← map_file fuel (blocks_for (size_of loaded)) file (record k1 {
      open_files = put k1.open_files file opened;
      current_open_files = (k1.current_open_files + 1) % u32_mod;
    })
    some (
      index,
      record k2 {
        fs = load_file offset (k2.open_inodes (index + index % 256)) opened.address k2.fs;
      },
    )

  pub sys_open : ℕ → ℕ → Kernel → Option (ℕ × Kernel)
  unfolding find_inode open_inode
  sys_open path flags k = do
    (inode, fs') ← find_inode path flags k.fs
    if i_number_of inode == 0
        then some (minus_one, record k { fs = fs' })
        else open_inode inode flags (record k { fs = fs' })

-- A path that `get_inode` does not find is never created, whatever the flags: `sys_open` fails with
-- -1, and leaves all but what the lookup changed, since O_CREAT is 0 and `flags & O_CREAT` too.
pub sys_open_missing :
    (shift : ℕ → ℕ) (offset temp entry fuel path flags : ℕ) (k : Kernel) (inode : Inode) (s : Fs)
    → get_inode fuel path k.fs ≡ some (inode, s)
    → i_number_of inode ≡ 0
    → sys_open shift offset temp entry fuel path flags k ≡ some (minus_one, record k { fs = s })
unfolding sys_open find_inode
sys_open_missing shift offset temp entry fuel path flags k inode s found missing =
    let e : has_flag flags o_creat ≡ false = rw (bit_and-zero flags) refl in
    let z : (i_number_of inode == 0) ≡ true = ground (arith, missing) in
    rw (found, e, z) (rw z refl)
