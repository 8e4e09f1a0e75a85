-- ===== src/Syscalls/Write.antt =====
-- `sys_write`.
pub mod Saved
use ab_os.Base.{
  ℕ, ◌+◌, ◌-◌, ◌*◌, ◌%◌, ◌≤◌, ◌<◌, ◌≡◌, refl, true, false, ◌||◌, ltb, if◌then◌else◌, u32_mod, arith,
  some, not, Option, ◌>>=◌,
}
use ab_os.Pmm.{minus_one}
use ab_os.Fs.{size_of, save_file, update_inode}
use ab_os.Syscalls.{
  Kernel, has_flag, is_negative, o_wronly, o_rdwr, o_append, put, map_file, blocks_for,
}
use ab_os.Base.Words.{store32}
use ab_os.Str.{memset, memcpy}
use ab_os.Vmm.{page_size}

module _ (offset fuel : ℕ) where
  -- The `if` of `sys_write` that grows a file. `address` points at words, so an offset counts words.
  pub grow_file : ℕ → ℕ → Kernel → Option Kernel
  unfolding map_file
  grow_file file_descriptor length k =
      let f = k.open_files file_descriptor in
      let size = size_of (k.open_inodes f.inode_index) in
      let end = (f.lseek + length) % u32_mod in
      let bytes = (end + u32_mod - size) % u32_mod in
      if ltb (f.pages_allocated * page_size) end
      then (map_file fuel (blocks_for bytes) file_descriptor k >>= λ k'.
          let s = k'.fs in
          some (record k' {
            fs = record s { memory = memset ((f.address + 4 * size) % u32_mod) 0 bytes s.memory };
          }))
      else some k

  -- The copy into the file, the new size, and the two writes to the disk.
  pub store_bytes : ℕ → ℕ → ℕ → Kernel → Kernel
  store_bytes file_descriptor buffer length k =
      let f = k.open_files file_descriptor in
      let s = k.fs in
      let inode = k.open_inodes f.inode_index in
      let lseek = (f.lseek + length) % u32_mod in
      let inode' = if ltb (size_of inode) lseek then store32 inode 5 lseek else inode in
      let copied = memcpy ((f.address + 4 * f.lseek) % u32_mod) buffer length s.memory in
      record k {
        open_files = put k.open_files file_descriptor (record f { lseek = lseek });
        open_inodes = put k.open_inodes f.inode_index inode';
        fs = save_file offset inode' f.address (update_inode inode' (record s { memory = copied }));
      }

  pub sys_write : ℕ → ℕ → ℕ → Kernel → Option (ℕ × Kernel)
  unfolding grow_file store_bytes
  sys_write file_descriptor buffer length k =
      let f = k.open_files file_descriptor in
      let size = size_of (k.open_inodes f.inode_index) in
      let at_end =
        (if has_flag f.flags o_append
          then record k {
            open_files = put k.open_files file_descriptor (record f { lseek = size });
          }
          else k) in
      if is_negative file_descriptor
      then some (file_descriptor, k)
      else if not (has_flag f.flags o_wronly || has_flag f.flags o_rdwr)
      then some (minus_one, k)
      else (grow_file file_descriptor length at_end >>= λ k'.
          some (length, store_bytes file_descriptor buffer length k'))

-- A write that needs no more pages.
pub write_run :
    (offset fuel fd buffer length : ℕ) (k : Kernel)
    → fd < 0x8000_0000
    → (has_flag (k.open_files fd).flags o_wronly || has_flag (k.open_files fd).flags o_rdwr) ≡ true
    → has_flag (k.open_files fd).flags o_append ≡ false
    → (k.open_files fd).lseek + length ≤ (k.open_files fd).pages_allocated * page_size
    → (k.open_files fd).lseek + length < u32_mod
    → sys_write offset fuel fd buffer length k
      ≡ some (length, store_bytes offset fuel fd buffer length k)
unfolding sys_write grow_file
write_run offset fuel fd buffer length k l mode plain room word =
    let f = k.open_files fd in
    let e : is_negative fd ≡ false = ground (arith, l) in
    let g : ltb (f.pages_allocated * page_size) ((f.lseek + length) % u32_mod) ≡ false =
      ground (arith, room, word) in
    rw (e, mode, plain, g) refl

pub write_refused :
    (offset fuel fd buffer length : ℕ) (k : Kernel)
    → fd < 0x8000_0000
    → (has_flag (k.open_files fd).flags o_wronly || has_flag (k.open_files fd).flags o_rdwr) ≡ false
    → sys_write offset fuel fd buffer length k ≡ some (minus_one, k)
unfolding sys_write
write_refused offset fuel fd buffer length k l mode =
    let e : is_negative fd ≡ false = ground (arith, l) in rw (e, mode) refl
