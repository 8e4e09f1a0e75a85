-- ===== src/Syscalls/Write/Saved.antt =====
-- `sys_write` of a file whose pages have room: what it stores in memory and on the disk.
mod Tests
use ab_os.Base.{
  ℕ, ◌+◌, ◌-◌, ◌*◌, ◌/◌, ◌%◌, ◌^◌, ◌≤◌, ◌<◌, ◌≡◌, ◌⊎◌, refl, ap, sym, ◌∙◌, true, false, Bool-cases,
  inl, inr, ◌||◌, ltb, leb, ◌==◌, ==_refl, if◌then◌else◌, u32_mod, max, arith, some, Memory,
}
use ab_os.Base.Words.{store32, load32-store32}
use ab_os.Str.{memcpy}
use ab_os.Str.Copy.{memcpy_lem}
use ab_os.Vmm.{page_size}
use ab_os.Fs.{Fs, Inode, i_number_of, size_of, direct_pointer, update_inode, save_file}
use ab_os.Fs.Disk.{update_inode_memory}
use ab_os.Fs.Transfer.{block_count, HasBlocks, Saved, save_loop}
use ab_os.Syscalls.{Kernel, OpenFile, has_flag, o_wronly, o_rdwr, o_append}
use ab_os.Syscalls.Write.{store_bytes, sys_write, write_run}

-- The inode after a write that ends at an offset.
abbrev pub resized : Inode → ℕ → Inode
resized inode end = if ltb (size_of inode) end then store32 inode 5 end else inode

-- The file of a descriptor, and its inode.
abbrev pub inode_of : ℕ → Kernel → Inode
inode_of fd k = k.open_inodes (k.open_files fd).inode_index

-- A file that is open for `sys_write`, without O_APPEND, with pages for `length` bytes more; the
-- blocks of the file that it becomes; and memory in which the pages, the buffer and the buffer of a
-- sector are apart.
pub record IsWritable (offset fd buffer length : ℕ) (k : Kernel) : Type 0 where
  pub handle : fd < 0x8000_0000
  pub mode :
      (has_flag (k.open_files fd).flags o_wronly || has_flag (k.open_files fd).flags o_rdwr) ≡ true
  pub no_append : has_flag (k.open_files fd).flags o_append ≡ false
  pub room : (k.open_files fd).lseek + length ≤ (k.open_files fd).pages_allocated * page_size
  pub word : (k.open_files fd).lseek + length < u32_mod
  pub blocks : HasBlocks (resized (inode_of fd k) ((k.open_files fd).lseek + length))
  pub inside :
      (k.open_files fd).address
        + offset
        + 4096 * block_count (resized (inode_of fd k) ((k.open_files fd).lseek + length))
      ≤ u32_mod
  pub target : (k.open_files fd).address + 4 * (k.open_files fd).lseek + length < u32_mod
  pub near :
      k.fs.superblock.first_inode_block * 8
        + i_number_of (resized (inode_of fd k) ((k.open_files fd).lseek + length)) / 8
      < 2 ^ 28
  pub source_apart :
      ((k.open_files fd).address + 4 * (k.open_files fd).lseek ≤ buffer)
      ⊎ (buffer + length ≤ (k.open_files fd).address + 4 * (k.open_files fd).lseek)
  pub sector_apart :
      (k.fs.sector_buffer + 512 ≤ (k.open_files fd).address + 4 * (k.open_files fd).lseek)
      ⊎ ((k.open_files fd).address + 4 * (k.open_files fd).lseek + length ≤ k.fs.sector_buffer)

-- What the write leaves.
pub record Stored (offset fd buffer length : ℕ) (k k' : Kernel) : Type 0 where
  pub moved : (k'.open_files fd).lseek ≡ (k.open_files fd).lseek + length
  pub size_is :
      size_of (inode_of fd k') ≡ max (size_of (inode_of fd k)) ((k.open_files fd).lseek + length)
  pub copied :
      (j : ℕ)
      → j < length
      → k'.fs.memory ((k.open_files fd).address + 4 * (k.open_files fd).lseek + j)
        ≡ k.fs.memory (buffer + j)
  pub on_disk :
      (i j : ℕ)
      → i < block_count (inode_of fd k')
      → j < 4096
      → k'.fs.disk (direct_pointer (inode_of fd k') i * 4096 + j)
        ≡ k'.fs.memory ((k.open_files fd).address + offset + 4096 * i + j)

resized-size :
    (inode : Inode) (end : ℕ)
    → end < u32_mod
    → size_of (resized inode end) ≡ max (size_of inode) end
resized-size inode end small = elim (Bool-cases (ltb (size_of inode) end)) [
  | inl e ↦ rw e (load32-store32 inode 5 end small ∙ ground (arith, e))
  | inr e ↦ rw e (ground (arith, e))
]

module _ (offset fuel fd buffer length : ℕ) (k : Kernel)
    (h : IsWritable offset fd buffer length k) where
  abbrev file : OpenFile
  file = k.open_files fd

  abbrev end : ℕ
  end = file.lseek + length

  abbrev inode : Inode
  inode = resized (inode_of fd k) end

  abbrev filled : Fs
  filled =
      let s = k.fs in
      record s { memory = memcpy (file.address + 4 * file.lseek) buffer length s.memory }

  word_end : (file.lseek + length) % u32_mod ≡ end
  word_end = omega (arith, h.word)

  moved_to :
      (store_bytes offset fuel fd buffer length k).open_files fd ≡ record file { lseek = end }
  unfolding store_bytes
  moved_to = rw (==_refl fd, word_end) refl

  inode_after : inode_of fd (store_bytes offset fuel fd buffer length k) ≡ inode
  unfolding store_bytes
  inode_after = rw (==_refl fd, ==_refl file.inode_index, word_end) refl

  fs_after :
      (store_bytes offset fuel fd buffer length k).fs
      ≡ save_file offset inode file.address (update_inode inode filled)
  unfolding store_bytes
  fs_after =
      let at : (file.address + 4 * file.lseek) % u32_mod ≡ file.address + 4 * file.lseek =
        omega (arith, h.target) in
      rw (word_end, at) refl

  write_Stored : Stored offset fd buffer length k (store_bytes offset fuel fd buffer length k)
  write_Stored =
      let s = update_inode inode filled in
      let saved = save_loop offset file.address inode h.blocks h.inside s in
      let start = file.address + 4 * file.lseek in
      record {
        moved = ap (λ (f : OpenFile). f.lseek) moved_to;
        size_is =
            ap (λ (i : Inode). size_of i) inode_after ∙ resized-size (inode_of fd k) end h.word;
        copied = λ j l.
            ap (λ (t : Fs). t.memory (start + j)) fs_after
            ∙ ap (λ (m : Memory). m (start + j)) saved.memory_same
            ∙ update_inode_memory inode filled (start + j) h.near (omega (arith, h.sector_apart))
            ∙ ground (arith, memcpy_lem start buffer length k.fs.memory h.source_apart (start + j));
        on_disk =
            rw (inode_after, fs_after)
              (λ i j l l'.
                saved.written i j l l'
                ∙ ap (λ (m : Memory). m (file.address + offset + 4096 * i + j))
                    (sym saved.memory_same));
      }

-- `sys_write` to a descriptor that is not negative, whose file is open with O_WRONLY or O_RDWR and not
-- with O_APPEND, whose allocated pages have room for `length` bytes from its offset on (so that it does
-- not grow), where the new offset is below 2 ^ 32; the blocks of the inode that results are
-- at most seven different ones below block 2 ^ 25; the inode's sector is below 2 ^ 28; the bytes from
-- `address + 4 * lseek` on, where the code copies to since `address` points at words, end below 2 ^ 32
-- and do not start inside the buffer's bytes behind its start, nor overlap the buffer of a sector; and
-- what `save_file` reads, from `address` and the local `offset` that it does not initialise on, does not
-- go beyond 2 ^ 32. It returns `length`; the file's offset moves by as many; its size becomes the larger one
-- of the old size and the new offset; the bytes of the buffer are at `address + 4 * lseek`, which may be
-- outside the file's pages; and the blocks of the file on the disk hold what memory holds from
-- `address + offset` on, which are the pages only where that local happens to be 0.
pub sys_write-Stored :
    (offset fuel fd buffer length : ℕ) (k : Kernel)
    → IsWritable offset fd buffer length k
    → (k' : Kernel) × (sys_write offset fuel fd buffer length k ≡ some (length, k'))
      × Stored offset fd buffer length k k'
sys_write-Stored offset fuel fd buffer length k h = (
  store_bytes offset fuel fd buffer length k,
  write_run offset fuel fd buffer length k h.handle h.mode h.no_append h.room h.word,
  write_Stored offset fuel fd buffer length k h,
)
