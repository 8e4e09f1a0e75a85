-- ===== src/Syscalls.antt =====
-- kernel/interrupts/syscalls.c: the system calls on files, which the children of this file define, and
-- those on the heap. The registers are arguments, and the result is what EAX gets. The memory of `fs`
-- is what the code sees at its virtual addresses; that of `heap` holds the page structures and the
-- nodes of the heap, and is kept apart. The tables of open files and inodes are functions of an index:
-- a cell behind the last is one more cell. The debugging output and the TLB are left out.
pub mod Tests
pub mod Allocate
pub mod Close
pub mod Dispatch
pub mod Exit
pub mod Open
pub mod Read
pub mod Table
pub mod Write
use ab_os.Base.{
  ℕ, zero, suc, ◌+◌, ◌-◌, ◌*◌, ◌/◌, ◌%◌, ◌^◌, Bool, true, false, not, ◌&&◌, ◌||◌, Memory, update,
  ltb, leb, ◌==◌, if◌then◌else◌, u32_mod, bit_and, for_range, Option, none, some, ◌>>=◌,
}
use ab_os.Base.Words.{store32}
use ab_os.Pmm.{allocate_blocks, minus_one}
use ab_os.Str.{memset, memcpy}
use ab_os.Vmm.{Vmm, map_address, get_page, free_page, unmap_page, page_size}
use ab_os.Heap.{Heap, malloc_init}
use ab_os.Heap.Next.{malloc_next}
use ab_os.Heap.Merge.{merge_free_blocks}
use ab_os.Heap.Free.{malloc_free}
use ab_os.Fs.{
  Fs, Inode, no_inode, i_number_of, size_of, max_count_of, bytes_to_blocks, get_inode, load_file,
  save_file, update_inode,
}
use ab_os.Fs.Create.{create_file}

-- `open_file_t`.
pub record OpenFile : Type 0 where
  pub inode_index : ℕ
  pub lseek : ℕ
  pub address : ℕ
  pub max_count : ℕ
  pub flags : ℕ
  pub pages_allocated : ℕ

abbrev pub no_file : OpenFile
no_file = record {
  inode_index = 0;
  lseek = 0;
  address = 0;
  max_count = 0;
  flags = 0;
  pages_allocated = 0;
}

pub record Kernel : Type 0 where
  pub fs : Fs
  pub heap : Heap
  pub open_files : ℕ → OpenFile
  pub open_inodes : ℕ → Inode
  pub current_open_files : ℕ
  pub current_open_inodes : ℕ
  pub file_virtual_address : ℕ

-- `flags_t` of unistd.h: an enumeration, so the constants are no separate bits.
abbrev pub o_creat : ℕ
o_creat = 0

abbrev pub o_rdonly : ℕ
o_rdonly = 1

abbrev pub o_wronly : ℕ
o_wronly = 2

abbrev pub o_rdwr : ℕ
o_rdwr = 3

abbrev pub o_append : ℕ
o_append = 4

abbrev pub has_flag : ℕ → ℕ → Bool
has_flag flags flag = not (bit_and flags flag == 0)

-- A cell of a table replaced.
abbrev pub put {ℓ} : {A : Type ℓ} → (ℕ → A) → ℕ → A → ℕ → A
put table index x i = if i == index then x else table i

-- An `int32_t` that is below 0, by its bit pattern.
abbrev pub is_negative : ℕ → Bool
is_negative w = leb 0x8000_0000 w

-- The loops over the table of inodes.
pub inode_loop : ℕ → ℕ → (ℕ → Inode) → ℕ → ℕ
inode_loop zero index table i_number = index
inode_loop (suc rounds) index table i_number =
    let rest = inode_loop rounds (index + 1) table i_number in
    if i_number_of (table index) == i_number then index else rest

-- The index of the inode in its table, and the table with it.
pub enter_inode : Inode → Kernel → ℕ × Kernel
unfolding inode_loop
enter_inode inode k =
    let found = inode_loop 256 0 k.open_inodes (i_number_of inode) in
    let empty = inode_loop 256 0 k.open_inodes 0 in
    let counted =
      update (k.open_inodes found) 62 ((max_count_of (k.open_inodes found) + 1) % 256) in
    if i_number_of inode == i_number_of (k.open_inodes found)
    then (found, record k { open_inodes = put k.open_inodes found counted })
    else (
      empty,
      record k {
        open_inodes = put k.open_inodes empty inode;
        current_open_inodes = (k.current_open_inodes + 1) % u32_mod;
      },
    )

-- The loop over the table of files, whose bound is on the index of the inode.
pub file_loop : ℕ → ℕ → ℕ → (ℕ → OpenFile) → Option ℕ
file_loop zero index file_index table = none
file_loop (suc fuel) index file_index table =
    let rest = file_loop fuel index (file_index + 1) table in
    let file = table file_index in
    if ltb index 256 && not (file.address == 0) && not (file.max_count == 0)
    then rest
    else some file_index

-- The loops that give pages to a file; the result of `map_address` is not looked at.
pub map_file : ℕ → ℕ → ℕ → Kernel → Option Kernel
map_file fuel zero file k = some k
map_file fuel (suc rounds) file k =
    let h = k.heap in
    let v = h.vmm in
    let (phys_address, pmm') = allocate_blocks 1 v.pmm in
    let f = k.open_files file in
    map_address fuel v.directory phys_address k.file_virtual_address 7 (record v { pmm = pmm' })
    >>= λ t. map_file fuel rounds file (record k {
      heap = record h { vmm = t.1 };
      file_virtual_address = (k.file_virtual_address + page_size) % u32_mod;
      open_files =
          put k.open_files file (record f { pages_allocated = (f.pages_allocated + 1) % 256 });
    })

-- At least one block.
abbrev pub blocks_for : ℕ → ℕ
blocks_for size = if bytes_to_blocks size == 0 then 1 else bytes_to_blocks size
