-- ===== src/Fs/Create/Tests.antt =====
-- Marks, entries and new files on a small disk.
use ab_os.Base.{
  ℕ, ◌+◌, ◌*◌, ◌/◌, ◌^◌, ◌≤◌, ◌<◌, ◌≡◌, ◌⊎◌, inr, refl, ap, ◌∙◌, zero, suc, update, ltb, true, ◌==◌,
  if◌then◌else◌, Memory, arith,
}
use ab_os.Base.Words.{load32}
use ab_os.Fs.{Fs, Inode, direct_pointer, bytes_to_blocks, bytes_to_blocks-ceiling}
use ab_os.Fs.Tests.{mounted}
use ab_os.Fs.Marks.{set_bitmap, disk_bit, set_bitmap_lem}
use ab_os.Fs.Create.{new_file, link_loop}
use ab_os.Fs.Create.Enter.Block.{slot_free}
use ab_os.Fs.Create.Enter.{Entered, entered, full, link_loop-Entered}
use ab_os.Fs.Create.Bits.{IsFormatted, Mounted, new_file_again}

abbrev shift : ℕ → ℕ
shift k = 2 ^ k

abbrev ones : Memory
ones a = 1

set_bitmap_lem_example :
    ((q : ℕ)
      → disk_bit (set_bitmap shift 2 5 true mounted).disk 2 q
        ≡ (if 5 == q then true else disk_bit ones 2 q))
    × ((b : ℕ)
        → (b < 2 * 4096 + 8 * (5 / 64)) ⊎ (2 * 4096 + 8 * (5 / 64) + 8 ≤ b)
        → (set_bitmap shift 2 5 true mounted).disk b ≡ 1)
set_bitmap_lem_example =
    set_bitmap_lem shift (λ k l. refl) 2 5 true mounted (omega arith) (omega arith)

-- A directory with one block, block 40, of an empty disk.
abbrev parent : Inode
parent = update (λ a. 0) 33 40

abbrev empty_disk : Fs
empty_disk = let s = mounted in record s { disk = λ a. 0 }

parent-pointer : direct_pointer parent 0 ≡ 40
unfolding load32
parent-pointer = refl

parent-near : (i : ℕ) → i < 1 → direct_pointer parent i < 2 ^ 25
parent-near i l =
    let e : i ≡ 0 = omega arith in
    let f : direct_pointer parent i ≡ 40 = ap (direct_pointer parent) e ∙ parent-pointer in
    omega (arith, f)

link_loop-Entered_example :
    Entered (λ a. 0) (λ a. 2) parent 0 1 (link_loop 1 0 0x9000 parent empty_disk).disk
link_loop-Entered_example =
    link_loop-Entered 1 0x9000 parent empty_disk parent-near (inr (omega arith))

first_free : slot_free (λ a. 0) (direct_pointer parent 0) 0 ≡ true
unfolding load32
first_free = refl

-- So the entry is in the first slot on the disk.
entered_first : (link_loop 1 0 0x9000 parent empty_disk).disk (40 * 4096) ≡ 2
entered_first = elim link_loop-Entered_example [
  | entered zero zero l l' b free blocks before put ↦
      put (40 * 4096) ∙ ground (arith, parent-pointer)
  | entered zero (suc j) l l' b free blocks before put ↦
      let e = before 0 (omega arith) in cc (e, first_free)
  | entered (suc i) j l l' b free blocks before put ↦ absurd (omega (arith, l'))
  | full blocks same ↦
      let e = blocks 0 (omega arith) (omega arith) 0 (omega arith) in cc (e, first_free)
]

mounted-IsFormatted : IsFormatted 1 1 4 mounted.superblock
mounted-IsFormatted = record {
  marks_inode = refl;
  marks_data = refl;
  inode_map = refl;
  inode_blocks = refl;
  data_map = refl;
  data_blocks = refl;
  first_block = refl;
  inode_bit = omega arith;
  data_bit = omega arith;
}

-- The same bitmaps on a disk with other first blocks, and other bits found before.
abbrev other : Fs
other =
    let s = mounted in
    let sb = s.superblock in
    record s {
      disk = λ a. if ltb a 8192 then 7 else 1;
      superblock = record sb { first_free_inode_bit = 9 };
    }

other-IsFormatted : IsFormatted 1 1 4 other.superblock
other-IsFormatted = record {
  marks_inode = refl;
  marks_data = refl;
  inode_map = refl;
  inode_blocks = refl;
  data_map = refl;
  data_blocks = refl;
  first_block = refl;
  inode_bit = omega arith;
  data_bit = omega arith;
}

new_file_again_example :
    let s' = (new_file shift mounted).1 in
    let t' = (new_file shift other).1 in
    (s'.first_free_inode_bit ≡ t'.first_free_inode_bit)
    × (s'.first_free_data_bit ≡ t'.first_free_data_bit)
    × Mounted ones 1 1 4 s'
new_file_again_example =
    new_file_again ones 1 1 4 (omega arith) (omega arith) shift mounted other
      (record { formatted = mounted-IsFormatted; rest = λ b far near. refl })
      (record { formatted = other-IsFormatted; rest = λ b far near. ground (arith, far) })

bytes_to_blocks-ceiling_example :
    (bytes_to_blocks 5000 ≡ (5000 + 4095) / 4096)
    × (5000 ≤ 4096 * bytes_to_blocks 5000)
    × (4096 * bytes_to_blocks 5000 < 5000 + 4096)
bytes_to_blocks-ceiling_example = bytes_to_blocks-ceiling 5000
