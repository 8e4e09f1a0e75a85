-- ===== src/Fs/Create/Bits.antt =====
-- The bits that `create_file` takes, on a disk whose superblock gives 0 for `first_inode_bitmap` and
-- for `first_data_bitmap`: the formatter and the mount leave both fields so.
use mathlib.Core.Path.{subst}
use ab_os.Base.{ℕ, ◌+◌, ◌*◌, ◌^◌, ◌≤◌, ◌<◌, ◌≡◌, refl, sym, ap, ◌∙◌, true, Memory, arith}
use ab_os.Fs.{Fs, Superblock}
use ab_os.Fs.Bitmap.{find_free_bit}
use ab_os.Fs.Bitmap.Same.{find_free_bit_cong, find_free_bit_rest}
use ab_os.Fs.Marks.{
  set_bitmap, set_inode_bitmap, set_data_bitmap, set_bitmap_rest, set_bitmap_superblock,
}
use ab_os.Fs.Create.{search_inode, search_data, next_block, new_file}

-- The superblock of a formatted file system: `inodes` and `blocks` are the sizes of the bitmaps, and
-- `first` is the first data block.
pub record IsFormatted (inodes blocks first : ℕ) (sb : Superblock) : Type 0 where
  pub marks_inode : sb.first_inode_bitmap ≡ 0
  pub marks_data : sb.first_data_bitmap ≡ 0
  pub inode_map : sb.first_inode_bitmap_block ≡ 2
  pub inode_blocks : sb.num_inodes_bitmap ≡ inodes
  pub data_map : sb.first_data_bitmap_block ≡ 2 + inodes
  pub data_blocks : sb.num_data_bitmap ≡ blocks
  pub first_block : sb.first_data_block ≡ first
  pub inode_bit : sb.first_free_inode_bit < 32768
  pub data_bit : sb.first_free_data_bit < 32768

-- With the bitmaps of the disk `d`.
pub record Mounted (d : Memory) (inodes blocks first : ℕ) (s : Fs) : Type 0 where
  pub formatted : IsFormatted inodes blocks first s.superblock
  pub rest : (b : ℕ) → 8192 ≤ b → b < (2 + inodes + blocks) * 4096 → s.disk b ≡ d b

with_inode_bit :
    (inodes blocks first : ℕ) (sb : Superblock) {bit : ℕ}
    → bit < 32768
    → IsFormatted inodes blocks first sb
    → IsFormatted inodes blocks first (record sb { first_free_inode_bit = bit })
with_inode_bit inodes blocks first sb l h = record {
  marks_inode = h.marks_inode;
  marks_data = h.marks_data;
  inode_map = h.inode_map;
  inode_blocks = h.inode_blocks;
  data_map = h.data_map;
  data_blocks = h.data_blocks;
  first_block = h.first_block;
  inode_bit = l;
  data_bit = h.data_bit;
}

with_data_bit :
    (inodes blocks first : ℕ) (sb : Superblock) {bit : ℕ}
    → bit < 32768
    → IsFormatted inodes blocks first sb
    → IsFormatted inodes blocks first (record sb { first_free_data_bit = bit })
with_data_bit inodes blocks first sb l h = record {
  marks_inode = h.marks_inode;
  marks_data = h.marks_data;
  inode_map = h.inode_map;
  inode_blocks = h.inode_blocks;
  data_map = h.data_map;
  data_blocks = h.data_blocks;
  first_block = h.first_block;
  inode_bit = h.inode_bit;
  data_bit = l;
}

find_at :
    (a a' n n' : ℕ) (s : Fs) → a ≡ a' → n ≡ n' → (find_free_bit a n s).0 ≡ (find_free_bit a' n' s).0
find_at a a' n n' s e f = rw (e, f) refl

module _ (d : Memory) (inodes blocks first : ℕ) (small : (2 + inodes + blocks) * 8 < 2 ^ 28)
    (low : first < 32768) (shift : ℕ → ℕ) where
  -- A mark in the first two blocks.
  mark-Mounted :
      (block bit : ℕ) (s : Fs)
      → block ≡ 0
      → bit < 65536
      → Mounted d inodes blocks first s
      → Mounted d inodes blocks first (set_bitmap shift block bit true s)
  mark-Mounted block bit s e l h = record {
    formatted =
        subst (IsFormatted inodes blocks first) (sym (set_bitmap_superblock shift block bit true s))
          h.formatted;
    rest = λ b far near.
        set_bitmap_rest shift block bit b true s (omega arith) (omega arith) ∙ h.rest b far near;
  }

  search_inode-Mounted :
      (s : Fs) → Mounted d inodes blocks first s → Mounted d inodes blocks first (search_inode s)
  unfolding search_inode
  search_inode-Mounted s h =
      let r = find_free_bit_rest s.first_inode_bitmap_block s.num_inodes_bitmap s in
      let f = subst (IsFormatted inodes blocks first) (sym r.1) h.formatted in
      record {
        formatted =
            with_inode_bit inodes blocks first
              (find_free_bit s.first_inode_bitmap_block s.num_inodes_bitmap s).1.superblock r.2 f;
        rest = λ b far near. ap (λ (t : Memory). t b) r.0 ∙ h.rest b far near;
      }

  search_data-Mounted :
      (s : Fs) → Mounted d inodes blocks first s → Mounted d inodes blocks first (search_data s)
  unfolding search_data
  search_data-Mounted s h =
      let r = find_free_bit_rest s.first_data_bitmap_block s.num_data_bitmap s in
      let f = subst (IsFormatted inodes blocks first) (sym r.1) h.formatted in
      record {
        formatted =
            with_data_bit inodes blocks first
              (find_free_bit s.first_data_bitmap_block s.num_data_bitmap s).1.superblock r.2 f;
        rest = λ b far near. ap (λ (t : Memory). t b) r.0 ∙ h.rest b far near;
      }

  -- The two marks, wherever the superblock sends them.
  set_inode-Mounted :
      (s : Fs)
      → Mounted d inodes blocks first s
      → Mounted d inodes blocks first (set_inode_bitmap shift s.first_free_inode_bit true s)
  unfolding set_inode_bitmap
  set_inode-Mounted s h =
      mark-Mounted s.first_inode_bitmap s.first_free_inode_bit s h.formatted.marks_inode
        (omega (arith, h.formatted.inode_bit)) h

  set_data-Mounted :
      (s : Fs)
      → Mounted d inodes blocks first s
      → Mounted d inodes blocks first (set_data_bitmap shift (next_block s) true s)
  unfolding set_data_bitmap
  set_data-Mounted s h =
      mark-Mounted s.first_data_bitmap (next_block s) s h.formatted.marks_data
        (omega (arith, h.formatted.data_bit, h.formatted.first_block)) h

  new_file-Mounted :
      (s : Fs)
      → Mounted d inodes blocks first s
      → Mounted d inodes blocks first (new_file shift s).1
  unfolding new_file
  new_file-Mounted s h =
      let marked = set_inode_bitmap shift s.first_free_inode_bit true s in
      let s1 = search_inode marked in
      search_data-Mounted (set_data_bitmap shift (next_block s1) true s1)
        (set_data-Mounted s1 (search_inode-Mounted marked (set_inode-Mounted s h)))

  -- All such states give the same bits to a search.
  search_inode_same :
      (s t : Fs)
      → Mounted d inodes blocks first s
      → Mounted d inodes blocks first t
      → (search_inode s).first_free_inode_bit ≡ (search_inode t).first_free_inode_bit
  unfolding search_inode
  search_inode_same s t h g =
      find_at s.first_inode_bitmap_block 2 s.num_inodes_bitmap inodes s h.formatted.inode_map
        h.formatted.inode_blocks
      ∙ find_free_bit_cong 2 inodes s t (omega arith) (λ b l l'.
        h.rest b (omega arith) (omega arith) ∙ sym (g.rest b (omega arith) (omega arith)))
      ∙ sym (
          find_at t.first_inode_bitmap_block 2 t.num_inodes_bitmap inodes t g.formatted.inode_map
            g.formatted.inode_blocks)

  search_data_same :
      (s t : Fs)
      → Mounted d inodes blocks first s
      → Mounted d inodes blocks first t
      → (search_data s).first_free_data_bit ≡ (search_data t).first_free_data_bit
  unfolding search_data
  search_data_same s t h g =
      find_at s.first_data_bitmap_block (2 + inodes) s.num_data_bitmap blocks s h.formatted.data_map
        h.formatted.data_blocks
      ∙ find_free_bit_cong (2 + inodes) blocks s t (omega arith) (λ b l l'.
        h.rest b (omega arith) (omega arith) ∙ sym (g.rest b (omega arith) (omega arith)))
      ∙ sym (
          find_at t.first_data_bitmap_block (2 + inodes) t.num_data_bitmap blocks t
            g.formatted.data_map g.formatted.data_blocks)

  -- The bit of the next inode is that of the first search.
  new_file_inode :
      (s : Fs)
      → (new_file shift s).1.first_free_inode_bit
        ≡ (search_inode (set_inode_bitmap shift s.first_free_inode_bit true s)).first_free_inode_bit
  unfolding new_file search_data set_data_bitmap
  new_file_inode s =
      let s1 = search_inode (set_inode_bitmap shift s.first_free_inode_bit true s) in
      let s2 = set_bitmap shift s1.first_data_bitmap (next_block s1) true s1 in
      let r = find_free_bit_rest s2.first_data_bitmap_block s2.num_data_bitmap s2 in
      ap (λ (sb : Superblock). sb.first_free_inode_bit)
        (r.1 ∙ set_bitmap_superblock shift s1.first_data_bitmap (next_block s1) true s1)

  -- Where the superblock gives 0 for `first_inode_bitmap` and `first_data_bitmap`, the bitmaps from
  -- block 2 on, within 2 ^ 28 sectors, and a first data block and next bits below 32768: for two
  -- such states with the same bitmaps on the disk, whatever else is different on the disk and in
  -- memory, and whatever bits they have found before: `new_file`, which is the part of
  -- `create_file` that takes the bits, leaves the same number for the next inode and the same block
  -- for the next file; and it leaves the bitmaps as they were, since its marks land in the first
  -- two blocks, which no search reads.
  pub new_file_again :
      (s t : Fs)
      → Mounted d inodes blocks first s
      → Mounted d inodes blocks first t
      → let s' = (new_file shift s).1 in
        let t' = (new_file shift t).1 in
        (s'.first_free_inode_bit ≡ t'.first_free_inode_bit)
        × (s'.first_free_data_bit ≡ t'.first_free_data_bit)
        × Mounted d inodes blocks first s'
  new_file_again s t h g =
      let m = set_inode-Mounted s h in
      let n = set_inode-Mounted t g in
      let a = set_inode_bitmap shift s.first_free_inode_bit true s in
      let b = set_inode_bitmap shift t.first_free_inode_bit true t in
      let s1 = search_inode a in
      let t1 = search_inode b in
      (
        new_file_inode s ∙ search_inode_same a b m n ∙ sym (new_file_inode t),
        unfold new_file in
            search_data_same (set_data_bitmap shift (next_block s1) true s1)
              (set_data_bitmap shift (next_block t1) true t1)
              (set_data-Mounted s1 (search_inode-Mounted a m))
              (set_data-Mounted t1 (search_inode-Mounted b n)),
        new_file-Mounted s h,
      )
