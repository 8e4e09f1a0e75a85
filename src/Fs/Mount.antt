-- ===== src/Fs/Mount.antt =====
-- The mount in `main` of kernel/kernel.c: the superblock in memory, and the inode of the root.
use ab_os.Base.{
  ℕ, zero, suc, ◌+◌, ◌*◌, ◌%◌, ◌<◌, ◌≡◌, refl, ◌∙◌, Memory, u32_mod, arith, List, [], ◌∷◌,
}
use ab_os.Base.Words.{load32, store32, load32-store32, load32_cong, store32_ne}
use ab_os.Fs.{Fs, Superblock, Inode, read_sectors}
use ab_os.Fs.Layout.{superblock_words, store_words}

pub load_superblock : ℕ → Memory → Superblock
load_superblock a m = record {
  num_inodes = load32 m (a + 4 * 0);
  num_inodes_bitmap = load32 m (a + 4 * 1);
  num_data_bitmap = load32 m (a + 4 * 2);
  num_inodes_per_block = load32 m (a + 4 * 3);
  num_inodes_per_sector = load32 m (a + 4 * 4);
  num_inode_blocks = load32 m (a + 4 * 5);
  first_inode_bitmap = load32 m (a + 4 * 6);
  first_inode_bitmap_block = load32 m (a + 4 * 7);
  first_data_bitmap_block = load32 m (a + 4 * 8);
  first_data_bitmap = load32 m (a + 4 * 9);
  first_inode_block = load32 m (a + 4 * 10);
  first_data_block = load32 m (a + 4 * 11);
  inode_size = load32 m (a + 4 * 12);
  num_datablocks = load32 m (a + 4 * 13);
  max_file_size = load32 m (a + 4 * 14);
  root_i_number = load32 m (a + 4 * 15);
  first_free_inode_bit = load32 m (a + 4 * 16);
  first_free_data_bit = load32 m (a + 4 * 17);
  device_number = load32 m (a + 4 * 18);
}

-- `root` is the address that `root_i_number` is given.
pub mount : ℕ → Fs → Fs
unfolding load_superblock
mount root s =
    let sb = load_superblock 0x8C00 s.memory in
    let loaded =
      read_sectors 1 (sb.first_inode_block * 8 % u32_mod) s.sector_buffer
        (record s { superblock = sb }) in
    let inode : Inode = λ a. loaded.memory (loaded.sector_buffer + 64 + a) in
    record loaded {
      superblock = record sb { root_i_number = root };
      root_inode = inode;
      current_dir_inode = inode;
    }

-- Words of 32 bits.
abbrev pub AllWords : List ℕ → Type 0
AllWords [] = zero ≡ zero
AllWords (w ∷ ws) = (w < u32_mod) × AllWords ws

count : List ℕ → ℕ
count [] = 0
count (w ∷ ws) = suc (count ws)

word_at : List ℕ → ℕ → ℕ
word_at [] i = 0
word_at (w ∷ ws) zero = w
word_at (w ∷ ws) (suc i) = word_at ws i

store_words_ne : (a : ℕ) (ws : List ℕ) (m : Memory) (b : ℕ) → b < a → store_words a ws m b ≡ m b
unfolding store_words
store_words_ne a [] m b l = refl
store_words_ne a (w ∷ ws) m b l =
    store_words_ne (a + 4) ws (store32 m a w) b (omega arith) ∙ store32_ne m a w b (omega arith)

load32-store_words :
    (a : ℕ) (ws : List ℕ) (m : Memory) (i : ℕ)
    → AllWords ws
    → i < count ws
    → load32 (store_words a ws m) (a + 4 * i) ≡ word_at ws i
unfolding store_words word_at count
load32-store_words a [] m i h l = absurd (omega arith)
load32-store_words a (w ∷ ws) m zero h l =
    let e : a + 4 * zero ≡ a = omega arith in
    rw e (
      load32_cong (store_words (a + 4) ws (store32 m a w)) (store32 m a w) a
        (λ b k k'. store_words_ne (a + 4) ws (store32 m a w) b k')
      ∙ load32-store32 m a w h.0)
load32-store_words a (w ∷ ws) m (suc i) h l =
    let e : a + 4 * suc i ≡ a + 4 + 4 * i = omega arith in
    rw e (load32-store_words (a + 4) ws (store32 m a w) i h.1 (omega arith))

-- A superblock whose fields are words.
abbrev pub IsWords : Superblock → Type 0
IsWords sb = AllWords (superblock_words sb)

-- What `update_superblock` puts in memory is what the mount reads back: the structure of 19 words is
-- stored and loaded in the same order.
pub load_superblock-store_words :
    (a : ℕ) (sb : Superblock) (m : Memory)
    → IsWords sb
    → load_superblock a (store_words a (superblock_words sb) m) ≡ sb
unfolding load_superblock superblock_words word_at count
load_superblock-store_words a sb m h =
    let w = λ (i : ℕ) (l : i < 19). load32-store_words a (superblock_words sb) m i h l in
    λ j. record {
      num_inodes = w 0 (omega arith) j;
      num_inodes_bitmap = w 1 (omega arith) j;
      num_data_bitmap = w 2 (omega arith) j;
      num_inodes_per_block = w 3 (omega arith) j;
      num_inodes_per_sector = w 4 (omega arith) j;
      num_inode_blocks = w 5 (omega arith) j;
      first_inode_bitmap = w 6 (omega arith) j;
      first_inode_bitmap_block = w 7 (omega arith) j;
      first_data_bitmap_block = w 8 (omega arith) j;
      first_data_bitmap = w 9 (omega arith) j;
      first_inode_block = w 10 (omega arith) j;
      first_data_block = w 11 (omega arith) j;
      inode_size = w 12 (omega arith) j;
      num_datablocks = w 13 (omega arith) j;
      max_file_size = w 14 (omega arith) j;
      root_i_number = w 15 (omega arith) j;
      first_free_inode_bit = w 16 (omega arith) j;
      first_free_data_bit = w 17 (omega arith) j;
      device_number = w 18 (omega arith) j;
    }
