-- ===== src/Fs/Marks.antt =====
-- `set_inode_bitmap` and `set_data_bitmap`: one bit of a bitmap on the disk. `shift k` is what the
-- `int` expression `1 << k` gives as a 64-bit value: 2 ^ k below 31, and not defined by C above.
use native.Mathlib.Decide.{ℕ_discrete}
use ab_os.Base.{
  ℕ, ◌+◌, ◌-◌, ◌*◌, ◌/◌, ◌%◌, ◌^◌, ◌≤◌, ◌<◌, ◌≡◌, ◌⊎◌, refl, sym, ap, ◌∙◌, Bool, true, false, ◌&&◌,
  Memory, bit_and, bit_or, ltb, leb, ◌==◌, if◌then◌else◌, arith, u32_mod,
}
use ab_os.Base.Bits.{test_bit, complement, test_bit-set, test_bit-clear, bit_or-lt, pow-lt}
use ab_os.Base.Bits.Masks.{bit_and-lt}
use ab_os.Base.Words.{
  load64, store64, load64-lt, load64-store64, load64_cong, load64_shift, store64_ne,
}
use ab_os.Fs.{Fs, read_sectors, write_sectors}
use ab_os.Fs.Disk.{read_sectors_lem, write_sectors_lem, read_sectors_rest}

module _ (shift : ℕ → ℕ) where
  -- The read-modify-write of one chunk of 64 bits in memory.
  pub mark_chunk : ℕ → ℕ → Bool → Memory → Memory
  mark_chunk buffer index set m =
      let chunk = buffer + 8 * (index / 64) in
      store64 m chunk (
        if set
        then bit_or (load64 m chunk) (shift (index % 64))
        else bit_and (load64 m chunk) (complement 64 (shift (index % 64))))

  -- Both functions, for the first block that they take from the superblock.
  pub set_bitmap : ℕ → ℕ → Bool → Fs → Fs
  set_bitmap first bit set s =
      let sector = (first + bit / 32768) * 8 % u32_mod in
      let loaded = read_sectors 8 sector s.block_buffer s in
      write_sectors 8 sector s.block_buffer
        (record loaded { memory = mark_chunk s.block_buffer (bit % 32768) set loaded.memory })

  unfoldable pub set_inode_bitmap : ℕ → Bool → Fs → Fs
  set_inode_bitmap bit set s = set_bitmap s.first_inode_bitmap bit set s

  unfoldable pub set_data_bitmap : ℕ → Bool → Fs → Fs
  set_data_bitmap bit set s = set_bitmap s.first_data_bitmap bit set s

-- Bit `q` of the bitmap that starts at a block of the disk.
abbrev pub disk_bit : Memory → ℕ → ℕ → Bool
disk_bit d first q = test_bit (load64 d (first * 4096 + 8 * (q / 64))) (q % 64)

-- What becomes of a word whose bit `k` is marked.
marked : ℕ → Bool → ℕ → ℕ
marked k set w = if set then bit_or w (2 ^ k) else bit_and w (complement 64 (2 ^ k))

test_bit-marked :
    (k i w : ℕ) (set : Bool)
    → k < 64
    → i < 64
    → test_bit (marked k set w) i ≡ (if k == i then set else test_bit w i)
unfolding marked
test_bit-marked k i w true hk hi = test_bit-set w k i ∙ ground arith
test_bit-marked k i w false hk hi = test_bit-clear 64 w k i hk hi ∙ ground arith

marked-lt :
    (k w : ℕ) (set : Bool) → k < 64 → w < u32_mod * u32_mod → marked k set w < u32_mod * u32_mod
unfolding marked
marked-lt k w true hk hw = bit_or-lt 64 w (2 ^ k) hw (pow-lt 64 k hk)
marked-lt k w false hk hw = bit_and-lt 64 w (complement 64 (2 ^ k)) hw

module _ (shift : ℕ → ℕ) where
  mark_chunk_ne :
      (buffer index : ℕ) (set : Bool) (m : Memory) (b : ℕ)
      → (b < buffer + 8 * (index / 64)) ⊎ (buffer + 8 * (index / 64) + 8 ≤ b)
      → mark_chunk shift buffer index set m b ≡ m b
  unfolding mark_chunk
  mark_chunk_ne buffer index set m b =
      store64_ne m (buffer + 8 * (index / 64))
        (if set
          then bit_or (load64 m (buffer + 8 * (index / 64))) (shift (index % 64))
          else bit_and (load64 m (buffer + 8 * (index / 64))) (complement 64 (shift (index % 64))))
        b

  -- The disk after a mark, byte by byte.
  set_bitmap_disk :
      (first bit b : ℕ) (set : Bool) (s : Fs)
      → (first + bit / 32768) * 8 < 2 ^ 28
      → let sector = (first + bit / 32768) * 8 in
        let loaded = read_sectors 8 sector s.block_buffer s in
        (set_bitmap shift first bit set s).disk b ≡ (
          if leb (sector * 512) b && ltb b (sector * 512 + 4096)
          then mark_chunk shift s.block_buffer
              (bit % 32768)
              set
              loaded.memory
              (s.block_buffer + (b - sector * 512))
          else s.disk b)
  unfolding set_bitmap
  set_bitmap_disk first bit b set s lba =
      let sector = (first + bit / 32768) * 8 in
      let e : sector % u32_mod ≡ sector = omega arith in
      let loaded = read_sectors 8 sector s.block_buffer s in
      let m = mark_chunk shift s.block_buffer (bit % 32768) set loaded.memory in
      rw e (
        write_sectors_lem 8 sector s.block_buffer (record loaded { memory = m }) b lba
        ∙ ap
            (λ (d : ℕ).
              if leb (sector * 512) b && ltb b (sector * 512 + 4096)
              then m (s.block_buffer + (b - sector * 512))
              else d)
            (read_sectors_rest 8 sector s.block_buffer s b).0)

  pub set_bitmap_rest :
      (first bit b : ℕ) (set : Bool) (s : Fs)
      → (first + bit / 32768) * 8 < 2 ^ 28
      → (b < first * 4096 + 8 * (bit / 64)) ⊎ (first * 4096 + 8 * (bit / 64) + 8 ≤ b)
      → (set_bitmap shift first bit set s).disk b ≡ s.disk b
  set_bitmap_rest first bit b set s lba apart =
      let sector = (first + bit / 32768) * 8 in
      let at = s.block_buffer + (b - sector * 512) in
      let m = (read_sectors 8 sector s.block_buffer s).memory in
      grind (
        arith,
        set_bitmap_disk first bit b set s lba,
        mark_chunk_ne s.block_buffer (bit % 32768) set m at,
        read_sectors_lem 8 sector s.block_buffer s at lba,
      )

  pub set_bitmap_superblock :
      (first bit : ℕ) (set : Bool) (s : Fs)
      → (set_bitmap shift first bit set s).superblock ≡ s.superblock
  unfolding set_bitmap read_sectors write_sectors
  set_bitmap_superblock first bit set s = refl

module _ (shift : ℕ → ℕ) (int_shift : (k : ℕ) → k < 31 → shift k ≡ 2 ^ k) where
  mark_chunk_word :
      (buffer index : ℕ) (set : Bool) (m : Memory)
      → index % 64 < 31
      → load64 (mark_chunk shift buffer index set m) (buffer + 8 * (index / 64))
        ≡ marked (index % 64) set (load64 m (buffer + 8 * (index / 64)))
  unfolding mark_chunk marked
  mark_chunk_word buffer index set m h =
      let chunk = buffer + 8 * (index / 64) in
      rw (int_shift (index % 64) h) (
        load64-store64 m chunk (marked (index % 64) set (load64 m chunk))
          (marked-lt (index % 64) (load64 m chunk) set (omega arith) (load64-lt m chunk)))

  -- The word of the bit on the disk, after a mark.
  set_bitmap_word :
      (first bit : ℕ) (set : Bool) (s : Fs)
      → (first + bit / 32768) * 8 < 2 ^ 28
      → bit % 64 < 31
      → load64 (set_bitmap shift first bit set s).disk (first * 4096 + 8 * (bit / 64))
        ≡ marked (bit % 64) set (load64 s.disk (first * 4096 + 8 * (bit / 64)))
  set_bitmap_word first bit set s lba h =
      let sector = (first + bit / 32768) * 8 in
      let place = first * 4096 + 8 * (bit / 64) in
      let loaded = read_sectors 8 sector s.block_buffer s in
      let index = bit % 32768 in
      let chunk = s.block_buffer + 8 * (index / 64) in
      let m = mark_chunk shift s.block_buffer index set loaded.memory in
      let after = load64_shift (set_bitmap shift first bit set s).disk m place chunk (λ b c l l' e.
        let f : s.block_buffer + (b - sector * 512) ≡ c = omega arith in
        set_bitmap_disk shift first bit b set s lba ∙ rw f (ground arith)) in
      let before = load64_shift loaded.memory s.disk chunk place (λ b c l l' e.
        let f : sector * 512 + (b - s.block_buffer) ≡ c = omega arith in
        read_sectors_lem 8 sector s.block_buffer s b lba ∙ rw f (ground arith)) in
      let f : index % 64 ≡ bit % 64 = omega arith in
      after
      ∙ mark_chunk_word s.block_buffer index set loaded.memory (omega arith)
      ∙ rw (f, before) refl

  -- On a disk that the device addresses, and for a bit whose `1 << k` C defines, `set_inode_bitmap`
  -- and `set_data_bitmap` give that bit of the bitmap the value, leave every other bit of it, and
  -- change no byte of the disk outside the bit's word of 8 bytes.
  pub set_bitmap_lem :
      (first bit : ℕ) (set : Bool) (s : Fs)
      → (first + bit / 32768) * 8 < 2 ^ 28
      → bit % 64 < 31
      → ((q : ℕ)
          → disk_bit (set_bitmap shift first bit set s).disk first q
            ≡ (if bit == q then set else disk_bit s.disk first q))
        × ((b : ℕ)
            → (b < first * 4096 + 8 * (bit / 64)) ⊎ (first * 4096 + 8 * (bit / 64) + 8 ≤ b)
            → (set_bitmap shift first bit set s).disk b ≡ s.disk b)
  set_bitmap_lem first bit set s lba h = (
    (λ q. elim (ℕ_discrete (bit / 64) (q / 64)) [
      | yes same ↦
          rw (sym same, set_bitmap_word first bit set s lba h)
            (test_bit-marked (bit % 64) (q % 64) (load64 s.disk (first * 4096 + 8 * (bit / 64))) set
                (omega arith) (omega arith)
              ∙ ground arith)
      | no other ↦
          rw
            (load64_cong (set_bitmap shift first bit set s).disk s.disk
              (first * 4096 + 8 * (q / 64))
              (λ b l l'. set_bitmap_rest shift first bit b set s lba (omega arith)))
            (ground arith)
    ]),
    (λ b. set_bitmap_rest shift first bit b set s lba),
  )
