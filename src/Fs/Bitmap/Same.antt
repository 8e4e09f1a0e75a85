-- ===== src/Fs/Bitmap/Same.antt =====
-- `find_free_bit` looks at the blocks of its bitmap on the disk, and changes only the memory.
use ab_os.Base.{
  ℕ, zero, suc, ◌+◌, ◌-◌, ◌*◌, ◌%◌, ◌^◌, ◌≤◌, ◌<◌, ◌≡◌, refl, sym, ap, ◌∙◌, Memory, Option, none,
  some, arith, ◌==◌, if◌then◌else◌, u32_mod,
}
use ab_os.Base.Words.{load32, load32_shift}
use ab_os.Fs.{Fs, read_sectors}
use ab_os.Fs.Disk.{read_sectors_lem}
use ab_os.Fs.Bitmap.{
  word_loop, bitmap_loop, bit_loop, find_free_bit, FirstClear, clear, full, word_loop-FirstClear,
}

word_loop_cong :
    (rounds j temp temp' : ℕ) (m m' : Memory)
    → ((i : ℕ) → j ≤ i → i < j + rounds → load32 m (temp + 4 * i) ≡ load32 m' (temp' + 4 * i))
    → word_loop rounds j temp m ≡ word_loop rounds j temp' m'
unfolding word_loop
word_loop_cong zero j temp temp' m m' h = refl
word_loop_cong (suc rounds) j temp temp' m m' h =
    let rest =
      word_loop_cong rounds (j + 1) temp temp' m m' (λ i l l'. h i (omega arith) (omega arith)) in
    rw (h j (omega arith) (omega arith)) (
      ap
        (λ (r : Option ℕ).
          if load32 m' (temp' + 4 * j) == 0xFFFFFFFF
          then r
          else elim (bit_loop 32 0 (load32 m' (temp' + 4 * j))) [
            | none ↦ r
            | some k ↦ some (j * 32 + k)
          ])
        rest)

-- A block of the disk, behind a read into the buffer.
block_word :
    (sector i : ℕ) (s t : Fs)
    → i < 1024
    → sector < 2 ^ 28
    → ((b : ℕ) → sector * 512 ≤ b → b < sector * 512 + 4096 → s.disk b ≡ t.disk b)
    → load32 (read_sectors 8 sector s.block_buffer s).memory (s.block_buffer + 4 * i)
      ≡ load32 (read_sectors 8 sector t.block_buffer t).memory (t.block_buffer + 4 * i)
block_word sector i s t l lba h =
    load32_shift (read_sectors 8 sector s.block_buffer s).memory
      (read_sectors 8 sector t.block_buffer t).memory (s.block_buffer + 4 * i)
      (t.block_buffer + 4 * i)
      (λ b c l1 l2 e.
        let f : c - t.block_buffer ≡ b - s.block_buffer = omega arith in
        let g = h (sector * 512 + (b - s.block_buffer)) (omega arith) (omega arith) in
        read_sectors_lem 8 sector s.block_buffer s b lba
        ∙ ground (arith, g, read_sectors_lem 8 sector t.block_buffer t c lba, f))

-- The two ways that a search goes on.
pick_cong :
    (r : Option ℕ) (a b : ℕ × Fs) (s t : Fs)
    → a.0 ≡ b.0
    → (elim r as (λ o. ℕ × Fs) [ none ↦ a | some bit ↦ (bit, s) ]).0
      ≡ (elim r as (λ o. ℕ × Fs) [ none ↦ b | some bit ↦ (bit, t) ]).0
pick_cong none a b s t e = e
pick_cong (some bit) a b s t e = refl

-- The search gives the same bit on disks that agree on the bitmap.
bitmap_loop_cong :
    (rounds i start_block : ℕ) (s t : Fs)
    → (start_block + i + rounds) * 8 < 2 ^ 28
    → ((b : ℕ)
        → (start_block + i) * 4096 ≤ b
        → b < (start_block + i + rounds) * 4096
        → s.disk b ≡ t.disk b)
    → (bitmap_loop rounds i start_block s).0 ≡ (bitmap_loop rounds i start_block t).0
unfolding bitmap_loop read_sectors
bitmap_loop_cong zero i start_block s t lba h = refl
bitmap_loop_cong (suc rounds) i start_block s t lba h =
    let sector = (start_block + i) * 8 % u32_mod in
    let s' = read_sectors 8 sector s.block_buffer s in
    let t' = read_sectors 8 sector t.block_buffer t in
    let rest =
      bitmap_loop_cong rounds (i + 1) start_block s' t' (omega arith)
        (λ b l l'. h b (omega arith) (omega arith)) in
    let same = word_loop_cong 1024 0 s.block_buffer t.block_buffer s'.memory t'.memory (λ k l l'.
      block_word sector k s t l' (omega arith) (λ b a a'. h b (omega arith) (omega arith))) in
    ap
      (λ (r : Option ℕ).
        (elim r as (λ o. ℕ × Fs) [
          | none ↦ bitmap_loop rounds (i + 1) start_block s'
          | some bit ↦ (bit, s')
        ]).0)
      same
    ∙ pick_cong (word_loop 1024 0 t.block_buffer t'.memory)
        (bitmap_loop rounds (i + 1) start_block s') (bitmap_loop rounds (i + 1) start_block t') s'
        t' rest

pub find_free_bit_cong :
    (start_block length_blocks : ℕ) (s t : Fs)
    → (start_block + length_blocks) * 8 < 2 ^ 28
    → ((b : ℕ)
        → start_block * 4096 ≤ b
        → b < (start_block + length_blocks) * 4096
        → s.disk b ≡ t.disk b)
    → (find_free_bit start_block length_blocks s).0 ≡ (find_free_bit start_block length_blocks t).0
unfolding find_free_bit
find_free_bit_cong start_block length_blocks s t lba h =
    bitmap_loop_cong length_blocks 0 start_block s t (omega arith)
      (λ b l l'. h b (omega arith) (omega arith))

-- The search leaves the state but for the memory.
record SearchedFrom (s s' : Fs) : Type 0 where
  disk : s'.disk ≡ s.disk
  superblock : s'.superblock ≡ s.superblock

pick_from :
    (r : Option ℕ) (s s' : Fs) (rest : ℕ × Fs)
    → SearchedFrom s s'
    → SearchedFrom s rest.1
    → ((q : ℕ) → r ≡ some q → q < 32768)
    → rest.0 < 32768
    → let p = elim r as (λ o. ℕ × Fs) [ none ↦ rest | some bit ↦ (bit, s') ] in
      SearchedFrom s p.1 × (p.0 < 32768)
pick_from none s s' rest h h' l l' = (h', l')
pick_from (some bit) s s' rest h h' l l' = (h, l bit refl)

below :
    (m : Memory) (temp : ℕ) (r : Option ℕ) (q : ℕ)
    → FirstClear m temp 0 32768 r
    → r ≡ some q
    → q < 32768
below m temp r q (clear p e l off before) e' =
    let f : q ≡ p = ap (λ (o : Option ℕ). elim o [ none ↦ 0 | some x ↦ x ]) (sym e' ∙ e) in
    omega arith
below m temp r q (full e before) e' =
    let f : suc zero ≡ zero =
      ap (λ (o : Option ℕ). elim o [ none ↦ 1 | some x ↦ 0 ]) (sym e ∙ e') in
    omega arith

bitmap_loop_rest :
    (rounds i start_block : ℕ) (s t : Fs)
    → SearchedFrom s t
    → SearchedFrom s (bitmap_loop rounds i start_block t).1
      × ((bitmap_loop rounds i start_block t).0 < 32768)
unfolding bitmap_loop read_sectors
bitmap_loop_rest zero i start_block s t h = (h, omega arith)
bitmap_loop_rest (suc rounds) i start_block s t h =
    let t' = read_sectors 8 ((start_block + i) * 8 % u32_mod) t.block_buffer t in
    let h' : SearchedFrom s t' = record { disk = h.disk; superblock = h.superblock } in
    let rest = bitmap_loop_rest rounds (i + 1) start_block s t' h' in
    let r = word_loop 1024 0 t'.block_buffer t'.memory in
    let first =
      word_loop-FirstClear 1024 0 t'.block_buffer t'.memory refl (λ q l l'. absurd (omega arith)) in
    pick_from r s t' (bitmap_loop rounds (i + 1) start_block t') h' rest.0
      (λ q e. below t'.memory t'.block_buffer r q first e) rest.1

pub find_free_bit_rest :
    (start_block length_blocks : ℕ) (s : Fs)
    → let r = find_free_bit start_block length_blocks s in
      (r.1.disk ≡ s.disk) × (r.1.superblock ≡ s.superblock) × (r.0 < 32768)
unfolding find_free_bit
find_free_bit_rest start_block length_blocks s =
    let h =
      bitmap_loop_rest length_blocks 0 start_block s s
        (record { disk = refl; superblock = refl }) in
    (h.0.disk, h.0.superblock, h.1)
