-- ===== src/Format/Bitmaps.antt =====
-- The bitmaps that the formatter writes, as `find_free_bit` of the kernel reads them.
use mathlib.Core.Path.{subst}
use ab_os.Base.{
  ℕ, ◌+◌, ◌-◌, ◌*◌, ◌/◌, ◌%◌, ◌^◌, ◌≤◌, ◌<◌, ◌≡◌, refl, ap, ◌∙◌, ◌&&◌, ◌||◌, inl, inr, Bool-cases,
  Memory, update, arith, ltb, leb, if◌then◌else◌, u32_mod, for_range_inv, Option, none, some,
}
use ab_os.Base.Bits.{pow-lt}
use ab_os.Base.Bits.Masks.{test_bit-ones}
use ab_os.Base.Words.{load32, store32, load32_shift, load32-store32}
use ab_os.Fs.{Fs}
use ab_os.Fs.Bitmap.{find_free_bit, find_free_bit_lem, loaded, is_set, FirstClear, clear, full}
use ab_os.Fs.Disk.{read_sectors_lem, read_sectors_buffer}
use ab_os.Format.{Formatter, fwrite, write_bitmap, zeros}

-- `fwrite` stores its bytes from the position on, and no other.
pub fwrite_lem :
    (bytes : Memory) (n : ℕ) (s : Formatter) (b : ℕ)
    → (fwrite bytes n s).image b
      ≡ (if leb s.position b && ltb b (s.position + n) then bytes (b - s.position) else s.image b)
unfolding fwrite
fwrite_lem bytes n s =
    for_range_inv
      (λ k m'.
        (b : ℕ)
        → m' b ≡ (
            if leb s.position b && ltb b (s.position + k)
            then bytes (b - s.position)
            else s.image b))
      (λ i m. update m (s.position + i) (bytes i)) n (λ k m' l h b. ground (arith, h b)) n 0 s.image
      (omega arith) (λ b. ground arith)

fwrite_position :
    (bytes : Memory) (n : ℕ) (s : Formatter) → (fwrite bytes n s).position ≡ s.position + n
unfolding fwrite
fwrite_position bytes n s = refl

-- The four bytes of a word of ones.
ones_byte : (i : ℕ) → i < 4 → store32 zeros 0 0xFFFFFFFF i ≡ 255
unfolding store32
ones_byte i l = ground arith

-- What the loop of a bitmap has written after `k` words behind the first.
record Filled (chunk p k : ℕ) (t : Formatter) : Type 0 where
  next : t.position ≡ p + 4 + 4 * k
  head : (b : ℕ) → p ≤ b → b < p + 4 → t.image b ≡ store32 zeros 0 chunk (b - p)
  tail : (b : ℕ) → p + 4 ≤ b → b < p + 4 + 4 * k → t.image b ≡ 255

write_bitmap-Filled :
    (chunk blocks : ℕ) (s : Formatter)
    → Filled chunk s.position (blocks * 4096 / 4 - 1) (write_bitmap chunk blocks s)
unfolding write_bitmap
write_bitmap-Filled chunk blocks s =
    let ones = store32 zeros 0 0xFFFFFFFF in
    let first = fwrite (store32 zeros 0 chunk) 4 s in
    for_range_inv (Filled chunk s.position) (λ i. fwrite ones 4) (blocks * 4096 / 4 - 1)
      (λ k t l h. record {
        next = fwrite_position ones 4 t ∙ omega (arith, h.next);
        head = λ b a b'. ground (arith, fwrite_lem ones 4 t b, h.next, h.head b a b');
        tail = λ b a b'.
            ground (arith, fwrite_lem ones 4 t b, h.next, h.tail b a, ones_byte (b - t.position));
      })
      (blocks * 4096 / 4 - 1) 0 first (omega arith)
      (record {
        next = fwrite_position (store32 zeros 0 chunk) 4 s ∙ omega arith;
        head = λ b a b'. ground (arith, fwrite_lem (store32 zeros 0 chunk) 4 s b);
        tail = λ b a b'. absurd (omega arith);
      })

-- The block of a bitmap as the kernel loads it: `c` ones, and then ones from the second word on.
module _ (c blocks start : ℕ) (s : Formatter) (k : Fs) (low : c < 32) (some_block : 0 < blocks)
    (at : s.position ≡ start * 4096) (lba : start * 8 < 2 ^ 28)
    (same : (b : ℕ)
      → start * 4096 ≤ b
      → b < start * 4096 + 4096
      → k.disk b ≡ (write_bitmap (2 ^ c - 1) blocks s).image b) where
  -- A byte of the buffer.
  byte_of :
      (b : ℕ)
      → k.block_buffer ≤ b
      → b < k.block_buffer + 4096
      → (loaded start k).memory b
        ≡ (write_bitmap (2 ^ c - 1) blocks s).image (start * 4096 + (b - k.block_buffer))
  byte_of b l l' =
      let sector = (start + 0) * 8 % u32_mod in
      let e : sector * 512 ≡ start * 4096 = omega arith in
      ground (
        arith,
        e,
        read_sectors_lem 8 sector k.block_buffer k b (omega arith),
        same (start * 4096 + (b - k.block_buffer)) (omega arith) (omega arith),
      )

  first_word : load32 (loaded start k).memory k.block_buffer ≡ 2 ^ c - 1
  first_word =
      let chunk = store32 zeros 0 (2 ^ c - 1) in
      let filled = write_bitmap-Filled (2 ^ c - 1) blocks s in
      load32_shift (loaded start k).memory chunk k.block_buffer 0 (λ b d l l' e.
        let f : start * 4096 + (b - k.block_buffer) - s.position ≡ d = omega arith in
        byte_of b l (omega arith)
        ∙ filled.head (start * 4096 + (b - k.block_buffer)) (omega arith) (omega arith)
        ∙ ap chunk f)
      ∙ load32-store32 zeros 0 (2 ^ c - 1) (omega (arith, pow-lt 32 c low))

  other_word :
      (j : ℕ)
      → 0 < j
      → j < 1024
      → load32 (loaded start k).memory (k.block_buffer + 4 * j) ≡ 0xFFFFFFFF
  other_word j l l' =
      let filled = write_bitmap-Filled (2 ^ c - 1) blocks s in
      load32_shift (loaded start k).memory (λ a. 255) (k.block_buffer + 4 * j) 0
        (λ b d m m' e.
          byte_of b (omega arith) (omega arith)
          ∙ filled.tail (start * 4096 + (b - k.block_buffer)) (omega arith) (omega arith))
      ∙ unfold load32 in omega arith

  bit_of :
      (q : ℕ) → q < 32768 → is_set (loaded start k).memory k.block_buffer q ≡ (ltb q c || leb 32 q)
  bit_of q l = elim (Bool-cases (ltb q 32)) [
    | inl low_word ↦
        let w : q < 32 = ground arith in
        let e : k.block_buffer + 4 * (q / 32) ≡ k.block_buffer = omega arith in
        let f : q % 32 ≡ q = omega arith in rw (e, f, first_word) (test_bit-ones c q ∙ ground arith)
    | inr above ↦
        let w : 32 ≤ q = ground arith in
        rw (other_word (q / 32) (omega arith) (omega arith))
          (test_bit-ones 32 (q % 32) ∙ ground arith)
  ]

  from_FirstClear :
      (r : Option ℕ)
      → FirstClear (loaded start k).memory k.block_buffer 0 32768 r
      → (elim r [ none ↦ 0 | some q ↦ q ]) ≡ c
  from_FirstClear r (full e before) =
      absurd (ground (arith, bit_of c (omega arith), before c (omega arith) (omega arith)))
  from_FirstClear r (clear q e l off before) =
      let f : q ≡ c =
        grind (arith, bit_of q l, bit_of c (omega arith), before c (omega arith), off) in
      rw e f

  -- The kernel's search of the first block of a bitmap that `write_inode_bitmap` (`c` = 8) or
  -- `write_data_bitmap` (`c` = 25) wrote there finds bit `c`; of the bits of the block those from `c`
  -- to 31 are free, and no other.
  pub write_bitmap-find_free_bit :
      ((find_free_bit start 1 k).0 ≡ c)
      × ((q : ℕ)
          → q < 32768
          → is_set (loaded start k).memory k.block_buffer q ≡ (ltb q c || leb 32 q))
  write_bitmap-find_free_bit =
      let (r, e, first) = find_free_bit_lem start k in
      let b = read_sectors_buffer 8 ((start + 0) * 8 % u32_mod) k.block_buffer k in
      (
        e
            ∙ from_FirstClear r
                (subst (λ (t : ℕ). FirstClear (loaded start k).memory t 0 32768 r) b first),
        bit_of,
      )
