-- ===== src/Fs/Bitmap.antt =====
-- `find_free_bit`: the search of a bitmap on the disk for a bit that is 0.
pub mod Same
use native.Mathlib.Decide.{ℕ_discrete}
use native.Mathlib.Nat.{one-le-pow}
use ab_os.Base.{
  ℕ, zero, suc, ◌+◌, ◌*◌, ◌/◌, ◌%◌, ◌^◌, ◌≤◌, ◌<◌, ◌≡◌, refl, ap, ◌∙◌, inl, inr, Bool, true, false,
  Bool-cases, Memory, Option, none, some, bit_and, ltb, ◌==◌, ==_ne, if◌then◌else◌, arith, u32_mod,
}
use ab_os.Base.Bits.{test_bit, bit_and-pow}
use ab_os.Base.Bits.Masks.{test_bit-ones}
use ab_os.Base.Words.{load32}
use ab_os.Fs.{Fs, read_sectors}

-- The loop over the bits of a word.
pub bit_loop : ℕ → ℕ → ℕ → Option ℕ
bit_loop zero k word = none
bit_loop (suc rounds) k word =
    let rest = bit_loop rounds (k + 1) word in if bit_and word (2 ^ k) == 0 then some k else rest

-- The loop over the words of a block.
pub word_loop : ℕ → ℕ → ℕ → Memory → Option ℕ
word_loop zero j temp m = none
word_loop (suc rounds) j temp m =
    let word = load32 m (temp + 4 * j) in
    let rest = word_loop rounds (j + 1) temp m in
    if word == 0xFFFFFFFF
    then rest
    else elim (bit_loop 32 0 word) [ none ↦ rest | some k ↦ some (j * 32 + k) ]

-- The loop over the blocks; the block's number is not in the result.
pub bitmap_loop : ℕ → ℕ → ℕ → Fs → ℕ × Fs
bitmap_loop zero i start_block s = (0, s)
bitmap_loop (suc rounds) i start_block s =
    let s' = read_sectors 8 ((start_block + i) * 8 % u32_mod) s.block_buffer s in
    elim (word_loop 1024 0 s'.block_buffer s'.memory) [
      | none ↦ bitmap_loop rounds (i + 1) start_block s'
      | some bit ↦ (bit, s')
    ]

pub find_free_bit : ℕ → ℕ → Fs → ℕ × Fs
find_free_bit start_block length_blocks = bitmap_loop length_blocks 0 start_block

-- Bit `q` of the block at `temp`.
abbrev pub is_set : Memory → ℕ → ℕ → Bool
is_set m temp q = test_bit (load32 m (temp + 4 * (q / 32))) (q % 32)

abbrev pub SetBetween : Memory → ℕ → ℕ → ℕ → Type 0
SetBetween m temp lo hi = (q : ℕ) → lo ≤ q → q < hi → is_set m temp q ≡ true

-- The first bit of [lo, hi) that is 0, or none.
pub data FirstClear (m : Memory) (temp lo hi : ℕ) (r : Option ℕ) : Type 0 where
  clear :
      (q : ℕ)
      → r ≡ some q
      → q < hi
      → is_set m temp q ≡ false
      → SetBetween m temp lo q
      → FirstClear m temp lo hi r
  full : r ≡ none → SetBetween m temp lo hi → FirstClear m temp lo hi r

-- The bit of the block, for a bit of its word `j`.
in_block : ℕ → Option ℕ → Option ℕ
in_block j none = none
in_block j (some b) = some (j * 32 + b)

bit_loop_clear :
    (rounds k word : ℕ) → test_bit word k ≡ false → bit_loop (suc rounds) k word ≡ some k
unfolding bit_loop
bit_loop_clear rounds k word off =
    let e : bit_and word (2 ^ k) ≡ 0 = bit_and-pow k word ∙ rw off refl in rw e refl

bit_loop_set :
    (rounds k word : ℕ)
    → test_bit word k ≡ true
    → bit_loop (suc rounds) k word ≡ bit_loop rounds (k + 1) word
unfolding bit_loop
bit_loop_set rounds k word on =
    let e : bit_and word (2 ^ k) ≡ 2 ^ k = bit_and-pow k word ∙ rw on refl in
    rw (e, ==_ne (2 ^ k) 0 (omega (arith, one-le-pow k 2))) refl

-- The bits of word `j` from `k` on.
bit_loop-FirstClear :
    (rounds k j temp : ℕ) (m : Memory)
    → k + rounds ≡ 32
    → SetBetween m temp (j * 32) (j * 32 + k)
    → let r = bit_loop rounds k (load32 m (temp + 4 * j)) in
      FirstClear m temp (j * 32) (j * 32 + 32) (in_block j r)
unfolding in_block
bit_loop-FirstClear zero k j temp m sum before =
    unfold bit_loop in full refl (λ q l l'. before q l (omega arith))
bit_loop-FirstClear (suc rounds) k j temp m sum before =
    let word = load32 m (temp + 4 * j) in
    let d : (j * 32 + k) / 32 ≡ j = omega arith in
    let r : (j * 32 + k) % 32 ≡ k = omega arith in
    let at : is_set m temp (j * 32 + k) ≡ test_bit word k = rw (d, r) refl in
    elim (Bool-cases (test_bit word k)) [
      | inl on ↦ rw (bit_loop_set rounds k word on) (
          bit_loop-FirstClear rounds (k + 1) j temp m (omega arith) (λ q l l'.
            elim (ℕ_discrete q (j * 32 + k)) [
              | yes e ↦ ap (is_set m temp) e ∙ at ∙ on
              | no ne ↦ before q l (omega arith)
            ]))
      | inr off ↦
          rw (bit_loop_clear rounds k word off)
            (clear (j * 32 + k) refl (omega arith) (at ∙ off) before)
    ]

or_rest : Option ℕ → Option ℕ → Option ℕ
or_rest none rest = rest
or_rest (some q) rest = some q

or_rest-in_block :
    (j : ℕ) (b rest : Option ℕ)
    → (elim b [ none ↦ rest | some k ↦ some (j * 32 + k) ]) ≡ or_rest (in_block j b) rest
unfolding or_rest in_block
or_rest-in_block j none rest = refl
or_rest-in_block j (some k) rest = refl

word_loop_next :
    (rounds j temp : ℕ) (m : Memory)
    → (load32 m (temp + 4 * j) == 0xFFFFFFFF) ≡ false
    → word_loop (suc rounds) j temp m
      ≡ or_rest
          (in_block j (bit_loop 32 0 (load32 m (temp + 4 * j))))
          (word_loop rounds (j + 1) temp m)
unfolding word_loop
word_loop_next rounds j temp m other =
    rw other (
      or_rest-in_block j (bit_loop 32 0 (load32 m (temp + 4 * j)))
        (word_loop rounds (j + 1) temp m))

word_loop_skip :
    (rounds j temp : ℕ) (m : Memory)
    → (load32 m (temp + 4 * j) == 0xFFFFFFFF) ≡ true
    → word_loop (suc rounds) j temp m ≡ word_loop rounds (j + 1) temp m
unfolding word_loop
word_loop_skip rounds j temp m ones = rw ones refl

SetBetween-join :
    (m : Memory) (temp lo mid hi : ℕ)
    → SetBetween m temp lo mid
    → SetBetween m temp mid hi
    → SetBetween m temp lo hi
SetBetween-join m temp lo mid hi below above q l l' = elim (Bool-cases (ltb q mid)) [
  | inl low ↦ below q l (ground arith)
  | inr high ↦ above q (ground arith) l'
]

-- A word of ones has every bit set.
ones-SetBetween :
    (m : Memory) (temp j : ℕ)
    → (load32 m (temp + 4 * j) == 0xFFFFFFFF) ≡ true
    → SetBetween m temp (j * 32) (j * 32 + 32)
ones-SetBetween m temp j ones q l l' =
    let d : q / 32 ≡ j = omega arith in
    let e : load32 m (temp + 4 * j) ≡ 0xFFFFFFFF = ground arith in
    rw (d, e) (test_bit-ones 32 (q % 32) ∙ ground arith)

pub word_loop-FirstClear :
    (rounds j temp : ℕ) (m : Memory)
    → j + rounds ≡ 1024
    → SetBetween m temp 0 (j * 32)
    → FirstClear m temp 0 32768 (word_loop rounds j temp m)
unfolding or_rest
word_loop-FirstClear zero j temp m sum before =
    unfold word_loop in full refl (λ q l l'. before q l (omega arith))
word_loop-FirstClear (suc rounds) j temp m sum before =
    let word = load32 m (temp + 4 * j) in
    let after : SetBetween m temp (j * 32) (j * 32 + 32) → SetBetween m temp 0 ((j + 1) * 32) =
      λ all q l l'. SetBetween-join m temp 0 (j * 32) (j * 32 + 32) before all q l (omega arith) in
    elim (Bool-cases (word == 0xFFFFFFFF)) [
      | inl ones ↦ rw (word_loop_skip rounds j temp m ones) (
          word_loop-FirstClear rounds (j + 1) temp m (omega arith)
            (after (ones-SetBetween m temp j ones)))
      | inr other ↦ elim (bit_loop-FirstClear 32 0 j temp m refl (λ q l l'. absurd (omega arith))) [
        | clear q e lt off lower ↦
            rw (word_loop_next rounds j temp m other, e, or_rest)
              (clear q refl (omega arith) off (SetBetween-join m temp 0 (j * 32) q before lower))
        | full e all ↦
            rw (word_loop_next rounds j temp m other, e, or_rest)
              (word_loop-FirstClear rounds (j + 1) temp m (omega arith) (after all))
      ]
    ]

-- The block that a round of `find_free_bit` loads.
abbrev pub loaded : ℕ → Fs → Fs
loaded start_block s = read_sectors 8 ((start_block + 0) * 8 % u32_mod) s.block_buffer s

result_of :
    (r : Option ℕ) (s s' : Fs)
    → (elim r as (λ o. ℕ × Fs) [ none ↦ (0, s) | some bit ↦ (bit, s') ]).0
      ≡ (elim r [ none ↦ 0 | some q ↦ q ])
result_of none s s' = refl
result_of (some q) s s' = refl

-- `find_free_bit` of a bitmap of one block returns the first bit of the block that is 0, or 0 if none
-- of its 32768 bits is.
pub find_free_bit_lem :
    (start_block : ℕ) (s : Fs)
    → let s' = loaded start_block s in
      (r : Option ℕ) × ((find_free_bit start_block 1 s).0 ≡ (elim r [ none ↦ 0 | some q ↦ q ]))
      × FirstClear s'.memory s'.block_buffer 0 32768 r
unfolding find_free_bit bitmap_loop
find_free_bit_lem start_block s =
    let s' = loaded start_block s in
    let r = word_loop 1024 0 s'.block_buffer s'.memory in
    (
      r,
      result_of r s' s',
      word_loop-FirstClear 1024 0 s'.block_buffer s'.memory refl (λ q l l'. absurd (omega arith)),
    )
