-- ===== src/Pmm/Find.antt =====
-- `find_free_blocks` against its specification: the first run of free blocks.
use mathlib.Core.Bool.{false≢true}
use native.Mathlib.Decide.{dec_le, dec_lt, ℕ_discrete}
use ab_os.Base.{
  ℕ, zero, suc, ◌+◌, ◌-◌, ◌*◌, ◌/◌, ◌%◌, ◌^◌, ◌≤◌, ◌<◌, max, ◌≡◌, ◌≢◌, refl, sym, ◌∙◌, inl, inr,
  not, true, false, ltb→lt, ==_ne, arith, ltb, ◌==◌, if◌then◌else◌, Bool-cases, u32_mod,
}
use ab_os.Base.Bits.{test_bit, test_bit-zero, complement, test_bit-complement}
use ab_os.Pmm.{Pmm, minus_one, find_loop, find_free_blocks}
use ab_os.Pmm.Blocks.{is_used, bit_and-eq-zero}

-- No block of [lo, hi) is used.
abbrev pub FreeBetween : Pmm → ℕ → ℕ → Type 0
FreeBetween s lo hi = (q : ℕ) → lo ≤ q → q < hi → is_used s q ≡ false

-- What a search for `n` blocks returns: the lowest run of free blocks that lies below
-- `max_blocks`, or the pattern of -1 where there is none.
pub data FirstFit (s : Pmm) (n r : ℕ) : Type 0 where
  found :
      FreeBetween s r (r + n)
      → r + n ≤ s.max_blocks
      → ((p : ℕ) → p < r → ¬ FreeBetween s p (p + n))
      → FirstFit s n r
  absent :
      r ≡ minus_one → ((p : ℕ) → p + n ≤ s.max_blocks → ¬ FreeBetween s p (p + n)) → FirstFit s n r

-- What holds at the head of a round: the `c` blocks below `i` are free, no run of free blocks
-- that ends at `i` is longer, and no run of `n` ends at `i` or below.
record Progress (s : Pmm) (n i c : ℕ) : Type 0 where
  le : c ≤ i
  short : c < n
  run : (q : ℕ) → i ≤ q + c → q < i → is_used s q ≡ false
  barrier : (p : ℕ) → p ≤ i → FreeBetween s p i → i ≤ p + c
  none_yet : (p : ℕ) → p + n ≤ i → ¬ FreeBetween s p (p + n)

module _ {s : Pmm} {n i c : ℕ} (h : Progress s n i c) where
  Progress-longer : is_used s i ≡ false → c + 1 ≢ n → Progress s n (i + 1) (c + 1)
  Progress-longer free more = record {
    le = omega (arith, h.le);
    short = omega (arith, h.short);
    run = λ q a b. elim (ℕ_discrete q i) [
      | yes e ↦ rw e free
      | no ne ↦ h.run q (omega arith) (omega arith)
    ];
    barrier = λ p a f. elim (dec_le p i) [
      | yes l ↦ omega (arith, h.barrier p l (λ q x y. f q x (omega arith)))
      | no l ↦ omega arith
    ];
    none_yet = λ p a f. elim (dec_le (p + n) i) [
      | yes l ↦ h.none_yet p l f
      | no l ↦ absurd (
          omega
            (arith, h.short, h.barrier p (omega (arith, h.short)) (λ q x y. f q x (omega arith))))
    ];
  }

  Progress-broken :
      (j : ℕ) → i < j → ((q : ℕ) → i ≤ q → q < j → is_used s q ≡ true) → Progress s n j 0
  Progress-broken j l used = record {
    le = omega arith;
    short = omega (arith, h.short);
    run = λ q a b. absurd (omega arith);
    barrier = λ p a f. elim (dec_lt p j) [
      | yes m ↦
          absurd
            (clash (max p i) (f (max p i) (omega arith) (omega arith)) (omega arith) (omega arith))
      | no m ↦ omega arith
    ];
    none_yet = λ p a f. elim (dec_le (p + n) i) [
      | yes m ↦ h.none_yet p m f
      | no m ↦
          clash (max p i) (f (max p i) (omega arith) (omega (arith, h.short))) (omega arith)
            (omega (arith, h.short))
    ];
  }
    where
      clash : (q : ℕ) → is_used s q ≡ false → i ≤ q → q < j → ⊥
      clash q f a b = false≢true (sym f ∙ used q a b)

  Progress-found : is_used s i ≡ false → i < s.max_blocks → c + 1 ≡ n → FirstFit s n (i + 1 - n)
  Progress-found free l e =
      found
        (λ q a b. elim (ℕ_discrete q i) [
          | yes e ↦ rw e free
          | no ne ↦ h.run q (omega arith) (omega (arith, h.le))
        ])
        (omega (arith, h.le)) (λ p a. h.none_yet p (omega (arith, h.le)))

-- Every block of a word with all its bits set is used.
is_used_of_full :
    (s : Pmm) (i q : ℕ)
    → (s.memory_map (i / 32) == 0xffff_ffff) ≡ true
    → q / 32 ≡ i / 32
    → is_used s q ≡ true
unfolding is_used complement
is_used_of_full s i q full e =
    let w : s.memory_map (i / 32) ≡ 0xffff_ffff = ground arith in
    rw (e, w)
      (test_bit-complement 32 (q % 32) 0 (omega arith) (omega arith) ∙ rw test_bit-zero refl)

-- The part of a round that looks at one bit; `longer` and `broken` are what the rest returns.
bit_round-FirstFit :
    {s : Pmm} {n i c : ℕ} (h : Progress s n i c)
    → i < s.max_blocks
    → s.max_blocks < 2 ^ 31
    → (longer broken : ℕ) → (Progress s n (i + 1) (c + 1) → FirstFit s n longer)
    → (Progress s n (i + 1) 0 → FirstFit s n broken)
    → FirstFit s n (
        if not (test_bit (s.memory_map (i / 32)) (i % 32))
        then (if c + 1 == n then (i + u32_mod - n + 1) % u32_mod else longer)
        else broken)
unfolding is_used
bit_round-FirstFit {s} {n} {i} {c} h l small longer broken on_longer on_broken =
    elim (Bool-cases (is_used s i)) [
      | inl used ↦ rw used (
          on_broken (
            Progress-broken h (i + 1) (omega arith)
              (λ q a b. let e : q ≡ i = omega arith in rw e used)))
      | inr free ↦ rw free (elim (Bool-cases (c + 1 == n)) [
        | inl last ↦
            let e : (i + u32_mod - n + 1) % u32_mod ≡ i + 1 - n = ground (arith, h.le) in
            rw (last, e) (Progress-found h free l (ground arith))
        | inr more ↦ rw more (on_longer (Progress-longer h free (ground arith)))
      ])
    ]

find_loop-FirstFit :
    (fuel : ℕ) (s : Pmm) (n i c : ℕ)
    → s.max_blocks < 2 ^ 31
    → s.max_blocks ≤ i + fuel
    → Progress s n i c
    → FirstFit s n (find_loop fuel s n i c)
unfolding find_loop
find_loop-FirstFit zero s n i c small enough h = absent refl (λ p a. h.none_yet p (omega arith))
find_loop-FirstFit (suc fuel) s n i c small enough h = elim (Bool-cases (ltb i s.max_blocks)) [
  | inr past ↦ rw past (absent refl (λ p a. h.none_yet p (ground arith)))
  | inl more ↦ rw more (elim (Bool-cases (s.memory_map (i / 32) == 0xffff_ffff)) [
    | inl full ↦
        let e : (i / 32 + 1) * 32 % u32_mod ≡ (i / 32 + 1) * 32 = ground arith in
        rw (full, e)
          (find_loop-FirstFit fuel s n ((i / 32 + 1) * 32) 0 small (omega arith) (
            Progress-broken h ((i / 32 + 1) * 32) (omega arith)
              (λ q a b. is_used_of_full s i q full (omega arith))))
    | inr open_word ↦
        rw (open_word, bit_and-eq-zero (s.memory_map (i / 32)) (i % 32))
          (bit_round-FirstFit h (ltb→lt i s.max_blocks more) small
            (find_loop fuel s n (i + 1) (c + 1)) (find_loop fuel s n (i + 1) 0)
            (find_loop-FirstFit fuel s n (i + 1) (c + 1) small (omega arith))
            (find_loop-FirstFit fuel s n (i + 1) 0 small (omega arith)))
  ])
]

-- For a positive number of blocks and fewer than 2 ^ 31 in the bitmap, `find_free_blocks` returns
-- the start of the lowest free run of that length, or the bit pattern of -1 if there is none.
pub find_free_blocks-FirstFit :
    (n : ℕ) (s : Pmm) → 0 < n → s.max_blocks < 2 ^ 31 → FirstFit s n (find_free_blocks n s)
unfolding find_free_blocks
find_free_blocks-FirstFit n s pos small =
    rw (==_ne n 0 (omega arith)) (find_loop-FirstFit s.max_blocks s n 0 0 small (omega arith) start)
  where
    start : Progress s n 0 0
    start = record {
      le = omega arith;
      short = pos;
      run = λ q a b. absurd (omega arith);
      barrier = λ p a f. omega arith;
      none_yet = λ p a f. absurd (omega arith);
    }
