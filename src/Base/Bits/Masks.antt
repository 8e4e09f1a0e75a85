-- ===== src/Base/Bits/Masks.antt =====
-- Masks: runs of ones, and the fields of a word that they select.
use native.Mathlib.Nat.{pow-suc, one-le-pow, div-div-eq-div-mul}
use ab_os.Base.{ℕ, zero, suc, ◌+◌, ◌-◌, ◌*◌, ◌/◌, ◌%◌, ◌^◌, ◌<◌, ◌≡◌, ap, ◌∙◌, bit_and, ltb, arith}
use ab_os.Base.Bits.{test_bit, test_bit-zero, bit_and-zero}
use ab_os.Base.Bits.Step.{bit_and_step, zero-bit_and}

-- The bits of `n` ones.
pub test_bit-ones : (n i : ℕ) → test_bit (2 ^ n - 1) i ≡ ltb i n
unfolding test_bit
test_bit-ones zero i = test_bit-zero i ∙ ground arith
test_bit-ones (suc n) zero = ground (arith, pow-suc 2 n, one-le-pow n 2)
test_bit-ones (suc n) (suc i) =
    let e : (2 ^ suc n - 1) / 2 ≡ 2 ^ n - 1 = omega (arith, pow-suc 2 n, one-le-pow n 2) in
    rw e (test_bit-ones n i ∙ ground arith)

pub bit_and-lt : (n a b : ℕ) → a < 2 ^ n → bit_and a b < 2 ^ n
bit_and-lt zero a b ha = let e : a ≡ 0 = omega arith in rw e (omega (arith, zero-bit_and b))
bit_and-lt (suc n) a b ha = omega (
  arith,
  bit_and_step a b,
  pow-suc 2 n,
  bit_and-lt n (a / 2) (b / 2) (omega (arith, pow-suc 2 n)),
)

half_div : (n w : ℕ) → w / 2 / 2 ^ n ≡ w / 2 ^ suc n
half_div n w = div-div-eq-div-mul w 2 (2 ^ n) ∙ ap (λ (t : ℕ). w / t) (omega (arith, pow-suc 2 n))

half_mod : (n w : ℕ) → w % 2 ^ suc n ≡ w / 2 % 2 ^ n * 2 + w % 2
half_mod n w =
    let q = w / 2 ^ suc n in
    let a : 2 ^ suc n * q ≡ 2 * (2 ^ n * q) = ap (λ (t : ℕ). t * q) (pow-suc 2 n) ∙ omega arith in
    let b : 2 ^ n * (w / 2 / 2 ^ n) ≡ 2 ^ n * q = ap (λ (t : ℕ). 2 ^ n * t) (half_div n w) in
    omega (arith, a, b)

-- A mask of `n` low ones takes the remainder.
pub bit_and-ones : (n w : ℕ) → bit_and w (2 ^ n - 1) ≡ w % 2 ^ n
bit_and-ones zero w = bit_and-zero w ∙ omega arith
bit_and-ones (suc n) w =
    let e : (2 ^ suc n - 1) / 2 ≡ 2 ^ n - 1 = omega (arith, pow-suc 2 n, one-le-pow n 2) in
    let i = ap (bit_and (w / 2)) e ∙ bit_and-ones n (w / 2) in
    omega (arith, bit_and_step w (2 ^ suc n - 1), pow-suc 2 n, one-le-pow n 2, i, half_mod n w)

-- A mask of `n` ones from bit `k` on takes that field, in its place.
pub bit_and-field : (k n w : ℕ) → bit_and w ((2 ^ n - 1) * 2 ^ k) ≡ w / 2 ^ k % 2 ^ n * 2 ^ k
bit_and-field zero n w =
    let e : (2 ^ n - 1) * 2 ^ 0 ≡ 2 ^ n - 1 = omega arith in
    let f : w / 2 ^ 0 ≡ w = omega arith in ap (bit_and w) e ∙ bit_and-ones n w ∙ rw f (omega arith)
bit_and-field (suc k) n w =
    let m = (2 ^ n - 1) * 2 ^ k in
    let e : (2 ^ n - 1) * 2 ^ suc k ≡ m + m =
      ap (λ (t : ℕ). (2 ^ n - 1) * t) (pow-suc 2 k) ∙ omega arith in
    let half : (m + m) / 2 ≡ m = omega arith in
    let i = ap (bit_and (w / 2)) half ∙ bit_and-field k n (w / 2) in
    let j : w / 2 / 2 ^ k % 2 ^ n * 2 ^ k ≡ w / 2 ^ suc k % 2 ^ n * 2 ^ k =
      ap (λ (t : ℕ). t % 2 ^ n * 2 ^ k) (half_div k w) in
    let p : w / 2 ^ suc k % 2 ^ n * 2 ^ suc k ≡ w / 2 ^ suc k % 2 ^ n * 2 ^ k * 2 =
      ap (λ (t : ℕ). w / 2 ^ suc k % 2 ^ n * t) (pow-suc 2 k) ∙ omega arith in
    ap (bit_and w) e ∙ omega (arith, bit_and_step w (m + m), i, j, p)
