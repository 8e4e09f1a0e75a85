-- ===== src/Base/Bits.antt =====
-- Bits of machine words: what `|`, `&`, `~` and `1 << k` do to each bit, at every width.
mod Step
pub mod Masks
use Step.{bit_or_step, bit_and_step}
use Prim.Native.Nat.{
  ℕ, zero, suc, ◌+◌, ◌-◌, ◌*◌, ◌/◌, ◌%◌, ◌^◌, ◌≤◌, ◌<◌, bit_and, bit_or, min, max,
}
use mathlib.Core.Path.{◌≡◌, refl, sym, ap, ◌∙◌}
use mathlib.Core.Logic.{◌⊎◌, inl, inr}
use mathlib.Core.Bool.{Bool, true, false, not, ◌&&◌, ◌||◌, or_comm, and_comm}
use native.Mathlib.Nat.{pow-suc, one-le-pow}
use native.Mathlib.Omega.{arith}
use ab_os.Base.Tests.{◌==◌, if◌then◌else◌}

unfoldable pub test_bit : ℕ → ℕ → Bool
test_bit w zero = w % 2 == 1
test_bit w (suc i) = test_bit (w / 2) i

pub test_bit-or : (i a b : ℕ) → test_bit (bit_or a b) i ≡ (test_bit a i || test_bit b i)
unfolding test_bit
test_bit-or zero a b = ground (arith, bit_or_step a b)
test_bit-or (suc i) a b =
    let e : bit_or a b / 2 ≡ bit_or (a / 2) (b / 2) = omega (arith, bit_or_step a b) in
    rw e (test_bit-or i (a / 2) (b / 2))

pub test_bit-and : (i a b : ℕ) → test_bit (bit_and a b) i ≡ (test_bit a i && test_bit b i)
unfolding test_bit
test_bit-and zero a b = ground (arith, bit_and_step a b)
test_bit-and (suc i) a b =
    let e : bit_and a b / 2 ≡ bit_and (a / 2) (b / 2) = omega (arith, bit_and_step a b) in
    rw e (test_bit-and i (a / 2) (b / 2))

pub test_bit-zero : (i : ℕ) → test_bit 0 i ≡ false
unfolding test_bit
test_bit-zero zero = refl
test_bit-zero (suc i) = test_bit-zero i

-- A word of `n` bits has no bit from `n` on.
pub test_bit_above : (n i w : ℕ) → w < 2 ^ n → n ≤ i → test_bit w i ≡ false
unfolding test_bit
test_bit_above zero i w h le = let e : w ≡ 0 = omega arith in rw e (test_bit-zero i)
test_bit_above (suc n) zero w h le = absurd (omega arith)
test_bit_above (suc n) (suc i) w h le =
    test_bit_above n i (w / 2) (omega (arith, pow-suc 2 n)) (omega arith)

pub test_bit-pow : (k i : ℕ) → test_bit (2 ^ k) i ≡ (k == i)
unfolding test_bit
test_bit-pow zero zero = refl
test_bit-pow zero (suc i) = test_bit-zero i ∙ ground arith
test_bit-pow (suc k) zero = ground (arith, pow-suc 2 k)
test_bit-pow (suc k) (suc i) =
    let e : 2 ^ suc k / 2 ≡ 2 ^ k = omega (arith, pow-suc 2 k) in
    rw e (test_bit-pow k i ∙ ground arith)

-- `~w` at width `n`.
unfoldable pub complement : ℕ → ℕ → ℕ
complement n w = 2 ^ n - 1 - w

pub test_bit-complement :
    (n i w : ℕ) → w < 2 ^ n → i < n → test_bit (complement n w) i ≡ not (test_bit w i)
unfolding test_bit complement
test_bit-complement zero i w h lt = absurd (omega arith)
test_bit-complement (suc n) zero w h lt = ground (arith, pow-suc 2 n, one-le-pow n 2)
test_bit-complement (suc n) (suc i) w h lt =
    let e : (2 ^ suc n - 1 - w) / 2 ≡ 2 ^ n - 1 - w / 2 =
      omega (arith, pow-suc 2 n, one-le-pow n 2) in
    rw e (test_bit-complement n i (w / 2) (omega (arith, pow-suc 2 n)) (omega arith))

bit_and-zero_below : (m x : ℕ) → x < m → bit_and x 0 ≡ 0
bit_and-zero_below zero x l = absurd (omega arith)
bit_and-zero_below (suc m) zero l = refl
bit_and-zero_below (suc m) (suc x) l =
    let half = bit_and-zero_below m (suc x / 2) (omega arith) in
    omega (arith, half, bit_and_step (suc x) 0)

pub bit_and-zero : (w : ℕ) → bit_and w 0 ≡ 0
bit_and-zero w = bit_and-zero_below (suc w) w (omega arith)

-- `w & (1 << k)` is the bit itself, in its place.
pub bit_and-pow : (k w : ℕ) → bit_and w (2 ^ k) ≡ (if test_bit w k then 2 ^ k else 0)
unfolding test_bit
bit_and-pow zero w = ground (arith, bit_and_step w 1, bit_and-zero (w / 2))
bit_and-pow (suc k) w =
    ground (arith, bit_and_step w (2 ^ suc k), pow-suc 2 k, bit_and-pow k (w / 2))

pub bit_or-lt : (n a b : ℕ) → a < 2 ^ n → b < 2 ^ n → bit_or a b < 2 ^ n
bit_or-lt zero a b ha hb =
    let ea : a ≡ 0 = omega arith in let eb : b ≡ 0 = omega arith in rw (ea, eb) (omega arith)
bit_or-lt (suc n) a b ha hb = omega (
  arith,
  bit_or_step a b,
  pow-suc 2 n,
  bit_or-lt n (a / 2) (b / 2) (omega (arith, pow-suc 2 n)) (omega (arith, pow-suc 2 n)),
)

-- Two words of `n` bits with the same bits are equal.
pub eq_of_bits :
    (n a b : ℕ) → a < 2 ^ n → b < 2 ^ n → ((i : ℕ) → i < n → test_bit a i ≡ test_bit b i) → a ≡ b
unfolding test_bit
eq_of_bits zero a b ha hb h = omega arith
eq_of_bits (suc n) a b ha hb h = ground (
  arith,
  h 0 (omega arith),
  eq_of_bits n (a / 2) (b / 2) (omega (arith, pow-suc 2 n)) (omega (arith, pow-suc 2 n))
      (λ i lt. h (suc i) (omega arith)),
)

pub pow-lt : (n k : ℕ) → k < n → 2 ^ k < 2 ^ n
pow-lt zero k h = absurd (omega arith)
pow-lt (suc n) zero h = omega (arith, pow-suc 2 n, one-le-pow n 2)
pow-lt (suc n) (suc k) h = omega (arith, pow-suc 2 n, pow-suc 2 k, pow-lt n k (omega arith))

-- `w |= 1 << k` sets bit `k` and no other.
pub test_bit-set : (w k i : ℕ) → test_bit (bit_or w (2 ^ k)) i ≡ (k == i || test_bit w i)
test_bit-set w k i = rw (test_bit-or, test_bit-pow) (or_comm (test_bit w i) (k == i))

-- `w &= ~(1 << k)` clears bit `k` and no other.
pub test_bit-clear :
    (n w k i : ℕ)
    → k < n
    → i < n
    → test_bit (bit_and w (complement n (2 ^ k))) i ≡ (not (k == i) && test_bit w i)
test_bit-clear n w k i hk hi =
    rw (test_bit-and, test_bit-complement n i (2 ^ k) (pow-lt n k hk) hi, test_bit-pow)
      (and_comm (test_bit w i) (not (k == i)))

-- The low `n` bits do not see what is added from bit `n` on.
pub test_bit-low : (n i q r : ℕ) → i < n → test_bit (q * 2 ^ n + r) i ≡ test_bit r i
unfolding test_bit
test_bit-low zero i q r h = absurd (omega arith)
test_bit-low (suc n) zero q r h = ground (arith, ap (λ (t : ℕ). q * t) (pow-suc 2 n))
test_bit-low (suc n) (suc i) q r h =
    let e : (q * 2 ^ suc n + r) / 2 ≡ q * 2 ^ n + r / 2 =
      omega (arith, ap (λ (t : ℕ). q * t) (pow-suc 2 n)) in
    rw e (test_bit-low n i q (r / 2) (omega arith))

-- The bits of a word cut to `n` bits.
pub test_bit-mod : (n i w : ℕ) → i < n → test_bit (w % 2 ^ n) i ≡ test_bit w i
test_bit-mod n i w h =
    let e : w / 2 ^ n * 2 ^ n + w % 2 ^ n ≡ w = omega arith in
    sym (test_bit-low n i (w / 2 ^ n) (w % 2 ^ n) h) ∙ ap (λ (t : ℕ). test_bit t i) e
