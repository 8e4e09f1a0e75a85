-- ===== src/Base/Bits/Step.antt =====
-- The law of `bit_or` and `bit_and` for the lowest digit.
use Prim.Native.Nat.{ℕ, zero, suc, ◌+◌, ◌-◌, ◌*◌, ◌/◌, ◌%◌, ◌≤◌, min, max, bit_and, bit_or}
use Prim.Native.Nat.{digits, bit_and-bitwise, bit_or-bitwise}
use mathlib.Core.Path.{◌≡◌, refl, ◌∙◌}
use native.Mathlib.Omega.{arith}

module _ (low : ℕ → ℕ) (join : ℕ → ℕ → ℕ) where
  -- One round more than the first number needs changes nothing.
  one_more : (n v w : ℕ) → v ≤ n → digits low join (suc n) v w ≡ digits low join n v w
  one_more zero zero w h = refl
  one_more zero (suc v) w h = absurd (omega arith)
  one_more (suc n) zero w h = refl
  one_more (suc n) (suc v) w h =
      let half = one_more n (suc v / 2) (w / 2) (omega arith) in omega (arith, half)

  -- Nor do any number of them.
  spare : (k n v w : ℕ) → k + v ≡ n → digits low join n v w ≡ digits low join v v w
  spare zero n v w e = let same : n ≡ v = omega arith in rw same refl
  spare (suc k) n v w e =
      let more : n ≡ suc (k + v) = omega arith in
      rw more (one_more (k + v) v w (omega arith) ∙ spare k (k + v) v w refl)

  spare_half :
      (v w : ℕ) → digits low join v (suc v / 2) w ≡ digits low join (suc v / 2) (suc v / 2) w
  spare_half v w = spare (v - suc v / 2) v (suc v / 2) w (omega arith)

pub zero-bit_and : (w : ℕ) → bit_and 0 w ≡ 0
zero-bit_and w = bit_and-bitwise 0 w

zero-bit_or : (w : ℕ) → bit_or 0 w ≡ w
zero-bit_or w = bit_or-bitwise 0 w

pub bit_and_step : (v w : ℕ) → bit_and v w ≡ min (v % 2) (w % 2) + 2 * bit_and (v / 2) (w / 2)
bit_and_step zero w = let half = zero-bit_and (w / 2) in omega (arith, half, zero-bit_and w)
bit_and_step (suc v) w =
    let whole = bit_and-bitwise (suc v) w in
    let half = bit_and-bitwise (suc v / 2) (w / 2) in
    omega (arith, whole, half, spare_half (λ b. 0) min v (w / 2))

pub bit_or_step : (v w : ℕ) → bit_or v w ≡ max (v % 2) (w % 2) + 2 * bit_or (v / 2) (w / 2)
bit_or_step zero w = let half = zero-bit_or (w / 2) in omega (arith, half, zero-bit_or w)
bit_or_step (suc v) w =
    let whole = bit_or-bitwise (suc v) w in
    let half = bit_or-bitwise (suc v / 2) (w / 2) in
    omega (arith, whole, half, spare_half (λ b. b) max v (w / 2))
