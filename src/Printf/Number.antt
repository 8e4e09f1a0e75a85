-- ===== src/Printf/Number.antt =====
-- What `printf_number` prints: the digits of the number, which stand for it and fit the buffer.
use native.Mathlib.Nat.{pow-suc}
use ab_os.Base.{
  ℕ, zero, suc, ◌+◌, ◌-◌, ◌*◌, ◌/◌, ◌%◌, ◌^◌, ◌≤◌, ◌<◌, ◌≡◌, ◌≢◌, refl, ◌∙◌, ◌⊎◌, inl, inr, Bool,
  true, false, List, [], ◌∷◌, arith, ltb, ◌==◌, if◌then◌else◌, u32_mod, length, Bool-cases, ltb→lt,
  ltb→le, le→ltb,
}
use ab_os.Printf.{div64_32, hex_char, digit_loop, absolute, number_chars, fetch, Length, long_long}

-- The bases that `kprintf` uses.
abbrev pub IsBase : ℕ → Type 0
IsBase b = (b ≡ 8) ⊎ (b ≡ 10) ⊎ (b ≡ 16)

-- The two divisions are the division of the whole 64-bit number.
pub div64_32_lem :
    (number base10 : ℕ)
    → IsBase base10
    → div64_32 number base10 ≡ (number / base10, number % base10)
unfolding div64_32
div64_32_lem n b (inl e) = rw e (ground arith)
div64_32_lem n b (inr (inl e)) = rw e (ground arith)
div64_32_lem n b (inr (inr e)) = rw e (ground arith)

-- The value of a printed digit, and of a list of them behind a prefix of value `acc`.
pub digit_value : ℕ → ℕ
digit_value c = if ltb c b'a' then c - b'0' else c - b'a' + 10

pub value_of : ℕ → ℕ → List ℕ → ℕ
value_of base10 acc [] = acc
value_of base10 acc (c ∷ cs) = value_of base10 (acc * base10 + digit_value c) cs

digit_value-hex_char : (r : ℕ) → r < 16 → digit_value (hex_char r) ≡ r
unfolding digit_value hex_char
digit_value-hex_char r h = ground arith

-- One division by a base of 8 at least.
division : (n b : ℕ) → IsBase b → (n / b * b + n % b ≡ n) × (n % b < 16) × (8 * (n / b) ≤ n)
division n b (inl e) = rw e (omega arith)
division n b (inr (inl e)) = rw e (omega arith)
division n b (inr (inr e)) = rw e (omega arith)

-- The last division: its remainder is the number.
division_last : (n b : ℕ) → IsBase b → n / b ≤ 0 → 0 * b + n % b ≡ n
division_last n b base h = let e : n / b ≡ 0 = omega arith in rw e at ((division n b base).0)

fuel_left : (fuel n : ℕ) → 8 ≤ n → n < 2 ^ suc fuel → 0 < fuel
fuel_left zero n h fits = absurd (omega arith)
fuel_left (suc fuel) n h fits = omega arith

-- Behind the digits of `number` the value is that of the number itself.
digit_loop-value_of :
    (fuel number base10 : ℕ) (buffer : List ℕ)
    → IsBase base10
    → number < 2 ^ fuel
    → 0 < fuel
    → value_of base10 0 (digit_loop fuel number base10 buffer) ≡ value_of base10 number buffer
unfolding digit_loop
digit_loop-value_of zero n b buffer base fits pos = elim pos [ ]
digit_loop-value_of (suc fuel) n b buffer base fits pos =
    let d = division n b base in
    rw (div64_32_lem n b base) (elim (Bool-cases (ltb 0 (n / b))) [
      | inl more ↦
          let q : 0 < n / b = ltb→lt 0 (n / b) more in
          rw more (
            digit_loop-value_of fuel (n / b) b (hex_char (n % b) ∷ buffer) base
              (omega (arith, d, pow-suc 2 fuel)) (fuel_left fuel n (omega (arith, d)) fits)
            ∙ last (n / b) d.0)
      | inr done ↦ rw done (last 0 (division_last n b base (ltb→le 0 (n / b) done)))
    ])
  where
    last :
        (q : ℕ) → q * b + n % b ≡ n → value_of b q (hex_char (n % b) ∷ buffer) ≡ value_of b n buffer
    last q e = unfold value_of in rw (digit_value-hex_char (n % b) (division n b base).1, e) refl

digit_loop-length :
    (fuel k number base10 : ℕ) (buffer : List ℕ)
    → IsBase base10
    → number < 8 ^ suc k
    → length (digit_loop fuel number base10 buffer) ≤ length buffer + suc k
unfolding digit_loop
digit_loop-length zero k n b buffer base fits = omega arith
digit_loop-length (suc fuel) zero n b buffer base fits =
    let d = division n b base in
    rw (div64_32_lem n b base, le→ltb 0 (n / b) (omega (arith, d))) (omega arith)
digit_loop-length (suc fuel) (suc k) n b buffer base fits =
    let d = division n b base in
    rw (div64_32_lem n b base) (elim (Bool-cases (ltb 0 (n / b))) [
      | inl more ↦ rw more (
          omega (
            arith,
            digit_loop-length fuel k (n / b) b (hex_char (n % b) ∷ buffer) base
                (omega (arith, d, pow-suc 8 (suc k))),
          ))
      | inr done ↦ rw done (omega arith)
    ])

-- The first character of a list, or a zero digit.
abbrev pub leading : List ℕ → ℕ
leading [] = b'0'
leading (c ∷ cs) = c

digit_loop-leading :
    (fuel number base10 : ℕ) (buffer : List ℕ)
    → IsBase base10
    → number < 2 ^ fuel
    → 0 < fuel
    → number ≢ 0
    → leading (digit_loop fuel number base10 buffer) ≢ b'0'
unfolding digit_loop hex_char
digit_loop-leading zero n b buffer base fits pos ne = elim pos [ ]
digit_loop-leading (suc fuel) n b buffer base fits pos ne =
    let d = division n b base in
    rw (div64_32_lem n b base) (elim (Bool-cases (ltb 0 (n / b))) [
      | inl more ↦
          let q : 0 < n / b = ltb→lt 0 (n / b) more in
          rw more (
            digit_loop-leading fuel (n / b) b (hex_char (n % b) ∷ buffer) base
              (omega (arith, d, pow-suc 2 fuel)) (fuel_left fuel n (omega (arith, d)) fits)
              (omega (arith, q)))
      | inr done ↦ rw done (λ e. ground (arith, d, division_last n b base (ltb→le 0 (n / b) done)))
    ])

-- For a 64-bit number in base 8, 10 or 16, `printf_number` prints digits that read back as the
-- number and have no zero in front but for 0 itself; a negative sign puts one `-` before them, and
-- all takes 23 characters at most.
pub number_chars_lem :
    (number base10 : ℕ)
    → IsBase base10
    → number < 2 ^ 64
    → let digits = number_chars number false base10 in
      (value_of base10 0 digits ≡ number)
      × (number ≢ 0 → leading digits ≢ b'0')
      × (number_chars number true base10 ≡ b'-' ∷ digits)
      × (length (number_chars number true base10) ≤ 23)
unfolding number_chars value_of
number_chars_lem n b base fits = (
  digit_loop-value_of 64 n b [] base fits (omega arith),
  digit_loop-leading 64 n b [] base fits (omega arith),
  refl,
  omega (arith, digit_loop-length 64 21 n b [] base (omega arith)),
)

abbrev pub is_long_long : Length → Bool
is_long_long long_long = true
is_long_long _ = false

-- The number and sign that a signed conversion works on, from 32-bit words: the magnitude of an
-- `int` or a `long long`, but for the most negative `int`, which keeps its sign bit through the
-- negation and is extended to 64 bits.
pub fetch_signed :
    (args : ℕ → ℕ) (i : ℕ) (len : Length)
    → args i < u32_mod
    → args (i + 1) < u32_mod
    → fetch args i len true ≡ (
        if is_long_long len
        then (let n = args i + args (i + 1) * u32_mod in
            ((if ltb n (2 ^ 63) then (n, false) else (2 ^ 64 - n, true)), i + 2))
        else (
          (if ltb (args i) (2 ^ 31)
              then (args i, false)
              else if args i == 2 ^ 31
              then (2 ^ 64 - 2 ^ 31, true)
              else (2 ^ 32 - args i, true)),
          i + 1,
        ))
unfolding fetch absolute
fetch_signed args i long_long lo hi = ground arith
fetch_signed args i _ lo hi = ground arith
