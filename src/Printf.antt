-- ===== src/Printf.antt =====
-- kernel/stdio.c, lines 140 to 325: `printf_number` and `kprintf`, with `_x86_div64_32` of
-- kernel/x86.s. The variadic arguments are the 32-bit words that the caller pushed, by index: an
-- `int`, a `long` or a pointer takes one, a `long long` two, the low one first. `strings` gives the
-- characters at a pointer. What is negative is its bit pattern, and `n = -n` wraps.
mod Tests
pub mod Number
pub mod Format
use ab_os.Base.{
  ℕ, zero, suc, ◌+◌, ◌-◌, ◌*◌, ◌/◌, ◌%◌, ◌^◌, Bool, true, false, ◌&&◌, ◌||◌, List, [], ◌∷◌, ltb,
  ◌==◌, if◌then◌else◌, u32_mod, Memory, get_or,
}
use ab_os.Console.{Screen, putc, puts}

-- `PRINTF_LENGTH_*`.
pub data Length : Type 0 where
  default short_short short long long_long : Length

-- `PRINTF_STATE_*`.
pub data State : Type 0 where
  normal length length_short length_long spec : State

-- The two `DIV`s of the assembly: EDX:EAX by ECX, the high half first.
unfoldable pub div64_32 : ℕ → ℕ → ℕ × ℕ
div64_32 number divisor =
    let high = number / u32_mod in
    let low = number % u32_mod in
    let eax = (high % divisor) * u32_mod + low in
    ((high / divisor) * u32_mod + eax / divisor, eax % divisor)

-- `g_HexChars[rem]`.
pub hex_char : ℕ → ℕ
hex_char rem = if ltb rem 10 then b'0' + rem else b'a' + (rem - 10)

-- The `do` loop: the digits go to the front, as they are printed from the last one back.
pub digit_loop : ℕ → ℕ → ℕ → List ℕ → List ℕ
digit_loop zero number base10 buffer = buffer
digit_loop (suc fuel) number base10 buffer =
    let (quotient, rem) = div64_32 number base10 in
    let buffer' = hex_char rem ∷ buffer in
    let rest = digit_loop fuel quotient base10 buffer' in if ltb 0 quotient then rest else buffer'

-- `if(n < 0) { n = -n; number_sign = -1; }` and the conversion to `unsigned long long`, for a
-- signed `n` of `width` bits: the number, and whether the sign is negative.
unfoldable pub absolute : ℕ → ℕ → ℕ × Bool
absolute width n =
    if ltb n (2 ^ (width - 1))
    then (n, false)
    else (let negated = (2 ^ width - n) % 2 ^ width in
        ((if ltb negated (2 ^ (width - 1)) then negated else negated + 2 ^ 64 - 2 ^ width), true))

-- The `switch` on the length: the number, its sign, and the next argument.
pub fetch : Memory → ℕ → Length → Bool → (ℕ × Bool) × ℕ
unfolding absolute
fetch args i long_long sign =
    let n = args i + args (i + 1) * u32_mod in ((if sign then absolute 64 n else (n, false)), i + 2)
fetch args i _ sign = ((if sign then absolute 32 (args i) else (args i, false)), i + 1)

-- The characters that `printf_number` hands to `putc`, in order.
pub number_chars : ℕ → Bool → ℕ → List ℕ
unfolding div64_32 digit_loop hex_char
number_chars number negative base10 =
    let digits = digit_loop 64 number base10 [] in if negative then b'-' ∷ digits else digits

pub printf_number : Memory → ℕ → Length → Bool → ℕ → Screen → Screen × ℕ
printf_number args i len sign base10 s =
    let ((number, negative), j) = fetch args i len sign in
    (puts (number_chars number (sign && negative) base10) s, j)

-- `kprintf` between two characters: `state`, `length`, the next argument, and the screen.
-- `base10` and `sign` are set before each use.
pub record Printer : Type 0 where
  pub state : State
  pub len : Length
  pub arg : ℕ
  pub screen : Screen

module _ (strings : ℕ → List ℕ) (args : Memory) where
  -- `case PRINTF_STATE_SPEC`.
  pub conversion : ℕ → Printer → Printer
  conversion c p =
      let number : Bool → ℕ → Screen × ℕ =
        λ sign base10. printf_number args p.arg p.len sign base10 p.screen in
      let (screen, arg) =
        (if c == b'c'
          then (putc (args p.arg % 256) p.screen, p.arg + 1)
          else if c == b's'
          then (puts (strings (args p.arg)) p.screen, p.arg + 1)
          else if c == b'%'
          then (putc b'%' p.screen, p.arg)
          else if c == b'd' || c == b'i'
          then number true 10
          else if c == b'u'
          then number false 10
          else if c == b'X' || c == b'x' || c == b'p'
          then number false 16
          else if c == b'o'
          then number false 8
          else (p.screen, p.arg)) in
      record { state = normal; len = default; arg = arg; screen = screen }

  -- One round of the loop.
  pub round : State → ℕ → Printer → Printer
  round normal c p =
      if c == b'%' then record p { state = length } else record p { screen = putc c p.screen }
  round length c p =
      if c == b'h'
      then record p { len = short; state = length_short }
      else if c == b'l'
      then record p { len = long; state = length_long }
      else conversion c p
  round length_short c p =
      if c == b'h' then record p { len = short_short; state = spec } else conversion c p
  round length_long c p =
      if c == b'l' then record p { len = long_long; state = spec } else conversion c p
  round spec c p = conversion c p

  pub loop : List ℕ → Printer → Printer
  loop [] p = p
  loop (c ∷ fmt) p = loop fmt (round p.state c p)

  pub kprintf : List ℕ → Screen → Screen
  unfolding loop round conversion
  kprintf fmt s = (loop fmt (record { state = normal; len = default; arg = 0; screen = s })).screen
