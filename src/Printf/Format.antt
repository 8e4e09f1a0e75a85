-- ===== src/Printf/Format.antt =====
-- `kprintf` against its specification: a format is a list of directives, and each has its effect.
use mathlib.Core.List.{flat_map}
use ab_os.Base.{
  ℕ, ◌+◌, ◌%◌, ◌≡◌, ◌≢◌, refl, ap, ◌∙◌, true, false, List, [], ◌∷◌, ◌++◌, ◌==◌, ==_ne, Memory,
}
use ab_os.Console.{Screen, putc, puts}
use ab_os.Printf.{
  Length, default, short_short, short, long, long_long, State, normal, length, length_short,
  length_long, spec, Printer, printf_number, conversion, round, loop, kprintf,
}

-- The conversions that `kprintf` knows.
pub data Kind : Type 0 where
  char string percent decimal integer unsigned upper_hex lower_hex pointer octal : Kind

-- A character of the text, or a conversion with its length.
pub data Directive : Type 0 where
  text : ℕ → Directive
  convert : Length → Kind → Directive

pub length_chars : Length → List ℕ
length_chars default = []
length_chars short_short = b'h' ∷ b'h' ∷ []
length_chars short = b'h' ∷ []
length_chars long = b'l' ∷ []
length_chars long_long = b'l' ∷ b'l' ∷ []

pub kind_char : Kind → ℕ
kind_char char = b'c'
kind_char string = b's'
kind_char percent = b'%'
kind_char decimal = b'd'
kind_char integer = b'i'
kind_char unsigned = b'u'
kind_char upper_hex = b'X'
kind_char lower_hex = b'x'
kind_char pointer = b'p'
kind_char octal = b'o'

-- How a directive is written in a format.
pub render : Directive → List ℕ
unfolding length_chars kind_char
render (text c) = c ∷ []
render (convert len kind) = b'%' ∷ length_chars len ++ kind_char kind ∷ []

abbrev pub IsText : List Directive → Type 0
IsText [] = Unit
IsText (text c ∷ ds) = (c ≢ b'%') × IsText ds
IsText (convert len kind ∷ ds) = IsText ds

-- No conversion is spelled like a length.
kind_char_not_length :
    (kind : Kind) → ((kind_char kind == b'h') ≡ false) × ((kind_char kind == b'l') ≡ false)
unfolding kind_char
kind_char_not_length char = (refl, refl)
kind_char_not_length _ = (refl, refl)

module _ (strings : ℕ → List ℕ) (args : Memory) where
  -- What a conversion does to the screen and to the position in the arguments.
  pub effect : Length → Kind → Screen × ℕ → Screen × ℕ
  effect len char (s, i) = (putc (args i % 256) s, i + 1)
  effect len string (s, i) = (puts (strings (args i)) s, i + 1)
  effect len percent (s, i) = (putc b'%' s, i)
  effect len decimal (s, i) = printf_number args i len true 10 s
  effect len integer (s, i) = printf_number args i len true 10 s
  effect len unsigned (s, i) = printf_number args i len false 10 s
  effect len upper_hex (s, i) = printf_number args i len false 16 s
  effect len lower_hex (s, i) = printf_number args i len false 16 s
  effect len pointer (s, i) = printf_number args i len false 16 s
  effect len octal (s, i) = printf_number args i len false 8 s

  pub run : List Directive → Screen × ℕ → Screen × ℕ
  run [] r = r
  run (text c ∷ ds) (s, i) = run ds (putc c s, i)
  run (convert len kind ∷ ds) r = run ds (effect len kind r)

  -- The printer between two directives.
  abbrev idle : Screen × ℕ → Printer
  idle r = record { state = normal; len = default; arg = r.1; screen = r.0 }

  loop-append :
      (xs ys : List ℕ) (p : Printer)
      → loop strings args (xs ++ ys) p ≡ loop strings args ys (loop strings args xs p)
  unfolding loop
  loop-append [] ys p = refl
  loop-append (x ∷ xs) ys p = loop-append xs ys (round strings args p.state x p)

  conversion-effect :
      (len : Length) (kind : Kind) (state : State) (r : Screen × ℕ)
      → conversion strings args
          (kind_char kind)
          (record { state = state; len = len; arg = r.1; screen = r.0 })
        ≡ idle (effect len kind r)
  unfolding conversion kind_char effect
  conversion-effect len char state r = refl
  conversion-effect len _ state r = refl

  loop-render :
      (len : Length) (kind : Kind) (r : Screen × ℕ)
      → loop strings args (render (convert len kind)) (idle r) ≡ idle (effect len kind r)
  unfolding loop round render
  loop-render default kind r =
      rw ((kind_char_not_length kind).0, (kind_char_not_length kind).1)
        (conversion-effect default kind length r)
  loop-render short_short kind r = conversion-effect short_short kind spec r
  loop-render short kind r =
      rw (kind_char_not_length kind).0 (conversion-effect short kind length_short r)
  loop-render long kind r =
      rw (kind_char_not_length kind).1 (conversion-effect long kind length_long r)
  loop-render long_long kind r = conversion-effect long_long kind spec r

  loop-text :
      (c : ℕ) (r : Screen × ℕ)
      → c ≢ b'%'
      → loop strings args (render (text c)) (idle r) ≡ idle (putc c r.0, r.1)
  unfolding loop round render
  loop-text c r ne = rw (==_ne c b'%' ne)

  loop-run :
      (ds : List Directive) (r : Screen × ℕ)
      → IsText ds
      → loop strings args (flat_map render ds) (idle r) ≡ idle (run ds r)
  unfolding run flat_map
  loop-run [] r h = unfold loop in refl
  loop-run (text c ∷ ds) r h =
      loop-append (render (text c)) (flat_map render ds) (idle r)
      ∙ ap (loop strings args (flat_map render ds)) (loop-text c r h.0)
      ∙ loop-run ds (putc c r.0, r.1) h.1
  loop-run (convert len kind ∷ ds) r h =
      loop-append (render (convert len kind)) (flat_map render ds) (idle r)
      ∙ ap (loop strings args (flat_map render ds)) (loop-render len kind r)
      ∙ loop-run ds (effect len kind r) h

  -- `kprintf` on a format written from directives, whose text has no percent sign, carries out the
  -- directives in order, each taking its arguments from where the one before it stopped.
  pub kprintf-run :
      (ds : List Directive) (s : Screen)
      → IsText ds
      → kprintf strings args (flat_map render ds) s ≡ (run ds (s, 0)).0
  unfolding kprintf
  kprintf-run ds s h = ap (λ (p : Printer). p.screen) (loop-run ds (s, 0) h)
