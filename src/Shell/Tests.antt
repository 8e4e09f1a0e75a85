-- ===== src/Shell/Tests.antt =====
-- The names of the commands, and a line.
use ab_os.Base.{
  ℕ, zero, suc, ◌+◌, ◌/◌, ◌%◌, ◌≡◌, refl, Bool, true, not, ◌&&◌, ltb, ◌==◌, Memory, Option, some,
  List, [], ◌∷◌, arith,
}
use ab_os.Str.Scan.{StringAt}
use ab_os.Shell.{
  Command, printmem, ls, exit, clear, exec, help, touch, cat, editfile, printregisters, commands,
  parse,
}
use ab_os.Shell.Commands.{Chosen, parse-Chosen}

abbrev name : Command → List ℕ
name printmem = b'p' ∷ b'r' ∷ b'i' ∷ b'n' ∷ b't' ∷ b'm' ∷ b'e' ∷ b'm' ∷ []
name ls = b'l' ∷ b's' ∷ []
name exit = b'e' ∷ b'x' ∷ b'i' ∷ b't' ∷ []
name clear = b'c' ∷ b'l' ∷ b'e' ∷ b'a' ∷ b'r' ∷ []
name exec = b'e' ∷ b'x' ∷ b'e' ∷ b'c' ∷ []
name help = b'h' ∷ b'e' ∷ b'l' ∷ b'p' ∷ []
name touch = b't' ∷ b'o' ∷ b'u' ∷ b'c' ∷ b'h' ∷ []
name cat = b'c' ∷ b'a' ∷ b't' ∷ []
name editfile = b'e' ∷ b'd' ∷ b'i' ∷ b't' ∷ b'f' ∷ b'i' ∷ b'l' ∷ b'e' ∷ []
name printregisters =
    b'p' ∷ b'r' ∷ b'i' ∷ b'n' ∷ b't' ∷ b'r' ∷ b'e' ∷ b'g' ∷ b'i' ∷ b's' ∷ b't' ∷ b'e' ∷ b'r' ∷ b's'
    ∷ []

abbrev literal : Command → ℕ
literal printmem = 0
literal ls = 32
literal exit = 64
literal clear = 96
literal exec = 128
literal help = 160
literal touch = 192
literal cat = 224
literal editfile = 256
literal printregisters = 288

abbrev char_at : List ℕ → ℕ → ℕ
char_at [] i = 0
char_at (c ∷ cs) zero = c
char_at (c ∷ cs) (suc i) = char_at cs i

abbrev name_at : List Command → ℕ → List ℕ
name_at [] i = name cat
name_at (c ∷ cs) zero = name c
name_at (c ∷ cs) (suc i) = name_at cs i

-- Each name in 32 bytes of its own, and the line "cat" behind them, at 320.
abbrev bytes : Memory
bytes a = char_at (name_at commands (a / 32)) (a % 32)

spelled : Memory → ℕ → List ℕ → Bool
spelled m a [] = m a == 0
spelled m a (c ∷ cs) = m a == c && not (c == 0) && ltb c 256 && spelled m (a + 1) cs

spelled-StringAt : (m : Memory) (a : ℕ) (cs : List ℕ) → spelled m a cs ≡ true → StringAt m a cs
unfolding spelled
spelled-StringAt m a [] h = ground arith
spelled-StringAt m a (c ∷ cs) h =
    (ground arith, ground arith, ground arith, spelled-StringAt m (a + 1) cs (ground arith))

literals : (c : Command) → spelled bytes (literal c) (name c) ≡ true
unfolding spelled
literals printmem = refl
literals ls = refl
literals exit = refl
literals clear = refl
literals exec = refl
literals help = refl
literals touch = refl
literals cat = refl
literals editfile = refl
literals printregisters = refl

line_typed : spelled bytes 320 (name cat) ≡ true
unfolding spelled
line_typed = refl

parse-Chosen_example :
    (r : Option Command) × (parse 9 bytes 320 literal commands ≡ some r)
    × Chosen name (name cat) commands r
parse-Chosen_example =
    parse-Chosen 9 bytes 320 literal name (name cat) commands
      (spelled-StringAt bytes 320 (name cat) line_typed)
      (λ c. spelled-StringAt bytes (literal c) (name c) (literals c)) (omega arith)
