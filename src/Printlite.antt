-- ===== src/Printlite.antt =====
-- kernel/printlite.c, which kernel/stdio.c replaces: the screen at 0xB8000 as bytes behind
-- `screenBuffer`, with `screenX` and `screenY`. Nothing scrolls, and a position may leave the screen.
use ab_os.Base.{
  ℕ, ◌+◌, ◌*◌, ◌/◌, ◌%◌, ◌≡◌, ◌∙◌, Memory, update, ◌==◌, ltb, ◌&&◌, if◌then◌else◌, List, [], ◌∷◌,
  for_range, for_range_inv, arith,
}

pub record TextScreen : Type 0 where
  pub screen_buffer : Memory
  pub screen_x : ℕ
  pub screen_y : ℕ

abbrev pub width : ℕ
width = 80

abbrev pub height : ℕ
height = 25

abbrev pub default_color : ℕ
default_color = 0x07

pub printchar : ℕ → ℕ → ℕ → Memory → Memory
printchar x y c m = update m (2 * (y * width + x)) c

pub colorassign : ℕ → ℕ → ℕ → Memory → Memory
colorassign x y color m = update m (2 * (y * width + x) + 1) color

-- The inner loop of `clear`.
pub clear_row : ℕ → Memory → Memory
unfolding printchar colorassign
clear_row y = for_range width 0 (λ x m. colorassign x y default_color (printchar x y 0 m))

pub clear : TextScreen → TextScreen
unfolding clear_row
clear s = record {
  screen_buffer = for_range height 0 clear_row s.screen_buffer;
  screen_x = 0;
  screen_y = 0;
}

pub print_c : ℕ → TextScreen → TextScreen
unfolding printchar
print_c c s =
    if c == b'\n' then record s { screen_x = 0; screen_y = s.screen_y + 1 } else record s {
      screen_buffer = printchar s.screen_x s.screen_y c s.screen_buffer;
      screen_x = s.screen_x + 1;
    }

-- The characters of a string, without its terminator.
pub print_s : List ℕ → TextScreen → TextScreen
unfolding print_c
print_s [] s = s
print_s (c ∷ cs) s = print_s cs (print_c c s)

-- What `clear` puts in a byte of the screen.
abbrev blank : ℕ → ℕ
blank a = if a % 2 == 0 then 0 else default_color

clear_row_lem :
    (y : ℕ) (m : Memory) (a : ℕ) → clear_row y m a ≡ (if a / 160 == y then blank a else m a)
unfolding clear_row printchar colorassign
clear_row_lem y m a =
    for_range_inv
      (λ k m'. (b : ℕ) → m' b ≡ (if (b / 160 == y) && ltb (b % 160) (2 * k) then blank b else m b))
      (λ x m'. colorassign x y default_color (printchar x y 0 m')) width
      (λ k m' l h b. ground (arith, h b, l)) width 0 m (omega arith) (λ b. ground arith) a
    ∙ ground arith

-- `clear` makes each of the 2000 cells a blank in the default colour, and changes no other byte.
pub clear_lem :
    (s : TextScreen) (a : ℕ)
    → (clear s).screen_buffer a ≡ (if ltb a 4000 then blank a else s.screen_buffer a)
unfolding clear
clear_lem s a =
    for_range_inv (λ k m. (b : ℕ) → m b ≡ (if ltb b (160 * k) then blank b else s.screen_buffer b))
      clear_row height (λ k m l h b. ground (arith, clear_row_lem k m b, h b)) height 0
      s.screen_buffer (omega arith) (λ b. ground arith) a
    ∙ ground arith
