-- ===== src/Console/Tests.antt =====
-- Runs of the console near the ends of a line and of the screen.
use ab_os.Base.{ℕ, ◌%◌, ◌<◌, ◌≡◌, refl, [], arith}
use ab_os.Console.{Screen, putc}
use ab_os.Console.Scroll.{byte_of}
use ab_os.Console.Cursor.{InScreen, position}
use ab_os.Console.Cells.{scrolled, putc_plain}

-- The last cell of the screen.
abbrev corner : Screen
corner = record { vga = λ a. a % 256; x = 79; y = 24; outs = [] }

abbrev indented : Screen
indented = record { vga = λ a. 0; x = 3; y = 2; outs = [] }

corner-InScreen : InScreen corner
corner-InScreen = record { x_in = omega arith; y_in = omega arith }

indented-InScreen : InScreen indented
indented-InScreen = record { x_in = omega arith; y_in = omega arith }

putc_plain_example :
    (position (putc b'a' corner) ≡ 1920)
    × ((part j : ℕ)
        → part < 2
        → (putc b'a' corner).vga (byte_of part j) ≡ scrolled corner.vga 1999 b'a' part j)
putc_plain_example = putc_plain b'a' corner refl corner-InScreen
