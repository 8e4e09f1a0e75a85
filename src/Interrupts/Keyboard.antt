-- ===== src/Interrupts/Keyboard.antt =====
-- kernel/interrupts/exceptions.c, `keyboard_handler`, with the key map of keyboard.h.
-- `input_buffer` is memory by the offset from the start of the array, whose 256 bytes end at offset
-- 255. The handler tests no bound: a line of 256 characters or more is stored over what stands behind
-- the array, here at the offsets from 256 on. What those bytes are (where the handler's own variables
-- stand is left to the linker) is not modelled, so a line is that of the C program only if it fits.
-- What `kprintf` shows goes to `screen`, whose `outs` also takes the end-of-interrupt command.
mod Tests
pub mod Editor
pub mod Line
use ab_os.Base.{
  ℕ, ◌+◌, ◌-◌, ◌/◌, Bool, true, false, not, ◌&&◌, ◌||◌, List, [], ◌∷◌, Memory, update, ltb, leb,
  ◌==◌, if◌then◌else◌, get_or,
}
use ab_os.Console.{Screen, putc}
use ab_os.Interrupts.Pic.{pic_send_eoi}

-- `key_info` and `e0` are the handler's static variables; `key_info.key` is never used.
pub record Keyboard : Type 0 where
  pub shift : Bool
  pub ctrl : Bool
  pub caps : Bool
  pub e0 : Bool
  pub input_buffer : Memory
  pub input_pos : ℕ
  pub input_ready : Bool
  pub screen : Screen

abbrev pub input_buffer_size : ℕ
input_buffer_size = 256

-- `keymap`, by scan code; what is not listed is 0.
abbrev pub keymap : List ℕ
keymap =
    0 ∷ 27 ∷ b'1' ∷ b'2' ∷ b'3' ∷ b'4' ∷ b'5' ∷ b'6' ∷ b'7' ∷ b'8' ∷ b'9' ∷ b'0' ∷ b'-' ∷ b'=' ∷ 8
    ∷ 9 ∷ b'q' ∷ b'w' ∷ b'e' ∷ b'r' ∷ b't' ∷ b'y' ∷ b'u' ∷ b'i' ∷ b'o' ∷ b'p' ∷ b'[' ∷ b']' ∷ 10 ∷ 0
    ∷ b'a' ∷ b's' ∷ b'd' ∷ b'f' ∷ b'g' ∷ b'h' ∷ b'j' ∷ b'k' ∷ b'l' ∷ b';' ∷ 39 ∷ b'`' ∷ 0 ∷ 92
    ∷ b'z' ∷ b'x' ∷ b'c' ∷ b'v' ∷ b'b' ∷ b'n' ∷ b'm' ∷ b',' ∷ b'.' ∷ b'/' ∷ 0 ∷ b'*' ∷ 0 ∷ b' ' ∷ 0
    ∷ []

-- `num_row_shifts`.
abbrev pub num_row_shifts : List ℕ
num_row_shifts = b')' ∷ b'!' ∷ b'@' ∷ b'#' ∷ b'$' ∷ b'%' ∷ b'^' ∷ b'&' ∷ b'*' ∷ b'(' ∷ []

-- The chain of tests on the modifier keys.
pub modifiers : ℕ → Keyboard → Keyboard
modifiers key k =
    if key == 0x2A || key == 0x36
    then record k { shift = true }
    else if key == 0xAA || key == 0xB6
    then record k { shift = false }
    else if key == 0x1D
    then record k { ctrl = true }
    else if key == 0x9D
    then record k { ctrl = false }
    else if key == 0x3A && k.caps
    then record k { caps = false }
    else if key == 0x3A && not k.caps
    then record k { caps = true }
    else if key == 0xE0
    then record k { e0 = true }
    else k

-- The character of a key under shift or caps lock.
pub shifted : ℕ → ℕ
shifted keypressed =
    if leb b'a' keypressed && leb keypressed b'z'
    then keypressed - 0x20
    else if leb b'0' keypressed && leb keypressed b'9'
    then get_or num_row_shifts (keypressed - 0x30) 0
    else if keypressed == b'='
    then b'+'
    else if keypressed == b'/'
    then b'?'
    else keypressed

pub translate : ℕ → Keyboard → ℕ
unfolding shifted
translate key k =
    let keypressed = get_or keymap key 0 in
    if k.shift || k.caps then shifted keypressed else keypressed

-- What a character does to the line that is being typed.
pub accept : ℕ → Keyboard → Keyboard
accept keypressed k =
    if keypressed == 0x08
    then (if ltb 0 k.input_pos
        then record k {
          input_pos = k.input_pos - 1;
          input_buffer = update k.input_buffer (k.input_pos - 1) 0;
          screen = putc 0x08 k.screen;
        }
        else k)
    else if keypressed == b'\n'
    then record k { input_ready = true; screen = putc b'\n' k.screen; input_pos = 0 }
    else record k {
      input_buffer = update (update k.input_buffer k.input_pos keypressed) (k.input_pos + 1) 0;
      input_pos = k.input_pos + 1;
      screen = putc keypressed k.screen;
    }

-- The part for make codes.
pub press : ℕ → Keyboard → Keyboard
press key k =
    if ltb key 0x80 && not k.e0
    then (let keypressed = translate key k in if keypressed == 0 then k else accept keypressed k)
    else k

-- The handler, for the byte that `inb(0x60)` reads.
pub keyboard_handler : ℕ → Keyboard → Keyboard
keyboard_handler key k =
    let pressed = press key (modifiers key k) in
    let cleared = if pressed.e0 then record pressed { e0 = false } else pressed in
    let handled = if key == 0 then k else cleared in
    record handled { screen = record handled.screen { outs = pic_send_eoi 1 handled.screen.outs } }

-- `readline` before its wait; it returns `input_buffer` once `input_ready` is set.
pub start_line : Keyboard → Keyboard
start_line k = record k {
  input_pos = 0;
  input_buffer = update k.input_buffer 0 0;
  input_ready = false;
}
