-- ===== src/Interrupts/Keyboard/Tests.antt =====
-- Keys on a keyboard with nothing held: "h", shift and "i", then enter.
use ab_os.Base.{ℕ, ◌≤◌, ◌≡◌, ◌≢◌, refl, true, false, List, [], ◌∷◌, arith, length}
use ab_os.Interrupts.Keyboard.{
  Keyboard, input_buffer_size, modifiers, shifted, translate, accept, press, keyboard_handler,
  start_line,
}
use ab_os.Interrupts.Keyboard.Editor.{Typed}
use ab_os.Interrupts.Keyboard.Line.{handle_keys, type_keys, NoEnter, Fits, handle_keys-line}

abbrev idle : Keyboard
idle = record {
  shift = false;
  ctrl = false;
  caps = false;
  e0 = false;
  input_buffer = λ a. 7;
  input_pos = 9;
  input_ready = false;
  screen = record { vga = λ a. 0; x = 0; y = 0; outs = [] };
}

-- 'h' and its break code, shift, 'i', and the end of shift.
abbrev keys : List ℕ
keys = 0x23 ∷ 0xA3 ∷ 0x2A ∷ 0x17 ∷ 0xAA ∷ []

typed : type_keys keys (start_line idle) [] ≡ b'I' ∷ b'h' ∷ []
unfolding type_keys start_line keyboard_handler press modifiers translate shifted accept
typed = refl

keys-Fits : Fits keys (start_line idle) []
unfolding start_line keyboard_handler press modifiers translate shifted accept
keys-Fits = (omega arith, (omega arith, (omega arith, (omega arith, (omega arith, tt)))))

keys-NoEnter : NoEnter keys (start_line idle)
unfolding start_line keyboard_handler press modifiers translate shifted accept
keys-NoEnter = (omega arith, (omega arith, (omega arith, (omega arith, (omega arith, tt)))))

handle_keys-line_example :
    let k' = keyboard_handler 0x1C (handle_keys keys (start_line idle)) in
    let text = type_keys keys (start_line idle) [] in
    (k'.input_ready ≡ true)
    × Typed k'.input_buffer text
    × (k'.input_buffer (length text) ≡ 0)
    × ((i : ℕ) → input_buffer_size ≤ i → k'.input_buffer i ≡ 7)
handle_keys-line_example = handle_keys-line keys idle refl keys-NoEnter keys-Fits

not_enter : translate 0x23 (modifiers 0x23 (start_line idle)) ≢ b'\n'
unfolding start_line modifiers translate
not_enter = omega arith

start_line-e0 : (start_line idle).e0 ≡ false
unfolding start_line
start_line-e0 = refl
