-- ===== src/Interrupts/Keyboard/Line.antt =====
-- The keys of a whole line, up to the enter key, and the array that they fill.
use ab_os.Base.{
  ℕ, ◌≤◌, ◌<◌, ◌≡◌, ◌≢◌, refl, sym, ◌∙◌, true, false, not, ◌&&◌, List, [], ◌∷◌, arith, Memory, ltb,
  ◌==◌, if◌then◌else◌, length, inl, inr, Bool-cases, ap,
}
use mathlib.Core.Path.{subst}
use ab_os.Interrupts.Keyboard.{
  Keyboard, input_buffer_size, modifiers, translate, accept, press, keyboard_handler, start_line,
}
use ab_os.Interrupts.Keyboard.Editor.{
  Text, edit, Typed, Holds, key_edit, modifiers_line, modifiers-Holds, modifiers-e0, handler_line,
  keyboard_handler-e0, keyboard_handler-Holds, start_line-Holds,
}

-- The interrupts of a list of keys.
pub handle_keys : List ℕ → Keyboard → Keyboard
handle_keys [] k = k
handle_keys (key ∷ keys) k = handle_keys keys (keyboard_handler key k)

-- The text that they type, and that none of them ends the line.
unfoldable pub type_keys : List ℕ → Keyboard → Text → Text
type_keys [] k text = text
type_keys (key ∷ keys) k text = type_keys keys (keyboard_handler key k) (key_edit key k text)

abbrev pub NoEnter : List ℕ → Keyboard → Type 0
NoEnter [] k = Unit
NoEnter (key ∷ keys) k =
    (translate key (modifiers key k) ≢ b'\n') × NoEnter keys (keyboard_handler key k)

-- Behind no key the line has more than 255 characters: with its terminator it fits the array.
abbrev pub Fits : List ℕ → Keyboard → Text → Type 0
Fits [] k text = Unit
Fits (key ∷ keys) k text =
    (length (key_edit key k text) < input_buffer_size)
    × Fits keys (keyboard_handler key k) (key_edit key k text)

accept_beyond :
    (c : ℕ) (k : Keyboard) (text : Text) (i : ℕ)
    → Holds k text
    → length (edit c text) < input_buffer_size
    → input_buffer_size ≤ i
    → (accept c k).input_buffer i ≡ k.input_buffer i
unfolding accept
accept_beyond c k [] i h fits far = ground (arith, h.at_end)
accept_beyond c k (d ∷ text) i h fits far = ground (arith, h.at_end)

press_beyond :
    (key : ℕ) (m : Keyboard) (text : Text) (i : ℕ)
    → (ltb key 0x80 && not m.e0) ≡ ltb key 0x80
    → Holds m text
    → length
        (if ltb key 0x80 && not (translate key m == 0) then edit (translate key m) text else text)
      < input_buffer_size
    → input_buffer_size ≤ i
    → (press key m).input_buffer i ≡ m.input_buffer i
unfolding press
press_beyond key m text i off h fits far =
    let c = translate key m in
    elim (Bool-cases (ltb key 0x80 && not (c == 0))) [
      | inl typed ↦ ground (
        arith,
        off,
        typed,
        accept_beyond c m text i h
            (subst (λ b. length (if b then edit c text else text) < input_buffer_size) typed fits)
            far,
      )
      | inr nothing ↦ ground (arith, off, nothing)
    ]

handler_beyond :
    (key : ℕ) (k : Keyboard) (text : Text) (i : ℕ)
    → k.e0 ≡ false
    → Holds k text
    → length (key_edit key k text) < input_buffer_size
    → input_buffer_size ≤ i
    → (keyboard_handler key k).input_buffer i ≡ k.input_buffer i
handler_beyond key k text i e0 h fits far = elim (Bool-cases (key == 0)) [
  | inl none ↦ let e : key ≡ 0 = ground arith in rw e (unfold keyboard_handler in refl)
  | inr some_key ↦
      let l = handler_line key k some_key in
      let m = modifiers_line key k in
      ap (λ (b : Memory). b i) l.1
      ∙ press_beyond key (modifiers key k) text i (ground (arith, modifiers-e0 key k e0))
          (modifiers-Holds key k text h) fits far
      ∙ ap (λ (b : Memory). b i) m.1
]

handle_keys_beyond :
    (keys : List ℕ) (k : Keyboard) (text : Text) (i : ℕ)
    → k.e0 ≡ false
    → NoEnter keys k
    → Fits keys k text
    → Holds k text
    → input_buffer_size ≤ i
    → (handle_keys keys k).input_buffer i ≡ k.input_buffer i
unfolding handle_keys
handle_keys_beyond [] k text i e0 ne fits h far = refl
handle_keys_beyond (key ∷ keys) k text i e0 ne fits h far =
    handle_keys_beyond keys (keyboard_handler key k) (key_edit key k text) i
      (keyboard_handler-e0 key k e0) ne.1 fits.1 (keyboard_handler-Holds key k text e0 ne.0 h) far
    ∙ handler_beyond key k text i e0 h fits.0 far

handle_keys-Holds :
    (keys : List ℕ) (k : Keyboard) (text : Text)
    → k.e0 ≡ false
    → NoEnter keys k
    → Holds k text
    → Holds (handle_keys keys k) (type_keys keys k text) × ((handle_keys keys k).e0 ≡ false)
unfolding handle_keys type_keys
handle_keys-Holds [] k text e0 ne h = (h, e0)
handle_keys-Holds (key ∷ keys) k text e0 ne h =
    handle_keys-Holds keys (keyboard_handler key k) (key_edit key k text)
      (keyboard_handler-e0 key k e0) ne.1 (keyboard_handler-Holds key k text e0 ne.0 h)

enter_line :
    (k : Keyboard)
    → k.e0 ≡ false
    → ((keyboard_handler 0x1C k).input_ready ≡ true)
      × ((keyboard_handler 0x1C k).input_buffer ≡ k.input_buffer)
unfolding keyboard_handler press modifiers accept translate
enter_line k e0 = ground arith

start_beyond :
    (k : Keyboard) (i : ℕ)
    → input_buffer_size ≤ i
    → (start_line k).input_buffer i ≡ k.input_buffer i
unfolding start_line
start_beyond k i far = ground arith

-- From `readline` on, with no 0xE0 pending: once the enter key follows keys that do not end the
-- line and never make it longer than 255 characters, the line is ready, the buffer holds the
-- characters that the keys typed, with a terminator, and no byte behind the array was written.
pub handle_keys-line :
    (keys : List ℕ) (k : Keyboard)
    → k.e0 ≡ false
    → NoEnter keys (start_line k)
    → Fits keys (start_line k) []
    → let k' = keyboard_handler 0x1C (handle_keys keys (start_line k)) in
      let text = type_keys keys (start_line k) [] in
      (k'.input_ready ≡ true)
      × Typed k'.input_buffer text
      × (k'.input_buffer (length text) ≡ 0)
      × ((i : ℕ) → input_buffer_size ≤ i → k'.input_buffer i ≡ k.input_buffer i)
handle_keys-line keys k e0 ne fits =
    let text = type_keys keys (start_line k) [] in
    let h =
      handle_keys-Holds keys (start_line k) [] (unfold start_line in e0) ne (start_line-Holds k) in
    let last = enter_line (handle_keys keys (start_line k)) h.1 in
    (
      last.0,
      subst (λ b. Typed b text) (sym last.1) h.0.characters,
      ap (λ (b : Memory). b (length text)) last.1 ∙ h.0.sentinel,
      λ i far.
          ap (λ (b : Memory). b i) last.1
          ∙ handle_keys_beyond keys (start_line k) [] i (unfold start_line in e0) ne fits
              (start_line-Holds k) far
          ∙ start_beyond k i far,
    )
