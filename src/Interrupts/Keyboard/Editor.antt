-- ===== src/Interrupts/Keyboard/Editor.antt =====
-- The line that is being typed: one interrupt of the keyboard does to the buffer what an editor does to
-- a list of characters.
use ab_os.Base.{
  ℕ, ◌+◌, ◌-◌, ◌≤◌, ◌≡◌, ◌≢◌, refl, sym, ◌∙◌, true, false, not, ◌&&◌, List, [], ◌∷◌, arith, Memory,
  update, ltb, ◌==◌, if◌then◌else◌, length, inl, inr, Bool-cases, ==_ne, lt→ltb, ap,
}
use mathlib.Core.Path.{subst}
use ab_os.Interrupts.Keyboard.{
  Keyboard, modifiers, translate, accept, press, keyboard_handler, start_line,
}

-- The characters of a line, the last one first.
abbrev pub Text : Type 0
Text = List ℕ

-- The editor: a backspace takes the last character away, any other character goes behind it.
abbrev pub edit : ℕ → Text → Text
edit c [] = if c == 0x08 then [] else c ∷ []
edit c (d ∷ text) = if c == 0x08 then text else c ∷ d ∷ text

abbrev pub Typed : Memory → Text → Type 0
Typed buffer [] = Unit
Typed buffer (c ∷ text) = (buffer (length text) ≡ c) × Typed buffer text

-- The buffer holds the text and a terminator, and `input_pos` stands at the terminator.
pub record Holds (k : Keyboard) (text : Text) : Type 0 where
  pub at_end : k.input_pos ≡ length text
  pub characters : Typed k.input_buffer text
  pub sentinel : k.input_buffer (length text) ≡ 0

-- A store from the end of the text on does not change it.
Typed-update :
    (buffer : Memory) (text : Text) (i v : ℕ)
    → length text ≤ i
    → Typed buffer text
    → Typed (update buffer i v) text
Typed-update buffer [] i v h t = tt
Typed-update buffer (c ∷ text) i v h t =
    (ground (arith, t.0), Typed-update buffer text i v (omega arith) t.1)

pub start_line-Holds : (k : Keyboard) → Holds (start_line k) []
unfolding start_line
start_line-Holds k = record { at_end = refl; characters = tt; sentinel = refl }

accept-Holds_add :
    (c : ℕ) (k : Keyboard) (text : Text)
    → (c == 0x08) ≡ false
    → c ≢ b'\n'
    → Holds k text
    → Holds (accept c k) (c ∷ text)
unfolding accept
accept-Holds_add c k text other ne h =
    let n = length text in
    let stored = update k.input_buffer k.input_pos c in
    rw (other, ==_ne c b'\n' ne)
      (record {
        at_end = omega (arith, h.at_end);
        characters = (
          ground (arith, h.at_end),
          Typed-update stored text (k.input_pos + 1) 0 (omega (arith, h.at_end)) (
              Typed-update k.input_buffer text k.input_pos c (omega (arith, h.at_end))
                h.characters),
        );
        sentinel = ground (arith, h.at_end);
      })

-- Any character but the newline does to the buffer what the editor does to the text.
pub accept-Holds :
    (c : ℕ) (k : Keyboard) (text : Text)
    → c ≢ b'\n'
    → Holds k text
    → Holds (accept c k) (edit c text)
accept-Holds c k [] ne h = elim (Bool-cases (c == 0x08)) [
  | inl back ↦
      rw back (let e : c ≡ 0x08 = ground arith in rw e (unfold accept in ground (arith, h)))
  | inr other ↦ rw other (accept-Holds_add c k [] other ne h)
]
accept-Holds c k (d ∷ text) ne h = elim (Bool-cases (c == 0x08)) [
  | inl back ↦ rw back (
      unfold accept in
      rw (back, lt→ltb 0 k.input_pos (omega (arith, h.at_end)))
        (record {
          at_end = omega (arith, h.at_end);
          characters =
              Typed-update k.input_buffer text (k.input_pos - 1) 0 (omega (arith, h.at_end))
                h.characters.1;
          sentinel = ground (arith, h.at_end);
        }))
  | inr other ↦ rw other (accept-Holds_add c k (d ∷ text) other ne h)
]

-- The newline ends the line: the text stays in the buffer, with its terminator.
pub accept_newline :
    (k : Keyboard) (text : Text)
    → Holds k text
    → let k' = accept b'\n' k in
      (k'.input_ready ≡ true) × Typed k'.input_buffer text × (k'.input_buffer (length text) ≡ 0)
unfolding accept
accept_newline k text h = (refl, h.characters, h.sentinel)

-- The modifier keys leave the line alone.
pub modifiers_line :
    (key : ℕ) (k : Keyboard)
    → ((modifiers key k).input_pos ≡ k.input_pos)
      × ((modifiers key k).input_buffer ≡ k.input_buffer)
      × ((modifiers key k).input_ready ≡ k.input_ready)
unfolding modifiers
modifiers_line key k = ground arith

-- What a key adds to the line: no character for a break code, or for a key that types none.
abbrev pub key_edit : ℕ → Keyboard → Text → Text
key_edit key k text =
    let c = translate key (modifiers key k) in
    if ltb key 0x80 && not (c == 0) then edit c text else text

-- The two fields decide what is held.
Holds-same :
    (k k' : Keyboard) (text : Text)
    → k'.input_pos ≡ k.input_pos
    → k'.input_buffer ≡ k.input_buffer
    → Holds k text
    → Holds k' text
Holds-same k k' text pos buffer h = record {
  at_end = pos ∙ h.at_end;
  characters = subst (λ b. Typed b text) (sym buffer) h.characters;
  sentinel = ap (λ (b : Memory). b (length text)) buffer ∙ h.sentinel;
}

pub modifiers-Holds :
    (key : ℕ) (k : Keyboard) (text : Text) → Holds k text → Holds (modifiers key k) text
modifiers-Holds key k text h =
    let m = modifiers_line key k in Holds-same k (modifiers key k) text m.0 m.1 h

pub modifiers-e0 : (key : ℕ) (k : Keyboard) → k.e0 ≡ false → (modifiers key k).e0 ≡ key == 0xE0
unfolding modifiers
modifiers-e0 key k h = ground arith

press-Holds_of :
    (key : ℕ) (m : Keyboard) (text : Text)
    → (ltb key 0x80 && not m.e0) ≡ ltb key 0x80
    → translate key m ≢ b'\n'
    → Holds m text
    → Holds
        (press key m)
        (if ltb key 0x80 && not (translate key m == 0) then edit (translate key m) text else text)
unfolding press
press-Holds_of key m text off ne h =
    let c = translate key m in
    rw off (elim (Bool-cases (ltb key 0x80)) [
      | inr break ↦ rw break h
      | inl make ↦ rw make (elim (Bool-cases (c == 0)) [
        | inl nothing ↦ rw nothing h
        | inr some_char ↦ rw some_char (accept-Holds c m text ne h)
      ])
    ])

press-Holds :
    (key : ℕ) (k : Keyboard) (text : Text)
    → k.e0 ≡ false
    → translate key (modifiers key k) ≢ b'\n'
    → Holds k text
    → Holds (press key (modifiers key k)) (key_edit key k text)
press-Holds key k text e0 ne h =
    press-Holds_of key (modifiers key k) text (ground (arith, modifiers-e0 key k e0)) ne
      (modifiers-Holds key k text h)

pub handler_line :
    (key : ℕ) (k : Keyboard)
    → (key == 0) ≡ false
    → ((keyboard_handler key k).input_pos ≡ (press key (modifiers key k)).input_pos)
      × ((keyboard_handler key k).input_buffer ≡ (press key (modifiers key k)).input_buffer)
      × ((keyboard_handler key k).input_ready ≡ (press key (modifiers key k)).input_ready)
unfolding keyboard_handler
handler_line key k ne = ground arith

-- If no 0xE0 is pending before a key, none is after it, the key 0xE0 itself included.
pub keyboard_handler-e0 :
    (key : ℕ) (k : Keyboard) → k.e0 ≡ false → (keyboard_handler key k).e0 ≡ false
unfolding keyboard_handler
keyboard_handler-e0 key k h = ground arith

translate-zero : (k : Keyboard) → translate 0 k ≡ 0
unfolding translate
translate-zero k = ground arith

-- One interrupt whose key is not enter, with no 0xE0 pending, does to the buffer what the
-- character of its key does to the text that the buffer holds.
pub keyboard_handler-Holds :
    (key : ℕ) (k : Keyboard) (text : Text)
    → k.e0 ≡ false
    → translate key (modifiers key k) ≢ b'\n'
    → Holds k text
    → Holds (keyboard_handler key k) (key_edit key k text)
keyboard_handler-Holds key k text e0 ne h = elim (Bool-cases (key == 0)) [
  | inl none ↦
      let e : key ≡ 0 = ground arith in
      rw (e, translate-zero (modifiers 0 k))
        (Holds-same k (keyboard_handler 0 k) text (unfold keyboard_handler in refl)
          (unfold keyboard_handler in refl) h)
  | inr some_key ↦
      let l = handler_line key k some_key in
      Holds-same (press key (modifiers key k)) (keyboard_handler key k) (key_edit key k text) l.0
        l.1 (press-Holds key k text e0 ne h)
]
