-- ===== src/Console/Cells.antt =====
-- What `putc` writes: one cell for a character, and never a byte outside the screen.
use ab_os.Base.{
  ℕ, zero, suc, ◌+◌, ◌-◌, ◌/◌, ◌%◌, ◌≤◌, ◌<◌, ◌≡◌, ◌≢◌, refl, ◌∙◌, Bool, inl, inr, true, not, ◌&&◌,
  ◌||◌, arith, ltb, ◌==◌, if◌then◌else◌, Bool-cases, Memory,
}
use ab_os.Console.{
  Screen, vga_width, vga_height, default_color, putchar, scrollback, setcursor, place, settle,
  backspace, emit, put_plain, tab_loop, putc,
}
use ab_os.Console.Scroll.{byte_of, scrollback-cells}
use ab_os.Console.Cursor.{InScreen, position, scrollback_cursor, put_plain-InScreen}

-- Not one of the five characters with a case of their own.
abbrev pub is_plain : ℕ → Bool
is_plain c = not (c == b'\n' || c == b'\t' || c == b'\r' || c == 0x08)

-- A byte of cell `j`, once `c` is stored in cell `k`.
abbrev pub with_char : Memory → ℕ → ℕ → ℕ → ℕ → ℕ
with_char m k c part j = if part == 0 && j == k then c else m (byte_of part j)

-- The scrolling that follows a character in the last cell.
abbrev pub scrolled : Memory → ℕ → ℕ → ℕ → ℕ → ℕ
scrolled m k c part j =
    if ltb j 1920
    then with_char m k c part (j + 80)
    else if ltb j 2000
    then (if part == 0 then 0 else default_color)
    else with_char m k c part j

-- The state behind the `default` case.
abbrev advanced : ℕ → Screen → Screen
advanced c s = record s { vga = putchar s.x s.y c s.vga; x = s.x + 1 }

putc_default : (c : ℕ) (s : Screen) → is_plain c ≡ true → putc c s ≡ settle (advanced c s)
unfolding putc put_plain emit
putc_default c s plain = ground arith

advanced-with_char :
    (c : ℕ) (s : Screen) (part j : ℕ)
    → part < 2
    → (advanced c s).vga (byte_of part j) ≡ with_char s.vga (position s) c part j
unfolding putchar
advanced-with_char c s part j l = ground arith

position-place :
    (t : Screen)
    → t.y < vga_height
    → t.x ≤ vga_width
    → 0 < t.x
    → position (place t) ≡ (if ltb (position t) 2000 then position t else 1920)
unfolding place
position-place t hy hx pos = ground (arith, scrollback_cursor (record t { y = t.y + 1; x = 0 }))

place-cells :
    (t : Screen) (part j : ℕ)
    → t.y < vga_height
    → t.x ≤ vga_width
    → 0 < t.x
    → part < 2
    → (place t).vga (byte_of part j) ≡ (
        if ltb (position t) 2000
        then t.vga (byte_of part j)
        else if ltb j 1920
        then t.vga (byte_of part (j + 80))
        else if ltb j 2000
        then (if part == 0 then 0 else default_color)
        else t.vga (byte_of part j))
unfolding place
place-cells t part j hy hx pos l =
    ground (arith, scrollback-cells 1 (record t { y = t.y + 1; x = 0 }) (omega arith) part j l)

-- With the cursor on the screen, a character other than newline, tab, carriage return and
-- backspace goes to the cell under the cursor and leaves every other as it is, and the cursor goes
-- on by one; behind the last cell, the screen scrolls by a row, and the cursor goes to the start
-- of the last row.
pub putc_plain :
    (c : ℕ) (s : Screen)
    → is_plain c ≡ true
    → InScreen s
    → (position (putc c s) ≡ (if ltb (position s + 1) 2000 then position s + 1 else 1920))
      × ((part j : ℕ)
          → part < 2
          → (putc c s).vga (byte_of part j) ≡ (
              if ltb (position s + 1) 2000
              then with_char s.vga (position s) c part j
              else scrolled s.vga (position s) c part j))
unfolding settle setcursor
putc_plain c s plain h =
    let t = advanced c s in
    let e = putc_default c s plain in
    (
      rw e (position-place t h.y_in (omega arith) (omega arith) ∙ ground arith),
      λ part j l. rw e (
          place-cells t part j h.y_in (omega arith) (omega arith) l
          ∙ ground
              (arith, advanced-with_char c s part j l, advanced-with_char c s part (j + 80) l)),
    )

scrollback_outside :
    (s : Screen) (offset : ℕ) → 4000 ≤ offset → (scrollback 1 s).vga offset ≡ s.vga offset
scrollback_outside s offset far =
    let e : byte_of (offset % 2) (offset / 2) ≡ offset = omega arith in
    rw (← e)
      (scrollback-cells 1 s (omega arith) (offset % 2) (offset / 2) (omega arith) ∙ ground arith)

settle_outside : (s : Screen) (offset : ℕ) → 4000 ≤ offset → (settle s).vga offset ≡ s.vga offset
unfolding settle place setcursor
settle_outside s offset far = ground (
  arith,
  scrollback_outside s offset,
  scrollback_outside (record s { y = s.y + 1; x = 0 }) offset,
)

emit_outside :
    (c : ℕ) (s : Screen) (offset : ℕ)
    → InScreen s
    → 4000 ≤ offset
    → (emit c s).vga offset ≡ s.vga offset
unfolding emit backspace putchar
emit_outside c s offset h far = ground arith

put_plain_outside :
    (c : ℕ) (s : Screen) (offset : ℕ)
    → InScreen s
    → 4000 ≤ offset
    → (put_plain c s).vga offset ≡ s.vga offset
unfolding put_plain
put_plain_outside c s offset h far =
    settle_outside (emit c s) offset far ∙ emit_outside c s offset h far

tab_loop_outside :
    (fuel i : ℕ) (s : Screen) (offset : ℕ)
    → InScreen s
    → 4000 ≤ offset
    → (tab_loop fuel i s).vga offset ≡ s.vga offset
unfolding tab_loop
tab_loop_outside zero i s offset h far = refl
tab_loop_outside (suc fuel) i s offset h far = elim (Bool-cases (ltb i (4 - s.x % 4))) [
  | inl more ↦
      let s' = put_plain b' ' s in
      rw more (
        tab_loop_outside fuel (i + 1) s' offset (put_plain-InScreen b' ' s h) far
        ∙ put_plain_outside b' ' s offset h far)
  | inr done ↦ rw done
]

-- With the cursor on the screen, no character makes `putc` write outside the 4000 bytes of it.
pub putc_outside :
    (c : ℕ) (s : Screen) (offset : ℕ)
    → InScreen s
    → 4000 ≤ offset
    → (putc c s).vga offset ≡ s.vga offset
unfolding putc
putc_outside c s offset h far = elim (Bool-cases (c == b'\t')) [
  | inl tab ↦
      rw tab (settle_outside (tab_loop 4 0 s) offset far ∙ tab_loop_outside 4 0 s offset h far)
  | inr other ↦ rw other (put_plain_outside c s offset h far)
]

put_space :
    (s : Screen)
    → s.y < vga_height
    → s.x + 1 < vga_width
    → ((put_plain b' ' s).x ≡ s.x + 1) × ((put_plain b' ' s).y ≡ s.y)
unfolding put_plain emit settle place setcursor
put_space s h room = ground arith

-- The columns that a tab goes on by.
abbrev pub tab_width : ℕ → ℕ
tab_width x = if x % 4 == 2 then 1 else if x % 4 == 3 then 3 else 2

tab_loop_lem :
    (s : Screen)
    → s.y < vga_height
    → s.x < 76
    → ((tab_loop 4 0 s).x ≡ s.x + tab_width s.x) × ((tab_loop 4 0 s).y ≡ s.y)
unfolding tab_loop
tab_loop_lem s h room =
    let s1 = put_plain b' ' s in
    let s2 = put_plain b' ' s1 in
    let s3 = put_plain b' ' s2 in
    ground (arith, put_space s, put_space s1, put_space s2, put_space s3)

-- With the cursor on the screen, a tab from a column below 76 goes on by 2, 2, 1 or 3 columns in
-- its row, for a column that is 0, 1, 2 or 3 modulo 4, and so never ends at a multiple of 4: the
-- loop compares its counter with a bound that the loop itself moves.
pub putc_tab :
    (s : Screen)
    → InScreen s
    → s.x < 76
    → ((putc b'\t' s).x ≡ s.x + tab_width s.x)
      × ((putc b'\t' s).y ≡ s.y)
      × ((putc b'\t' s).x % 4 ≢ 0)
unfolding putc settle place setcursor
putc_tab s h room = ground (arith, tab_loop_lem s h.y_in room)
