-- ===== src/Console/Cursor.antt =====
-- `putc`: the cursor stays on the screen, the cells that change, and the cursor that the
-- hardware is given.
use ab_os.Base.{
  ℕ, zero, suc, ◌+◌, ◌-◌, ◌*◌, ◌%◌, ◌≤◌, ◌<◌, ◌≡◌, refl, ◌∙◌, inl, inr, arith, ltb, ◌==◌,
  Bool-cases, List, [], ◌∷◌, Option, some, none,
}
use ab_os.Console.{
  Screen, vga_width, vga_height, scrollback, setcursor, place, settle, backspace, emit, put_plain,
  tab_loop, putc, puts,
}

pub record InScreen (s : Screen) : Type 0 where
  pub x_in : s.x < vga_width
  pub y_in : s.y < vga_height

-- The number of the cell under the cursor.
abbrev pub position : Screen → ℕ
position s = s.y * 80 + s.x

pub scrollback_cursor : (s : Screen) → ((scrollback 1 s).x ≡ s.x) × ((scrollback 1 s).y ≡ s.y - 1)
unfolding scrollback
scrollback_cursor s = (refl, refl)

-- What the `switch` leaves to the tests behind it.
pub record IsNear (s : Screen) : Type 0 where
  pub x_near : s.x ≤ vga_width
  pub y_near : s.y ≤ vga_height
  pub not_both : s.x + s.y ≤ 104

pub place-InScreen : (s : Screen) → IsNear s → InScreen (place s)
unfolding place
place-InScreen s h =
    ground (arith, scrollback_cursor s, scrollback_cursor (record s { y = s.y + 1; x = 0 }))

settle-InScreen : (s : Screen) → IsNear s → InScreen (settle s)
unfolding settle setcursor
settle-InScreen s h = omega (arith, place-InScreen s h)

InScreen-IsNear : (s : Screen) → InScreen s → IsNear s
InScreen-IsNear s h = omega arith

pub emit-IsNear : (c : ℕ) (s : Screen) → InScreen s → IsNear (emit c s)
unfolding emit backspace
emit-IsNear c s h = ground arith

pub put_plain-InScreen : (c : ℕ) (s : Screen) → InScreen s → InScreen (put_plain c s)
unfolding put_plain
put_plain-InScreen c s h = settle-InScreen (emit c s) (emit-IsNear c s h)

pub tab_loop-InScreen : (fuel i : ℕ) (s : Screen) → InScreen s → InScreen (tab_loop fuel i s)
unfolding tab_loop
tab_loop-InScreen zero i s h = h
tab_loop-InScreen (suc fuel) i s h = elim (Bool-cases (ltb i (4 - s.x % 4))) [
  | inl more ↦
      rw more (tab_loop-InScreen fuel (i + 1) (put_plain b' ' s) (put_plain-InScreen b' ' s h))
  | inr done ↦ rw done h
]

-- From a cursor on the screen, `putc` of any character keeps the cursor on the screen.
pub putc-InScreen : (c : ℕ) (s : Screen) → InScreen s → InScreen (putc c s)
unfolding putc
putc-InScreen c s h = elim (Bool-cases (c == b'\t')) [
  | inl tab ↦ rw tab (
      settle-InScreen (tab_loop 4 0 s)
        (InScreen-IsNear (tab_loop 4 0 s) (tab_loop-InScreen 4 0 s h)))
  | inr other ↦ rw other (put_plain-InScreen c s h)
]

-- From a cursor on the screen, `puts` of any string keeps the cursor on the screen.
pub puts-InScreen : (str : List ℕ) (s : Screen) → InScreen s → InScreen (puts str s)
unfolding puts
puts-InScreen [] s h = h
puts-InScreen (c ∷ str) s h = puts-InScreen str (putc c s) (putc-InScreen c s h)

-- The `for` loop of the tab ends by its own test: more rounds than four change nothing.
tab_loop_enough :
    (fuel i : ℕ) (s : Screen) → 4 ≤ i + fuel → tab_loop (suc fuel) i s ≡ tab_loop fuel i s
unfolding tab_loop
tab_loop_enough zero i s h = ground arith
tab_loop_enough (suc fuel) i s h = elim (Bool-cases (ltb i (4 - s.x % 4))) [
  | inl more ↦ rw more (tab_loop_enough fuel (i + 1) (put_plain b' ' s) (omega arith))
  | inr done ↦ rw done
]

-- Where the hardware cursor stands: the two data bytes last written, high and low.
abbrev pub hardware_cursor : List (ℕ × ℕ) → Option ℕ
hardware_cursor ((_, high) ∷ _ ∷ (_, low) ∷ _ ∷ rest) = some (high * 256 + low)
hardware_cursor _ = none

setcursor-hardware_cursor :
    (s : Screen) → InScreen s → hardware_cursor (setcursor s.x s.y s).outs ≡ some (position s)
unfolding setcursor
setcursor-hardware_cursor s h = ground arith

settle-hardware_cursor :
    (s : Screen) → IsNear s → hardware_cursor (settle s).outs ≡ some (position (settle s))
unfolding settle
settle-hardware_cursor s h =
    setcursor-hardware_cursor (place s) (place-InScreen s h) ∙ unfold setcursor in refl

-- From a cursor on the screen, after every character the hardware cursor stands at the position
-- where the next one goes.
pub putc-hardware_cursor :
    (c : ℕ) (s : Screen) → InScreen s → hardware_cursor (putc c s).outs ≡ some (position (putc c s))
unfolding putc put_plain
putc-hardware_cursor c s h = elim (Bool-cases (c == b'\t')) [
  | inl tab ↦ rw tab (
      settle-hardware_cursor (tab_loop 4 0 s)
        (InScreen-IsNear (tab_loop 4 0 s) (tab_loop-InScreen 4 0 s h)))
  | inr other ↦ rw other (settle-hardware_cursor (emit c s) (emit-IsNear c s h))
]
