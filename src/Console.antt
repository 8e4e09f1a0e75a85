-- ===== src/Console.antt =====
-- kernel/stdio.c, lines 10 to 131: the text screen at 0xB8000 and its cursor.
-- `vga` is the video memory by offset from `VGA_PTR`, `x` and `y` are `g_ScreenX` and `g_ScreenY`,
-- and `outs` lists the port writes, the last one first. A string is the list of its characters
-- before the terminator.
mod Tests
pub mod Cells
pub mod Cursor
pub mod Scroll
use ab_os.Base.{
  ℕ, zero, suc, ◌+◌, ◌-◌, ◌*◌, ◌/◌, ◌%◌, Bool, List, [], ◌∷◌, Memory, update, ltb, leb, ◌==◌,
  if◌then◌else◌, for_range,
}

pub record Screen : Type 0 where
  pub vga : Memory
  pub x : ℕ
  pub y : ℕ
  pub outs : List (ℕ × ℕ)

abbrev pub vga_width : ℕ
vga_width = 80

abbrev pub vga_height : ℕ
vga_height = 25

abbrev pub default_color : ℕ
default_color = 0x07

abbrev pub cell : ℕ → ℕ → ℕ
cell x y = 2 * (y * vga_width + x)

pub putchar : ℕ → ℕ → ℕ → Memory → Memory
putchar x y c m = update m (cell x y) c

pub putcolor : ℕ → ℕ → ℕ → Memory → Memory
putcolor x y color m = update m (cell x y + 1) color

pub getchr : ℕ → ℕ → Memory → ℕ
getchr x y m = m (cell x y)

pub getcolor : ℕ → ℕ → Memory → ℕ
getcolor x y m = m (cell x y + 1)

abbrev pub outb : ℕ → ℕ → List (ℕ × ℕ) → List (ℕ × ℕ)
outb port value log = (port, value) ∷ log

pub setcursor : ℕ → ℕ → Screen → Screen
setcursor x y s =
    let pos = y * vga_width + x in
    record s {
      outs =
          outb 0x3D5 (pos / 256 % 256)
            (outb 0x3D4 0x0E (outb 0x3D5 (pos % 256) (outb 0x3D4 0x0F s.outs)));
    }

-- The bodies of the loops of `scrollback`.
pub copy_cell : ℕ → ℕ → ℕ → Memory → Memory
copy_cell lines y x m =
    let m' = putchar x (y - lines) (getchr x y m) m in putcolor x (y - lines) (getcolor x y m') m'

pub blank_cell : ℕ → ℕ → Memory → Memory
blank_cell y x m = putcolor x y default_color (putchar x y 0 m)

pub scrollback : ℕ → Screen → Screen
scrollback lines s =
    let copied =
      for_range (vga_height - lines) lines (λ y. for_range vga_width 0 (copy_cell lines y)) s.vga in
    let blanked =
      for_range lines (vga_height - lines) (λ y. for_range vga_width 0 (blank_cell y)) copied in
    record s { vga = blanked; y = s.y - lines }

pub clrscr : Screen → Screen
clrscr s =
    let blanked = for_range vga_height 0 (λ y. for_range vga_width 0 (blank_cell y)) s.vga in
    setcursor 0 0 (record s { vga = blanked; x = 0; y = 0 })

-- What `putc` does behind its `switch`: the line wrap and the scrolling, then `setcursor`.
pub place : Screen → Screen
place s =
    let wrapped = if leb vga_width s.x then record s { y = s.y + 1; x = 0 } else s in
    if leb vga_height wrapped.y then scrollback 1 wrapped else wrapped

pub settle : Screen → Screen
settle s = let t = place s in setcursor t.x t.y t

-- The `case '\b'`.
pub backspace : Screen → Screen
backspace s =
    let s' =
      if ltb 0 s.x
      then record s { x = s.x - 1 }
      else if ltb 0 s.y
      then record s { y = s.y - 1; x = vga_width - 1 }
      else s in
    record s' { vga = putchar s'.x s'.y b' ' s'.vga }

-- The other cases of the `switch`, but for `case '\t'`.
pub emit : ℕ → Screen → Screen
emit c s =
    if c == b'\n'
    then record s { x = 0; y = s.y + 1 }
    else if c == b'\r'
    then record s { x = 0 }
    else if c == 0x08
    then backspace s
    else record s { vga = putchar s.x s.y c s.vga; x = s.x + 1 }

-- `putc` of anything but a tab.
pub put_plain : ℕ → Screen → Screen
put_plain c s = settle (emit c s)

-- The loop of the `case '\t'`: the bound is computed anew in each round, and is 4 at most.
pub tab_loop : ℕ → ℕ → Screen → Screen
tab_loop zero i s = s
tab_loop (suc fuel) i s =
    let rest = tab_loop fuel (i + 1) (put_plain b' ' s) in if ltb i (4 - s.x % 4) then rest else s

pub putc : ℕ → Screen → Screen
putc c s = if c == b'\t' then settle (tab_loop 4 0 s) else put_plain c s

pub puts : List ℕ → Screen → Screen
puts [] s = s
puts (c ∷ str) s = puts str (putc c s)
