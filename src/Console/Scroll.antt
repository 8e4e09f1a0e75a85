-- ===== src/Console/Scroll.antt =====
-- `scrollback` and `clrscr`, cell by cell. Cell `j` stands in row j / 80 and column j % 80: its
-- character is at offset 2 j, its colour at 2 j + 1.
use ab_os.Base.{
  ℕ, ◌+◌, ◌-◌, ◌*◌, ◌≤◌, ◌<◌, ◌≡◌, refl, ◌&&◌, arith, ltb, leb, ◌==◌, if◌then◌else◌, for_range,
  for_range_inv, Memory,
}
use ab_os.Console.{
  Screen, vga_width, vga_height, default_color, putchar, putcolor, getchr, getcolor, copy_cell,
  blank_cell, scrollback, clrscr, setcursor,
}

-- The offset of a byte of cell `j`: `part` 0 is the character, 1 the colour.
abbrev pub byte_of : ℕ → ℕ → ℕ
byte_of part j = 2 * j + part

-- `m` is `old` with the cells below `k` replaced by those that stand `lines` rows further down.
abbrev Shifted : Memory → ℕ → ℕ → Memory → Type 0
Shifted old lines k m =
    (part j : ℕ)
    → part < 2
    → m (byte_of part j)
      ≡ (if ltb j k then old (byte_of part (j + lines * 80)) else old (byte_of part j))

copy_cell-Shifted :
    (old m : Memory) (lines y x : ℕ)
    → lines ≤ y
    → Shifted old lines ((y - lines) * 80 + x) m
    → Shifted old lines ((y - lines) * 80 + (x + 1)) (copy_cell lines y x m)
unfolding copy_cell putchar putcolor getchr getcolor
copy_cell-Shifted old m lines y x le h part j l =
    let from = y * 80 + x in
    let at : from ≡ (y - lines) * 80 + x + lines * 80 = omega arith in
    ground (arith, at, h part j l, h 0 from (omega arith), h 1 from (omega arith))

-- `m` is `old` with the cells of [lo, k) blank.
abbrev Blanked : Memory → ℕ → ℕ → Memory → Type 0
Blanked old lo k m =
    (part j : ℕ)
    → part < 2
    → m (byte_of part j) ≡ (
        if leb lo j && ltb j k
        then (if part == 0 then 0 else default_color)
        else old (byte_of part j))

blank_cell-Blanked :
    (old m : Memory) (lo y x : ℕ)
    → lo ≤ y * 80 + x
    → Blanked old lo (y * 80 + x) m
    → Blanked old lo (y * 80 + (x + 1)) (blank_cell y x m)
unfolding blank_cell putchar putcolor
blank_cell-Blanked old m lo y x le h part j l = ground (arith, h part j l)

-- The rounds of the inner loops, and of the outer ones. `k'` is the count in another form.
copy_row-Shifted :
    (old m : Memory) (lines y : ℕ)
    → lines ≤ y
    → Shifted old lines ((y - lines) * 80) m
    → Shifted old lines ((y - lines) * 80 + vga_width) (for_range vga_width 0 (copy_cell lines y) m)
copy_row-Shifted old m lines y le h =
    for_range_inv (λ x m. Shifted old lines ((y - lines) * 80 + x) m) (copy_cell lines y) vga_width
      (λ x m lt. copy_cell-Shifted old m lines y x le) vga_width 0 m (omega arith)
      (let e : (y - lines) * 80 + 0 ≡ (y - lines) * 80 = omega arith in rw e h)

copy_rows-Shifted :
    (old : Memory) (lines : ℕ)
    → lines ≤ vga_height
    → Shifted old lines
        ((vga_height - lines) * 80)
        (for_range (vga_height - lines) lines (λ y. for_range vga_width 0 (copy_cell lines y)) old)
copy_rows-Shifted old lines le =
    (for_range_inv (λ y m. (lines ≤ y) × Shifted old lines ((y - lines) * 80) m)
      (λ y. for_range vga_width 0 (copy_cell lines y)) vga_height
      (λ y m lt h. (
        omega (arith, h.0),
        (let e : (y + 1 - lines) * 80 ≡ (y - lines) * 80 + vga_width = omega (arith, h.0) in
            rw e (copy_row-Shifted old m lines y h.0 h.1)),
      ))
      (vga_height - lines) lines old (omega arith) (omega arith, λ part j l. ground arith)).1

blank_row-Blanked :
    (old m : Memory) (lo y : ℕ)
    → lo ≤ y * 80
    → Blanked old lo (y * 80) m
    → Blanked old lo (y * 80 + vga_width) (for_range vga_width 0 (blank_cell y) m)
blank_row-Blanked old m lo y le h =
    for_range_inv (λ x m. Blanked old lo (y * 80 + x) m) (blank_cell y) vga_width
      (λ x m lt. blank_cell-Blanked old m lo y x (omega arith)) vga_width 0 m (omega arith)
      (let e : y * 80 + 0 ≡ y * 80 = omega arith in rw e h)

blank_rows-Blanked :
    (old : Memory) (from n : ℕ)
    → from + n ≡ vga_height
    → Blanked old
        (from * 80)
        (vga_height * 80)
        (for_range n from (λ y. for_range vga_width 0 (blank_cell y)) old)
blank_rows-Blanked old from n e =
    (for_range_inv (λ y m. (from ≤ y) × Blanked old (from * 80) (y * 80) m)
      (λ y. for_range vga_width 0 (blank_cell y)) vga_height
      (λ y m lt h. (
        omega (arith, h.0),
        (let e : (y + 1) * 80 ≡ y * 80 + vga_width = omega arith in
            rw e (blank_row-Blanked old m (from * 80) y (omega (arith, h.0)) h.1)),
      ))
      n from old e (omega arith, λ part j l. ground arith)).1

-- For at most 25 lines, after `scrollback lines` each cell holds what stood `lines` rows further
-- down, the last `lines` rows are blank in the default colour, and memory behind the screen is as
-- before.
pub scrollback-cells :
    (lines : ℕ) (s : Screen)
    → lines ≤ vga_height
    → (part j : ℕ) → part < 2
    → (scrollback lines s).vga (byte_of part j) ≡ (
        if ltb j ((vga_height - lines) * 80)
        then s.vga (byte_of part (j + lines * 80))
        else if ltb j 2000
        then (if part == 0 then 0 else default_color)
        else s.vga (byte_of part j))
unfolding scrollback
scrollback-cells lines s le part j l =
    let copied =
      for_range (vga_height - lines) lines (λ y. for_range vga_width 0 (copy_cell lines y)) s.vga in
    ground (
      arith,
      blank_rows-Blanked copied (vga_height - lines) lines (omega arith) part j l,
      copy_rows-Shifted s.vga lines le part j l,
    )

-- `clrscr` blanks every cell in the default colour and leaves memory behind the screen as it is,
-- and takes the cursor to the corner.
pub clrscr-cells :
    (s : Screen) (part j : ℕ)
    → part < 2
    → ((clrscr s).vga (byte_of part j)
        ≡ (if ltb j 2000 then (if part == 0 then 0 else default_color) else s.vga (byte_of part j)))
      × ((clrscr s).x ≡ 0)
      × ((clrscr s).y ≡ 0)
unfolding clrscr setcursor
clrscr-cells s part j l =
    (ground (arith, blank_rows-Blanked s.vga 0 vga_height (omega arith) part j l), refl, refl)
