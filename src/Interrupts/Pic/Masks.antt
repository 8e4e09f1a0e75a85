-- ===== src/Interrupts/Pic/Masks.antt =====
-- What the masks and the timer are given.
use ab_os.Base.{
  ℕ, ◌+◌, ◌-◌, ◌*◌, ◌%◌, ◌^◌, ◌<◌, ◌≡◌, refl, ◌∙◌, not, ◌&&◌, ◌||◌, [], ◌∷◌, arith, ltb, ◌==◌,
  if◌then◌else◌, Option, some, none,
}
use ab_os.Base.Bits.{test_bit, test_bit-set, test_bit-clear, test_bit-mod}
use ab_os.Interrupts.Pic.{
  Log, pic1_data, pic2_data, irq_set_mask, irq_clear_mask, pic_remap, set_pit,
}

-- The data port and the bit of a line.
abbrev pub port_of : ℕ → ℕ
port_of line = if ltb line 8 then pic1_data else pic2_data

module _ (inb : ℕ → ℕ) (line : ℕ) (log : Log) (known : line < 16) where
  -- For a line below 16, `IRQ_set_mask` makes one write, to the data port of the line's
  -- controller. The value has the bit of the line, and the bits that the port read with.
  pub irq_set_mask_lem :
      (v : ℕ) × (irq_set_mask inb line log ≡ (port_of line, v) ∷ log)
      × ((i : ℕ) → i < 8 → test_bit v i ≡ (line % 8 == i || test_bit (inb (port_of line)) i))
  unfolding irq_set_mask
  irq_set_mask_lem = (
    _,
    refl,
    λ i h.
        test_bit-mod 8 i _ h
        ∙ test_bit-set (inb (port_of line)) (if ltb line 8 then line else line - 8) i
        ∙ ground arith,
  )

  -- For a line below 16, `IRQ_clear_mask` makes one write, to the data port of the line's
  -- controller, without the bit of the line and with the other bits that the port read with.
  pub irq_clear_mask_lem :
      (v : ℕ) × (irq_clear_mask inb line log ≡ (port_of line, v) ∷ log)
      × ((i : ℕ) → i < 8 → test_bit v i ≡ (not (line % 8 == i) && test_bit (inb (port_of line)) i))
  unfolding irq_clear_mask
  irq_clear_mask_lem = (
    _,
    refl,
    λ i h.
        test_bit-mod 8 i _ h
        ∙ test_bit-clear 32 (inb (port_of line)) (if ltb line 8 then line else line - 8) i
            (ground arith) (omega arith)
        ∙ ground arith,
  )

-- `PIC_remap` ends by writing to both data ports the masks that it read at its start, so that no
-- line is enabled or disabled; before that, each controller gets its vector offset.
pub pic_remap_keeps_masks :
    (inb : ℕ → ℕ) (offset1 : ℕ) (log : Log)
    → offset1 + 8 < 256
    → pic_remap inb offset1 log
      ≡ (pic2_data, inb pic2_data)
        ∷ (pic1_data, inb pic1_data)
        ∷ (pic2_data, 1)
        ∷ (pic1_data, 1)
        ∷ (pic2_data, 2)
        ∷ (pic1_data, 4)
        ∷ (pic2_data, offset1 + 8)
        ∷ (pic1_data, offset1)
        ∷ (0xA0, 0x11)
        ∷ (0x20, 0x11)
        ∷ log
unfolding pic_remap
pic_remap_keeps_masks inb offset1 log h =
    let e : (offset1 + 0x08) % 256 ≡ offset1 + 8 = omega arith in rw e

-- What the two bytes last written to a port make up, the low byte first.
abbrev pub divider : ℕ → Log → Option ℕ
divider port ((p, high) ∷ (q, low) ∷ rest) =
    if p == port && q == port then some (high * 256 + low) else none
divider port _ = none

-- For one of the three channels, `set_PIT` writes to the channel's port a low and a high byte that
-- make up the 16-bit divider; for any other channel it writes nothing.
pub set_pit-divider :
    (channel operating_mode frequency : ℕ)
    → frequency < 2 ^ 16
    → divider (0x40 + channel) (set_pit channel operating_mode frequency [])
      ≡ (if ltb 2 channel then none else some frequency)
unfolding set_pit
set_pit-divider channel operating_mode frequency h = ground arith
