-- ===== src/Interrupts/Pic.antt =====
-- kernel/interrupts/pic.c: the 8259 controllers and the timer. A function that writes to ports
-- takes and returns the log of the writes, the last one first; `inb` is what a port reads as.
pub mod Masks
use ab_os.Base.{ℕ, ◌+◌, ◌-◌, ◌*◌, ◌/◌, ◌%◌, ◌^◌, List, [], ◌∷◌, bit_and, bit_or, ltb, if◌then◌else◌}
use ab_os.Base.Bits.{complement}
use ab_os.Console.{outb}

abbrev pub Log : Type 0
Log = List (ℕ × ℕ)

abbrev pub pic1_command : ℕ
pic1_command = 0x20

abbrev pub pic1_data : ℕ
pic1_data = 0x21

abbrev pub pic2_command : ℕ
pic2_command = 0xA0

abbrev pub pic2_data : ℕ
pic2_data = 0xA1

abbrev pub pic_eoi : ℕ
pic_eoi = 0x20

pub pic_send_eoi : ℕ → Log → Log
pic_send_eoi irq log =
    outb pic1_command pic_eoi (if ltb irq 8 then log else outb pic2_command pic_eoi log)

module _ (inb : ℕ → ℕ) where
  -- ICW1, ICW2, ICW3 and ICW4 for both controllers, and the masks as they were read.
  pub pic_remap : ℕ → Log → Log
  pic_remap offset1 log =
      let master_mask = inb pic1_data in
      let slave_mask = inb pic2_data in
      let icw1 = outb pic2_command 0x11 (outb pic1_command 0x11 log) in
      let icw2 = outb pic2_data ((offset1 + 0x08) % 256) (outb pic1_data offset1 icw1) in
      let icw3 = outb pic2_data 0x02 (outb pic1_data 0x04 icw2) in
      let icw4 = outb pic2_data 0x01 (outb pic1_data 0x01 icw3) in
      outb pic2_data slave_mask (outb pic1_data master_mask icw4)

  pub irq_set_mask : ℕ → Log → Log
  irq_set_mask irq_line log =
      let port = if ltb irq_line 8 then pic1_data else pic2_data in
      let line = if ltb irq_line 8 then irq_line else irq_line - 8 in
      outb port (bit_or (inb port) (2 ^ line) % 256) log

  pub irq_clear_mask : ℕ → Log → Log
  irq_clear_mask irq_line log =
      let port = if ltb irq_line 8 then pic1_data else pic2_data in
      let line = if ltb irq_line 8 then irq_line else irq_line - 8 in
      outb port (bit_and (inb port) (complement 32 (2 ^ line)) % 256) log

pub pic_disable : Log → Log
pic_disable log = outb pic2_data 0xFF (outb pic1_data 0xFF log)

-- `(channel << 6) | (0x3 << 4) | (operating_mode << 1)`, as the byte that `outb` takes.
pub set_pit : ℕ → ℕ → ℕ → Log → Log
set_pit channel operating_mode frequency log =
    if ltb 2 channel
    then log
    else outb (0x40 + channel) (frequency / 256 % 256) (
        outb (0x40 + channel) (frequency % 256)
          (outb 0x43 (bit_or (bit_or (channel * 64) 0x30) (operating_mode * 2) % 256) log))
