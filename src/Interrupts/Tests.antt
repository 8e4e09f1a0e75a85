-- ===== src/Interrupts/Tests.antt =====
-- Vectors and masks of concrete lines.
use ab_os.Base.{ℕ, ◌+◌, ◌*◌, ◌/◌, ◌%◌, ◌<◌, ◌≢◌, u32_mod, ◌≡◌, false, [], some, arith}
use ab_os.Pmm.{allocate_blocks}
use ab_os.Pmm.Tests.{few, few-IsReady}
use ab_os.Vmm.{Vmm}
use ab_os.Vmm.Tests.{bytes, paged, paged-IsTree, first_present}
use ab_os.Vmm.Walk.{translate}
use ab_os.Interrupts.Faults.{page_fault_handler, page_fault_handler-translate}
use ab_os.Interrupts.Idt.{Table, Handlers, install_handlers}
use ab_os.Interrupts.Idt.Gates.{Gate, install_handlers-Gate}
use ab_os.Interrupts.Pic.{set_pit}
use ab_os.Interrupts.Pic.Masks.{divider, set_pit-divider}

abbrev stubs : ℕ → ℕ
stubs v = 0x100000 + 16 * v

abbrev handlers : Handlers
handlers = record {
  div_by_0 = 0x200000;
  pit = 0x200010;
  keyboard = 0x200020;
  page_fault = 0x200030;
  syscall = 0x200040;
  gpf = 0x200050;
}

abbrev empty_table : Table
empty_table = record {
  idt = λ v. record { base_low = 0; segsel = 0; donottouch = 0; attributes = 0; base_high = 0 };
  vectors = λ v. false;
  limit = 0;
  base = 0;
}

install_handlers-Gate_example :
    Gate (install_handlers 0x5000 stubs handlers empty_table) 0x80 0x200040 3
install_handlers-Gate_example =
    install_handlers-Gate 0x5000 stubs handlers empty_table 0x80 (omega arith) (omega arith)
      (omega arith)

abbrev inb : ℕ → ℕ
inb port = 0xF0

set_pit-divider_example : divider 0x40 (set_pit 0 2 1193 []) ≡ some 1193
set_pit-divider_example = set_pit-divider 0 2 1193 (omega arith)

abbrev faulting : Vmm
faulting = let v = paged in record v { pmm = few }

page_fault_handler-translate_example :
    let r = allocate_blocks 1 few in
    (v' : Vmm) × (page_fault_handler 1 0x3123 faulting ≡ some v')
    × (v'.pmm ≡ r.1)
    × (translate v'.memory 0x1000 0x3123 ≡ some (r.0 + 0x3123 % 4096))
    × ((w : ℕ)
        → w < u32_mod
        → w / 4096 ≢ 0x3123 / 4096
        → translate v'.memory 0x1000 w ≡ translate bytes 0x1000 w)
page_fault_handler-translate_example =
    page_fault_handler-translate 0 0x3123 faulting (omega arith) few-IsReady paged-IsTree
      first_present
