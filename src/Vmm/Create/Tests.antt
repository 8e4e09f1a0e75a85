-- ===== src/Vmm/Create/Tests.antt =====
-- A directory at 0x1000 with one table, at 0x3000, which gets a second one, at 0x2000.
use ab_os.Base.{true, Memory, update}
use ab_os.Pmm.Tests.{few}
use ab_os.Vmm.{Vmm}

abbrev bytes : Memory
bytes = update (update (λ a. 0) 0x1000 7) 0x1001 0x30

abbrev paged : Vmm
paged = record { memory = bytes; pmm = few; directory = 0x1000; cr3 = 0x1000; paging = true }
