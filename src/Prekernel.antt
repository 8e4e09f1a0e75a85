-- ===== src/Prekernel.antt =====
-- kernel/prekernel.c, and the console's lists of the memory map in kernel/stdio.c. The map is
-- `num_entries` at 0xA000 and entries of 24 bytes from 0xA004 on. The task register, the messages,
-- the TLB and the jump to the kernel are left out, and a list is the values that it prints.
mod Tests
pub mod Boot
pub mod Space
pub mod Unmap
use ab_os.Base.{
  ℕ, zero, suc, ◌+◌, ◌-◌, ◌*◌, ◌/◌, ◌%◌, Bool, Memory, ◌==◌, if◌then◌else◌, u32_mod, for_range,
  List, [], ◌∷◌,
}
use ab_os.Base.Words.{load32, store32, load64}
use ab_os.Pmm.{Pmm, initialize_pmm, initialize_memory_region, deinit_memory_region}
use ab_os.Vmm.{Vmm, initialize_vmm, unmap_page, page_size}

-- The fields of the entry at an address.
abbrev pub base_address : Memory → ℕ → ℕ
base_address m entry = load64 m entry

abbrev pub length : Memory → ℕ → ℕ
length m entry = load64 m (entry + 8)

abbrev pub entry_type : Memory → ℕ → ℕ
entry_type m entry = load32 m (entry + 16)

abbrev pub num_entries : Memory → ℕ
num_entries m = load32 m 0xA000

abbrev pub entry_at : ℕ → ℕ
entry_at i = (0xA004 + 24 * i) % u32_mod

-- One round of the loop over the entries: memory that is available.
pub free_region : Memory → ℕ → Pmm → Pmm
free_region m i s =
    let entry = entry_at i in
    if entry_type m entry == 1
    then initialize_memory_region (base_address m entry % u32_mod) (length m entry % u32_mod) s
    else s

pub free_regions : Memory → Pmm → Pmm
unfolding free_region
free_regions m = for_range (num_entries m) 0 (free_region m)

-- The three calls of `deinit_memory_region`.
pub reserve : Pmm → Pmm
reserve s =
    let s1 = deinit_memory_region 0 0x12000 s in
    let s2 = deinit_memory_region 0x30000 (s1.max_blocks / 4096) s1 in
    deinit_memory_region 0x100000 81920 s2

pub setup_pmm : Memory → Pmm → Pmm
unfolding free_regions reserve
setup_pmm m s = reserve (free_regions m (initialize_pmm s))

-- The address of the last entry, which wraps without entries.
pub total_memory : Memory → ℕ
total_memory m =
    let last = (0xA004 + 24 * ((num_entries m + u32_mod - 1) % u32_mod)) % u32_mod in
    (base_address m last + length m last + u32_mod - 1) % u32_mod

-- `initialize_vmm` turns paging on, and the loop behind it follows pointers to the directory and its
-- tables. Here they are followed in physical memory, which is the same where these pages are at their
-- own addresses, as the first 1 MB is in the loop; a table elsewhere in it makes a page fault that is
-- not modelled. So is the bitmap at 0x30000, which is kept apart from memory: no table may be in it.
pub prekernel_main : Vmm → Vmm
unfolding setup_pmm total_memory
prekernel_main v =
    let total = total_memory v.memory in
    let s1 = record v {
      pmm = setup_pmm v.memory v.pmm;
      memory = store32 v.memory 0x1800 v.directory;
    } in
    let s2 = for_range 0x300 0 (λ i. unmap_page (0x100000 + i * page_size)) (initialize_vmm s1) in
    let m = store32 (store32 s2.memory 0x180C total) 0x1804 s2.pmm.used_blocks in
    record s2 { memory = store32 (store32 m 0x1808 s2.pmm.max_blocks) 0x1800 s2.directory }

-- What the lists print of an entry: its index, its base address, its length, and its type.
pub record Line : Type 0 where
  pub index : ℕ
  pub base : ℕ
  pub bytes : ℕ
  pub kind : ℕ

-- The texts for the types; all others are "(Reserved)" as well.
pub data Label : Type 0 where
  available : Label
  reserved : Label
  acpi_reclaim : Label
  acpi_nvs : Label

pub label : ℕ → Label
label kind =
    if kind == 1
    then available
    else if kind == 3
    then acpi_reclaim
    else if kind == 4
    then acpi_nvs
    else reserved

pub entry_line : Memory → ℕ → Line × Label
unfolding label
entry_line m i = (
  record {
    index = i;
    base = base_address m (entry_at i);
    bytes = length m (entry_at i);
    kind = entry_type m (entry_at i);
  },
  label (entry_type m (entry_at i)),
)

-- The lines of the loop, the last one first.
pub map_lines : Memory → List (Line × Label)
unfolding entry_line
map_lines m = for_range (num_entries m) 0 (λ i lines. entry_line m i ∷ lines) []

-- The lines behind the loop: the total, the blocks, those in use, and those that are left. The last
-- entry is the one before the first if there is none.
pub map_totals : Memory → Pmm → List ℕ
map_totals m s =
    let last = (0xA004 + 24 * num_entries m + u32_mod - 24) % u32_mod in
    (base_address m last + length m last + u32_mod * u32_mod - 1) % (u32_mod * u32_mod)
    ∷ s.max_blocks
    ∷ s.used_blocks
    ∷ (s.max_blocks + u32_mod - s.used_blocks) % u32_mod
    ∷ []

pub print_memmap_command : Memory → Pmm → List (Line × Label) × List ℕ
unfolding map_lines map_totals
print_memmap_command m s = (map_lines m, map_totals m s)

-- This list also frees the regions that are available, as at boot.
pub print_physical_memory : Memory → Pmm → (List (Line × Label) × List ℕ) × Pmm
unfolding map_lines map_totals
print_physical_memory m s = let s' = free_regions m s in ((map_lines m, map_totals m s'), s')
