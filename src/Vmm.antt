-- ===== src/Vmm.antt =====
-- kernel/memory/virtual_memory_manager.c and its macros in virtual_memory_manager.h, over byte
-- memory in which every pointer that the code follows is identity mapped. A pointer to an entry is
-- its address. `map_page` and `create_page_table` call themselves through new tables, so they take
-- fuel, and `none` means that it ran out. The assembly of `set_pd` and `EnablePaging` is the fields
-- `cr3` and `paging`.
pub mod Tests
pub mod Entry
pub mod Create
pub mod Init
pub mod Table
pub mod Walk
pub mod Address
use ab_os.Base.{
  ℕ, zero, suc, ◌+◌, ◌*◌, ◌/◌, ◌%◌, ◌^◌, Bool, true, false, bit_and, bit_or, Memory, u32_mod, ◌==◌,
  if◌then◌else◌, for_range, Option, none, some,
}
use ab_os.Base.Bits.{complement}
use ab_os.Base.Words.{load32, store32}
use ab_os.Pmm.{Pmm, allocate_blocks, free_blocks}
use ab_os.Str.{memset}

pub record Vmm : Type 0 where
  pub memory : Memory
  pub pmm : Pmm
  pub directory : ℕ
  pub cr3 : ℕ
  pub paging : Bool

abbrev pub page_size : ℕ
page_size = 4096

abbrev pub present : ℕ
present = 1

abbrev pub writable : ℕ
writable = 2

abbrev pub user : ℕ
user = 4

pub pd_index : ℕ → ℕ
pd_index address = bit_and (address / 2 ^ 22) 0x3FF

pub pt_index : ℕ → ℕ
pt_index address = bit_and (address / 2 ^ 12) 0x3FF

-- `GET_FRAME` of an entry's value.
pub get_frame : ℕ → ℕ
get_frame entry = bit_and entry (complement 32 0xFFF)

-- The value that `SET_FRAME` stores.
pub with_frame : ℕ → ℕ → ℕ
with_frame entry address = bit_or (bit_and entry (complement 32 0x7FFFF000)) address

pub set_attribute : ℕ → ℕ → Memory → Memory
set_attribute entry attr m = store32 m entry (bit_or (load32 m entry) attr)

pub clear_attribute : ℕ → ℕ → Memory → Memory
clear_attribute entry attr m = store32 m entry (bit_and (load32 m entry) (complement 32 attr))

pub set_frame : ℕ → ℕ → Memory → Memory
set_frame entry address m = store32 m entry (with_frame (load32 m entry) address)

pub alloc_page : ℕ → Vmm → Bool × Vmm
alloc_page e s =
    let (p, pmm') = allocate_blocks 1 s.pmm in
    if p == 0
    then (false, record s { pmm = pmm' })
    else (true, record s { pmm = pmm'; memory = set_attribute e present (set_frame e p s.memory) })

pub free_page : ℕ → Vmm → Vmm
free_page e s =
    let p = get_frame (load32 s.memory e) in
    let pmm' = if p == 0 then s.pmm else free_blocks p 1 s.pmm in
    record s { pmm = pmm'; memory = clear_attribute e present s.memory }

-- The address of an entry; a null table gives a null pointer.
pub get_pt_entry : ℕ → ℕ → ℕ
get_pt_entry pt address = if pt == 0 then 0 else pt + 4 * pt_index address

pub get_pd_entry : ℕ → ℕ → ℕ
get_pd_entry pd address = if pd == 0 then 0 else pd + 4 * pd_index address

pub set_pd : ℕ → Vmm → Bool × Vmm
set_pd dir s = if dir == 0 then (false, s) else (true, record s { directory = dir; cr3 = dir })

pub get_page : ℕ → Vmm → ℕ
get_page address s =
    get_frame (load32 s.memory (s.directory + 4 * pd_index address)) + 4 * pt_index address

pub unmap_page : ℕ → Vmm → Vmm
unmap_page virt_address s =
    let page = get_page virt_address s in
    record s { memory = clear_attribute page present (set_frame page 0 s.memory) }

-- The three `SET_ATTRIBUTE`s and the `SET_FRAME` that make an entry.
pub set_entry : ℕ → ℕ → Memory → Memory
set_entry entry address m =
    set_frame entry address
      (set_attribute entry user (set_attribute entry writable (set_attribute entry present m)))

-- What `map_page` does once the directory has a table for the address.
pub map_entry : ℕ → ℕ → Vmm → Vmm
unfolding set_entry
map_entry phys_address virt_address s = record s {
  memory = set_entry (get_page virt_address s) phys_address s.memory;
}

-- The body of `map_page`'s `if`, after the table is mapped onto itself.
pub enter_table : ℕ → ℕ → Vmm → Vmm
unfolding set_entry
enter_table table virt_address s = record s {
  memory =
      set_entry (s.directory + 4 * pd_index virt_address) table (memset table 0 page_size s.memory);
}

pub map_page : ℕ → ℕ → ℕ → Vmm → Option (Bool × Vmm)
unfolding map_entry enter_table
map_page zero phys_address virt_address s = none
map_page (suc fuel) phys_address virt_address s =
    let r = allocate_blocks 1 s.pmm in
    let s' = record s { pmm = r.1 } in
    let mapped = map_page fuel r.0 r.0 s' in
    let e = s.directory + 4 * pd_index virt_address in
    if bit_and (load32 s.memory e) present == present
    then some (true, map_entry phys_address virt_address s)
    else if r.0 == 0
    then some (false, s')
    else elim mapped [
      | none ↦ none
      | some t ↦ some (true, map_entry phys_address virt_address (enter_table r.0 virt_address t.1))
    ]

-- One round of the loops of `initialize_vmm`, on the table that it fills.
pub identity_round : ℕ → ℕ → ℕ → ℕ → Memory → Memory
identity_round table frame virt i m =
    let page =
      with_frame (bit_or (bit_or 0 present) writable) ((frame + i * page_size) % u32_mod) in
    store32 m (table + 4 * pt_index ((virt + i * page_size) % u32_mod)) page

-- The entry of `initialize_vmm` for one of its tables.
pub kernel_entry : ℕ → ℕ → Memory → Memory
kernel_entry entry table m =
    set_frame entry table (set_attribute entry writable (set_attribute entry present m))

pub initialize_vmm : Vmm → Vmm
unfolding identity_round kernel_entry
initialize_vmm s =
    let (table, p) = allocate_blocks 1 s.pmm in
    let (table2, p2) = allocate_blocks 1 p in
    let (dir, p3) = allocate_blocks 3 p2 in
    let m = memset table2 0 page_size (memset table 0 page_size s.memory) in
    let m' = for_range 1024 0 (identity_round table2 0 0) m in
    let m'' = for_range 1024 0 (identity_round table 0x100000 0xC0000000) m' in
    let cleared = memset dir 0 page_size m'' in
    let first = kernel_entry (dir + 4 * pd_index 0xC0000000) table cleared in
    let both = kernel_entry (dir + 4 * pd_index 0) table2 first in
    if table == 0
    then record s { pmm = p }
    else if table2 == 0
    then record s { pmm = p2 }
    else if dir == 0
    then record s { pmm = p3; memory = m'' }
    else (let (done, s') = set_pd dir (record s { pmm = p3; memory = both }) in
        record s' { paging = true })

-- The last statement of `map_address`.
pub store_entry : ℕ → ℕ → ℕ → ℕ → Vmm → Vmm
store_entry dir phys_address virt_address flags s =
    let table =
      bit_and (load32 s.memory (dir + 4 * (virt_address / 2 ^ 22))) (complement 32 0xFFF) in
    let index = virt_address * 2 ^ 10 % u32_mod / 2 ^ 10 / 2 ^ 12 in
    record s { memory = store32 s.memory (table + 4 * index) (bit_or phys_address flags) }

-- `create_page_table` up to its call of `map_address`; the block is the new table. The `memset`
-- takes the directory's entry, flags included, for the address.
pub clear_table : ℕ → ℕ → ℕ → ℕ → Vmm → Vmm
clear_table dir virt_address flags block s =
    let pd = dir + 4 * (virt_address / 2 ^ 22) in
    let m = store32 s.memory pd (bit_or block flags) in
    record s { memory = memset (load32 m pd) 0 page_size m }

mutual
  pub create_page_table : ℕ → ℕ → ℕ → ℕ → Vmm → Option (Bool × Vmm)
  create_page_table zero dir virt_address flags s = none
  create_page_table (suc fuel) dir virt_address flags s =
      let r = allocate_blocks 1 s.pmm in
      let s' = record s { pmm = r.1 } in
      let mapped = map_address fuel dir r.0 r.0 flags (clear_table dir virt_address flags r.0 s') in
      if load32 s.memory (dir + 4 * (virt_address / 2 ^ 22)) == 0
      then (if r.0 == 0
          then some (false, s')
          else elim mapped [ none ↦ none | some t ↦ some (true, t.1) ])
      else some (true, s)

  pub map_address : ℕ → ℕ → ℕ → ℕ → ℕ → Vmm → Option (Bool × Vmm)
  map_address zero dir phys_address virt_address flags s = none
  map_address (suc fuel) dir phys_address virt_address flags s =
      let created = create_page_table fuel dir virt_address flags s in
      if load32 s.memory (dir + 4 * (virt_address / 2 ^ 22)) == 0
      then elim created [
        | none ↦ none
        | some (false, t) ↦ some (false, t)
        | some (true, t) ↦ some (true, store_entry dir phys_address virt_address flags t)
      ]
      else some (true, store_entry dir phys_address virt_address flags s)
