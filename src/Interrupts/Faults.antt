-- ===== src/Interrupts/Faults.antt =====
-- The handlers of kernel/interrupts/exceptions.c for page faults and the timer. CR2 is an argument,
-- and the TLB is left out.
use ab_os.Base.{
  ℕ, suc, ◌+◌, ◌*◌, ◌/◌, ◌%◌, ◌^◌, ◌<◌, ◌≡◌, ◌≢◌, refl, ap, true, Option, some, ◌>>=◌, List,
  u32_mod, arith,
}
use ab_os.Base.Words.{load32}
use ab_os.Base.Bits.{test_bit}
use ab_os.Pmm.{Pmm, allocate_blocks}
use ab_os.Pmm.Alloc.{IsReady, success, failure, allocate_blocks-Allocation}
use ab_os.Vmm.Address.{map_address-translate}
use ab_os.Vmm.Walk.{translate, IsTree}
use ab_os.Vmm.{Vmm, map_address}
use ab_os.Interrupts.Pic.{pic_send_eoi}

-- The result of `map_address` is not looked at.
pub page_fault_handler : ℕ → ℕ → Vmm → Option Vmm
page_fault_handler fuel bad_address v =
    let (phys_address, pmm') = allocate_blocks 1 v.pmm in
    map_address fuel v.directory phys_address bad_address 7 (record v { pmm = pmm' }) >>= λ t.
    some t.1

-- `ticks`, and the log of the ports.
pub pit_handler : ℕ × List (ℕ × ℕ) → ℕ × List (ℕ × ℕ)
pit_handler (ticks, outs) = ((ticks + 1) % (u32_mod * u32_mod), pic_send_eoi 0 outs)

-- What `allocate_blocks` returns is the address of a page, 0 included.
allocated_page :
    (s : Pmm)
    → IsReady s
    → ((allocate_blocks 1 s).0 % 4096 ≡ 0) × ((allocate_blocks 1 s).0 < u32_mod)
allocated_page s ready = elim (allocate_blocks-Allocation 1 s (omega arith) ready) [
  | success p e ne fits free low marked ↦ (omega (arith, e), omega (arith, e, fits, ready.small))
  | failure e full ↦ let z = ap (λ (r : ℕ × Pmm). r.0) e in (omega (arith, z), omega (arith, z))
]

-- A page fault below 2 ^ 32, where the directory has the table of the address and tables are apart, is
-- resolved: the handler returns with any fuel but 0, the address then translates into the block that
-- `allocate_blocks` gives, or into the first page if it gives none, and no address of another page
-- moves.
pub page_fault_handler-translate :
    (fuel bad_address : ℕ) (v : Vmm)
    → bad_address < u32_mod
    → IsReady v.pmm
    → IsTree v.memory v.directory
    → test_bit (load32 v.memory (v.directory + 4 * (bad_address / 2 ^ 22))) 0 ≡ true
    → let r = allocate_blocks 1 v.pmm in
      (v' : Vmm) × (page_fault_handler (suc fuel) bad_address v ≡ some v')
      × (v'.pmm ≡ r.1)
      × (translate v'.memory v.directory bad_address ≡ some (r.0 + bad_address % 4096))
      × ((w : ℕ)
          → w < u32_mod
          → w / 4096 ≢ bad_address / 4096
          → translate v'.memory v.directory w ≡ translate v.memory v.directory w)
unfolding page_fault_handler test_bit
page_fault_handler-translate fuel bad_address v lt ready tree here =
    let r = allocate_blocks 1 v.pmm in
    let page = allocated_page v.pmm ready in
    let (v', done, kept, dir, moved, others) =
      map_address-translate fuel r.0 bad_address 7 (record v { pmm = r.1 }) page.1 page.0 lt
        (omega arith) refl tree here in
    (v', rw done refl, kept, moved, others)
