-- ===== src/Main/Handover/Tests.antt =====
-- A memory map of one entry: the first 1 MB.
use ab_os.Base.{ℕ, ◌+◌, ◌≤◌, ◌<◌, ◌≡◌, refl, true, false, Memory, update, u32_mod, arith}
use ab_os.Base.Words.{load32, load64}
use ab_os.Vmm.{Vmm}
use ab_os.Vmm.Walk.{translate}
use ab_os.Prekernel.{num_entries, prekernel_main}
use ab_os.Prekernel.Boot.{offers, is_available}
use ab_os.Prekernel.Space.{boot_space, HasRoom, IsLow}
use ab_os.Main.{take_over}
use ab_os.Main.Handover.{take_over-prekernel_main}

abbrev mapped : Memory
mapped = update (update (update (λ a. 0) 0xA000 1) 0xA00E 0x10) 0xA014 1

abbrev machine : Vmm
machine = record {
  memory = mapped;
  pmm = record { memory_map = λ w. 0; max_blocks = 0; used_blocks = 0 };
  directory = 0;
  cr3 = 0;
  paging = false;
}

one_entry : num_entries mapped ≡ 1
unfolding load32
one_entry = refl

offered_pages : (q : ℕ) → 20 ≤ q → q < 20 + 5 → is_available mapped (num_entries mapped) q ≡ true
unfolding is_available offers load64 load32
offered_pages q l l' = ground (arith, l, l')

machine-HasRoom : HasRoom mapped 20
machine-HasRoom = record { low = omega arith; high = omega arith; offered = offered_pages }

take_over-prekernel_main_example :
    let v' = take_over (prekernel_main machine) in
    (v' ≡ prekernel_main machine)
    × ((w : ℕ) → w < u32_mod → translate v'.memory v'.directory w ≡ boot_space w)
    × IsLow v'.memory v'.directory
take_over-prekernel_main_example = take_over-prekernel_main machine 20 refl machine-HasRoom
