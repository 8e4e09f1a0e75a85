-- ===== src/Main/Handover.antt =====
-- From `prekernel_main` to `main`.
mod Tests
use ab_os.Base.{ℕ, ◌<◌, ◌≡◌, refl, u32_mod}
use ab_os.Vmm.{Vmm}
use ab_os.Vmm.Walk.{translate}
use ab_os.Prekernel.{prekernel_main}
use ab_os.Prekernel.Space.{boot_space, HasRoom, IsLow, prekernel_main-boot_space}
use ab_os.Main.{take_over}

-- From an allocator whose counter is 0, and a memory map that offers five pages in a row between
-- 0x12000 and the bitmap at 0x30000: `main` takes over the directory and the counters of the allocator as
-- `prekernel_main` left them, and the tables then describe the address space `boot_space`, the first
-- 1 MB at its own addresses and 4 MB from 1 MB on at 3 GB. The directory and its tables are in that
-- first 1 MB, between 0x2000 and 0x30000.
pub take_over-prekernel_main :
    (v : Vmm) (lo : ℕ)
    → v.pmm.used_blocks ≡ 0
    → HasRoom v.memory lo
    → let v' = take_over (prekernel_main v) in
      (v' ≡ prekernel_main v)
      × ((w : ℕ) → w < u32_mod → translate v'.memory v'.directory w ≡ boot_space w)
      × IsLow v'.memory v'.directory
unfolding take_over
take_over-prekernel_main v lo zeroed room =
    let (space, d, u, most, low) = prekernel_main-boot_space v lo zeroed room in
    (rw (d, u, most) refl, λ w l. rw d (space w l), rw d low)
