-- ===== src/Format/Boot/Tests.antt =====
-- A second stage of 1000 bytes, of which one sector is written.
use ab_os.Base.{ℕ, ◌*◌, ◌/◌, ◌≡◌, true, ◌&&◌, ltb, leb, if◌then◌else◌, some, arith}
use ab_os.Format.{fwrite}
use ab_os.Format.Tests.{blank}
use ab_os.Format.Boot.{File, boot_record, write_boot_block, write_boot_block_lem}

abbrev second : File
second = (1000, λ a. 2)

write_boot_block_lem_example :
    (write_boot_block (some (512, λ a. 1)) (some second) blank
      ≡ (true, fwrite (boot_record (λ a. 1) second) 4096 blank))
    × ((a : ℕ)
        → boot_record (λ a. 1) second a
          ≡ (if ltb a 512 then 1 else if ltb a 3584 && leb (a / 512 * 512) 1000 then 2 else 0))
write_boot_block_lem_example = write_boot_block_lem 512 (λ a. 1) second blank (omega arith)
