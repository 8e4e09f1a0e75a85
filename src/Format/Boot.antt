-- ===== src/Format/Boot.antt =====
-- `write_boot_block` of format_disk.c. A file that is read is its size and its bytes, or `none` if it
-- does not open; a write succeeds.
mod Tests
use ab_os.Base.{
  ℕ, zero, suc, ◌+◌, ◌-◌, ◌*◌, ◌/◌, ◌≤◌, ◌<◌, ◌≡◌, refl, ◌∙◌, Bool, true, false, Bool-cases, inl,
  inr, ◌&&◌, Memory, update, ltb, leb, if◌then◌else◌, Option, none, some, for_range, for_range_inv,
  arith,
}
use ab_os.Str.{memset}
use ab_os.Str.Copy.{memset_lem}
use ab_os.Format.{Formatter, fwrite}

abbrev pub File : Type 0
File = ℕ × Memory

-- A sector of a file, from an offset on, put in a sector of the block.
pub read_sector : ℕ → ℕ → Memory → Memory → Memory
read_sector i offset bytes =
    for_range 512 0 (λ j block. update block (i * 512 + j) (bytes (offset + j)))

-- The loop over the sectors of the second stage. A sector that the file does not fill is cleared, with
-- what was read of it, and so are those behind.
pub stage_loop : ℕ → ℕ → ℕ → Memory → Memory → Memory
unfolding read_sector
stage_loop zero i size bytes block = block
stage_loop (suc rounds) i size bytes block =
    let rest = stage_loop rounds (i + 1) size bytes (read_sector i ((i - 1) * 512) bytes block) in
    let cleared = memset (i * 512) 0 ((7 - i) * 512) block in
    if leb (i * 512) size then rest else cleared

-- The block of both stages.
pub boot_record : Memory → File → Memory
unfolding stage_loop read_sector
boot_record boot (size, bytes) = stage_loop 6 1 size bytes (read_sector 0 0 boot (λ a. 0))

pub write_boot_block : Option File → Option File → Formatter → Bool × Formatter
unfolding boot_record
write_boot_block none second s = (false, s)
write_boot_block (some (size, boot)) none s = (false, s)
write_boot_block (some (size, boot)) (some second) s =
    if ltb size 512 then (false, s) else (true, fwrite (boot_record boot second) 4096 s)

read_sector_lem :
    (i offset : ℕ) (bytes block : Memory) (a : ℕ)
    → read_sector i offset bytes block a ≡ (
        if leb (i * 512) a && ltb a (i * 512 + 512)
        then bytes (offset + (a - i * 512))
        else block a)
unfolding read_sector
read_sector_lem i offset bytes block =
    for_range_inv
      (λ k b.
        (a : ℕ)
        → b a ≡ (
            if leb (i * 512) a && ltb a (i * 512 + k)
            then bytes (offset + (a - i * 512))
            else block a))
      (λ j b. update b (i * 512 + j) (bytes (offset + j))) 512 (λ k b l h a. ground (arith, h a))
      512 0 block (omega arith) (λ a. ground arith)

-- What the loop makes of the sectors from `i` on.
stage_loop_lem :
    (rounds i size : ℕ) (bytes block : Memory) (a : ℕ)
    → 0 < i
    → i + rounds ≡ 7
    → stage_loop rounds i size bytes block a ≡ (
        if leb (i * 512) a && ltb a 3584
        then (if leb (a / 512 * 512) size then bytes (a - 512) else 0)
        else block a)
unfolding stage_loop
stage_loop_lem zero i size bytes block a pos sum = ground (arith, sum)
stage_loop_lem (suc rounds) i size bytes block a pos sum =
    let next = read_sector i ((i - 1) * 512) bytes block in
    elim (Bool-cases (leb (i * 512) size)) [
      | inl full ↦ rw full (
          ground (
            arith,
            full,
            pos,
            sum,
            stage_loop_lem rounds (i + 1) size bytes next a (omega arith) (omega (arith, sum)),
            read_sector_lem i ((i - 1) * 512) bytes block a,
          ))
      | inr short ↦
          rw short (ground (arith, short, sum, memset_lem (i * 512) 0 ((7 - i) * 512) block a))
    ]

-- With a first stage of at least a sector and a second stage, `write_boot_block` writes a block of
-- 4096 bytes: the first sector of the first stage, then the sectors that the second one fills, up to
-- six of them, and zeros. What the second stage has in a last sector that it does not fill is lost.
pub write_boot_block_lem :
    (size : ℕ) (boot : Memory) (second : File) (s : Formatter)
    → 512 ≤ size
    → (write_boot_block (some (size, boot)) (some second) s
        ≡ (true, fwrite (boot_record boot second) 4096 s))
      × ((a : ℕ)
          → boot_record boot second a ≡ (
              if ltb a 512
              then boot a
              else if ltb a 3584 && leb (a / 512 * 512) second.0
              then second.1 (a - 512)
              else 0))
unfolding write_boot_block boot_record
write_boot_block_lem size boot second s enough =
    let e : ltb size 512 ≡ false = ground (arith, enough) in
    (
      rw e refl,
      λ a.
          stage_loop_lem 6 1 second.0 second.1 (read_sector 0 0 boot (λ b. 0)) a (omega arith) refl
          ∙ ground (arith, read_sector_lem 0 0 boot (λ b. 0) a),
    )
