-- ===== src/Pmm.antt =====
-- kernel/memory/physical_memory_manager.c: the bitmap of physical blocks.
-- `memory_map` holds the 32-bit words from `start_addr` on, by index. An `int32_t` is its bit
-- pattern. The loops count rounds, but for that of `find_free_blocks`, which has fuel.
pub mod Tests
pub mod Blocks
pub mod Alloc
pub mod Count
pub mod Find
pub mod Range
use ab_os.Base.{
  ℕ, zero, suc, ◌+◌, ◌-◌, ◌*◌, ◌/◌, ◌%◌, ◌^◌, Bool, true, false, not, bit_and, bit_or, Memory,
  update, u32_mod, ltb, ◌==◌, if◌then◌else◌, for_range,
}
use ab_os.Base.Bits.{complement}

pub record Pmm : Type 0 where
  pub memory_map : Memory
  pub max_blocks : ℕ
  pub used_blocks : ℕ

abbrev pub block_size : ℕ
block_size = 4096

-- The bit pattern of the `int32_t` -1.
abbrev pub minus_one : ℕ
minus_one = 0xffff_ffff

pub set_block : ℕ → Pmm → Pmm
set_block bit s = record s {
  memory_map = update s.memory_map (bit / 32) (bit_or (s.memory_map (bit / 32)) (2 ^ (bit % 32)));
}

pub unset_block : ℕ → Pmm → Pmm
unset_block bit s = record s {
  memory_map =
      update s.memory_map (bit / 32)
        (bit_and (s.memory_map (bit / 32)) (complement 32 (2 ^ (bit % 32))));
}

-- The loop of `find_free_blocks`, at the head of a round.
pub find_loop : ℕ → Pmm → ℕ → ℕ → ℕ → ℕ
find_loop zero s num_blocks i count = minus_one
find_loop (suc fuel) s num_blocks i count =
    let holder = s.memory_map (i / 32) in
    let skip_word = find_loop fuel s num_blocks ((i / 32 + 1) * 32 % u32_mod) 0 in
    let longer = find_loop fuel s num_blocks (i + 1) (count + 1) in
    let broken = find_loop fuel s num_blocks (i + 1) 0 in
    if ltb i s.max_blocks
    then (if holder == 0xffff_ffff
        then skip_word
        else if bit_and holder (2 ^ (i % 32)) == 0
        then (if count + 1 == num_blocks then (i + u32_mod - num_blocks + 1) % u32_mod else longer)
        else broken)
    else minus_one

pub find_free_blocks : ℕ → Pmm → ℕ
unfolding find_loop
find_free_blocks num_blocks s =
    if num_blocks == 0 then minus_one else find_loop s.max_blocks s num_blocks 0 0

-- The address, and the new state. Address 0 is the failure.
pub allocate_blocks : ℕ → Pmm → ℕ × Pmm
allocate_blocks num_blocks s =
    let first_starting_bit = find_free_blocks num_blocks s in
    if first_starting_bit == minus_one
    then (0, s)
    else (let s' = for_range num_blocks 0 (λ i. set_block ((first_starting_bit + i) % u32_mod)) s in
        (
          first_starting_bit * block_size % u32_mod,
          record s' { used_blocks = (s'.used_blocks + num_blocks) % u32_mod },
        ))

pub free_blocks : ℕ → ℕ → Pmm → Pmm
free_blocks bit num_blocks s =
    let s' = for_range num_blocks 0 (λ i. unset_block ((bit + i) % u32_mod)) s in
    record s' { used_blocks = (s'.used_blocks + u32_mod - num_blocks) % u32_mod }

-- One round of the loops below; `align` is at its k-th value.
abbrev release_round : ℕ → ℕ → Pmm → Pmm
release_round align k s =
    let s' = unset_block (align + k) s in
    record s' { used_blocks = (s'.used_blocks + u32_mod - 1) % u32_mod }

abbrev occupy_round : ℕ → ℕ → Pmm → Pmm
occupy_round align k s =
    let s' = set_block (align + k) s in record s' { used_blocks = (s'.used_blocks + 1) % u32_mod }

pub initialize_memory_region : ℕ → ℕ → Pmm → Pmm
initialize_memory_region base_address size s =
    let align = base_address / block_size in
    let num_blocks = size / block_size in
    if num_blocks == 0 then s else set_block 0 (for_range num_blocks 0 (release_round align) s)

pub deinit_memory_region : ℕ → ℕ → Pmm → Pmm
deinit_memory_region base_address size s =
    for_range (size / block_size) 0 (occupy_round (base_address / block_size)) s

pub initialize_pmm : Pmm → Pmm
initialize_pmm s =
    deinit_memory_region 0 0xffff_ffff (record s { max_blocks = 0xffff_ffff / block_size })
