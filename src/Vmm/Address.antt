-- ===== src/Vmm/Address.antt =====
-- `map_address` where the directory already has the table of the address.
use ab_os.Base.{
  ℕ, suc, ◌+◌, ◌*◌, ◌/◌, ◌%◌, ◌^◌, ◌<◌, ◌≡◌, ◌≢◌, refl, sym, ap, ◌∙◌, true, bit_and, bit_or,
  u32_mod, ==_ne, arith, some,
}
use ab_os.Base.Bits.{
  test_bit, test_bit-or, test_bit-and, test_bit-complement, test_bit_above, bit_or-lt, eq_of_bits,
  complement,
}
use ab_os.Base.Bits.Masks.{bit_and-lt, test_bit-ones}
use ab_os.Base.Words.{load32, load32-lt, load32-store32, store32, store32_ne}
use ab_os.Vmm.{Vmm, get_frame, map_address, store_entry}
use ab_os.Vmm.Entry.{get_frame_lem, aligned-low}
use ab_os.Vmm.Walk.{slot, translate, translate_here, translate_other, IsTree, OnlySlot}

-- A page's address with flags: its frame, and bit 0.
entry_frame :
    (phys flags : ℕ)
    → phys < u32_mod
    → phys % 4096 ≡ 0
    → flags < 4096
    → bit_or phys flags / 4096 * 4096 ≡ phys
entry_frame phys flags lt al low =
    let w = bit_or phys flags in
    let wlt = bit_or-lt 32 phys flags lt (omega arith) in
    sym (get_frame_lem w wlt)
    ∙ eq_of_bits 32 (get_frame w) phys
        (unfold get_frame in bit_and-lt 32 w (complement 32 0xFFF) wlt) lt
        (λ i h.
          unfold get_frame in
          rw
            (
              test_bit-and,
              test_bit-or,
              test_bit-complement 32 i 0xFFF (omega arith) h,
              test_bit-ones 12 i,
            )
            (ground (arith, aligned-low phys i al, test_bit_above 12 i flags low)))

present_ne : (w : ℕ) → test_bit w 0 ≡ true → w ≢ 0
unfolding test_bit
present_ne w h = ground arith

store_entry_at :
    (phys virt flags : ℕ) (s : Vmm)
    → virt < u32_mod
    → store_entry s.directory phys virt flags s
      ≡ record s { memory = store32 s.memory (slot s.memory s.directory virt) (bit_or phys flags) }
unfolding store_entry
store_entry_at phys virt flags s lt =
    let pd = load32 s.memory (s.directory + 4 * (virt / 2 ^ 22)) in
    let e : bit_and pd (complement 32 0xFFF) ≡ pd / 4096 * 4096 =
      unfold get_frame in
      get_frame_lem pd (load32-lt s.memory (s.directory + 4 * (virt / 2 ^ 22))) in
    let f : virt * 2 ^ 10 % u32_mod / 2 ^ 10 / 2 ^ 12 ≡ virt / 4096 % 1024 = omega arith in
    rw (e, f) refl

-- `map_address` of a page's address below 2 ^ 32 with flags that have the present bit, where the
-- directory has the table of the virtual address and tables are apart: it succeeds with any fuel but
-- 0, the address translates into the page, no address of another page moves, and the allocator stays.
pub map_address-translate :
    (fuel phys virt flags : ℕ) (s : Vmm)
    → phys < u32_mod
    → phys % 4096 ≡ 0
    → virt < u32_mod
    → flags < 4096
    → test_bit flags 0 ≡ true
    → IsTree s.memory s.directory
    → test_bit (load32 s.memory (s.directory + 4 * (virt / 2 ^ 22))) 0 ≡ true
    → (s' : Vmm) × (map_address (suc fuel) s.directory phys virt flags s ≡ some (true, s'))
      × (s'.pmm ≡ s.pmm)
      × (s'.directory ≡ s.directory)
      × (translate s'.memory s.directory virt ≡ some (phys + virt % 4096))
      × ((w : ℕ)
          → w < u32_mod
          → w / 4096 ≢ virt / 4096
          → translate s'.memory s.directory w ≡ translate s.memory s.directory w)
unfolding map_address
map_address-translate fuel phys virt flags s lt al lt' low set tree here =
    let pd = load32 s.memory (s.directory + 4 * (virt / 2 ^ 22)) in
    let value = bit_or phys flags in
    let at = slot s.memory s.directory virt in
    let m' = store32 s.memory at value in
    let stored = load32-store32 s.memory at value (bit_or-lt 32 phys flags lt (omega arith)) in
    let only : OnlySlot s.memory m' s.directory virt =
      λ b out. store32_ne s.memory at value b out in
    let bit : test_bit value 0 ≡ true = rw (test_bit-or, set) (ground arith) in
    (
      record s { memory = m' },
      rw (==_ne pd 0 (present_ne pd here))
          (ap (λ (t : Vmm). some (true, t)) (store_entry_at phys virt flags s lt')),
      refl,
      refl,
      translate_here s.memory m' s.directory virt lt' tree here only
          ∙ rw (stored, bit, entry_frame phys flags lt al low) refl,
      translate_other s.memory m' s.directory virt lt' tree here only,
    )
