-- ===== src/Vmm/Tests.antt =====
-- A directory at 0x1000 with one table, at 0x2000, for the first 4 MB.
use ab_os.Base.{
  ℕ, ◌+◌, ◌*◌, ◌/◌, ◌^◌, ◌<◌, ◌≡◌, ◌≢◌, refl, sym, ◌∙◌, true, some, arith, u32_mod, Memory, update,
}
use ab_os.Base.Bits.{test_bit}
use ab_os.Base.Words.{load32}
use ab_os.Vmm.{Vmm, map_page}
use ab_os.Vmm.Walk.{slot, translate, IsTree, map_page-translate}

abbrev pub bytes : Memory
bytes = update (update (update (update (λ a. 0) 0x1000 7) 0x1001 0x20) 0x2010 7) 0x2011 0x40

abbrev pub paged : Vmm
paged = record {
  memory = bytes;
  pmm = record { memory_map = λ w. 0; max_blocks = 8; used_blocks = 0 };
  directory = 0x1000;
  cr3 = 0x1000;
  paging = true;
}

first_only : (i : ℕ) → i < 1024 → test_bit (load32 bytes (0x1000 + 4 * i)) 0 ≡ true → i ≡ 0
unfolding load32 test_bit
first_only i h p = ground arith

pub paged-IsTree : IsTree bytes 0x1000
paged-IsTree = record {
  apart = λ i h p. let e = first_only i h p in rw e (unfold load32 in omega arith);
  distinct = λ i j h h' ne p p'. absurd (ne (first_only i h p ∙ sym (first_only j h' p')));
}

pub first_present : test_bit (load32 bytes (0x1000 + 4 * (0x3123 / 2 ^ 22))) 0 ≡ true
unfolding load32 test_bit
first_present = refl

slot_low : load32 bytes (slot bytes 0x1000 0x3123) < 2 ^ 31
unfolding load32
slot_low = omega arith

-- The page at 0x4000 is mapped at its own address.
mapped : translate bytes 0x1000 0x4abc ≡ some 0x4abc
unfolding translate load32 test_bit
mapped = refl

map_page-translate_example :
    (s' : Vmm) × (map_page 1 0x5000 0x3123 paged ≡ some (true, s'))
    × (translate s'.memory s'.directory 0x3123 ≡ some 0x5123)
    × ((w : ℕ)
        → w < u32_mod
        → w / 4096 ≢ 0x3123 / 4096
        → translate s'.memory s'.directory w ≡ translate bytes 0x1000 w)
map_page-translate_example =
    map_page-translate 0 0x5000 0x3123 paged (omega arith) refl (omega arith) paged-IsTree
      first_present slot_low
