-- ===== src/Prekernel/Tests.antt =====
-- A machine without a memory map, and one with a map of one entry.
use ab_os.Base.{◌≡◌, ◌∙◌, refl, true, false, not, update, ◌&&◌, ◌||◌, ltb, leb, Memory, arith}
use ab_os.Base.Words.{load32, load64}
use ab_os.Pmm.{Pmm}
use ab_os.Pmm.Blocks.{is_used}
use ab_os.Prekernel.{num_entries, setup_pmm, print_physical_memory}
use ab_os.Prekernel.Boot.{offers, is_available, setup_pmm_lem, print_physical_memory_usage}

abbrev zeros : Memory
zeros a = 0

abbrev blank : Pmm
blank = record { memory_map = zeros; max_blocks = 0; used_blocks = 0 }

setup_pmm_lem_example :
    is_used (setup_pmm zeros blank) 48
    ≡ (ltb 48 18 || (leb 256 48 && ltb 48 276) || not (is_available zeros (num_entries zeros) 48))
setup_pmm_lem_example = setup_pmm_lem zeros blank 48 refl (omega arith) (omega arith)

-- A map of one entry, which offers the first 1 MB, and a bitmap with all blocks in use.
abbrev offering : Memory
offering = update (update (update zeros 0xA000 1) 0xA00E 0x10) 0xA014 1

abbrev taken : Pmm
taken = record { memory_map = λ w. 0xFFFF_FFFF; max_blocks = 1024; used_blocks = 1024 }

offers_48 : is_available offering (num_entries offering) 48 ≡ true
unfolding is_available offers load32 load64
offers_48 = refl

print_physical_memory_usage_example :
    is_used (print_physical_memory offering taken).1 48
    ≡ (not (is_available offering (num_entries offering) 48) && is_used taken 48)
print_physical_memory_usage_example =
    print_physical_memory_usage offering taken 48 (omega arith) (omega arith)

freed_48 : is_used (print_physical_memory offering taken).1 48 ≡ false
freed_48 = print_physical_memory_usage_example ∙ rw offers_48 refl
