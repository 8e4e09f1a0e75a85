-- ===== src/Vmm/Create.antt =====
-- `map_page` of an address whose table is not there yet.
mod Tests
use native.Mathlib.Decide.{ℕ_discrete}
use ab_os.Base.{
  ℕ, ◌+◌, ◌*◌, ◌/◌, ◌%◌, ◌^◌, ◌≤◌, ◌<◌, ◌≡◌, ◌≢◌, ◌⊎◌, refl, sym, ap, ◌∙◌, inl, inr, true, false,
  Memory, u32_mod, if◌then◌else◌, arith, Bool-cases, Option, none, some, Bool,
}
use ab_os.Base.Bits.{test_bit, test_bit-zero}
use ab_os.Base.Words.{load32, load32-lt, load32_cong}
use ab_os.Pmm.{Pmm}
use ab_os.Str.{memset}
use ab_os.Str.Copy.{memset_lem}
use ab_os.Vmm.{Vmm, get_page, set_entry, page_size}
use ab_os.Vmm.Entry.{Maps, set_entry-Maps, set_entry_ne}
use ab_os.Vmm.Table.{
  Fresh, zero_word, new_table-IsTree, new_table-translate, same_entry, slot-IsTree, slot-Fresh,
}
use ab_os.Vmm.Walk.{
  slot, translate, table_of, IsTree, OnlySlot, directory_kept, translate_here, translate_other,
}

-- The memory with the new table.
abbrev entered : ℕ → ℕ → Vmm → Memory
entered table virt t =
    set_entry (t.directory + 4 * (virt / 2 ^ 22)) table (memset table 0 page_size t.memory)

-- The memory as `map_page` changes it, where the table is `m`'s for its own address.
module _ (m : Memory) (dir table phys virt : ℕ) (lt : phys < u32_mod) (al : phys % 4096 ≡ 0)
    (lt' : virt < u32_mod) (tree : IsTree m dir) (fresh : Fresh m dir table)
    (bit31 : load32 m (dir + 4 * (virt / 2 ^ 22)) < 2 ^ 31)
    (gone : test_bit (load32 m (dir + 4 * (virt / 2 ^ 22))) 0 ≡ false)
    (here : test_bit (load32 m (dir + 4 * (table / 2 ^ 22))) 0 ≡ true)
    (bit31' : load32 m (slot m dir table) < 2 ^ 31) where
  abbrev m1 : Memory
  m1 = set_entry (slot m dir table) table m

  abbrev m2 : Memory
  m2 = memset table 0 page_size m1

  abbrev entry : ℕ
  entry = dir + 4 * (virt / 2 ^ 22)

  abbrev m3 : Memory
  m3 = set_entry entry table m2

  abbrev m4 : Memory
  m4 = set_entry (slot m3 dir virt) phys m3

  only1 : OnlySlot m m1 dir table
  only1 b out = set_entry_ne m (slot m dir table) table b out

  tree1 : IsTree m1 dir
  tree1 = slot-IsTree m m1 dir table fresh.word tree here only1

  fresh1 : Fresh m1 dir table
  fresh1 = slot-Fresh m m1 dir table fresh.word tree here only1 table fresh

  entry1 : load32 m1 entry ≡ load32 m entry
  entry1 = same_entry m m1 dir table fresh.word tree here only1 (virt / 2 ^ 22) (omega arith)

  clear : (b : ℕ) → (b < table) ⊎ (table + 4096 ≤ b) → m2 b ≡ m1 b
  clear b out = ground (arith, memset_lem table 0 page_size m1 b, out)

  entry2 : load32 m2 entry ≡ load32 m1 entry
  entry2 = load32_cong m2 m1 entry (λ b l l'. clear b (omega (arith, fresh.off_directory)))

  maps3 : Maps (load32 m3 entry) table
  maps3 =
      set_entry-Maps m2 entry table (omega (arith, entry1, entry2, bit31)) fresh.word fresh.aligned

  same3 : (b : ℕ) → (b < table) ⊎ (table + 4096 ≤ b) → (b < entry) ⊎ (entry + 4 ≤ b) → m3 b ≡ m1 b
  same3 b off out = set_entry_ne m2 entry table b out ∙ clear b off

  empty3 : (b : ℕ) → table ≤ b → b < table + 4096 → m3 b ≡ 0
  empty3 b l l' =
      set_entry_ne m2 entry table b (omega (arith, fresh.off_directory))
      ∙ ground (arith, memset_lem table 0 page_size m1 b)

  gone1 : test_bit (load32 m1 entry) 0 ≡ false
  gone1 = ap (λ (x : ℕ). test_bit x 0) entry1 ∙ gone

  on3 : test_bit (load32 m3 entry) 0 ≡ true
  on3 = maps3.bits 0 (omega arith)

  tree3 : IsTree m3 dir
  tree3 = new_table-IsTree m1 m3 dir table virt lt' tree1 fresh1 gone1 same3 empty3 on3 maps3.frame

  translate3 : (w : ℕ) → w < u32_mod → translate m3 dir w ≡ translate m1 dir w
  translate3 =
      new_table-translate m1 m3 dir table virt lt' tree1 fresh1 gone1 same3 empty3 on3 maps3.frame

  only4 : OnlySlot m3 m4 dir virt
  only4 b out = set_entry_ne m3 (slot m3 dir virt) phys b out

  maps4 : Maps (load32 m4 (slot m3 dir virt)) phys
  maps4 =
      let z : load32 m3 (slot m3 dir virt) ≡ 0 =
        zero_word m3 (slot m3 dir virt)
          (λ b l l'. empty3 b (omega (arith, maps3.frame)) (omega (arith, maps3.frame))) in
      set_entry-Maps m3 (slot m3 dir virt) phys (omega (arith, z)) lt al

  other_page : table / 4096 ≢ virt / 4096
  other_page e =
      let region : table / 2 ^ 22 ≡ virt / 2 ^ 22 = omega (arith, e) in
      let clash : true ≡ false =
        sym here ∙ ap (λ (i : ℕ). test_bit (load32 m (dir + 4 * i)) 0) region ∙ gone in
      cc

  pub tree4 : IsTree m4 dir
  tree4 = slot-IsTree m3 m4 dir virt lt' tree3 on3 only4

  pub at_virt : translate m4 dir virt ≡ some (phys + virt % 4096)
  at_virt =
      translate_here m3 m4 dir virt lt' tree3 on3 only4
      ∙ rw (maps4.bits 0 (omega arith), maps4.frame) refl

  pub at_table : translate m4 dir table ≡ some table
  at_table =
      let maps1 = set_entry-Maps m (slot m dir table) table bit31' fresh.word fresh.aligned in
      translate_other m3 m4 dir virt lt' tree3 on3 only4 table fresh.word other_page
      ∙ translate3 table fresh.word
      ∙ translate_here m m1 dir table fresh.word tree here only1
      ∙ rw (maps1.bits 0 (omega arith), maps1.frame) (ap some (omega (arith, fresh.aligned)))

  pub at_other :
      (w : ℕ)
      → w < u32_mod
      → w / 4096 ≢ virt / 4096
      → w / 4096 ≢ table / 4096
      → translate m4 dir w ≡ translate m dir w
  at_other w l ne ne' =
      translate_other m3 m4 dir virt lt' tree3 on3 only4 w l ne
      ∙ translate3 w l
      ∙ translate_other m m1 dir table fresh.word tree here only1 w l ne'
