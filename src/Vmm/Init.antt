-- ===== src/Vmm/Init.antt =====
-- `initialize_vmm`: the address space that it builds.
pub mod Blocks
mod Fill
use native.Mathlib.Decide.{ℕ_discrete}
use ab_os.Base.{
  ==_ne, ◌&&◌, ℕ, suc, ◌+◌, ◌-◌, ◌*◌, ◌/◌, ◌%◌, ◌^◌, ◌≤◌, ◌<◌, ◌≡◌, ◌≢◌, ◌⊎◌, refl, sym, ap, ◌∙◌,
  inl, inr, true, false, bit_or, Memory, u32_mod, if◌then◌else◌, arith, Bool-cases, Option, none,
  some, Bool, for_range, for_range_inv, ltb, leb,
}
use ab_os.Base.Bits.{test_bit, test_bit-zero}
use ab_os.Base.Words.{
  load32, load32-lt, load32_cong, store32, load32-store32, store32_ne, load32-store32_ne,
}
use ab_os.Pmm.{Pmm, allocate_blocks}
use ab_os.Str.{memset}
use ab_os.Str.Copy.{memset_lem}
use ab_os.Vmm.{
  Vmm, with_frame, identity_round, kernel_entry, initialize_vmm, page_size, set_attribute,
  set_frame, present, writable, get_frame, pt_index, pd_index, set_pd,
}
use ab_os.Vmm.Entry.{
  pd_index_lem, pt_index_lem, get_frame_lem, get_frame-with_frame, test_bit-with_frame,
  with_frame-lt,
}
use ab_os.Vmm.Init.Fill.{
  IsEntry, value, value-lt, value-IsEntry, Filled, fill_loop, kernel_entry_ne, kernel_entry_at,
}
use ab_os.Vmm.Init.Blocks.{AreBlocks, three_blocks}
use ab_os.Pmm.Alloc.{IsReady}
use ab_os.Vmm.Table.{zero_word}
use ab_os.Vmm.Walk.{slot, translate, table_of, IsTree}

-- The address space of the kernel: the first 4 MB at their own addresses, and the 4 MB from 1 MB on
-- at 3 GB.
abbrev pub kernel_space : ℕ → Option ℕ
kernel_space w =
    if ltb w 0x400000
    then some w
    else if leb 0xC0000000 w && ltb w 0xC0400000
    then some (w - 0xC0000000 + 0x100000)
    else none

module _ (m : Memory) (table table2 dir : ℕ) (h : AreBlocks table table2 dir) where
  abbrev clear : Memory
  clear = memset table2 0 page_size (memset table 0 page_size m)

  abbrev low : Memory
  low = for_range 1024 0 (identity_round table2 0 0) clear

  abbrev high : Memory
  high = for_range 1024 0 (identity_round table 0x100000 0xC0000000) low

  abbrev empty : Memory
  empty = memset dir 0 page_size high

  abbrev first : Memory
  first = kernel_entry (dir + 4 * 768) table empty

  abbrev both : Memory
  both = kernel_entry (dir + 4 * 0) table2 first

  empty_dir : (i : ℕ) → i < 1024 → load32 empty (dir + 4 * i) ≡ 0
  empty_dir i l =
      zero_word empty (dir + 4 * i) (λ b k k'. ground (arith, memset_lem dir 0 page_size high b, l))

  off_dir : (b : ℕ) → (b < dir) ⊎ (dir + 4096 ≤ b) → both b ≡ high b
  off_dir b out =
      kernel_entry_ne (dir + 4 * 0) table2 first b (omega arith)
      ∙ kernel_entry_ne (dir + 4 * 768) table empty b (omega arith)
      ∙ ground (arith, memset_lem dir 0 page_size high b, out)

  entry_low : load32 both (dir + 4 * 0) ≡ value table2
  entry_low = kernel_entry_at (dir + 4 * 0) table2 first h.words.1 (
      load32_cong first empty (dir + 4 * 0)
        (λ b l l'. kernel_entry_ne (dir + 4 * 768) table empty b (omega arith))
      ∙ empty_dir 0 (omega arith))

  entry_high : load32 both (dir + 4 * 768) ≡ value table
  entry_high =
      load32_cong both first (dir + 4 * 768)
        (λ b l l'. kernel_entry_ne (dir + 4 * 0) table2 first b (omega arith))
      ∙ kernel_entry_at (dir + 4 * 768) table empty h.words.0 (empty_dir 768 (omega arith))

  entry_none : (i : ℕ) → i < 1024 → i ≢ 0 → i ≢ 768 → load32 both (dir + 4 * i) ≡ 0
  entry_none i l ne ne' =
      load32_cong both empty (dir + 4 * i) (λ b k k'.
        kernel_entry_ne (dir + 4 * 0) table2 first b (omega arith)
        ∙ kernel_entry_ne (dir + 4 * 768) table empty b (omega arith))
      ∙ empty_dir i l

  page_low :
      (i : ℕ) → i < 1024 → load32 both (table2 + 4 * i) ≡ value ((0 + i * page_size) % u32_mod)
  page_low i l =
      load32_cong both low (table2 + 4 * i) (λ b k k'.
        off_dir b (omega (arith, h.aligned, h.distinct))
        ∙ (fill_loop low table 0x100000 0xC0000000 (omega arith) refl).outside b
            (omega (arith, h.aligned, h.distinct)))
      ∙ (fill_loop clear table2 0 0 (omega arith) refl).page i l

  page_high :
      (i : ℕ)
      → i < 1024
      → load32 both (table + 4 * i) ≡ value ((0x100000 + i * page_size) % u32_mod)
  page_high i l =
      load32_cong both high (table + 4 * i)
        (λ b k k'. off_dir b (omega (arith, h.aligned, h.distinct)))
      ∙ (fill_loop low table 0x100000 0xC0000000 (omega arith) refl).page i l

  walk_low : (w : ℕ) → w < 0x400000 → translate both dir w ≡ some w
  unfolding translate
  walk_low w l =
      let i = w / 4096 % 1024 in
      let d = value-IsEntry table2 h.words.1 h.aligned.1 in
      let e : load32 both (dir + 4 * (w / 2 ^ 22)) ≡ value table2 =
        let z : w / 2 ^ 22 ≡ 0 = omega arith in rw z entry_low in
      let p = value-IsEntry ((0 + i * page_size) % u32_mod) (omega arith) (omega arith) in
      rw (e, d.on, d.frame, page_low i (omega arith), p.on, p.frame) (ap some (omega arith))

  walk_high :
      (w : ℕ)
      → 0xC0000000 ≤ w
      → w < 0xC0400000
      → translate both dir w ≡ some (w - 0xC0000000 + 0x100000)
  unfolding translate
  walk_high w l l' =
      let i = w / 4096 % 1024 in
      let d = value-IsEntry table h.words.0 h.aligned.0 in
      let e : load32 both (dir + 4 * (w / 2 ^ 22)) ≡ value table =
        let z : w / 2 ^ 22 ≡ 768 = omega arith in rw z entry_high in
      let p = value-IsEntry ((0x100000 + i * page_size) % u32_mod) (omega arith) (omega arith) in
      rw (e, d.on, d.frame, page_high i (omega arith), p.on, p.frame) (ap some (omega arith))

  walk_none :
      (w : ℕ) → w < u32_mod → w / 2 ^ 22 ≢ 0 → w / 2 ^ 22 ≢ 768 → translate both dir w ≡ none
  unfolding translate
  walk_none w l ne ne' = rw (entry_none (w / 2 ^ 22) (omega arith) ne ne', test_bit-zero 0) refl

  walk : (w : ℕ) → w < u32_mod → translate both dir w ≡ kernel_space w
  walk w l = elim (Bool-cases (ltb w 0x400000)) [
    | inl e ↦ rw e (walk_low w (ground (arith, e)))
    | inr e ↦ elim (Bool-cases (leb 0xC0000000 w && ltb w 0xC0400000)) [
      | inl e' ↦ rw (e, e') (walk_high w (ground (arith, e')) (ground (arith, e')))
      | inr e' ↦
          let low : 0x400000 ≤ w = ground (arith, e) in
          let out : (w < 0xC0000000) ⊎ (0xC0400000 ≤ w) = ground (arith, e') in
          rw (e, e') (walk_none w l (omega arith) (omega (arith, out)))
    ]
  ]

  -- The entries that are present.
  there :
      (i : ℕ)
      → i < 1024
      → test_bit (load32 both (dir + 4 * i)) 0 ≡ true
      → ((i ≡ 0) × (table_of both dir i ≡ table2)) ⊎ ((i ≡ 768) × (table_of both dir i ≡ table))
  there i l on = elim (ℕ_discrete i 0) [
    | yes e ↦ inl (e, rw (e, entry_low) (value-IsEntry table2 h.words.1 h.aligned.1).frame)
    | no ne ↦ elim (ℕ_discrete i 768) [
      | yes e ↦ inr (e, rw (e, entry_high) (value-IsEntry table h.words.0 h.aligned.0).frame)
      | no ne' ↦
          let off : test_bit (load32 both (dir + 4 * i)) 0 ≡ false =
            rw (entry_none i l ne ne') (test_bit-zero 0) in
          let clash : true ≡ false = sym on ∙ off in cc
    ]
  ]

  both-IsTree : IsTree both dir
  both-IsTree = record {
    apart = λ i l on. omega (arith, there i l on, h.aligned, h.distinct);
    distinct = λ i j l l' ne on on'. omega (arith, there i l on, there j l' on', h.distinct);
  }

-- Where an allocator of at most 2 ^ 20 blocks, with block 0 in use, has two blocks and then three in a
-- row, `initialize_vmm` takes them for two tables and a directory, enters the directory in CR3 and turns paging on. The addresses then
-- translate as in `kernel_space`, and the tables are apart from the directory and each other.
pub initialize_vmm-kernel_space :
    (s : Vmm)
    → IsReady s.pmm
    → let r = allocate_blocks 1 s.pmm in
      let r2 = allocate_blocks 1 r.1 in
      let r3 = allocate_blocks 3 r2.1 in
      r.0 ≢ 0
      → r2.0 ≢ 0
      → r3.0 ≢ 0
      → let s' = initialize_vmm s in
        ((w : ℕ) → w < u32_mod → translate s'.memory s'.directory w ≡ kernel_space w)
        × IsTree s'.memory s'.directory
        × (s'.directory ≡ r3.0)
        × (s'.cr3 ≡ r3.0)
        × (s'.paging ≡ true)
        × (s'.pmm ≡ r3.1)
unfolding initialize_vmm set_pd
initialize_vmm-kernel_space s ready got got2 got3 =
    let r = allocate_blocks 1 s.pmm in
    let r2 = allocate_blocks 1 r.1 in
    let r3 = allocate_blocks 3 r2.1 in
    let h = three_blocks s.pmm ready got got2 got3 in
    let p : pd_index 0xC0000000 ≡ 768 = pd_index_lem 0xC0000000 (omega arith) in
    let z : pd_index 0 ≡ 0 = pd_index_lem 0 (omega arith) in
    rw (p, z, ==_ne r.0 0 got, ==_ne r2.0 0 got2, ==_ne r3.0 0 got3)
      (walk s.memory r.0 r2.0 r3.0 h, both-IsTree s.memory r.0 r2.0 r3.0 h, refl, refl, refl, refl)

-- Its tables: the first is there, and each is one of the two blocks.
pub initialize_vmm_tables :
    (s : Vmm)
    → IsReady s.pmm
    → let r = allocate_blocks 1 s.pmm in
      let r2 = allocate_blocks 1 r.1 in
      let r3 = allocate_blocks 3 r2.1 in
      r.0 ≢ 0
      → r2.0 ≢ 0
      → r3.0 ≢ 0
      → let s' = initialize_vmm s in
        (test_bit (load32 s'.memory (s'.directory + 4 * 0)) 0 ≡ true)
        × ((i : ℕ)
            → i < 1024
            → test_bit (load32 s'.memory (s'.directory + 4 * i)) 0 ≡ true
            → (table_of s'.memory s'.directory i ≡ r2.0)
              ⊎ (table_of s'.memory s'.directory i ≡ r.0))
unfolding initialize_vmm set_pd
initialize_vmm_tables s ready got got2 got3 =
    let r = allocate_blocks 1 s.pmm in
    let r2 = allocate_blocks 1 r.1 in
    let r3 = allocate_blocks 3 r2.1 in
    let h = three_blocks s.pmm ready got got2 got3 in
    let p : pd_index 0xC0000000 ≡ 768 = pd_index_lem 0xC0000000 (omega arith) in
    let z : pd_index 0 ≡ 0 = pd_index_lem 0 (omega arith) in
    rw (p, z, ==_ne r.0 0 got, ==_ne r2.0 0 got2, ==_ne r3.0 0 got3)
      (
        ap (λ (e : ℕ). test_bit e 0) (entry_low s.memory r.0 r2.0 r3.0 h)
            ∙ (value-IsEntry r2.0 h.words.1 h.aligned.1).on,
        λ i l on. elim (there s.memory r.0 r2.0 r3.0 h i l on) [
          | inl (e, f) ↦ inl f
          | inr (e, f) ↦ inr f
        ],
      )
