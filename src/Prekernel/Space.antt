-- ===== src/Prekernel/Space.antt =====
-- The address space in which the kernel starts.
use mathlib.Core.Path.{subst}
use ab_os.Base.{
  ℕ, ◌+◌, ◌-◌, ◌*◌, ◌≤◌, ◌<◌, ◌≡◌, ◌⊎◌, sym, ap, ◌∙◌, inr, true, ◌&&◌, ltb, leb, if◌then◌else◌,
  Option, none, some, Memory, u32_mod, arith,
}
use ab_os.Base.Bits.{test_bit}
use ab_os.Base.Words.{load32, store32, store32_ne, load32-store32, load32-store32_ne, load32_cong}
use ab_os.Pmm.{Pmm}
use ab_os.Pmm.Alloc.{IsReady}
use ab_os.Vmm.{Vmm, initialize_vmm}
use ab_os.Vmm.Init.{kernel_space, initialize_vmm-kernel_space, initialize_vmm_tables}
use ab_os.Vmm.Init.Blocks.{three_above, three_blocks, three_ready, five_free, five_early}
use ab_os.Vmm.Walk.{translate, table_of, IsTree}
use ab_os.Prekernel.Unmap.{pruned, Unmapped, unmapped, unmap_loop, translate_same}
use ab_os.Prekernel.Boot.{is_available, setup_pmm_lem, setup_pmm_ready}
use ab_os.Pmm.Find.{FreeBetween}
use ab_os.Prekernel.{num_entries, total_memory, setup_pmm, prekernel_main}

-- The four words that are stored behind the loop.
abbrev stored : ℕ → ℕ → ℕ → ℕ → Memory → Memory
stored total used most dir m =
    store32 (store32 (store32 (store32 m 0x180C total) 0x1804 used) 0x1808 most) 0x1800 dir

stored_ne :
    (total used most dir : ℕ) (m : Memory) (b : ℕ)
    → (b < 0x1800) ⊎ (0x1810 ≤ b)
    → stored total used most dir m b ≡ m b
stored_ne total used most dir m b out =
    let m1 = store32 m 0x180C total in
    let m2 = store32 m1 0x1804 used in
    store32_ne (store32 m2 0x1808 most) 0x1800 dir b (omega arith)
    ∙ store32_ne m2 0x1808 most b (omega arith)
    ∙ store32_ne m1 0x1804 used b (omega arith)
    ∙ store32_ne m 0x180C total b (omega arith)

stored_walk :
    (total used most value : ℕ) (s t : Vmm) (tree : IsTree s.memory s.directory)
    (here : test_bit (load32 s.memory (s.directory + 4 * 0)) 0 ≡ true)
    → Unmapped s tree here 0x300 t
    → 0x2000 ≤ s.directory
    → ((i : ℕ)
        → i < 1024
        → test_bit (load32 s.memory (s.directory + 4 * i)) 0 ≡ true
        → 0x2000 ≤ table_of s.memory s.directory i)
    → (w : ℕ) → w < u32_mod
    → translate (stored total used most value t.memory) s.directory w
      ≡ pruned 0x300 s.memory s.directory w
stored_walk total used most value s t tree here u above tables w l =
    translate_same t.memory (stored total used most value t.memory) s.directory 0x1800 0x1810
      (λ b out. stored_ne total used most value t.memory b out) (omega (arith, above))
      (λ i i_l on.
        let e = u.entries i i_l in
        let high = tables i i_l (ap (λ (x : ℕ). test_bit x 0) (sym e) ∙ on) in
        omega (arith, e, high))
      w l
    ∙ u.walk w l

-- The directory and its tables are in the pages from 0x2000 on, below the bitmap at 0x30000.
abbrev pub IsLow : Memory → ℕ → Type 0
IsLow m dir =
    (0x2000 ≤ dir)
    × (dir + 0x1000 ≤ 0x30000)
    × ((i : ℕ)
        → i < 1024
        → test_bit (load32 m (dir + 4 * i)) 0 ≡ true
        → (0x2000 ≤ table_of m dir i) × (table_of m dir i + 0x1000 ≤ 0x30000))

stored-IsLow :
    (total used most value : ℕ) (s t : Vmm) (tree : IsTree s.memory s.directory)
    (here : test_bit (load32 s.memory (s.directory + 4 * 0)) 0 ≡ true)
    → Unmapped s tree here 0x300 t
    → IsLow s.memory s.directory
    → IsLow (stored total used most value t.memory) s.directory
stored-IsLow total used most value s t tree here u (above, below, tables) = (
  above,
  below,
  λ i l on.
      let m = stored total used most value t.memory in
      let e : load32 m (s.directory + 4 * i) ≡ load32 s.memory (s.directory + 4 * i) =
        load32_cong m t.memory (s.directory + 4 * i)
          (λ b k k'. stored_ne total used most value t.memory b (inr (omega (arith, above))))
        ∙ u.entries i l in
      let low = tables i l (ap (λ (x : ℕ). test_bit x 0) (sym e) ∙ on) in
      (omega (arith, e, low.0), omega (arith, e, low.1)),
)

-- The address space of the kernel when it starts: the first 1 MB at its own addresses, and the 4 MB
-- from 1 MB on at 3 GB.
abbrev pub boot_space : ℕ → Option ℕ
boot_space w =
    if ltb w 0x100000
    then some w
    else if leb 0xC0000000 w && ltb w 0xC0400000
    then some (w - 0xC0000000 + 0x100000)
    else none

pruned_kernel :
    (m : Memory) (dir w : ℕ)
    → translate m dir w ≡ kernel_space w
    → pruned 0x300 m dir w ≡ boot_space w
pruned_kernel m dir w e = rw e (ground arith)

-- Five pages in a row that the memory map offers, behind what the boot reserves and below the
-- bitmap at 0x30000.
pub record HasRoom (m : Memory) (lo : ℕ) : Type 0 where
  pub low : 18 ≤ lo
  pub high : lo + 5 ≤ 48
  pub offered : (q : ℕ) → lo ≤ q → q < lo + 5 → is_available m (num_entries m) q ≡ true

setup_pmm-IsReady : (m : Memory) (s : Pmm) → s.used_blocks ≡ 0 → IsReady (setup_pmm m s)
setup_pmm-IsReady m s zeroed =
    let r = setup_pmm_ready m s zeroed in record { small = omega (arith, r.0); reserved = r.1 }

room_free :
    (m : Memory) (s : Pmm) (lo : ℕ)
    → s.used_blocks ≡ 0
    → HasRoom m lo
    → FreeBetween (setup_pmm m s) lo (lo + 5)
room_free m s lo zeroed h q l l' =
    setup_pmm_lem m s q zeroed (omega (arith, h.low)) (omega (arith, h.high))
    ∙ rw (h.offered q l l') (ground (arith, h.low, h.high))

-- The words, as the kernel reads them.
stored_words :
    (total used most dir : ℕ) (m : Memory)
    → used < u32_mod
    → most < u32_mod
    → dir < u32_mod
    → (load32 (stored total used most dir m) 0x1800 ≡ dir)
      × (load32 (stored total used most dir m) 0x1804 ≡ used)
      × (load32 (stored total used most dir m) 0x1808 ≡ most)
stored_words total used most dir m hu hm hd =
    let m1 = store32 m 0x180C total in
    let m2 = store32 m1 0x1804 used in
    let m3 = store32 m2 0x1808 most in
    (
      load32-store32 m3 0x1800 dir hd,
      load32-store32_ne m3 0x1800 dir 0x1804 (omega arith)
          ∙ load32-store32_ne m2 0x1808 most 0x1804 (omega arith)
          ∙ load32-store32 m1 0x1804 used hu,
      load32-store32_ne m3 0x1800 dir 0x1808 (omega arith) ∙ load32-store32 m2 0x1808 most hm,
    )

-- From an allocator whose counter is 0, and a memory map that offers five pages in a row between
-- 0x12000 and the bitmap at 0x30000, `prekernel_main` ends with a directory whose tables describe the
-- address space `boot_space`; the words at 0x1800, 0x1804 and 0x1808, which the kernel reads, are the
-- address of the directory, the counter and the size of the bitmap; and the directory and all its
-- tables are between 0x2000 and 0x30000, behind those words, below the bitmap, and in the part that
-- `boot_space` keeps at its own addresses.
pub prekernel_main-boot_space :
    (v : Vmm) (lo : ℕ)
    → v.pmm.used_blocks ≡ 0
    → HasRoom v.memory lo
    → let v' = prekernel_main v in
      ((w : ℕ) → w < u32_mod → translate v'.memory v'.directory w ≡ boot_space w)
      × (load32 v'.memory 0x1800 ≡ v'.directory)
      × (load32 v'.memory 0x1804 ≡ v'.pmm.used_blocks)
      × (load32 v'.memory 0x1808 ≡ v'.pmm.max_blocks)
      × IsLow v'.memory v'.directory
unfolding prekernel_main
prekernel_main-boot_space v lo zeroed room =
    let pmm = setup_pmm v.memory v.pmm in
    let ready = setup_pmm-IsReady v.memory v.pmm zeroed in
    let used = setup_pmm_lem v.memory v.pmm 1 zeroed (omega arith) (omega arith) in
    let top = (setup_pmm_ready v.memory v.pmm zeroed).0 in
    let (got, got2, got3) =
      five_free pmm lo ready (room_free v.memory v.pmm lo zeroed room)
        (omega (arith, top, room.high)) in
    let s1 = record v { pmm = pmm; memory = store32 v.memory 0x1800 v.directory } in
    let s = initialize_vmm s1 in
    let (space, tree, dir, cr3, paging, rest) =
      initialize_vmm-kernel_space s1 ready got got2 got3 in
    let (here, tables) = initialize_vmm_tables s1 ready got got2 got3 in
    let room' = room_free v.memory v.pmm lo zeroed room in
    let early = five_early pmm lo ready room' (omega (arith, top, room.high)) in
    let above = three_above pmm ready used got got2 got3 in
    let blocks = three_blocks pmm ready got got2 got3 in
    let u = unmap_loop s tree here in
    let t = unmapped s tree here in
    let total = total_memory v.memory in
    let m = stored total t.pmm.used_blocks t.pmm.max_blocks t.directory t.memory in
    let kept = u.pmm ∙ rest in
    let small = three_ready pmm ready got3 in
    let same_used = ap (λ (p : Pmm). p.used_blocks) kept in
    let same_max = ap (λ (p : Pmm). p.max_blocks) kept in
    let words =
      stored_words total t.pmm.used_blocks t.pmm.max_blocks t.directory t.memory
        (omega (arith, same_used, small)) (omega (arith, same_max, small))
        (omega (arith, u.dir, dir, blocks.words)) in
    (
      λ w l.
          ap (λ (d : ℕ). translate m d w) u.dir
          ∙ stored_walk total t.pmm.used_blocks t.pmm.max_blocks t.directory s t tree here u
              (omega (arith, dir, above)) (λ i i_l on. omega (arith, tables i i_l on, above)) w l
          ∙ pruned_kernel s.memory s.directory w (space w l),
      words.0,
      words.1,
      words.2,
      subst (IsLow m) (sym u.dir) (
          stored-IsLow total t.pmm.used_blocks t.pmm.max_blocks t.directory s t tree here u (
            omega (arith, dir, above),
            omega (arith, dir, early, room.high),
            λ i i_l on.
                let at = tables i i_l on in
                (omega (arith, at, above), omega (arith, at, early, room.high)),
          )),
    )
