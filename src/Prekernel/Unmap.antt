-- ===== src/Prekernel/Unmap.antt =====
-- The loop of `prekernel_main` that unmaps the 3 MB from 1 MB on.
use mathlib.Core.Path.{subst}
use native.Mathlib.Decide.{ℕ_discrete}
use ab_os.Base.{
  ℕ, ◌+◌, ◌*◌, ◌/◌, ◌%◌, ◌^◌, ◌≤◌, ◌<◌, ◌≡◌, ◌≢◌, ◌⊎◌, refl, sym, ap, ◌∙◌, inl, inr, true, false,
  Bool, Bool-cases, ◌&&◌, ltb, leb, if◌then◌else◌, Option, none, some, Memory, u32_mod, for_range,
  for_range_inv, arith,
}
use ab_os.Base.Bits.{test_bit}
use ab_os.Base.Words.{load32, load32_cong}
use ab_os.Vmm.{Vmm, unmap_page, page_size}
use ab_os.Vmm.Table.{slot-IsTree, same_entry}
use ab_os.Vmm.Walk.{
  slot, translate, table_of, IsTree, OnlySlot, unmap_page_only, unmap_page_rest, unmap_page_own,
}

-- An address without a translation shares that with its page.
none_page :
    (m : Memory) (dir v w : ℕ)
    → w / 4096 ≡ v / 4096
    → translate m dir v ≡ none
    → translate m dir w ≡ none
unfolding translate
none_page m dir v w e gone =
    let e' : w / 2 ^ 22 ≡ v / 2 ^ 22 = omega (arith, e) in
    elim (Bool-cases (test_bit (load32 m (dir + 4 * (v / 2 ^ 22))) 0)) [
      | inl on ↦ elim (Bool-cases (test_bit (load32 m (slot m dir v)) 0)) [
        | inl on' ↦
            let clash : some (load32 m (slot m dir v) / 4096 * 4096 + v % 4096) ≡ none =
              sym (rw (on, on') refl) ∙ gone in
            cc
        | inr off ↦ rw (e', on, e, off) refl
      ]
      | inr off ↦ rw (e', off) refl
    ]

-- `unmap_page` with the directory named.
unmap_at :
    (virt : ℕ) (t : Vmm) (dir : ℕ)
    → virt < u32_mod
    → t.directory ≡ dir
    → IsTree t.memory dir
    → test_bit (load32 t.memory (dir + 4 * (virt / 2 ^ 22))) 0 ≡ true
    → let m' = (unmap_page virt t).memory in
      OnlySlot t.memory m' dir virt
      × (translate m' dir virt ≡ none)
      × ((w : ℕ)
          → w < u32_mod
          → w / 4096 ≢ virt / 4096
          → translate m' dir w ≡ translate t.memory dir w)
unmap_at virt t dir lt e =
    let m' = (unmap_page virt t).memory in
    subst
      (λ (d : ℕ).
        IsTree t.memory d
        → test_bit (load32 t.memory (d + 4 * (virt / 2 ^ 22))) 0 ≡ true
        → OnlySlot t.memory m' d virt
          × (translate m' d virt ≡ none)
          × ((w : ℕ)
              → w < u32_mod
              → w / 4096 ≢ virt / 4096
              → translate m' d w ≡ translate t.memory d w))
      e
      (λ tree here.
        let (gone, others) = unmap_page_own virt t lt tree here in
        (unmap_page_only virt t lt, gone, others))

-- The space without the 3 MB from 1 MB on, of which `k` pages are gone.
abbrev pub pruned : ℕ → Memory → ℕ → ℕ → Option ℕ
pruned k m dir w =
    if leb 256 (w / 4096) && ltb (w / 4096) (256 + k) then none else translate m dir w

module _ (s : Vmm) (tree : IsTree s.memory s.directory)
    (here : test_bit (load32 s.memory (s.directory + 4 * 0)) 0 ≡ true) where
  pub record Unmapped (k : ℕ) (t : Vmm) : Type 0 where
    pub dir : t.directory ≡ s.directory
    pub pmm : t.pmm ≡ s.pmm
    pub shape : IsTree t.memory s.directory
    pub entries :
        (i : ℕ)
        → i < 1024
        → load32 t.memory (s.directory + 4 * i) ≡ load32 s.memory (s.directory + 4 * i)
    pub walk :
        (w : ℕ) → w < u32_mod → translate t.memory s.directory w ≡ pruned k s.memory s.directory w

  unmap_round :
      (k : ℕ) (t : Vmm)
      → k < 0x300
      → Unmapped k t
      → Unmapped (k + 1) (unmap_page (0x100000 + k * page_size) t)
  unmap_round k t l u =
      let virt = 0x100000 + k * page_size in
      let dir = s.directory in
      let region : virt / 2 ^ 22 ≡ 0 = omega (arith, l) in
      let on : test_bit (load32 t.memory (dir + 4 * (virt / 2 ^ 22))) 0 ≡ true =
        rw (region, u.entries 0 (omega arith)) here in
      let (only, gone, others) = unmap_at virt t dir (omega (arith, l)) u.dir u.shape on in
      let m' = (unmap_page virt t).memory in
      record {
        dir = (unmap_page_rest virt t).0 ∙ u.dir;
        pmm = (unmap_page_rest virt t).1 ∙ u.pmm;
        shape = slot-IsTree t.memory m' dir virt (omega (arith, l)) u.shape on only;
        entries = λ i i_l.
            same_entry t.memory m' dir virt (omega (arith, l)) u.shape on only i i_l
            ∙ u.entries i i_l;
        walk = λ w w_l. elim (ℕ_discrete (w / 4096) (virt / 4096)) [
          | yes e ↦
              let p : (leb 256 (w / 4096) && ltb (w / 4096) (256 + (k + 1))) ≡ true =
                ground (arith, e) in
              rw p (none_page m' dir virt w e gone)
          | no ne ↦
              let p : (leb 256 (w / 4096) && ltb (w / 4096) (256 + (k + 1)))
                  ≡ (leb 256 (w / 4096) && ltb (w / 4096) (256 + k)) =
                ground (arith, ne) in
              others w w_l ne
              ∙ u.walk w w_l
              ∙ ap (λ (c : Bool). if c then none else translate s.memory dir w) (sym p)
        ];
      }

  abbrev pub unmapped : Vmm
  unmapped = for_range 0x300 0 (λ i. unmap_page (0x100000 + i * page_size)) s

  pub unmap_loop : Unmapped 0x300 unmapped
  unmap_loop =
      for_range_inv Unmapped (λ i. unmap_page (0x100000 + i * page_size)) 0x300 unmap_round 0x300 0
        s (omega arith)
        (record {
          dir = refl;
          pmm = refl;
          shape = tree;
          entries = λ i l. refl;
          walk = λ w l.
              let p : (leb 256 (w / 4096) && ltb (w / 4096) (256 + 0)) ≡ false = ground arith in
              rw p refl;
        })

-- A store between the pages of the directory and its tables moves no address.
pub translate_same :
    (m m' : Memory) (dir lo hi : ℕ)
    → ((b : ℕ) → (b < lo) ⊎ (hi ≤ b) → m' b ≡ m b)
    → hi ≤ dir
    → ((i : ℕ) → i < 1024 → test_bit (load32 m (dir + 4 * i)) 0 ≡ true → hi ≤ table_of m dir i)
    → (w : ℕ) → w < u32_mod
    → translate m' dir w ≡ translate m dir w
unfolding translate
translate_same m m' dir lo hi same above tables w l =
    let d : load32 m' (dir + 4 * (w / 2 ^ 22)) ≡ load32 m (dir + 4 * (w / 2 ^ 22)) =
      load32_cong m' m (dir + 4 * (w / 2 ^ 22)) (λ b k k'. same b (inr (omega (arith, above)))) in
    elim (Bool-cases (test_bit (load32 m (dir + 4 * (w / 2 ^ 22))) 0)) [
      | inl on ↦
          let high = tables (w / 2 ^ 22) (omega arith) on in
          let e : load32 m' (slot m dir w) ≡ load32 m (slot m dir w) =
            load32_cong m' m (slot m dir w) (λ b k k'. same b (inr (omega (arith, high)))) in
          rw (d, on, e) refl
      | inr off ↦ rw (d, off) refl
    ]
