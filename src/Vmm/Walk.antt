-- ===== src/Vmm/Walk.antt =====
-- The translation of addresses that the tables in memory describe, and what `map_page` and
-- `unmap_page` do to it.
use native.Mathlib.Decide.{ℕ_discrete}
use ab_os.Base.{
  ℕ, suc, ◌+◌, ◌*◌, ◌/◌, ◌%◌, ◌^◌, ◌≤◌, ◌<◌, ◌≡◌, ◌≢◌, ◌⊎◌, refl, ap, ◌∙◌, inl, inr, true, false,
  bit_and, Memory, u32_mod, if◌then◌else◌, arith, Bool-cases, Option, none, some,
}
use ab_os.Base.Bits.{test_bit, bit_and-pow, test_bit-clear, complement}
use ab_os.Base.Bits.Masks.{bit_and-lt}
use ab_os.Base.Words.{load32, load32-lt, load32_cong, load32-store32, store32_ne}
use ab_os.Vmm.{
  Vmm, get_page, map_entry, map_page, unmap_page, set_entry, set_frame, with_frame, clear_attribute,
  present,
}
use ab_os.Vmm.Entry.{pd_index_lem, pt_index_lem, get_frame_lem, set_entry-Maps, set_entry_ne}

-- The place of an address's entry in the table that its directory entry names.
abbrev pub slot : Memory → ℕ → ℕ → ℕ
slot m dir v = load32 m (dir + 4 * (v / 2 ^ 22)) / 4096 * 4096 + 4 * (v / 4096 % 1024)

-- The processor's walk: the address's directory entry, then its table entry, then the offset.
unfoldable pub translate : Memory → ℕ → ℕ → Option ℕ
translate m dir v =
    if test_bit (load32 m (dir + 4 * (v / 2 ^ 22))) 0
    then (if test_bit (load32 m (slot m dir v)) 0
        then some (load32 m (slot m dir v) / 4096 * 4096 + v % 4096)
        else none)
    else none

-- The frame of a directory's `i`-th entry.
abbrev pub table_of : Memory → ℕ → ℕ → ℕ
table_of m dir i = load32 m (dir + 4 * i) / 4096 * 4096

-- The tables of a directory are apart from it, and from each other.
pub record IsTree (m : Memory) (dir : ℕ) : Type 0 where
  pub apart :
      (i : ℕ)
      → i < 1024
      → test_bit (load32 m (dir + 4 * i)) 0 ≡ true
      → (table_of m dir i + 4096 ≤ dir) ⊎ (dir + 4096 ≤ table_of m dir i)
  pub distinct :
      (i j : ℕ)
      → i < 1024
      → j < 1024
      → i ≢ j
      → test_bit (load32 m (dir + 4 * i)) 0 ≡ true
      → test_bit (load32 m (dir + 4 * j)) 0 ≡ true
      → table_of m dir i ≢ table_of m dir j

-- `m'` is `m` but for the table entry of `v`.
abbrev pub OnlySlot : Memory → Memory → ℕ → ℕ → Type 0
OnlySlot m m' dir v = (b : ℕ) → (b < slot m dir v) ⊎ (slot m dir v + 4 ≤ b) → m' b ≡ m b

pub directory_kept :
    (m m' : Memory) (dir v : ℕ)
    → v < u32_mod
    → IsTree m dir
    → test_bit (load32 m (dir + 4 * (v / 2 ^ 22))) 0 ≡ true
    → OnlySlot m m' dir v
    → (i : ℕ) → i < 1024
    → load32 m' (dir + 4 * i) ≡ load32 m (dir + 4 * i)
directory_kept m m' dir v lt tree here only i h =
    let a = tree.apart (v / 2 ^ 22) (omega arith) here in
    load32_cong m' m (dir + 4 * i) (λ b l l'. only b (omega (arith, a)))

-- A change of one table entry moves no address of another page.
pub translate_other :
    (m m' : Memory) (dir v : ℕ)
    → v < u32_mod
    → IsTree m dir
    → test_bit (load32 m (dir + 4 * (v / 2 ^ 22))) 0 ≡ true
    → OnlySlot m m' dir v
    → (w : ℕ) → w < u32_mod
    → w / 4096 ≢ v / 4096
    → translate m' dir w ≡ translate m dir w
unfolding translate
translate_other m m' dir v lt tree here only w lt' ne =
    let d = directory_kept m m' dir v lt tree here only (w / 2 ^ 22) (omega arith) in
    elim (Bool-cases (test_bit (load32 m (dir + 4 * (w / 2 ^ 22))) 0)) [
      | inl there ↦
          let e : load32 m' (slot m dir w) ≡ load32 m (slot m dir w) =
            load32_cong m' m (slot m dir w) (λ b l l'.
              only b (elim (ℕ_discrete (w / 2 ^ 22) (v / 2 ^ 22)) [
                | yes same ↦ let f = ap (λ (t : ℕ). table_of m dir t) same in omega (arith, f)
                | no other ↦
                    let f =
                      tree.distinct (w / 2 ^ 22) (v / 2 ^ 22) (omega arith) (omega arith) other
                        there here in
                    omega (arith, f)
              ])) in
          rw (d, there, e) refl
      | inr gone ↦ rw (d, gone) refl
    ]

-- Where the table entry of `v` is present, it decides the translation.
pub translate_here :
    (m m' : Memory) (dir v : ℕ)
    → v < u32_mod
    → IsTree m dir
    → test_bit (load32 m (dir + 4 * (v / 2 ^ 22))) 0 ≡ true
    → OnlySlot m m' dir v
    → translate m' dir v ≡ (
        if test_bit (load32 m' (slot m dir v)) 0
        then some (load32 m' (slot m dir v) / 4096 * 4096 + v % 4096)
        else none)
unfolding translate
translate_here m m' dir v lt tree here only =
    rw (directory_kept m m' dir v lt tree here only (v / 2 ^ 22) (omega arith), here) refl

pub get_page_lem : (v : ℕ) (s : Vmm) → v < u32_mod → get_page v s ≡ slot s.memory s.directory v
unfolding get_page
get_page_lem v s h =
    rw
      (
        pd_index_lem v h,
        pt_index_lem v,
        get_frame_lem (load32 s.memory (s.directory + 4 * (v / 2 ^ 22)))
            (load32-lt s.memory (s.directory + 4 * (v / 2 ^ 22))),
      )
      refl

-- `map_page` of a page's address below 2 ^ 32, where the directory already has the table of the
-- virtual address, tables are apart from the directory and each other, and the old table entry has
-- bit 31 clear: it succeeds, the address translates into the page, and no address of another page
-- moves.
pub map_page-translate :
    (fuel phys virt : ℕ) (s : Vmm)
    → phys < u32_mod
    → phys % 4096 ≡ 0
    → virt < u32_mod
    → IsTree s.memory s.directory
    → test_bit (load32 s.memory (s.directory + 4 * (virt / 2 ^ 22))) 0 ≡ true
    → load32 s.memory (slot s.memory s.directory virt) < 2 ^ 31
    → (s' : Vmm) × (map_page (suc fuel) phys virt s ≡ some (true, s'))
      × (translate s'.memory s'.directory virt ≡ some (phys + virt % 4096))
      × ((w : ℕ)
          → w < u32_mod
          → w / 4096 ≢ virt / 4096
          → translate s'.memory s'.directory w ≡ translate s.memory s.directory w)
unfolding map_page map_entry
map_page-translate fuel phys virt s lt al lt' tree here bit31 =
    let e = slot s.memory s.directory virt in
    let m' = set_entry e phys s.memory in
    let only : OnlySlot s.memory m' s.directory virt =
      λ b out. set_entry_ne s.memory e phys b out in
    let maps = set_entry-Maps s.memory e phys bit31 lt al in
    let v = load32 s.memory (s.directory + 4 * (virt / 2 ^ 22)) in
    (
      record s { memory = m' },
      rw (pd_index_lem virt lt', bit_and-pow 0 v, here, get_page_lem virt s lt') refl,
      translate_here s.memory m' s.directory virt lt' tree here only
          ∙ rw (maps.bits 0 (omega arith), maps.frame) refl,
      translate_other s.memory m' s.directory virt lt' tree here only,
    )

-- `unmap_page` stores in one table entry.
pub unmap_page_only :
    (virt : ℕ) (s : Vmm)
    → virt < u32_mod
    → OnlySlot s.memory (unmap_page virt s).memory s.directory virt
unfolding unmap_page set_frame clear_attribute
unmap_page_only virt s lt b out =
    let e = slot s.memory s.directory virt in
    let v = with_frame (load32 s.memory e) 0 in
    let m1 = set_frame e 0 s.memory in
    let w = bit_and (load32 m1 e) (complement 32 present) in
    rw (get_page_lem virt s lt) (store32_ne m1 e w b out ∙ store32_ne s.memory e v b out)

pub unmap_page_rest :
    (virt : ℕ) (s : Vmm)
    → ((unmap_page virt s).directory ≡ s.directory) × ((unmap_page virt s).pmm ≡ s.pmm)
unfolding unmap_page
unmap_page_rest virt s = (refl, refl)

-- `unmap_page` of an address whose directory entry is present, where tables are apart from the
-- directory and each other, leaves it without a translation, and moves no address of another page.
pub unmap_page-translate :
    (virt : ℕ) (s : Vmm)
    → virt < u32_mod
    → IsTree s.memory s.directory
    → test_bit (load32 s.memory (s.directory + 4 * (virt / 2 ^ 22))) 0 ≡ true
    → let s' = unmap_page virt s in
      (translate s'.memory s'.directory virt ≡ none)
      × ((w : ℕ)
          → w < u32_mod
          → w / 4096 ≢ virt / 4096
          → translate s'.memory s'.directory w ≡ translate s.memory s.directory w)
unfolding unmap_page set_frame clear_attribute
unmap_page-translate virt s lt tree here =
    let e = slot s.memory s.directory virt in
    let v = with_frame (load32 s.memory e) 0 in
    let m1 = set_frame e 0 s.memory in
    let w = bit_and (load32 m1 e) (complement 32 present) in
    let m' = clear_attribute e present m1 in
    let only : OnlySlot s.memory m' s.directory virt =
      λ b out. store32_ne m1 e w b out ∙ store32_ne s.memory e v b out in
    let at : load32 m' e ≡ w =
      load32-store32 m1 e w
        (bit_and-lt 32 (load32 m1 e) (complement 32 present) (load32-lt m1 e)) in
    let off : test_bit (load32 m' e) 0 ≡ false =
      ap (λ (t : ℕ). test_bit t 0) at
      ∙ test_bit-clear 32 (load32 m1 e) 0 0 (omega arith) (omega arith) in
    rw (get_page_lem virt s lt) (
      translate_here s.memory m' s.directory virt lt tree here only ∙ rw off refl,
      translate_other s.memory m' s.directory virt lt tree here only,
    )

-- The same, read through the directory as it was.
pub unmap_page_own :
    (virt : ℕ) (s : Vmm)
    → virt < u32_mod
    → IsTree s.memory s.directory
    → test_bit (load32 s.memory (s.directory + 4 * (virt / 2 ^ 22))) 0 ≡ true
    → (translate (unmap_page virt s).memory s.directory virt ≡ none)
      × ((w : ℕ)
          → w < u32_mod
          → w / 4096 ≢ virt / 4096
          → translate (unmap_page virt s).memory s.directory w ≡ translate s.memory s.directory w)
unfolding unmap_page
unmap_page_own virt s lt tree here = unmap_page-translate virt s lt tree here
