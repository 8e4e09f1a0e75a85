-- ===== src/Vmm/Init/Fill.antt =====
-- The tables that `initialize_vmm` fills, and its directory entries.
use ab_os.Base.{
  ℕ, ◌+◌, ◌*◌, ◌/◌, ◌%◌, ◌^◌, ◌≤◌, ◌<◌, ◌≡◌, ◌⊎◌, refl, sym, ◌∙◌, inl, inr, true, bit_or, Memory,
  u32_mod, arith, Bool-cases, for_range, for_range_inv, ltb,
}
use ab_os.Base.Bits.{test_bit}
use ab_os.Base.Words.{load32, store32, load32-store32, store32_ne, load32-store32_ne}
use ab_os.Vmm.{
  with_frame, identity_round, kernel_entry, page_size, set_attribute, set_frame, present, writable,
  pt_index,
}
use ab_os.Vmm.Entry.{
  pt_index_lem, get_frame_lem, get_frame-with_frame, test_bit-with_frame, with_frame-lt,
}

-- An entry that is present, with a frame.
pub record IsEntry (v a : ℕ) : Type 0 where
  pub on : test_bit v 0 ≡ true
  pub frame : v / 4096 * 4096 ≡ a

abbrev pub value : ℕ → ℕ
value a = with_frame (bit_or (bit_or 0 present) writable) a

pub value-lt : (a : ℕ) → a < u32_mod → value a < u32_mod
value-lt a l = with_frame-lt 3 a (omega arith) l

pub value-IsEntry : (a : ℕ) → a < u32_mod → a % 4096 ≡ 0 → IsEntry (value a) a
unfolding test_bit
value-IsEntry a l al = record {
  on = test_bit-with_frame 3 a 0 al (omega arith);
  frame =
      sym (get_frame_lem (value a) (value-lt a l)) ∙ get_frame-with_frame 3 a (omega arith) l al;
}

-- A table whose first `k` entries are the pages from `first` on.
pub record Filled (m : Memory) (table first k : ℕ) (m' : Memory) : Type 0 where
  pub page : (i : ℕ) → i < k → load32 m' (table + 4 * i) ≡ value ((first + i * page_size) % u32_mod)
  pub outside : (b : ℕ) → (b < table) ⊎ (table + 4 * k ≤ b) → m' b ≡ m b

pub fill_loop :
    (m : Memory) (table first virt : ℕ)
    → virt < u32_mod
    → virt % 2 ^ 22 ≡ 0
    → Filled m table first 1024 (for_range 1024 0 (identity_round table first virt) m)
unfolding identity_round
fill_loop m table first virt lt al =
    for_range_inv (Filled m table first) (identity_round table first virt) 1024
      (λ k m' l f.
        let v = value ((first + k * page_size) % u32_mod) in
        let index : pt_index ((virt + k * page_size) % u32_mod) ≡ k =
          pt_index_lem ((virt + k * page_size) % u32_mod) ∙ omega arith in
        rw index (record {
          page = λ i i_k. elim (Bool-cases (ltb i k)) [
            | inl before ↦
                load32-store32_ne m' (table + 4 * k) v (table + 4 * i) (ground (arith, before))
                ∙ f.page i (ground (arith, before))
            | inr at ↦
                let e : i ≡ k = ground (arith, at, i_k) in
                rw e (
                  load32-store32 m' (table + 4 * k) v
                    (value-lt ((first + k * page_size) % u32_mod) (omega arith)))
          ];
          outside =
              λ b out. store32_ne m' (table + 4 * k) v b (omega arith) ∙ f.outside b (omega arith);
        }))
      1024 0 m (omega arith)
      (record { page = λ i l. absurd (omega arith); outside = λ b out. refl })

pub kernel_entry_ne :
    (e table : ℕ) (m : Memory) (b : ℕ) → (b < e) ⊎ (e + 4 ≤ b) → kernel_entry e table m b ≡ m b
unfolding kernel_entry set_frame set_attribute
kernel_entry_ne e table m b out =
    let m1 = set_attribute e present m in
    let m2 = set_attribute e writable m1 in
    store32_ne m2 e (with_frame (load32 m2 e) table) b out
    ∙ store32_ne m1 e (bit_or (load32 m1 e) writable) b out
    ∙ store32_ne m e (bit_or (load32 m e) present) b out

-- An entry that was clear.
pub kernel_entry_at :
    (e table : ℕ) (m : Memory)
    → table < u32_mod
    → load32 m e ≡ 0
    → load32 (kernel_entry e table m) e ≡ value table
unfolding kernel_entry set_frame set_attribute
kernel_entry_at e table m lt clear =
    let m1 = store32 m e 1 in
    let m2 = store32 m1 e 3 in
    rw (clear, load32-store32 m e 1 (omega arith), load32-store32 m1 e 3 (omega arith))
      (load32-store32 m2 e (value table) (value-lt table lt))
