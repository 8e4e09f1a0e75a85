-- ===== src/Prekernel/Boot.antt =====
-- The blocks that are in use after the boot.
use ab_os.Base.{
  ℕ, zero, suc, ◌+◌, ◌/◌, ◌%◌, ◌<◌, ◌≡◌, ◌≢◌, refl, ◌∙◌, Bool, true, false, Bool-cases, inl, inr,
  not, ◌&&◌, ◌||◌, Memory, ltb, leb, ◌==◌, u32_mod, for_range_inv, arith,
}
use ab_os.Pmm.Blocks.{is_used}
use ab_os.Pmm.{Pmm, initialize_pmm, deinit_memory_region}
use ab_os.Pmm.Range.{
  in_range, deinit_memory_region-Marked, initialize_memory_region_lem, initialize_pmm_lem,
}
use ab_os.Prekernel.{
  base_address, length, entry_type, num_entries, entry_at, free_region, free_regions, reserve,
  setup_pmm, print_physical_memory,
}

-- Whether an entry of the map makes a block available.
unfoldable pub offers : Memory → ℕ → ℕ → Bool
offers m i q =
    entry_type m (entry_at i) == 1
    && in_range (base_address m (entry_at i) % u32_mod / 4096)
        (length m (entry_at i) % u32_mod / 4096) q

-- Whether one of the first `n` entries does.
unfoldable pub is_available : Memory → ℕ → ℕ → Bool
is_available m zero q = false
is_available m (suc n) q = offers m n q || is_available m n q

-- A region that is available frees its blocks, but for block 0.
free_region_usage :
    (m : Memory) (i q : ℕ) (s : Pmm)
    → q ≢ 0
    → s.used_blocks < u32_mod
    → (is_used (free_region m i s) q ≡ (not (offers m i q) && is_used s q))
      × ((free_region m i s).used_blocks < u32_mod)
      × ((free_region m i s).max_blocks ≡ s.max_blocks)
unfolding free_region offers
free_region_usage m i q s ne word =
    let entry = entry_at i in
    let size = length m entry % u32_mod in
    let h =
      initialize_memory_region_lem (base_address m entry % u32_mod) size s word (omega arith) in
    elim (Bool-cases (entry_type m entry == 1)) [
      | inl free ↦ rw free (h.0 q ∙ ground (arith, ne), omega (arith, h.2), h.1)
      | inr other ↦ rw other (refl, word, refl)
    ]

both : (a b c : Bool) → (not a && (not b && c)) ≡ (not (a || b) && c)
both true b c = refl
both false b c = refl

next : (m : Memory) (n q : ℕ) → is_available m (n + 1) q ≡ (offers m n q || is_available m n q)
unfolding is_available
next m n q = let e : n + 1 ≡ suc n = omega arith in rw e refl

-- The state after the first `n` regions.
record Freed (m : Memory) (s : Pmm) (n : ℕ) (t : Pmm) : Type 0 where
  usage : (q : ℕ) → q ≢ 0 → is_used t q ≡ (not (is_available m n q) && is_used s q)
  word : t.used_blocks < u32_mod
  max_blocks : t.max_blocks ≡ s.max_blocks

free_regions-Freed :
    (m : Memory) (s : Pmm) → s.used_blocks < u32_mod → Freed m s (num_entries m) (free_regions m s)
unfolding free_regions is_available
free_regions-Freed m s word =
    for_range_inv (Freed m s) (free_region m) (num_entries m)
      (λ k t l h.
        let one = λ (q : ℕ) (ne : q ≢ 0). free_region_usage m k q t ne h.word in
        record {
          usage = λ q ne.
              (one q ne).0
              ∙ rw (h.usage q ne, next m k q)
                  (both (offers m k q) (is_available m k q) (is_used s q));
          word = (one 1 (omega arith)).1;
          max_blocks = (one 1 (omega arith)).2 ∙ h.max_blocks;
        })
      (num_entries m) 0 s (omega arith)
      (record { usage = λ q ne. refl; word = word; max_blocks = refl })

-- The three ranges that are reserved; the second, for the bitmap at 0x30000, is empty.
reserve_usage :
    (s : Pmm) (q : ℕ)
    → s.used_blocks < u32_mod
    → s.max_blocks ≡ 1_048_575
    → is_used (reserve s) q ≡ (ltb q 18 || (leb 256 q && ltb q 276) || is_used s q)
unfolding reserve
reserve_usage s q word most =
    let s1 = deinit_memory_region 0 0x12000 s in
    let s2 = deinit_memory_region 0x30000 (s1.max_blocks / 4096) s1 in
    let h1 = deinit_memory_region-Marked 0 0x12000 s word in
    let h2 =
      deinit_memory_region-Marked 0x30000 (s1.max_blocks / 4096) s1
        (omega (arith, h1.used_blocks)) in
    let h3 = deinit_memory_region-Marked 0x100000 81920 s2 (omega (arith, h2.used_blocks)) in
    let e : s1.max_blocks / 4096 / 4096 ≡ 0 = omega (arith, h1.max_blocks) in
    h3.usage q ∙ rw (h2.usage q, h1.usage q, e) (ground arith)

-- After the boot a block but the first is in use if it is one of the first 18 or of the 20 from 1 MB
-- on, or if no entry of the memory map makes it available. So the blocks of the bitmap itself, from
-- 0x30000 on, are free if the map offers them.
pub setup_pmm_lem :
    (m : Memory) (s : Pmm) (q : ℕ)
    → s.used_blocks ≡ 0
    → q ≢ 0
    → q < 1_048_575
    → is_used (setup_pmm m s) q
      ≡ (ltb q 18 || (leb 256 q && ltb q 276) || not (is_available m (num_entries m) q))
unfolding setup_pmm
setup_pmm_lem m s q zeroed ne l =
    let i = initialize_pmm_lem s zeroed in
    let f = free_regions-Freed m (initialize_pmm s) (omega (arith, i.0, i.1)) in
    reserve_usage (free_regions m (initialize_pmm s)) q f.word (f.max_blocks ∙ i.0)
    ∙ rw (f.usage q ne, i.2 q (omega (arith, i.0))) (ground arith)

reserve_max : (s : Pmm) → s.used_blocks < u32_mod → (reserve s).max_blocks ≡ s.max_blocks
unfolding reserve
reserve_max s word =
    let s1 = deinit_memory_region 0 0x12000 s in
    let s2 = deinit_memory_region 0x30000 (s1.max_blocks / 4096) s1 in
    let h1 = deinit_memory_region-Marked 0 0x12000 s word in
    let h2 =
      deinit_memory_region-Marked 0x30000 (s1.max_blocks / 4096) s1
        (omega (arith, h1.used_blocks)) in
    let h3 = deinit_memory_region-Marked 0x100000 81920 s2 (omega (arith, h2.used_blocks)) in
    h3.max_blocks ∙ h2.max_blocks ∙ h1.max_blocks

-- The size of the bitmap after the boot, and its first block.
pub setup_pmm_ready :
    (m : Memory) (s : Pmm)
    → s.used_blocks ≡ 0
    → ((setup_pmm m s).max_blocks ≡ 1_048_575) × (is_used (setup_pmm m s) 0 ≡ true)
unfolding setup_pmm
setup_pmm_ready m s zeroed =
    let i = initialize_pmm_lem s zeroed in
    let f = free_regions-Freed m (initialize_pmm s) (omega (arith, i.0, i.1)) in
    (
      reserve_max (free_regions m (initialize_pmm s)) f.word ∙ f.max_blocks ∙ i.0,
      reserve_usage (free_regions m (initialize_pmm s)) 0 f.word (f.max_blocks ∙ i.0),
    )

-- The list of the map frees again what the boot had reserved or allocated, but for block 0: from a
-- counter below 2 ^ 32, each other block is in use after `print_physical_memory` just if it was before
-- and no entry of the map offers it; one that an entry offers is free, whoever has it.
pub print_physical_memory_usage :
    (m : Memory) (s : Pmm) (q : ℕ)
    → s.used_blocks < u32_mod
    → q ≢ 0
    → is_used (print_physical_memory m s).1 q
      ≡ (not (is_available m (num_entries m) q) && is_used s q)
unfolding print_physical_memory
print_physical_memory_usage m s q word ne = (free_regions-Freed m s word).usage q ne
