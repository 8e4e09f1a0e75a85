-- ===== src/Fs/Transfer.antt =====
-- `save_file` and `load_file`.
mod Tests
use native.Mathlib.Decide.{ℕ_discrete}
use ab_os.Base.{
  ℕ, ◌+◌, ◌-◌, ◌*◌, ◌%◌, ◌^◌, ◌≤◌, ◌<◌, ◌≡◌, ◌≢◌, ◌⊎◌, inl, inr, refl, ap, ◌∙◌, u32_mod, for_range,
  for_range_inv, arith, ltb, leb, ◌&&◌, if◌then◌else◌,
}
use ab_os.Fs.{
  Fs, Inode, size_of, direct_pointer, bytes_to_blocks, read_sectors, write_sectors, load_file,
  save_file,
}
use ab_os.Fs.Disk.{read_sectors_lem, write_sectors_lem, read_sectors_rest}

-- The number of blocks of a file.
abbrev pub block_count : Inode → ℕ
block_count inode = bytes_to_blocks (size_of inode)

-- The blocks of a file are no more than an inode has pointers for, and different ones, on the part of
-- the disk that the device addresses.
pub record HasBlocks (inode : Inode) : Type 0 where
  pub few : block_count inode ≤ 7
  pub near : (i : ℕ) → i < block_count inode → direct_pointer inode i < 2 ^ 25
  pub distinct :
      (i k : ℕ) → i < k → k < block_count inode → direct_pointer inode i ≢ direct_pointer inode k

-- A byte that is in none of the first `k` blocks of a file.
abbrev pub Apart : Inode → ℕ → ℕ → Type 0
Apart inode k b =
    (i : ℕ)
    → i < k
    → (b < direct_pointer inode i * 4096) ⊎ (direct_pointer inode i * 4096 + 4096 ≤ b)

-- The first `k` blocks are saved from `start` on.
pub record Saved (inode : Inode) (start : ℕ) (s : Fs) (k : ℕ) (s' : Fs) : Type 0 where
  pub written :
      (i j : ℕ)
      → i < k
      → j < 4096
      → s'.disk (direct_pointer inode i * 4096 + j) ≡ s.memory (start + 4096 * i + j)
  pub others : (b : ℕ) → Apart inode k b → s'.disk b ≡ s.disk b
  pub memory_same : s'.memory ≡ s.memory

write_memory :
    (n sector address : ℕ) (s : Fs) → (write_sectors n sector address s).memory ≡ s.memory
unfolding write_sectors
write_memory n sector address s = refl

module _ (offset address : ℕ) (inode : Inode) (h : HasBlocks inode)
    (fits : address + offset + 4096 * block_count inode ≤ u32_mod) where
  save_round :
      (s : Fs) (k : ℕ) (s' : Fs)
      → k < block_count inode
      → Saved inode (address + offset) s k s'
      → Saved inode (address + offset) s (k + 1) (
          write_sectors 8
            (direct_pointer inode k * 8 % u32_mod)
            ((address + offset + 4096 * k) % u32_mod)
            s')
  save_round s k s' l saved =
      let near = h.near k l in
      let sector : direct_pointer inode k * 8 % u32_mod ≡ direct_pointer inode k * 8 =
        omega arith in
      let from : (address + offset + 4096 * k) % u32_mod ≡ address + offset + 4096 * k =
        omega arith in
      let lem = write_sectors_lem 8 (direct_pointer inode k * 8) (address + offset + 4096 * k) s' in
      rw (sector, from)
        (record {
          written = λ i j i_k j_b. elim (ℕ_discrete i k) [
            | yes e ↦
                let b = direct_pointer inode k * 4096 + j in
                let at : address + offset + 4096 * k + (b - direct_pointer inode k * 8 * 512)
                    ≡ address + offset + 4096 * k + j =
                  omega arith in
                let here : (write_sectors 8 (direct_pointer inode k * 8)
                        (address + offset + 4096 * k) s').disk
                      b
                    ≡ s'.memory
                        (address + offset + 4096 * k + (b - direct_pointer inode k * 8 * 512)) =
                  ground (arith, lem b (omega arith)) in
                rw (e) (
                  here
                  ∙ ap s'.memory at
                  ∙ ap (λ (m : ℕ → ℕ). m (address + offset + 4096 * k + j)) saved.memory_same)
            | no ne ↦ ground (
              arith,
              lem (direct_pointer inode i * 4096 + j) (omega arith),
              h.distinct i k (omega arith) l,
              saved.written i j (omega arith) j_b,
            )
          ];
          others = λ b apart. ground (
            arith,
            lem b (omega arith),
            apart k (omega arith),
            saved.others b (λ i i_k. apart i (omega arith)),
          );
          memory_same =
              write_memory 8 (direct_pointer inode k * 8) (address + offset + 4096 * k) s'
              ∙ saved.memory_same;
        })

  pub save_loop :
      (s : Fs)
      → Saved inode (address + offset) s (block_count inode) (save_file offset inode address s)
  unfolding save_file
  save_loop s =
      for_range_inv (Saved inode (address + offset) s)
        (λ i.
          write_sectors 8 (direct_pointer inode i * 8 % u32_mod)
            ((address + offset + 4096 * i) % u32_mod))
        (block_count inode) (λ k s' l saved. save_round s k s' l saved) (block_count inode) 0 s
        (omega arith)
        (record {
          written = λ i j l l'. absurd (omega arith);
          others = λ b apart. refl;
          memory_same = refl;
        })

  -- The first `k` blocks are loaded to `start` on.
  record Loaded (s : Fs) (k : ℕ) (s' : Fs) : Type 0 where
    filled :
        (i j : ℕ)
        → i < k
        → j < 4096
        → s'.memory (address + offset + 4096 * i + j) ≡ s.disk (direct_pointer inode i * 4096 + j)
    outside :
        (b : ℕ)
        → (b < address + offset) ⊎ (address + offset + 4096 * k ≤ b)
        → s'.memory b ≡ s.memory b
    disk_same : (b : ℕ) → s'.disk b ≡ s.disk b

  load_round :
      (s : Fs) (k : ℕ) (s' : Fs)
      → k < block_count inode
      → Loaded s k s'
      → Loaded s (k + 1) (
          read_sectors 8
            (direct_pointer inode k * 8 % u32_mod)
            ((address + offset + 4096 * k) % u32_mod)
            s')
  load_round s k s' l loaded =
      let near = h.near k l in
      let sector : direct_pointer inode k * 8 % u32_mod ≡ direct_pointer inode k * 8 =
        omega arith in
      let to : (address + offset + 4096 * k) % u32_mod ≡ address + offset + 4096 * k =
        omega arith in
      let lem = λ (b : ℕ).
        read_sectors_lem 8 (direct_pointer inode k * 8) (address + offset + 4096 * k) s' b
          (omega arith) in
      rw (sector, to)
        (record {
          filled = λ i j i_k j_b. elim (ℕ_discrete i k) [
            | yes e ↦
                let b = address + offset + 4096 * k + j in
                let at : direct_pointer inode k * 8 * 512 + (b - (address + offset + 4096 * k))
                    ≡ direct_pointer inode k * 4096 + j =
                  omega arith in
                let here : (read_sectors 8 (direct_pointer inode k * 8)
                        (address + offset + 4096 * k) s').memory
                      b
                    ≡ s'.disk
                        (direct_pointer inode k * 8 * 512 + (b - (address + offset + 4096 * k))) =
                  ground (arith, lem b) in
                rw e (here ∙ ap s'.disk at ∙ loaded.disk_same (direct_pointer inode k * 4096 + j))
            | no ne ↦
                ground (
                  arith,
                  lem (address + offset + 4096 * i + j),
                  loaded.filled i j (omega arith) j_b,
                )
          ];
          outside = λ b out. ground (arith, lem b, loaded.outside b (omega arith));
          disk_same = λ b.
              (read_sectors_rest 8 (direct_pointer inode k * 8) (address + offset + 4096 * k) s'
                b).0
              ∙ loaded.disk_same b;
        })

  load_loop : (s : Fs) → Loaded s (block_count inode) (load_file offset inode address s)
  unfolding load_file
  load_loop s =
      for_range_inv (Loaded s)
        (λ i.
          read_sectors 8 (direct_pointer inode i * 8 % u32_mod)
            ((address + offset + 4096 * i) % u32_mod))
        (block_count inode) (λ k s' l loaded. load_round s k s' l loaded) (block_count inode) 0 s
        (omega arith)
        (record {
          filled = λ i j l l'. absurd (omega arith);
          outside = λ b out. refl;
          disk_same = λ b. refl;
        })

-- What `save_file` writes from `from`, `load_file` reads to `to`, each shifted by what the local
-- `offset` that it does not initialise holds. Where the file has at most seven blocks, different ones below
-- block 2 ^ 25, and neither shifted copy goes beyond 2 ^ 32: each byte of the blocks at
-- `to + load_offset` is what was at `from + save_offset`, and no byte of memory outside the shifted
-- copy, nor of the disk outside the blocks, is changed. It is the copy from `from` to `to` only where
-- both locals happen to be 0.
pub load_file-save_file :
    (save_offset load_offset from to : ℕ) (inode : Inode) (s : Fs)
    → HasBlocks inode
    → from + save_offset + 4096 * block_count inode ≤ u32_mod
    → to + load_offset + 4096 * block_count inode ≤ u32_mod
    → let s' = load_file load_offset inode to (save_file save_offset inode from s) in
      ((i j : ℕ)
        → i < block_count inode
        → j < 4096
        → s'.memory (to + load_offset + 4096 * i + j)
          ≡ s.memory (from + save_offset + 4096 * i + j))
      × ((b : ℕ)
          → (b < to + load_offset) ⊎ (to + load_offset + 4096 * block_count inode ≤ b)
          → s'.memory b ≡ s.memory b)
      × ((b : ℕ) → Apart inode (block_count inode) b → s'.disk b ≡ s.disk b)
load_file-save_file save_offset load_offset from to inode s h fits fits' =
    let saved = save_loop save_offset from inode h fits s in
    let loaded = load_loop load_offset to inode h fits' (save_file save_offset inode from s) in
    (
      λ i j l l'. loaded.filled i j l l' ∙ saved.written i j l l',
      λ b out. loaded.outside b out ∙ ap (λ (m : ℕ → ℕ). m b) saved.memory_same,
      λ b apart. loaded.disk_same b ∙ saved.others b apart,
    )
