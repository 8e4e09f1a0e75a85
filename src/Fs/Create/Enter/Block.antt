-- ===== src/Fs/Create/Enter/Block.antt =====
-- One block of the directory: the entries in its buffer are those on the disk, and the write of the block
-- with a new entry changes one of them.
use ab_os.Base.{
  ℕ, ◌+◌, ◌-◌, ◌*◌, ◌%◌, ◌^◌, ◌≤◌, ◌<◌, ◌≡◌, ◌⊎◌, inl, inr, Bool-cases, ap, ◌∙◌, Bool, ◌&&◌, Memory,
  ltb, leb, ◌==◌, if◌then◌else◌, u32_mod, arith,
}
use ab_os.Base.Words.{load32, load32_shift}
use ab_os.Fs.{Fs, Inode, direct_pointer, read_sectors, write_sectors}
use ab_os.Fs.Disk.{read_sectors_lem, read_sectors_rest, read_sectors_buffer, write_sectors_lem}
use ab_os.Fs.Create.Link.{entry_free, Linked}

-- Whether an entry of a block of the disk has the number 0.
abbrev pub slot_free : Memory → ℕ → ℕ → Bool
slot_free disk block j = load32 disk (block * 4096 + 64 * j) == 0

-- The disk with the 64 bytes of the entry at a place.
abbrev pub EnteredAt : Memory → Memory → ℕ → Memory → Type 0
EnteredAt disk entry at disk' =
    (b : ℕ) → disk' b ≡ (if leb at b && ltb b (at + 64) then entry (b - at) else disk b)

module _ (disk entry : Memory) (parent : Inode) (buffer new_entry : ℕ)
    (apart : (new_entry + 64 ≤ buffer) ⊎ (buffer + 4096 ≤ new_entry)) where
  -- The state at the head of a round.
  pub record Ready (s : Fs) : Type 0 where
    pub disk_same : (b : ℕ) → s.disk b ≡ disk b
    pub at_buffer : s.block_buffer ≡ buffer
    pub bytes : (a : ℕ) → a < 64 → s.memory (new_entry + a) ≡ entry a

  abbrev pub load : ℕ → Fs → Fs
  load i s = read_sectors 8 (direct_pointer parent i * 8 % u32_mod) s.block_buffer s

  load_bytes :
      (i : ℕ) (s : Fs) (b : ℕ)
      → direct_pointer parent i < 2 ^ 25
      → Ready s
      → (load i s).memory b ≡ (
          if leb buffer b && ltb b (buffer + 4096)
          then disk (direct_pointer parent i * 4096 + (b - buffer))
          else s.memory b)
  load_bytes i s b near r =
      let sector : direct_pointer parent i * 8 % u32_mod ≡ direct_pointer parent i * 8 =
        omega arith in
      let lem = read_sectors_lem 8 (direct_pointer parent i * 8) s.block_buffer s b (omega arith) in
      let from : direct_pointer parent i * 8 * 512 + (b - s.block_buffer)
          ≡ direct_pointer parent i * 4096 + (b - buffer) =
        omega (arith, r.at_buffer) in
      let same = ap s.disk from ∙ r.disk_same (direct_pointer parent i * 4096 + (b - buffer)) in
      rw sector (ground (arith, lem, same, r.at_buffer))

  pub load-Ready : (i : ℕ) (s : Fs) → direct_pointer parent i < 2 ^ 25 → Ready s → Ready (load i s)
  load-Ready i s near r =
      let sector = direct_pointer parent i * 8 % u32_mod in
      record {
        disk_same = λ b. (read_sectors_rest 8 sector s.block_buffer s b).0 ∙ r.disk_same b;
        at_buffer = read_sectors_buffer 8 sector s.block_buffer s ∙ r.at_buffer;
        bytes = λ a l. load_bytes i s (new_entry + a) near r ∙ ground (arith, apart, r.bytes a l);
      }

  pub loaded_free :
      (i : ℕ) (s : Fs) (j : ℕ)
      → direct_pointer parent i < 2 ^ 25
      → j < 64
      → Ready s
      → entry_free (load i s).memory buffer j ≡ slot_free disk (direct_pointer parent i) j
  loaded_free i s j near l r =
      let block = direct_pointer parent i in
      ap (λ (w : ℕ). w == 0)
        (load32_shift (load i s).memory disk (buffer + 64 * j) (block * 4096 + 64 * j)
          (λ b c k k' e.
            let at : block * 4096 + (b - buffer) ≡ c = omega (arith, e, k) in
            ground (arith, load_bytes i s b near r, ap disk at)))

  -- A write of a block that is in the buffer with the entry in a slot.
  pub write_slot :
      (block j : ℕ) (t : Fs)
      → block < 2 ^ 25
      → j < 64
      → ((b : ℕ) → t.disk b ≡ disk b)
      → t.block_buffer ≡ buffer
      → ((c : ℕ)
          → c < 4096
          → t.memory (buffer + c) ≡ (
              if leb (64 * j) c && ltb c (64 * j + 64)
              then entry (c - 64 * j)
              else disk (block * 4096 + c)))
      → EnteredAt disk entry
          (block * 4096 + 64 * j)
          (write_sectors 8 (block * 8 % u32_mod) t.block_buffer t).disk
  write_slot block j t near l same at held b =
      let sector : block * 8 % u32_mod ≡ block * 8 = omega arith in
      let c = b - block * 4096 in
      let lem = write_sectors_lem 8 (block * 8) t.block_buffer t b (omega arith) in
      let from : t.block_buffer + (b - block * 8 * 512) ≡ buffer + c = omega (arith, at) in
      rw sector (elim (Bool-cases (leb (block * 4096) b && ltb b (block * 4096 + 4096))) [
        | inl here ↦
            let e : block * 4096 + c ≡ b = ground (arith, here) in
            let f : c - 64 * j ≡ b - (block * 4096 + 64 * j) = omega arith in
            ground (
              arith,
              lem,
              here,
              ap t.memory from,
              held c (ground (arith, here)),
              ap disk e,
              ap entry f,
            )
        | inr there ↦ ground (arith, lem, there, same b)
      ])

  -- The block in the buffer, once `link_entry` has found a slot of it.
  pub slot_bytes :
      (i j : ℕ) (s : Fs) (m : Memory)
      → direct_pointer parent i < 2 ^ 25
      → j < 64
      → Ready s
      → Linked (load i s).memory (buffer + 64 * j) new_entry m
      → (c : ℕ) → c < 4096
      → m (buffer + c) ≡ (
          if leb (64 * j) c && ltb c (64 * j + 64)
          then entry (c - 64 * j)
          else disk (direct_pointer parent i * 4096 + c))
  slot_bytes i j s m near l r link c small =
      let r' = load-Ready i s near r in
      let e : new_entry + (buffer + c - (buffer + 64 * j)) ≡ new_entry + (c - 64 * j) =
        omega arith in
      let f : direct_pointer parent i * 4096 + (buffer + c - buffer)
          ≡ direct_pointer parent i * 4096 + c =
        omega arith in
      elim (Bool-cases (leb (64 * j) c && ltb c (64 * j + 64))) [
        | inl new ↦ ground (
          arith,
          new,
          link (buffer + c),
          ap (load i s).memory e,
          r'.bytes (c - 64 * j) (ground (arith, new)),
        )
        | inr old ↦
            ground (arith, old, link (buffer + c), load_bytes i s (buffer + c) near r, ap disk f)
      ]
