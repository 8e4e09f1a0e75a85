-- ===== src/Fs/Create/Enter.antt =====
-- `create_file`: the loop that looks for a free entry in the blocks of the directory, and writes the
-- block that it changes.
pub mod Block
use native.Mathlib.Decide.{ℕ_discrete}
use mathlib.Core.Path.{subst}
use ab_os.Base.{
  ℕ, zero, suc, ◌+◌, ◌-◌, ◌*◌, ◌%◌, ◌^◌, ◌≤◌, ◌<◌, ◌≡◌, ◌⊎◌, inl, inr, Bool-cases, refl, sym, ap,
  ◌∙◌, Bool, true, false, ◌&&◌, Memory, ltb, leb, ◌==◌, if◌then◌else◌, u32_mod, arith, Option, none,
  some,
}
use ab_os.Base.Words.{load32, load32_shift}
use ab_os.Fs.{Fs, Inode, direct_pointer, read_sectors, write_sectors}
use ab_os.Fs.Disk.{read_sectors_lem, read_sectors_rest, read_sectors_buffer, write_sectors_lem}
use ab_os.Fs.Create.{link_entry, link_loop}
use ab_os.Fs.Create.Link.{entry_free, Linked, LinkResult, linked, link_entry-LinkResult}
use ab_os.Fs.Create.Enter.Block.{
  slot_free, EnteredAt, Ready, load, load-Ready, loaded_free, write_slot, slot_bytes,
}

-- What the loop does to the disk: the entry is in the first free slot of the blocks from the parent's
-- `lo`-th on, or there is none.
pub data Entered (disk entry : Memory) (parent : Inode) (lo hi : ℕ) (disk' : Memory) : Type 0 where
  entered :
      (i j : ℕ)
      → lo ≤ i
      → i < hi
      → j < 64
      → slot_free disk (direct_pointer parent i) j ≡ true
      → ((i' : ℕ)
          → lo ≤ i'
          → i' < i
          → (j' : ℕ) → j' < 64
          → slot_free disk (direct_pointer parent i') j' ≡ false)
      → ((j' : ℕ) → j' < j → slot_free disk (direct_pointer parent i) j' ≡ false)
      → EnteredAt disk entry (direct_pointer parent i * 4096 + 64 * j) disk'
      → Entered disk entry parent lo hi disk'
  full :
      ((i' : ℕ)
        → lo ≤ i'
        → i' < hi
        → (j' : ℕ) → j' < 64
        → slot_free disk (direct_pointer parent i') j' ≡ false)
      → ((b : ℕ) → disk' b ≡ disk b)
      → Entered disk entry parent lo hi disk'

module _ (disk entry : Memory) (parent : Inode) (buffer new_entry : ℕ)
    (apart : (new_entry + 64 ≤ buffer) ⊎ (buffer + 4096 ≤ new_entry)) where
  found_slot :
      (rounds i : ℕ) (s t : Fs)
      → link_entry 64
          (load disk entry parent buffer new_entry apart i s).block_buffer
          new_entry
          (load disk entry parent buffer new_entry apart i s)
        ≡ some t
      → link_loop (suc rounds) i new_entry parent s
        ≡ write_sectors 8 (direct_pointer parent i * 8 % u32_mod) t.block_buffer t
  unfolding link_loop
  found_slot rounds i s t e =
      ap
        (λ (r : Option Fs). elim r [
          | none ↦
              link_loop rounds (i + 1) new_entry parent
                (load disk entry parent buffer new_entry apart i s)
          | some linked' ↦
              write_sectors 8 (direct_pointer parent i * 8 % u32_mod) linked'.block_buffer linked'
        ])
        e

  no_slot :
      (rounds i : ℕ) (s : Fs)
      → link_entry 64
          (load disk entry parent buffer new_entry apart i s).block_buffer
          new_entry
          (load disk entry parent buffer new_entry apart i s)
        ≡ none
      → link_loop (suc rounds) i new_entry parent s
        ≡ link_loop rounds
            (i + 1)
            new_entry
            parent
            (load disk entry parent buffer new_entry apart i s)
  unfolding link_loop
  no_slot rounds i s e =
      ap
        (λ (r : Option Fs). elim r [
          | none ↦
              link_loop rounds (i + 1) new_entry parent
                (load disk entry parent buffer new_entry apart i s)
          | some linked' ↦
              write_sectors 8 (direct_pointer parent i * 8 % u32_mod) linked'.block_buffer linked'
        ])
        e

  -- One more block without a free slot in front.
  later :
      (rounds i : ℕ) {disk' : Memory}
      → ((j : ℕ) → j < 64 → slot_free disk (direct_pointer parent i) j ≡ false)
      → Entered disk entry parent (i + 1) (i + 1 + rounds) disk'
      → Entered disk entry parent i (i + suc rounds) disk'
  later rounds i taken (entered k j l l' b free blocks before put) =
      entered k j (omega arith) (omega arith) b free
        (λ i' m m'. elim (ℕ_discrete i' i) [
          | yes e ↦ rw e taken
          | no ne ↦ blocks i' (omega arith) m'
        ])
        before put
  later rounds i taken (full blocks same) =
      full
        (λ i' m m'. elim (ℕ_discrete i' i) [
          | yes e ↦ rw e taken
          | no ne ↦ blocks i' (omega arith) (omega arith)
        ])
        same

  link_from :
      (rounds i : ℕ) (s : Fs)
      → ((k : ℕ) → i ≤ k → k < i + rounds → direct_pointer parent k < 2 ^ 25)
      → Ready disk entry parent buffer new_entry apart s
      → Entered disk entry parent i (i + rounds) (link_loop rounds i new_entry parent s).disk
  link_from zero i s near r = unfold link_loop in full (λ i' l l'. absurd (omega arith)) r.disk_same
  link_from (suc rounds) i s near r =
      let here = near i (omega arith) (omega arith) in
      let t = load disk entry parent buffer new_entry apart i s in
      let r' = load-Ready disk entry parent buffer new_entry apart i s here r in
      let at = ap (λ (a : ℕ). link_entry 64 a new_entry t) r'.at_buffer in
      elim (link_entry-LinkResult buffer new_entry t apart) [
        | linked j m e l l' free before put ↦
            let t' = record t { memory = m } in
            entered i j (omega arith) (omega arith) l'
              (sym (loaded_free disk entry parent buffer new_entry apart i s j here l' r) ∙ free)
              (λ i' n n'. absurd (omega arith))
              (λ j' n.
                sym
                  (loaded_free disk entry parent buffer new_entry apart i s j' here (omega arith) r)
                ∙ before j' (omega arith) n)
              (λ b.
                ap (λ (q : Fs). q.disk b) (found_slot rounds i s t' (at ∙ e))
                ∙ write_slot disk entry parent buffer new_entry apart (direct_pointer parent i) j t'
                    here l' r'.disk_same r'.at_buffer
                    (slot_bytes disk entry parent buffer new_entry apart i j s m here l' r put) b)
        | LinkResult.full e before ↦
            subst (λ (q : Fs). Entered disk entry parent i (i + suc rounds) q.disk)
              (sym (no_slot rounds i s (at ∙ e)))
              (later rounds i
                (λ j l.
                  sym (loaded_free disk entry parent buffer new_entry apart i s j here l r)
                  ∙ before j (omega arith) l)
                (link_from rounds (i + 1) t (λ k n n'. near k (omega arith) (omega arith)) r'))
      ]

-- The loop of `create_file` over the `blocks` blocks of the parent, all below block 2 ^ 25, with the
-- new entry in memory apart from the buffer of a block: it writes the 64 bytes of the entry to the first
-- slot on the disk, block by block, whose number is 0, and changes no other byte of the disk; or no slot
-- of the blocks has the number 0, and the disk stays as it was.
pub link_loop-Entered :
    (blocks new_entry : ℕ) (parent : Inode) (s : Fs)
    → ((i : ℕ) → i < blocks → direct_pointer parent i < 2 ^ 25)
    → (new_entry + 64 ≤ s.block_buffer) ⊎ (s.block_buffer + 4096 ≤ new_entry)
    → Entered s.disk
        (λ a. s.memory (new_entry + a))
        parent
        0
        blocks
        (link_loop blocks 0 new_entry parent s).disk
link_loop-Entered blocks new_entry parent s near apart =
    let e : 0 + blocks ≡ blocks = omega arith in
    let entry : Memory = λ a. s.memory (new_entry + a) in
    subst (λ (n : ℕ). Entered s.disk entry parent 0 n (link_loop blocks 0 new_entry parent s).disk)
      e
      (link_from s.disk entry parent s.block_buffer new_entry apart blocks 0 s
        (λ k l l'. near k (omega arith))
        (record { disk_same = λ b. refl; at_buffer = refl; bytes = λ a l. refl }))
