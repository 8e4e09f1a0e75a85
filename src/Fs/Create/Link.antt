-- ===== src/Fs/Create/Link.antt =====
-- `create_file`: the entry of the new file in a block of its directory.
use native.Mathlib.Decide.{ℕ_discrete}
use mathlib.Core.Path.{subst}
use ab_os.Base.{
  ℕ, zero, suc, ◌+◌, ◌-◌, ◌*◌, ◌≤◌, ◌<◌, ◌≡◌, ◌⊎◌, inl, inr, refl, ap, ◌∙◌, Bool, true, false,
  Bool-cases, ◌&&◌, Memory, ltb, leb, ◌==◌, if◌then◌else◌, Option, none, some, arith,
}
use ab_os.Base.Words.{load32}
use ab_os.Str.{memcpy}
use ab_os.Str.Copy.{memcpy_lem}
use ab_os.Fs.{Fs}
use ab_os.Fs.Create.{link_entry}

-- Where the entries of a block are, and whether one is free.
abbrev pub entry_free : Memory → ℕ → ℕ → Bool
entry_free m buffer j = load32 m (buffer + 64 * j) == 0

-- The memory `m'` is `m` with the entry at `slot` replaced by the 64 bytes at `new_entry`.
abbrev pub Linked : Memory → ℕ → ℕ → Memory → Type 0
Linked m slot new_entry m' =
    (a : ℕ) → m' a ≡ (if leb slot a && ltb a (slot + 64) then m (new_entry + (a - slot)) else m a)

-- What the search of a block gives.
pub data LinkResult (s : Fs) (buffer new_entry lo hi : ℕ) (r : Option Fs) : Type 0 where
  linked :
      (j : ℕ) (m' : Memory)
      → r ≡ some (record s { memory = m' })
      → lo ≤ j
      → j < hi
      → entry_free s.memory buffer j ≡ true
      → ((i : ℕ) → lo ≤ i → i < j → entry_free s.memory buffer i ≡ false)
      → Linked s.memory (buffer + 64 * j) new_entry m'
      → LinkResult s buffer new_entry lo hi r
  full :
      r ≡ none
      → ((i : ℕ) → lo ≤ i → i < hi → entry_free s.memory buffer i ≡ false)
      → LinkResult s buffer new_entry lo hi r

-- One more slot that is taken in front.
later :
    (rounds lo buffer new_entry : ℕ) (s : Fs) {r : Option Fs}
    → entry_free s.memory buffer lo ≡ false
    → LinkResult s buffer new_entry (suc lo) (suc lo + rounds) r
    → LinkResult s buffer new_entry lo (lo + suc rounds) r
later rounds lo buffer new_entry s taken (linked j m' e l l' free before m) =
    linked j m' e (omega arith) (omega arith) free
      (λ i b b'. elim (ℕ_discrete i lo) [
        | yes same ↦ ap (entry_free s.memory buffer) same ∙ taken
        | no ne ↦ before i (omega arith) b'
      ])
      m
later rounds lo buffer new_entry s taken (full e before) = full e (λ i b b'.
    elim (ℕ_discrete i lo) [
      | yes same ↦ ap (entry_free s.memory buffer) same ∙ taken
      | no ne ↦ before i (omega arith) (omega arith)
    ])

link_from :
    (rounds lo buffer new_entry : ℕ) (s : Fs)
    → (new_entry + 64 ≤ buffer) ⊎ (buffer + 64 * (lo + rounds) ≤ new_entry)
    → LinkResult s buffer new_entry lo
        (lo + rounds)
        (link_entry rounds (buffer + 64 * lo) new_entry s)
unfolding link_entry
link_from zero lo buffer new_entry s apart = full refl (λ i l l'. absurd (omega arith))
link_from (suc rounds) lo buffer new_entry s apart =
    let e : buffer + 64 * lo + 64 ≡ buffer + 64 * suc lo = omega arith in
    elim (Bool-cases (entry_free s.memory buffer lo)) [
      | inl free ↦ rw free (
          linked lo (memcpy (buffer + 64 * lo) new_entry 64 s.memory) refl (omega arith)
            (omega arith) free (λ i l l'. absurd (omega arith))
            (λ a. memcpy_lem (buffer + 64 * lo) new_entry 64 s.memory (omega arith) a))
      | inr taken ↦
          rw (taken, e)
            (later rounds lo buffer new_entry s taken
              (link_from rounds (suc lo) buffer new_entry s (omega arith)))
    ]

-- In memory apart from the new entry, `link_entry` puts the entry in the first slot of the block whose
-- number is 0, and changes no other byte of memory, or it finds that no slot is free.
pub link_entry-LinkResult :
    (buffer new_entry : ℕ) (s : Fs)
    → (new_entry + 64 ≤ buffer) ⊎ (buffer + 4096 ≤ new_entry)
    → LinkResult s buffer new_entry 0 64 (link_entry 64 buffer new_entry s)
link_entry-LinkResult buffer new_entry s apart =
    let e : buffer + 64 * 0 ≡ buffer = omega arith in
    subst (λ (t : ℕ). LinkResult s buffer new_entry 0 64 (link_entry 64 t new_entry s)) e
      (link_from 64 0 buffer new_entry s (omega arith))
