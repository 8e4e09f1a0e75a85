-- ===== src/Vmm/Table.antt =====
-- A new table in a directory, and a changed entry of a table.
use native.Mathlib.Decide.{ℕ_discrete}
use ab_os.Base.{
  ℕ, ◌+◌, ◌*◌, ◌/◌, ◌%◌, ◌^◌, ◌≤◌, ◌<◌, ◌≡◌, ◌≢◌, ◌⊎◌, refl, sym, ap, ◌∙◌, inl, inr, true, false,
  Memory, u32_mod, arith, Bool-cases,
}
use ab_os.Base.Bits.{test_bit, test_bit-zero}
use ab_os.Base.Words.{load32, load32_cong}
use ab_os.Vmm.Walk.{slot, translate, table_of, IsTree, OnlySlot, directory_kept}

-- A block for a new table, apart from the directory and from each table.
pub record Fresh (m : Memory) (dir table : ℕ) : Type 0 where
  pub word : table < u32_mod
  pub aligned : table % 4096 ≡ 0
  pub not_null : table ≢ 0
  pub off_directory : (table + 4096 ≤ dir) ⊎ (dir + 4096 ≤ table)
  pub new :
      (i : ℕ) → i < 1024 → test_bit (load32 m (dir + 4 * i)) 0 ≡ true → table_of m dir i ≢ table

pub zero_word : (m : Memory) (a : ℕ) → ((b : ℕ) → a ≤ b → b < a + 4 → m b ≡ 0) → load32 m a ≡ 0
unfolding load32
zero_word m a z = omega (
  arith,
  z a (omega arith) (omega arith),
  z (a + 1) (omega arith) (omega arith),
  z (a + 2) (omega arith) (omega arith),
  z (a + 3) (omega arith) (omega arith),
)

-- An empty table entered in the directory, in place of no table.
module _ (m m' : Memory) (dir table v : ℕ) (lt : v < u32_mod) (tree : IsTree m dir)
    (fresh : Fresh m dir table) (gone : test_bit (load32 m (dir + 4 * (v / 2 ^ 22))) 0 ≡ false)
    (same : (b : ℕ)
      → (b < table) ⊎ (table + 4096 ≤ b)
      → (b < dir + 4 * (v / 2 ^ 22)) ⊎ (dir + 4 * (v / 2 ^ 22) + 4 ≤ b)
      → m' b ≡ m b)
    (empty : (b : ℕ) → table ≤ b → b < table + 4096 → m' b ≡ 0)
    (on : test_bit (load32 m' (dir + 4 * (v / 2 ^ 22))) 0 ≡ true)
    (frame : table_of m' dir (v / 2 ^ 22) ≡ table) where
  entry_same :
      (i : ℕ) → i < 1024 → i ≢ v / 2 ^ 22 → load32 m' (dir + 4 * i) ≡ load32 m (dir + 4 * i)
  entry_same i l ne =
      load32_cong m' m (dir + 4 * i)
        (λ b k k'. same b (omega (arith, fresh.off_directory)) (omega arith))

  frame_same : (i : ℕ) → i < 1024 → i ≢ v / 2 ^ 22 → table_of m' dir i ≡ table_of m dir i
  frame_same i l ne = ap (λ (e : ℕ). e / 4096 * 4096) (entry_same i l ne)

  there_same :
      (i : ℕ)
      → i < 1024
      → i ≢ v / 2 ^ 22
      → test_bit (load32 m' (dir + 4 * i)) 0 ≡ true
      → test_bit (load32 m (dir + 4 * i)) 0 ≡ true
  there_same i l ne there = ap (λ (e : ℕ). test_bit e 0) (sym (entry_same i l ne)) ∙ there

  frame_here : (i : ℕ) → i ≡ v / 2 ^ 22 → table_of m' dir i ≡ table
  frame_here i e = ap (λ (j : ℕ). table_of m' dir j) e ∙ frame

  pub new_table-IsTree : IsTree m' dir
  new_table-IsTree = record {
    apart = λ i l there. elim (ℕ_discrete i (v / 2 ^ 22)) [
      | yes e ↦ omega (arith, frame_here i e, fresh.off_directory)
      | no ne ↦ omega (arith, frame_same i l ne, tree.apart i l (there_same i l ne there))
    ];
    distinct = λ i j l l' other there there'. elim (ℕ_discrete i (v / 2 ^ 22)) [
      | yes e ↦ elim (ℕ_discrete j (v / 2 ^ 22)) [
        | yes e' ↦ absurd (other (e ∙ sym e'))
        | no ne' ↦ omega (
          arith,
          frame_here i e,
          frame_same j l' ne',
          fresh.new j l' (there_same j l' ne' there'),
        )
      ]
      | no ne ↦ elim (ℕ_discrete j (v / 2 ^ 22)) [
        | yes e' ↦
            omega
              (arith, frame_here j e', frame_same i l ne, fresh.new i l (there_same i l ne there))
        | no ne' ↦ omega (
          arith,
          frame_same i l ne,
          frame_same j l' ne',
          tree.distinct i j l l' other (there_same i l ne there) (there_same j l' ne' there'),
        )
      ]
    ];
  }

  pub new_table-translate : (w : ℕ) → w < u32_mod → translate m' dir w ≡ translate m dir w
  unfolding translate
  new_table-translate w l = elim (ℕ_discrete (w / 2 ^ 22) (v / 2 ^ 22)) [
    | yes e ↦
        let z : load32 m' (slot m' dir w) ≡ 0 = zero_word m' (slot m' dir w) (λ b k k'.
          empty b (omega (arith, frame_here (w / 2 ^ 22) e))
            (omega (arith, frame_here (w / 2 ^ 22) e))) in
        let off : test_bit (load32 m (dir + 4 * (w / 2 ^ 22))) 0 ≡ false =
          ap (λ (j : ℕ). test_bit (load32 m (dir + 4 * j)) 0) e ∙ gone in
        let there : test_bit (load32 m' (dir + 4 * (w / 2 ^ 22))) 0 ≡ true =
          ap (λ (j : ℕ). test_bit (load32 m' (dir + 4 * j)) 0) e ∙ on in
        rw (off, z, there, test_bit-zero 0) refl
    | no ne ↦ elim (Bool-cases (test_bit (load32 m (dir + 4 * (w / 2 ^ 22))) 0)) [
      | inl there ↦
          let d = entry_same (w / 2 ^ 22) (omega arith) ne in
          let far = tree.apart (w / 2 ^ 22) (omega arith) there in
          let other = fresh.new (w / 2 ^ 22) (omega arith) there in
          let e : load32 m' (slot m dir w) ≡ load32 m (slot m dir w) =
            load32_cong m' m (slot m dir w)
              (λ b k k'. same b (omega (arith, fresh.aligned, other)) (omega (arith, far))) in
          rw (d, there, e) refl
      | inr off ↦ rw (entry_same (w / 2 ^ 22) (omega arith) ne, off) refl
    ]
  ]

-- A table entry that is changed leaves the directory, and with it what is apart.
module _ (m m' : Memory) (dir v : ℕ) (lt : v < u32_mod) (tree : IsTree m dir)
    (here : test_bit (load32 m (dir + 4 * (v / 2 ^ 22))) 0 ≡ true)
    (only : OnlySlot m m' dir v) where
  pub same_entry : (i : ℕ) → i < 1024 → load32 m' (dir + 4 * i) ≡ load32 m (dir + 4 * i)
  same_entry i l = directory_kept m m' dir v lt tree here only i l

  same_there :
      (i : ℕ)
      → i < 1024
      → test_bit (load32 m' (dir + 4 * i)) 0 ≡ true
      → test_bit (load32 m (dir + 4 * i)) 0 ≡ true
  same_there i l there = ap (λ (e : ℕ). test_bit e 0) (sym (same_entry i l)) ∙ there

  pub slot-IsTree : IsTree m' dir
  slot-IsTree = record {
    apart = λ i l there. rw (same_entry i l) (tree.apart i l (same_there i l there));
    distinct = λ i j l l' ne there there'.
        rw (same_entry i l, same_entry j l')
          (tree.distinct i j l l' ne (same_there i l there) (same_there j l' there'));
  }

  pub slot-Fresh : (table : ℕ) → Fresh m dir table → Fresh m' dir table
  slot-Fresh table f = record {
    word = f.word;
    aligned = f.aligned;
    not_null = f.not_null;
    off_directory = f.off_directory;
    new = λ i l there. rw (same_entry i l) (f.new i l (same_there i l there));
  }
