-- ===== src/Syscalls/Table.antt =====
-- The table of open inodes.
use native.Mathlib.Decide.{ℕ_discrete}
use ab_os.Base.{
  ℕ, zero, suc, ◌+◌, ◌%◌, ◌≤◌, ◌<◌, ◌≡◌, ◌≢◌, inl, inr, refl, sym, ap, ◌∙◌, true, false, Bool-cases,
  update, ltb, ◌==◌, if◌then◌else◌, arith, update_ne,
}
use ab_os.Base.Words.{load32, load32_cong}
use ab_os.Fs.{Inode, i_number_of, max_count_of}
use ab_os.Syscalls.{Kernel, put, inode_loop, enter_inode}

-- The first cell from `lo` on with a number, or `hi`.
record FirstCell (table : ℕ → Inode) (n lo hi r : ℕ) : Type 0 where
  low : lo ≤ r
  high : r ≤ hi
  before : (i : ℕ) → lo ≤ i → i < r → i_number_of (table i) ≢ n
  found : r < hi → i_number_of (table r) ≡ n

inode_loop-FirstCell :
    (rounds index : ℕ) (table : ℕ → Inode) (n : ℕ)
    → FirstCell table n index (index + rounds) (inode_loop rounds index table n)
unfolding inode_loop
inode_loop-FirstCell zero index table n = record {
  low = omega arith;
  high = omega arith;
  before = λ i l l'. absurd (omega arith);
  found = λ l. absurd (omega arith);
}
inode_loop-FirstCell (suc rounds) index table n =
    let rest = inode_loop-FirstCell rounds (index + 1) table n in
    elim (Bool-cases (i_number_of (table index) == n)) [
      | inl same ↦ rw same (record {
        low = omega arith;
        high = omega arith;
        before = λ i l l'. absurd (omega arith);
        found = λ l. ground arith;
      })
      | inr other ↦ rw other (record {
        low = omega (arith, rest.low);
        high = omega (arith, rest.high);
        before = λ i l l'. elim (ℕ_discrete i index) [
          | yes e ↦ λ e'. absurd (ground (arith, ap (λ (j : ℕ). i_number_of (table j)) e))
          | no ne ↦ rest.before i (omega arith) l'
        ];
        found = λ l. rest.found (omega arith);
      })
    ]

-- No two cells of the table hold the same inode; 0 is the number of a free cell.
abbrev pub Distinct : (ℕ → Inode) → Type 0
Distinct table =
    (i j : ℕ)
    → i < 256
    → j < 256
    → i_number_of (table i) ≡ i_number_of (table j)
    → i_number_of (table i) ≢ 0
    → i ≡ j

-- The counter of a cell is not part of its number.
number_counted : (inode : Inode) (v : ℕ) → load32 (update inode 62 v) 0 ≡ load32 inode 0
number_counted inode v =
    load32_cong (update inode 62 v) inode 0 (λ b l l'. update_ne inode 62 b v (omega arith))

put_number :
    (table : ℕ → Inode) (index : ℕ) (inode : Inode) (i : ℕ)
    → i_number_of (put table index inode i)
      ≡ (if i == index then i_number_of inode else i_number_of (table i))
put_number table index inode i = elim (Bool-cases (i == index)) [
  | inl same ↦ rw same refl
  | inr other ↦ rw other refl
]

put_at :
    (table : ℕ → Inode) (index : ℕ) (inode : Inode)
    → i_number_of (put table index inode index) ≡ i_number_of inode
put_at table index inode = put_number table index inode index ∙ ground arith

put_other :
    (table : ℕ → Inode) (index : ℕ) (inode : Inode) (i : ℕ)
    → i ≢ index
    → i_number_of (put table index inode i) ≡ i_number_of (table i)
put_other table index inode i ne = put_number table index inode i ∙ ground arith

put-Distinct :
    (table : ℕ → Inode) (index : ℕ) (inode : Inode)
    → Distinct table
    → ((i : ℕ) → i < 256 → i ≢ index → i_number_of (table i) ≢ i_number_of inode)
    → Distinct (put table index inode)
put-Distinct table index inode distinct alone i j l l' e ne =
    let at = put_at table index inode in
    let number = λ (t : ℕ). i_number_of (put table index inode t) in
    elim (ℕ_discrete i index) [
      | yes a ↦ elim (ℕ_discrete j index) [
        | yes b ↦ a ∙ sym b
        | no b ↦
            absurd (alone j l' b (sym (put_other table index inode j b) ∙ sym e ∙ ap number a ∙ at))
      ]
      | no a ↦ elim (ℕ_discrete j index) [
        | yes b ↦
            absurd (alone i l a (sym (put_other table index inode i a) ∙ e ∙ ap number b ∙ at))
        | no b ↦
            let p = put_other table index inode i a in
            distinct i j l l' (sym p ∙ e ∙ put_other table index inode j b) (λ z. ne (p ∙ z))
      ]
    ]

eq_of : (a b : ℕ) → (a == b) ≡ true → a ≡ b
eq_of a b h = ground arith

ne_of : (a b : ℕ) → (a == b) ≡ false → a ≢ b
ne_of a b h = ground arith

-- A cell with the number stands at the first such cell or behind it.
found_below :
    (table : ℕ → Inode) (n hi r i : ℕ)
    → FirstCell table n 0 hi r
    → i_number_of (table i) ≡ n
    → r ≤ i
found_below table n hi r i f at = elim (Bool-cases (ltb i r)) [
  | inl low ↦ absurd (f.before i (omega arith) (ground arith) at)
  | inr high ↦ ground arith
]

-- `sys_open` keeps at most one cell for each inode; the index that it gets for an inode is that of a
-- cell with the inode's number.
pub enter_inode-Distinct :
    (inode : Inode) (k : Kernel)
    → i_number_of inode ≢ 0
    → Distinct k.open_inodes
    → let r = enter_inode inode k in
      Distinct r.1.open_inodes × (i_number_of (r.1.open_inodes r.0) ≡ i_number_of inode)
unfolding enter_inode
enter_inode-Distinct inode k some_number distinct =
    let n = i_number_of inode in
    let table = k.open_inodes in
    let found = inode_loop 256 0 table n in
    let empty = inode_loop 256 0 table 0 in
    let f = inode_loop-FirstCell 256 0 table n in
    let v = (max_count_of (table found) + 1) % 256 in
    let c = number_counted (table found) v in
    elim (Bool-cases (n == i_number_of (table found))) [
      | inl same ↦
          let e = eq_of n (i_number_of (table found)) same in
          rw same (
            put-Distinct table found (update (table found) 62 v) distinct (λ i l ne e'.
                let at : i_number_of (table i) ≡ n = e' ∙ c ∙ sym e in
                let b = found_below table n 256 found i f at in
                ne (distinct i found l (omega arith) (at ∙ e) (λ z. some_number (sym at ∙ z)))),
            put_at table found (update (table found) 62 v) ∙ c ∙ sym e,
          )
      | inr other ↦ rw other (
        put-Distinct table empty inode distinct (λ i l ne at.
            let b = found_below table n 256 found i f at in
            ne_of n (i_number_of (table found)) other (sym (f.found (omega arith)))),
        put_at table empty inode,
      )
    ]
