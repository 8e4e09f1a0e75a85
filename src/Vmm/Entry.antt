-- ===== src/Vmm/Entry.antt =====
-- One entry of a directory or a table: the fields of an address, and what the macros store.
use native.Mathlib.Nat.{pow-le-pow_right}
use ab_os.Base.{
  ℕ, ◌+◌, ◌*◌, ◌/◌, ◌%◌, ◌^◌, ◌≤◌, ◌<◌, ◌≡◌, ◌⊎◌, refl, sym, ap, ◌∙◌, inl, inr, Bool, true, false,
  not, ◌||◌, bit_and, bit_or, Memory, u32_mod, ltb, ◌==◌, arith, Bool-cases,
}
use ab_os.Base.Bits.{
  test_bit, complement, test_bit-or, test_bit-and, test_bit-zero, test_bit-low, test_bit_above,
  test_bit-complement, eq_of_bits, bit_or-lt, test_bit-set,
}
use ab_os.Base.Bits.Masks.{test_bit-ones, bit_and-lt, bit_and-ones, bit_and-field}
use ab_os.Base.Words.{load32, store32_ne, load32-store32, load32-lt}
use ab_os.Vmm.{
  pd_index, pt_index, get_frame, with_frame, set_attribute, set_frame, set_entry, present, writable,
  user,
}

pub pd_index_lem : (a : ℕ) → a < u32_mod → pd_index a ≡ a / 2 ^ 22
unfolding pd_index
pd_index_lem a h = bit_and-ones 10 (a / 2 ^ 22) ∙ omega arith

pub pt_index_lem : (a : ℕ) → pt_index a ≡ a / 4096 % 1024
unfolding pt_index
pt_index_lem a = bit_and-ones 10 (a / 2 ^ 12)

pub get_frame_lem : (e : ℕ) → e < u32_mod → get_frame e ≡ e / 4096 * 4096
unfolding get_frame complement
get_frame_lem e h = bit_and-field 12 20 e ∙ omega arith

-- The bits that `SET_FRAME` keeps: the attributes, and bit 31.
kept : (i : ℕ) → i < 32 → test_bit (complement 32 0x7FFFF000) i ≡ (ltb i 12 || i == 31)
unfolding complement test_bit
kept i h = elim (Bool-cases (ltb i 31)) [
  | inl low ↦
      let inner = test_bit-complement 31 i 0xFFF (omega arith) (ground arith) in
      test_bit-complement 32 i 0x7FFFF000 (omega arith) h
      ∙ ap not inner
      ∙ ap (λ (t : Bool). not (not t)) (test_bit-ones 12 i)
      ∙ ground arith
  | inr high ↦ let e : i ≡ 31 = ground arith in rw e refl
]

pub aligned-low : (a i : ℕ) → a % 4096 ≡ 0 → i < 12 → test_bit a i ≡ false
aligned-low a i h l =
    let e : a / 4096 * 2 ^ 12 + 0 ≡ a = omega arith in
    ap (λ (t : ℕ). test_bit t i) (sym e) ∙ test_bit-low 12 i (a / 4096) 0 l ∙ test_bit-zero i

-- An entry whose bit 31 is clear takes a page's address as its frame.
pub get_frame-with_frame :
    (e a : ℕ) → e < 2 ^ 31 → a < u32_mod → a % 4096 ≡ 0 → get_frame (with_frame e a) ≡ a
unfolding get_frame with_frame
get_frame-with_frame e a he ha al =
    eq_of_bits 32 (get_frame (with_frame e a)) a
      (bit_and-lt 32 (with_frame e a) (complement 32 0xFFF) (
        bit_or-lt 32 (bit_and e (complement 32 0x7FFFF000)) a
          (bit_and-lt 32 e (complement 32 0x7FFFF000) (omega arith)) ha))
      ha
      (λ i h.
        rw
          (
            test_bit-and,
            test_bit-or,
            test_bit-and,
            kept i h,
            test_bit-complement 32 i 0xFFF (omega arith) h,
            test_bit-ones 12 i,
          )
          (ground (arith, aligned-low a i al, test_bit_above 31 i e he)))

-- `SET_FRAME` with a page's address keeps every attribute.
pub test_bit-with_frame :
    (e a i : ℕ) → a % 4096 ≡ 0 → i < 12 → test_bit (with_frame e a) i ≡ test_bit e i
unfolding with_frame
test_bit-with_frame e a i al h =
    rw (test_bit-or, test_bit-and, kept i (omega arith)) (ground (arith, aligned-low a i al h))

pub with_frame-lt : (e a : ℕ) → e < u32_mod → a < u32_mod → with_frame e a < u32_mod
unfolding with_frame
with_frame-lt e a he ha =
    bit_or-lt 32 (bit_and e (complement 32 0x7FFFF000)) a
      (bit_and-lt 32 e (complement 32 0x7FFFF000) he) ha

-- The value that `set_entry` leaves in an entry that held `v`.
abbrev entry_value : ℕ → ℕ → ℕ
entry_value v a = with_frame (bit_or (bit_or (bit_or v present) writable) user) a

attributes-lt :
    (n v : ℕ) → 3 ≤ n → v < 2 ^ n → bit_or (bit_or (bit_or v present) writable) user < 2 ^ n
attributes-lt n v l h =
    let p : 8 ≤ 2 ^ n = pow-le-pow_right (omega arith) l in
    bit_or-lt n (bit_or (bit_or v present) writable) user
      (bit_or-lt n (bit_or v present) writable (bit_or-lt n v present h (omega (arith, p)))
        (omega (arith, p)))
      (omega (arith, p))

load32-set_attribute :
    (m : Memory) (e attr v : ℕ)
    → attr < u32_mod
    → load32 m e ≡ v
    → load32 (set_attribute e attr m) e ≡ bit_or v attr
unfolding set_attribute
load32-set_attribute m e attr v h at =
    load32-store32 m e (bit_or (load32 m e) attr) (bit_or-lt 32 (load32 m e) attr (load32-lt m e) h)
    ∙ ap (λ (t : ℕ). bit_or t attr) at

load32-set_entry :
    (m : Memory) (e a : ℕ) → a < u32_mod → load32 (set_entry e a m) e ≡ entry_value (load32 m e) a
unfolding set_entry set_frame
load32-set_entry m e a h =
    let m' = set_attribute e user (set_attribute e writable (set_attribute e present m)) in
    let at =
      load32-set_attribute (set_attribute e writable (set_attribute e present m)) e user
        (bit_or (bit_or (load32 m e) present) writable) (omega arith)
        (load32-set_attribute (set_attribute e present m) e writable (bit_or (load32 m e) present)
          (omega arith) (load32-set_attribute m e present (load32 m e) (omega arith) refl)) in
    load32-store32 m' e (with_frame (load32 m' e) a)
      (with_frame-lt (load32 m' e) a (load32-lt m' e) h)
    ∙ ap (λ (t : ℕ). with_frame t a) at

-- What the entries of a mapped page hold: its frame, and the three attributes.
pub record Maps (v a : ℕ) : Type 0 where
  pub frame : v / 4096 * 4096 ≡ a
  pub bits : (i : ℕ) → i < 3 → test_bit v i ≡ true

pub set_entry-Maps :
    (m : Memory) (e a : ℕ)
    → load32 m e < 2 ^ 31
    → a < u32_mod
    → a % 4096 ≡ 0
    → Maps (load32 (set_entry e a m) e) a
set_entry-Maps m e a he ha al =
    let v = load32 m e in
    let w = bit_or (bit_or (bit_or v present) writable) user in
    let lt = with_frame-lt w a (attributes-lt 32 v (omega arith) (omega arith)) ha in
    rw (load32-set_entry m e a ha) (record {
      frame =
          sym (get_frame_lem (with_frame w a) lt)
          ∙ get_frame-with_frame w a (attributes-lt 31 v (omega arith) he) ha al;
      bits = λ i l.
          test_bit-with_frame w a i al (omega arith)
          ∙ test_bit-set (bit_or (bit_or v present) writable) 2 i
          ∙ ap (λ (t : Bool). 2 == i || t)
              (test_bit-set (bit_or v present) 1 i
                ∙ ap (λ (t : Bool). 1 == i || t) (test_bit-set v 0 i))
          ∙ ground arith;
    })

-- `set_entry` changes no byte but those of its entry.
pub set_entry_ne : (m : Memory) (e a b : ℕ) → (b < e) ⊎ (e + 4 ≤ b) → set_entry e a m b ≡ m b
unfolding set_entry set_frame set_attribute
set_entry_ne m e a b apart =
    let m1 = set_attribute e present m in
    let m2 = set_attribute e writable m1 in
    let m3 = set_attribute e user m2 in
    store32_ne m3 e (with_frame (load32 m3 e) a) b apart
    ∙ store32_ne m2 e (bit_or (load32 m2 e) user) b apart
    ∙ store32_ne m1 e (bit_or (load32 m1 e) writable) b apart
    ∙ store32_ne m e (bit_or (load32 m e) present) b apart
