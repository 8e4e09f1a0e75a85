-- ===== src/Str/Copy.antt =====
-- The functions that store: `memset`, `memcpy`, `strncpy` and `strcpy`.
use ab_os.Base.{
  ℕ, zero, suc, ◌+◌, ◌-◌, ◌≤◌, ◌<◌, ◌≡◌, ◌≢◌, sym, ◌∙◌, ◌&&◌, ◌⊎◌, some, List, [], ◌∷◌, Memory,
  update, arith, ltb, leb, if◌then◌else◌, length, for_range, for_range_inv, update_ne,
}
use ab_os.Str.{strcpy, strncpy, memset, memcpy}
use ab_os.Str.Scan.{StringAt}

-- `memset` stores the value in its range, and nothing elsewhere.
pub memset_lem :
    (ptr value n : ℕ) (m : Memory) (a : ℕ)
    → memset ptr value n m a ≡ (if leb ptr a && ltb a (ptr + n) then value else m a)
unfolding memset
memset_lem ptr value n m =
    for_range_inv (λ k m'. (a : ℕ) → m' a ≡ (if leb ptr a && ltb a (ptr + k) then value else m a))
      (λ i m. update m (ptr + i) value) n (λ k m' l h a. ground (arith, h a)) n 0 m (omega arith)
      (λ a. ground arith)

-- A forward copy of `n` bytes, unless the destination starts inside the source.
copy_loop :
    (dst src n : ℕ) (m : Memory)
    → (dst ≤ src) ⊎ (src + n ≤ dst)
    → (a : ℕ)
    → for_range n 0 (λ i m. update m (dst + i) (m (src + i))) m a
      ≡ (if leb dst a && ltb a (dst + n) then m (src + (a - dst)) else m a)
copy_loop dst src n m apart =
    for_range_inv
      (λ k m'. (a : ℕ) → m' a ≡ (if leb dst a && ltb a (dst + k) then m (src + (a - dst)) else m a))
      (λ i m. update m (dst + i) (m (src + i))) n
      (λ k m' l h a. ground (arith, h a, h (src + k), apart)) n 0 m (omega arith)
      (λ a. ground arith)

-- `memcpy` puts the source's bytes in the destination, where the destination does not start inside
-- the source, and stores nothing elsewhere.
pub memcpy_lem :
    (dst src size : ℕ) (m : Memory)
    → (dst ≤ src) ⊎ (src + size ≤ dst)
    → (a : ℕ)
    → memcpy dst src size m a
      ≡ (if leb dst a && ltb a (dst + size) then m (src + (a - dst)) else m a)
unfolding memcpy
memcpy_lem = copy_loop

-- `strncpy` copies exactly `n` bytes: it neither stops at a terminator nor adds one.
pub strncpy_lem :
    (dst src n : ℕ) (m : Memory)
    → (dst ≤ src) ⊎ (src + n ≤ dst)
    → (a : ℕ)
    → strncpy dst src n m a ≡ (if leb dst a && ltb a (dst + n) then m (src + (a - dst)) else m a)
unfolding strncpy
strncpy_lem = copy_loop

StringAt-update :
    (m : Memory) (a x v : ℕ) (cs : List ℕ)
    → StringAt m a cs
    → (x < a) ⊎ (a + length cs < x)
    → StringAt (update m x v) a cs
StringAt-update m a x v [] h out = update_ne m x a v (omega arith) ∙ h
StringAt-update m a x v (c ∷ cs) h out = (
  update_ne m x a v (omega arith) ∙ h.0,
  h.1,
  h.2,
  StringAt-update m (a + 1) x v cs h.3 (omega arith),
)

-- What `strcpy` leaves: the string at the destination, and the bytes outside it as they were.
pub record Copied (m m' : Memory) (dst : ℕ) (cs : List ℕ) : Type 0 where
  pub string : StringAt m' dst cs
  pub outside : (a : ℕ) → (a < dst) ⊎ (dst + length cs < a) → m' a ≡ m a

strcpy_stop :
    (fuel dst src : ℕ) (m : Memory)
    → m src ≡ 0
    → strcpy (suc fuel) dst src m ≡ some (update m dst (m src))
unfolding strcpy
strcpy_stop fuel dst src m e = ground (arith)

strcpy_next :
    (fuel dst src : ℕ) (m : Memory)
    → dst ≢ src
    → m src ≢ 0
    → strcpy (suc fuel) dst src m ≡ strcpy fuel (dst + 1) (src + 1) (update m dst (m src))
unfolding strcpy
strcpy_next fuel dst src m apart ne = ground (arith)

-- `strcpy` of a terminated string that the destination does not overlap, with fuel above its
-- length, terminates with a copy of the string at the destination and the other bytes unchanged.
pub strcpy_lem :
    (fuel dst src : ℕ) (m : Memory) (cs : List ℕ)
    → StringAt m src cs
    → length cs < fuel
    → (dst + length cs < src) ⊎ (src + length cs < dst)
    → (m' : Memory) × (strcpy fuel dst src m ≡ some m') × Copied m m' dst cs
strcpy_lem zero dst src m cs h enough apart = absurd (omega arith)
strcpy_lem (suc fuel) dst src m [] h enough apart = (
  update m dst (m src),
  strcpy_stop fuel dst src m h,
  record { string = ground arith; outside = λ a out. update_ne m dst a (m src) (omega arith) },
)
strcpy_lem (suc fuel) dst src m (c ∷ cs) h enough apart =
    let (m', e, k) =
      strcpy_lem fuel (dst + 1) (src + 1) (update m dst (m src)) cs
        (StringAt-update m (src + 1) dst (m src) cs h.3 (omega arith)) (omega arith)
        (omega arith) in
    (
      m',
      strcpy_next fuel dst src m (omega arith) (λ z. h.1 (sym h.0 ∙ z)) ∙ e,
      record {
        string = (k.outside dst (omega arith) ∙ ground (arith, h.0), h.1, h.2, k.string);
        outside = λ a out. k.outside a (omega arith) ∙ update_ne m dst a (m src) (omega arith);
      },
    )
