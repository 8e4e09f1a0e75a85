-- ===== src/Base/Words.antt =====
-- 32-bit words in byte memory, the lowest byte first. A load reads eight bits of each cell.
use ab_os.Base.{ℕ, ◌+◌, ◌*◌, ◌/◌, ◌%◌, ◌≤◌, ◌<◌, ◌≡◌, ◌⊎◌, ◌∙◌, Memory, update, u32_mod, arith}

unfoldable pub load32 : Memory → ℕ → ℕ
load32 m a =
    m a % 256
    + 256 * (m (a + 1) % 256)
    + 0x1_0000 * (m (a + 2) % 256)
    + 0x100_0000 * (m (a + 3) % 256)

unfoldable pub store32 : Memory → ℕ → ℕ → Memory
store32 m a v =
    update
      (update (update (update m a (v % 256)) (a + 1) (v / 256 % 256)) (a + 2) (v / 0x1_0000 % 256))
      (a + 3) (v / 0x100_0000 % 256)

pub load32-lt : (m : Memory) (a : ℕ) → load32 m a < u32_mod
unfolding load32
load32-lt m a = omega arith

-- A store leaves the bytes outside its word as they were.
pub store32_ne : (m : Memory) (a v b : ℕ) → (b < a) ⊎ (a + 4 ≤ b) → store32 m a v b ≡ m b
unfolding store32
store32_ne m a v b apart = ground arith

pub load32-store32 : (m : Memory) (a v : ℕ) → v < u32_mod → load32 (store32 m a v) a ≡ v
unfolding load32 store32
load32-store32 m a v h = ground arith

-- Memories that agree on the bytes of a word have the same word there.
pub load32_cong :
    (m m' : Memory) (a : ℕ) → ((b : ℕ) → a ≤ b → b < a + 4 → m b ≡ m' b) → load32 m a ≡ load32 m' a
unfolding load32
load32_cong m m' a h = omega (
  arith,
  h a (omega arith) (omega arith),
  h (a + 1) (omega arith) (omega arith),
  h (a + 2) (omega arith) (omega arith),
  h (a + 3) (omega arith) (omega arith),
)

-- A store to another word leaves a word as it was.
pub load32-store32_ne :
    (m : Memory) (a v b : ℕ) → (a + 4 ≤ b) ⊎ (b + 4 ≤ a) → load32 (store32 m a v) b ≡ load32 m b
load32-store32_ne m a v b apart =
    load32_cong (store32 m a v) m b (λ c l l'. store32_ne m a v c (omega arith))

-- 64-bit words, as two halves.
unfoldable pub load64 : Memory → ℕ → ℕ
load64 m a = load32 m a + u32_mod * load32 m (a + 4)

unfoldable pub store64 : Memory → ℕ → ℕ → Memory
store64 m a v = store32 (store32 m a (v % u32_mod)) (a + 4) (v / u32_mod)

pub load64-lt : (m : Memory) (a : ℕ) → load64 m a < u32_mod * u32_mod
unfolding load64
load64-lt m a = omega (arith, load32-lt m a, load32-lt m (a + 4))

pub store64_ne : (m : Memory) (a v b : ℕ) → (b < a) ⊎ (a + 8 ≤ b) → store64 m a v b ≡ m b
unfolding store64
store64_ne m a v b apart =
    store32_ne (store32 m a (v % u32_mod)) (a + 4) (v / u32_mod) b (omega arith)
    ∙ store32_ne m a (v % u32_mod) b (omega arith)

pub load64-store64 : (m : Memory) (a v : ℕ) → v < u32_mod * u32_mod → load64 (store64 m a v) a ≡ v
unfolding load64 store64
load64-store64 m a v h =
    let m' = store32 m a (v % u32_mod) in
    omega (
      arith,
      load32-store32_ne m' (a + 4) (v / u32_mod) a (omega arith),
      load32-store32 m a (v % u32_mod) (omega arith),
      load32-store32 m' (a + 4) (v / u32_mod) (omega arith),
    )

pub load64_cong :
    (m m' : Memory) (a : ℕ) → ((b : ℕ) → a ≤ b → b < a + 8 → m b ≡ m' b) → load64 m a ≡ load64 m' a
unfolding load64
load64_cong m m' a h = omega (
  arith,
  load32_cong m m' a (λ b l l'. h b l (omega arith)),
  load32_cong m m' (a + 4) (λ b l l'. h b (omega arith) (omega arith)),
)

-- Words at two addresses with the same bytes.
pub load32_shift :
    (m m' : Memory) (a a' : ℕ)
    → ((b c : ℕ) → a ≤ b → b < a + 4 → b + a' ≡ c + a → m b ≡ m' c)
    → load32 m a ≡ load32 m' a'
unfolding load32
load32_shift m m' a a' h = omega (
  arith,
  h a a' (omega arith) (omega arith) (omega arith),
  h (a + 1) (a' + 1) (omega arith) (omega arith) (omega arith),
  h (a + 2) (a' + 2) (omega arith) (omega arith) (omega arith),
  h (a + 3) (a' + 3) (omega arith) (omega arith) (omega arith),
)

pub load64_shift :
    (m m' : Memory) (a a' : ℕ)
    → ((b c : ℕ) → a ≤ b → b < a + 8 → b + a' ≡ c + a → m b ≡ m' c)
    → load64 m a ≡ load64 m' a'
unfolding load64
load64_shift m m' a a' h = omega (
  arith,
  load32_shift m m' a a' (λ b c l l' e. h b c l (omega arith) e),
  load32_shift m m' (a + 4) (a' + 4)
      (λ b c l l' e. h b c (omega arith) (omega arith) (omega arith)),
)
