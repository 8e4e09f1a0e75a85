-- ===== src/Str.antt =====
-- kernel/util/string.c over byte memory. A walk to a terminator takes fuel, and `none` means that
-- it ran out. A pointer is an address, and an `int` result its bit pattern. In `strcmp` the source
-- spells its parameters `s1` and `s2` in the loop.
mod Tests
pub mod Copy
pub mod Scan
use ab_os.Base.{
  ℕ, zero, suc, ◌+◌, ◌-◌, ◌%◌, Bool, not, ◌&&◌, Option, none, some, Memory, update, ◌==◌,
  if◌then◌else◌, u32_mod, for_range,
}

pub strcmp : ℕ → Memory → ℕ → ℕ → Option ℕ
strcmp zero m str1 str2 = none
strcmp (suc fuel) m str1 str2 =
    let rest = strcmp fuel m (str1 + 1) (str2 + 1) in
    if not (m str1 == 0) && m str1 == m str2
    then rest
    else some ((m str1 + u32_mod - m str2) % u32_mod)

pub strlen_loop : ℕ → Memory → ℕ → ℕ → Option ℕ
strlen_loop zero m str1 length = none
strlen_loop (suc fuel) m str1 length =
    let rest = strlen_loop fuel m (str1 + 1) (length + 1) in
    if m str1 == 0 then some length else rest

pub strlen : ℕ → Memory → ℕ → Option ℕ
unfolding strlen_loop
strlen fuel m str1 = strlen_loop fuel m str1 0

pub strrchr_loop : ℕ → Memory → ℕ → ℕ → ℕ → Option ℕ
strrchr_loop zero m temp c p = none
strrchr_loop (suc fuel) m temp c p =
    let rest = strrchr_loop fuel m (temp + 1) c (if m temp == c then temp else p) in
    if m temp == 0 then some p else rest

-- The null pointer is 0.
pub strrchr : ℕ → Memory → ℕ → ℕ → Option ℕ
unfolding strrchr_loop
strrchr fuel m str c = elim (strrchr_loop fuel m str c 0) [
  | none ↦ none
  | some p ↦ some (if c == 0 then str else p)
]

pub strncpy : ℕ → ℕ → ℕ → Memory → Memory
strncpy dst src n = for_range n 0 (λ i m. update m (dst + i) (m (src + i)))

pub memset : ℕ → ℕ → ℕ → Memory → Memory
memset ptr value length = for_range length 0 (λ i m. update m (ptr + i) value)

pub strcpy : ℕ → ℕ → ℕ → Memory → Option Memory
strcpy zero dst src m = none
strcpy (suc fuel) dst src m =
    let m' = update m dst (m src) in
    let rest = strcpy fuel (dst + 1) (src + 1) m' in if m' src == 0 then some m' else rest

pub memcpy : ℕ → ℕ → ℕ → Memory → Memory
memcpy dst src size = for_range size 0 (λ i m. update m (dst + i) (m (src + i)))
