-- ===== src/Base/Loops.antt =====
-- Counted loops, and the rule by which an invariant is carried through one.
use Prim.Native.Nat.{ℕ, zero, suc, ◌+◌, ◌<◌}
use mathlib.Core.Path.{◌≡◌}
use native.Mathlib.Omega.{arith}

-- `rounds` rounds of a `for` loop whose counter stands at `from`.
unfoldable pub for_range {ℓ} : {State : Type ℓ} → ℕ → ℕ → (ℕ → State → State) → State → State
for_range zero from round now = now
for_range (suc rounds) from round now = for_range rounds (from + 1) round (round from now)

-- `Holds k` is true before the round of `k`, which may use that `k` is below the end.
pub for_range_inv {ℓ κ} :
    {State : Type ℓ} (Holds : ℕ → State → Type κ) (round : ℕ → State → State) (end : ℕ)
    → ((k : ℕ) (now : State) → k < end → Holds k now → Holds (k + 1) (round k now))
    → (rounds from : ℕ) (now : State) → from + rounds ≡ end
    → Holds from now
    → Holds end (for_range rounds from round now)
unfolding for_range
for_range_inv Holds round end keep zero from now sum start =
    let there : from ≡ end = omega arith in rw (← there) start
for_range_inv Holds round end keep (suc rounds) from now sum start =
    let next = keep from now (omega arith) start in
    for_range_inv Holds round end keep rounds (from + 1) (round from now) (omega arith) next
