-- ===== src/Fs/Path.antt =====
-- `get_name_path`: the part of a path behind its last slash.
use native.Mathlib.Decide.{ℕ_discrete}
use mathlib.Core.Path.{subst}
use ab_os.Base.{
  ℕ, zero, suc, ◌+◌, ◌-◌, ◌≤◌, ◌<◌, ◌≡◌, ◌≢◌, ◌⊎◌, inl, inr, refl, sym, ap, ◌∙◌, Memory, List, [],
  ◌∷◌, length, some, ◌==◌, ==_ne, ==_iff, if◌then◌else◌, arith,
}
use ab_os.Str.Scan.{StringAt}
use ab_os.Fs.{name_loop, get_name_path}

-- `r` is where the name starts in a path at `path` that ends at `end`.
pub record NameStart (m : Memory) (path end r : ℕ) : Type 0 where
  pub within : r ≤ end
  pub no_slash : (q : ℕ) → r ≤ q → q < end → m q ≢ b'/'
  pub start : (r ≡ path) ⊎ ((path < r) × (m (r - 1) ≡ b'/'))

name_loop_next :
    (fuel : ℕ) (m : Memory) (temp temp2 : ℕ)
    → m temp ≢ 0
    → name_loop (suc fuel) m temp temp2
      ≡ name_loop fuel m (temp + 1) (if m temp == b'/' then temp + 1 else temp2)
unfolding name_loop
name_loop_next fuel m temp temp2 ne = rw (==_ne (m temp) 0 ne) refl

name_loop_stop :
    (fuel : ℕ) (m : Memory) (temp temp2 : ℕ)
    → m temp ≡ 0
    → name_loop (suc fuel) m temp temp2 ≡ some temp2
unfolding name_loop
name_loop_stop fuel m temp temp2 e = rw e refl

name_loop_lem :
    (fuel : ℕ) (m : Memory) (path temp temp2 : ℕ) (cs : List ℕ)
    → StringAt m temp cs
    → length cs < fuel
    → path ≤ temp
    → NameStart m path temp temp2
    → (r : ℕ) × (name_loop fuel m temp temp2 ≡ some r) × NameStart m path (temp + length cs) r
name_loop_lem zero m path temp temp2 cs h enough le n = absurd (omega arith)
name_loop_lem (suc fuel) m path temp temp2 [] h enough le n = (
  temp2,
  name_loop_stop fuel m temp temp2 h,
  record {
    within = omega (arith, n.within);
    no_slash = λ q l l'. n.no_slash q l (omega arith);
    start = n.start;
  },
)
name_loop_lem (suc fuel) m path temp temp2 (c ∷ cs) h enough le n =
    let back : temp + 1 - 1 ≡ temp = omega arith in
    let temp2' = (if m temp == b'/' then temp + 1 else temp2) in
    let n' : NameStart m path (temp + 1) temp2' = elim (ℕ_discrete (m temp) b'/') [
      | yes slash ↦ rw ((==_iff (m temp) b'/').1 slash) (record {
        within = omega arith;
        no_slash = λ q l l'. absurd (omega arith);
        start = inr (omega arith, ap m back ∙ slash);
      })
      | no other ↦ rw (==_ne (m temp) b'/' other) (record {
        within = omega (arith, n.within);
        no_slash = λ q l l'. elim (ℕ_discrete q temp) [
          | yes e ↦ λ z. other (ap m (sym e) ∙ z)
          | no ne ↦ n.no_slash q l (omega arith)
        ];
        start = n.start;
      })
    ] in
    let (r, e, k) =
      name_loop_lem fuel m path (temp + 1) temp2' cs h.3 (omega arith) (omega arith) n' in
    let end : temp + 1 + length cs ≡ temp + length (c ∷ cs) = omega arith in
    (
      r,
      name_loop_next fuel m temp temp2 (λ z. h.1 (sym h.0 ∙ z)) ∙ e,
      subst (λ t. NameStart m path t r) end k,
    )

-- `get_name_path` of a terminated path, with fuel above its length, returns where the part without a
-- slash at its end starts: behind the last slash, or at the start of the path if it has none.
pub get_name_path_lem :
    (fuel : ℕ) (m : Memory) (path : ℕ) (cs : List ℕ)
    → StringAt m path cs
    → length cs < fuel
    → (r : ℕ) × (get_name_path fuel m path ≡ some r) × NameStart m path (path + length cs) r
unfolding get_name_path
get_name_path_lem fuel m path cs h enough =
    name_loop_lem fuel m path path path cs h enough (omega arith)
      (record { within = omega arith; no_slash = λ q l l'. absurd (omega arith); start = inl refl })
