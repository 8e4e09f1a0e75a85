-- ===== src/Shell/Commands.antt =====
-- Which command a line is, and `cat`.
use ab_os.Base.{
  ℕ, ◌<◌, ◌≡◌, ◌≢◌, refl, sym, Bool-cases, inl, inr, Memory, ◌==◌, Option, none, some, List, [],
  ◌∷◌, length, arith,
}
use ab_os.Str.Scan.{StringAt, strcmp_lem}
use ab_os.Shell.{Command, parse}

-- The first command of a list whose name is the line, or none.
pub data Chosen (name : Command → List ℕ) (line : List ℕ)
    : List Command → Option Command → Type 0 where
  nothing : Chosen name line [] none
  here : (c : Command) (cs : List Command) → name c ≡ line → Chosen name line (c ∷ cs) (some c)
  there :
      (c : Command) (cs : List Command) (r : Option Command)
      → name c ≢ line
      → Chosen name line cs r
      → Chosen name line (c ∷ cs) r

-- Where the buffer has a line and the literals are the names of the commands, with fuel above the
-- length of the line, the chain of `strcmp` ends, with the first command that has the line as its name,
-- or with none if no name is the line.
pub parse-Chosen :
    (fuel : ℕ) (m : Memory) (command : ℕ) (literal : Command → ℕ) (name : Command → List ℕ)
    (line : List ℕ) (cs : List Command)
    → StringAt m command line
    → ((c : Command) → StringAt m (literal c) (name c))
    → length line < fuel
    → (r : Option Command) × (parse fuel m command literal cs ≡ some r) × Chosen name line cs r
unfolding parse
parse-Chosen fuel m command literal name line [] typed names enough = (none, refl, nothing)
parse-Chosen fuel m command literal name line (c ∷ cs) typed names enough =
    let (d, e, iff) = strcmp_lem fuel m command (literal c) line (name c) typed (names c) enough in
    let (r, f, chosen) = parse-Chosen fuel m command literal name line cs typed names enough in
    elim (Bool-cases (d == 0)) [
      | inl same ↦ (some c, rw (e, same) refl, here c cs (sym (iff.0 (ground arith))))
      | inr other ↦
          (r, rw (e, other) f, there c cs r (λ z. absurd (ground (arith, iff.1 (sym z)))) chosen)
    ]
