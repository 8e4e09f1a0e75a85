-- ===== src/Str/Scan.antt =====
-- The functions that walk a string: `strlen`, `strcmp` and `strrchr` on terminated strings.
use native.Mathlib.Decide.{ℕ_discrete}
use ab_os.Base.{
  ℕ, zero, suc, ◌+◌, ◌-◌, ◌%◌, ◌≤◌, ◌<◌, ◌≡◌, ◌≢◌, ◌↔◌, refl, sym, ap, ◌∙◌, some, List, [], ◌∷◌,
  Memory, arith, ◌==◌, ==_ne, if◌then◌else◌, u32_mod, length, ==_iff,
}
use ab_os.Str.{strcmp, strlen_loop, strlen, strrchr_loop, strrchr}

-- The characters from `a` on, up to a terminator; a character is a byte that is not 0.
abbrev pub StringAt : Memory → ℕ → List ℕ → Type 0
StringAt m a [] = m a ≡ 0
StringAt m a (c ∷ cs) = (m a ≡ c) × (c ≢ 0) × (c < 256) × StringAt m (a + 1) cs

strlen_loop_lem :
    (fuel : ℕ) (m : Memory) (a n : ℕ) (cs : List ℕ)
    → StringAt m a cs
    → length cs < fuel
    → strlen_loop fuel m a n ≡ some (n + length cs)
unfolding strlen_loop
strlen_loop_lem zero m a n cs h enough = absurd (omega arith)
strlen_loop_lem (suc fuel) m a n [] h enough = ground arith
strlen_loop_lem (suc fuel) m a n (c ∷ cs) h enough =
    ground (arith, strlen_loop_lem fuel m (a + 1) (n + 1) cs)

-- `strlen` of a terminated string is its length.
pub strlen_lem :
    (fuel : ℕ) (m : Memory) (a : ℕ) (cs : List ℕ)
    → StringAt m a cs
    → length cs < fuel
    → strlen fuel m a ≡ some (length cs)
unfolding strlen
strlen_lem fuel m a cs h enough = strlen_loop_lem fuel m a 0 cs h enough ∙ ground arith

-- The loop of `strcmp` stops at characters that differ, or at the terminators.
strcmp_stop :
    (fuel : ℕ) (m : Memory) (a b : ℕ)
    → m a < 256
    → m b < 256
    → (m a ≡ m b → m a ≡ 0)
    → (r : ℕ) × (strcmp (suc fuel) m a b ≡ some r) × ((r ≡ 0) ↔ (m a ≡ m b))
unfolding strcmp
strcmp_stop fuel m a b ha hb stop =
    ((m a + u32_mod - m b) % u32_mod, ground (arith, stop), ((λ e. omega arith), λ e. omega arith))

-- The loop of `strcmp` goes on past equal characters that are not the terminator.
strcmp_next :
    (fuel : ℕ) (m : Memory) (a b : ℕ)
    → m a ≢ 0
    → m a ≡ m b
    → strcmp (suc fuel) m a b ≡ strcmp fuel m (a + 1) (b + 1)
unfolding strcmp
strcmp_next fuel m a b ne e = rw (==_ne (m a) 0 ne, (==_iff (m a) (m b)).1 e) refl

-- `strcmp` of two terminated strings, with fuel above the length of the first, returns a result,
-- which is 0 exactly when they are equal.
pub strcmp_lem :
    (fuel : ℕ) (m : Memory) (a b : ℕ) (xs ys : List ℕ)
    → StringAt m a xs
    → StringAt m b ys
    → length xs < fuel
    → (r : ℕ) × (strcmp fuel m a b ≡ some r) × ((r ≡ 0) ↔ (xs ≡ ys))
strcmp_lem zero m a b xs ys h k enough = absurd (omega arith)
strcmp_lem (suc fuel) m a b [] [] h k enough =
    let (r, e, iff) = strcmp_stop fuel m a b (omega arith) (omega arith) (λ e. h) in
    (r, e, ((λ z. refl), λ z. iff.1 (h ∙ sym k)))
strcmp_lem (suc fuel) m a b [] (y ∷ ys) h k enough =
    let (r, e, iff) = strcmp_stop fuel m a b (omega arith) (omega arith) (λ e. h) in
    (r, e, ((λ z. absurd (k.1 (sym k.0 ∙ sym (iff.0 z) ∙ h))), λ z. cc))
strcmp_lem (suc fuel) m a b (x ∷ xs) [] h k enough =
    let (r, e, iff) = strcmp_stop fuel m a b (omega arith) (omega arith) (λ e. e ∙ k) in
    (r, e, ((λ z. absurd (h.1 (sym h.0 ∙ iff.0 z ∙ k))), λ z. cc))
strcmp_lem (suc fuel) m a b (x ∷ xs) (y ∷ ys) h k enough = elim (ℕ_discrete x y) [
  | yes same ↦
      let (r, e, iff) = strcmp_lem fuel m (a + 1) (b + 1) xs ys h.3 k.3 (omega arith) in
      (
        r,
        strcmp_next fuel m a b (λ z. h.1 (sym h.0 ∙ z)) (h.0 ∙ same ∙ sym k.0) ∙ e,
        ((λ z. cc (iff.0 z)), λ z. iff.1 (cc)),
      )
  | no differ ↦
      let (r, e, iff) =
        strcmp_stop fuel m a b (omega arith) (omega arith)
          (λ e. absurd (differ (sym h.0 ∙ e ∙ k.0))) in
      (r, e, ((λ z. absurd (differ (sym h.0 ∙ iff.0 z ∙ k.0))), λ z. absurd (differ (cc))))
]

-- The last place of `c` in a string that stands at `a`, or `p` where there is none.
pub last_place : ℕ → ℕ → ℕ → List ℕ → ℕ
last_place c p a [] = p
last_place c p a (d ∷ ds) = last_place c (if d == c then a else p) (a + 1) ds

strrchr_loop_lem :
    (fuel : ℕ) (m : Memory) (a c p : ℕ) (cs : List ℕ)
    → StringAt m a cs
    → length cs < fuel
    → strrchr_loop fuel m a c p ≡ some (last_place c p a cs)
unfolding strrchr_loop last_place
strrchr_loop_lem zero m a c p cs h enough = absurd (omega arith)
strrchr_loop_lem (suc fuel) m a c p [] h enough = ground arith
strrchr_loop_lem (suc fuel) m a c p (d ∷ ds) h enough =
    rw (==_ne (m a) 0 (omega (arith, h.1)), h.0)
      (strrchr_loop_lem fuel m (a + 1) c (if d == c then a else p) ds h.3 (omega arith))

-- What a search for the last `c` in [a, a + n) returns: its address, or `p` where there is none.
pub data LastOf (m : Memory) (c p a n r : ℕ) : Type 0 where
  hit : a ≤ r → r < a + n → m r ≡ c → ((q : ℕ) → r < q → q < a + n → m q ≢ c) → LastOf m c p a n r
  miss : r ≡ p → ((q : ℕ) → a ≤ q → q < a + n → m q ≢ c) → LastOf m c p a n r

last_place-LastOf :
    (c p a : ℕ) (m : Memory) (cs : List ℕ)
    → StringAt m a cs
    → LastOf m c p a (length cs) (last_place c p a cs)
unfolding last_place
last_place-LastOf c p a m [] h = miss refl (λ q l l'. absurd (omega arith))
last_place-LastOf c p a m (d ∷ ds) h =
    elim (last_place-LastOf c (if d == c then a else p) (a + 1) m ds h.3) [
      | hit lo hi here rest ↦
          hit (omega arith) (omega arith) here (λ q l l'. rest q l (omega arith))
      | miss e rest ↦ elim (ℕ_discrete d c) [
        | yes same ↦
            let at : last_place c (if d == c then a else p) (a + 1) ds ≡ a = e ∙ ground (arith) in
            rw at (
              hit (omega arith) (omega arith) (h.0 ∙ same)
                (λ q l l'. rest q (omega arith) (omega arith)))
        | no differ ↦
            let at : last_place c (if d == c then a else p) (a + 1) ds ≡ p = e ∙ ground (arith) in
            miss at (λ q l l' z. elim (ℕ_discrete q a) [
              | yes i ↦ differ (sym h.0 ∙ ap m (sym i) ∙ z)
              | no i ↦ rest q (omega arith) (omega arith) z
            ])
      ]
    ]

-- `strrchr` of a character other than the terminator returns the address of its last place in a
-- terminated string, or the null pointer where it has none, with fuel above the length.
pub strrchr_lem :
    (fuel : ℕ) (m : Memory) (a c : ℕ) (cs : List ℕ)
    → StringAt m a cs
    → length cs < fuel
    → c ≢ 0
    → (r : ℕ) × (strrchr fuel m a c ≡ some r) × LastOf m c 0 a (length cs) r
unfolding strrchr
strrchr_lem fuel m a c cs h enough ne = (
  last_place c 0 a cs,
  rw (strrchr_loop_lem fuel m a c 0 cs h enough, ==_ne c 0 ne, strrchr) refl,
  last_place-LastOf c 0 a m cs h,
)

-- Asked for the terminator of a string, with fuel above its length, `strrchr` returns the start of
-- the string, not the terminator's place.
pub strrchr_terminator :
    (fuel : ℕ) (m : Memory) (a : ℕ) (cs : List ℕ)
    → StringAt m a cs
    → length cs < fuel
    → strrchr fuel m a 0 ≡ some a
unfolding strrchr
strrchr_terminator fuel m a cs h enough =
    rw (strrchr_loop_lem fuel m a 0 0 cs h enough, strrchr) refl
