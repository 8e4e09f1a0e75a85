-- ===== src/Str/Tests.antt =====
-- Runs on the strings "ab/a" at 10 and "ab" at 20.
use ab_os.Base.{ℕ, refl, List, [], ◌∷◌, arith, Memory, update}
use ab_os.Str.Scan.{StringAt}

abbrev path : List ℕ
path = b'a' ∷ b'b' ∷ b'/' ∷ b'a' ∷ []

abbrev word : List ℕ
word = b'a' ∷ b'b' ∷ []

abbrev bytes : Memory
bytes =
    update
      (update (update (update (update (update (λ a. 0) 10 b'a') 11 b'b') 12 b'/') 13 b'a') 20 b'a')
      21 b'b'

path-StringAt : StringAt bytes 10 path
path-StringAt = (
  refl,
  omega arith,
  omega arith,
  (
    refl,
    omega arith,
    omega arith,
    (refl, omega arith, omega arith, (refl, omega arith, omega arith, refl)),
  ),
)

word-StringAt : StringAt bytes 20 word
word-StringAt = (refl, omega arith, omega arith, (refl, omega arith, omega arith, refl))
