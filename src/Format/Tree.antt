-- ===== src/Format/Tree.antt =====
-- What the formatter reads: the entries of a directory in the order that `readdir` gives them, with
-- the sizes that `stat` gives and the bytes of the files. `dots` is "." or "..".
use ab_os.Base.{ℕ, ◌+◌, Bool, true, false, ◌&&◌, ◌==◌, List, [], ◌∷◌, Memory}

mutual
  pub data TreeEntry : Type 0 where
    dots : TreeEntry
    regular : List ℕ → ℕ → Memory → TreeEntry
    directory : List ℕ → Entries → TreeEntry
    other : List ℕ → TreeEntry

  pub data Entries : Type 0 where
    last : Entries
    more : TreeEntry → Entries → Entries

unfoldable pub entry_count : Entries → ℕ
entry_count last = 0
entry_count (more e es) = 1 + entry_count es

-- `strncmp(name, prefix, n) == 0`, for the length `n` of the prefix.
unfoldable pub starts_with : List ℕ → List ℕ → Bool
starts_with [] name = true
starts_with (c ∷ cs) [] = false
starts_with (c ∷ cs) (d ∷ ds) = c == d && starts_with cs ds

-- "prekernel.bin"
unfoldable pub is_prekernel : List ℕ → Bool
unfolding starts_with
is_prekernel =
    starts_with (
      b'p' ∷ b'r' ∷ b'e' ∷ b'k' ∷ b'e' ∷ b'r' ∷ b'n' ∷ b'e' ∷ b'l' ∷ b'.' ∷ b'b' ∷ b'i' ∷ b'n' ∷ [])

unfoldable pub same_name : List ℕ → List ℕ → Bool
same_name [] [] = true
same_name [] (d ∷ ds) = false
same_name (c ∷ cs) [] = false
same_name (c ∷ cs) (d ∷ ds) = c == d && same_name cs ds

-- "kernel.bin" with its terminator.
unfoldable pub is_kernel : List ℕ → Bool
unfolding same_name
is_kernel = same_name (b'k' ∷ b'e' ∷ b'r' ∷ b'n' ∷ b'e' ∷ b'l' ∷ b'.' ∷ b'b' ∷ b'i' ∷ b'n' ∷ [])
