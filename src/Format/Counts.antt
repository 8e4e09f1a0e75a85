-- ===== src/Format/Counts.antt =====
-- `get_file_info` counts the blocks that `write_file_data` then takes.
use ab_os.Base.{ℕ, ◌+◌, ◌*◌, ◌%◌, ◌<◌, ◌≡◌, refl, Bool, true, not, ◌&&◌, ◌==◌, u32_mod, arith}
use ab_os.Fs.{bytes_to_blocks}
use ab_os.Format.Tree.{
  TreeEntry, Entries, dots, regular, directory, other, last, more, entry_count, is_kernel,
}
use ab_os.Format.{Formatter, info_total, info_loop, info_entry, get_file_info}

unfoldable mutual
  -- The entries but "." and "..".
  pub named_count : Entries → ℕ
  named_count last = 0
  named_count (more e es) = named e + named_count es

  named : TreeEntry → ℕ
  named dots = 0
  named (regular name size bytes) = 1
  named (directory name inner) = 1
  named (other name) = 1

unfoldable mutual
  -- The blocks of what a directory holds.
  pub inner_blocks : Entries → ℕ
  inner_blocks last = 0
  inner_blocks (more e es) = entry_blocks e + inner_blocks es

  pub entry_blocks : TreeEntry → ℕ
  entry_blocks dots = 0
  entry_blocks (regular name size bytes) = bytes_to_blocks size
  entry_blocks (directory name inner) =
      inner_blocks inner + bytes_to_blocks (entry_count inner * 64)
  entry_blocks (other name) = 0

-- The blocks of a directory with what it holds.
unfoldable pub tree_blocks : Entries → ℕ
tree_blocks es = inner_blocks es + bytes_to_blocks (entry_count es * 64)

unfoldable mutual
  -- Each directory inside has two entries that are "." or "..", and no file is "kernel.bin".
  pub listed_inside : Entries → Bool
  listed_inside last = true
  listed_inside (more e es) = listed_entry e && listed_inside es

  pub listed_entry : TreeEntry → Bool
  listed_entry dots = true
  listed_entry (regular name size bytes) = not (is_kernel name)
  listed_entry (directory name inner) =
      entry_count inner == 2 + named_count inner && listed_inside inner
  listed_entry (other name) = true

unfoldable pub listed : Entries → Bool
listed es = entry_count es == 2 + named_count es && listed_inside es

mutual
  unfolding info_loop named_count inner_blocks listed_inside info_total

  info_loop_lem :
      (es : Entries) (n : ℕ) (s : Formatter)
      → s.file_blocks < u32_mod
      → listed_inside es ≡ true
      → ((info_loop es n s).0 ≡ n + named_count es)
        × ((info_loop es n s).1.file_blocks ≡ (s.file_blocks + inner_blocks es) % u32_mod)
  info_loop_lem last n s l h = (omega arith, omega arith)
  info_loop_lem (more e es) n s l h =
      let r = info_entry e n s in
      let first = info_entry_lem e n s l (ground arith) in
      let rest = info_loop_lem es r.0 r.1 (omega (arith, first.1)) (ground arith) in
      (omega (arith, first.0, rest.0), omega (arith, first.1, rest.1))

  info_entry_lem :
      (e : TreeEntry) (n : ℕ) (s : Formatter)
      → s.file_blocks < u32_mod
      → listed_entry e ≡ true
      → ((info_entry e n s).0 ≡ n + named e)
        × ((info_entry e n s).1.file_blocks ≡ (s.file_blocks + entry_blocks e) % u32_mod)
  info_entry_lem dots n s l h = (omega arith, omega arith)
  info_entry_lem (regular name size bytes) n s l h = (refl, refl)
  info_entry_lem (directory name inner) n s l h =
      let s' = record s { num_files = (s.num_files + 1) % u32_mod } in
      let e : entry_count inner ≡ 2 + named_count inner = ground arith in
      let inside = info_loop_lem inner 2 s' l (ground arith) in
      (refl, rw (inside.0, e) (omega (arith, inside.1)))
  info_entry_lem (other name) n s l h = (refl, omega arith)

pub get_file_info_blocks :
    (es : Entries) (s : Formatter)
    → s.file_blocks < u32_mod
    → listed es ≡ true
    → (get_file_info es s).file_blocks ≡ (s.file_blocks + tree_blocks es) % u32_mod
unfolding get_file_info info_total tree_blocks listed
get_file_info_blocks es s l h =
    let e : entry_count es ≡ 2 + named_count es = ground arith in
    let inside = info_loop_lem es 2 s l (ground arith) in rw (inside.0, e) (omega (arith, inside.1))
