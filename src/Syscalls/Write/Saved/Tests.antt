-- ===== src/Syscalls/Write/Saved/Tests.antt =====
-- A write of 8 bytes inside a file.
use ab_os.Base.{ℕ, ◌≡◌, refl, inl, inr, some, arith}
use ab_os.Base.Words.{load32}
use ab_os.Fs.{size_of, direct_pointer, bytes_to_blocks-ceiling}
use ab_os.Fs.Transfer.{block_count, HasBlocks}
use ab_os.Syscalls.{Kernel}
use ab_os.Syscalls.Tests.{running, opened, nine}
use ab_os.Syscalls.Write.{sys_write}
use ab_os.Syscalls.Write.Saved.{resized, IsWritable, Stored, sys_write-Stored}

-- Open with O_WRONLY, at 150 of 200 bytes.
abbrev writing : Kernel
writing = let k = running in let f = opened in record k { open_files = λ i. record f { flags = 2 } }

nine-size : size_of (resized nine 158) ≡ 200
unfolding load32
nine-size = refl

nine-block_count : block_count (resized nine 158) ≡ 1
nine-block_count = omega (arith, nine-size, bytes_to_blocks-ceiling (size_of (resized nine 158)))

nine-pointer : (i : ℕ) → direct_pointer (resized nine 158) i ≡ 0
unfolding load32
nine-pointer i = ground arith

nine-HasBlocks : HasBlocks (resized nine 158)
nine-HasBlocks = record {
  few = omega (arith, nine-block_count);
  near = λ i l. omega (arith, nine-pointer i);
  distinct = λ i k l l'. absurd (omega (arith, nine-block_count));
}

writing-IsWritable : IsWritable 0 0 0x2000 8 writing
unfolding load32
writing-IsWritable = record {
  handle = omega arith;
  mode = refl;
  no_append = refl;
  room = omega arith;
  word = omega arith;
  blocks = nine-HasBlocks;
  inside = omega (arith, nine-block_count);
  target = omega arith;
  near = omega arith;
  source_apart = inr (omega arith);
  sector_apart = inl (omega arith);
}

sys_write-Stored_example :
    (k' : Kernel) × (sys_write 0 9 0 0x2000 8 writing ≡ some (8, k'))
    × Stored 0 0 0x2000 8 writing k'
sys_write-Stored_example = sys_write-Stored 0 9 0 0x2000 8 writing writing-IsWritable
