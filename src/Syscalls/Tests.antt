-- ===== src/Syscalls/Tests.antt =====
-- A kernel with one open file.
use ab_os.Base.{
  [], ◌∷◌, ℕ, ◌+◌, ◌-◌, ◌^◌, ◌≤◌, ◌≡◌, ◌≢◌, ◌⊎◌, inl, refl, true, ◌&&◌, update, ltb, leb, ◌==◌,
  if◌then◌else◌, arith, some, min,
}
use ab_os.Base.Words.{load32}
use ab_os.Pmm.{minus_one}
use ab_os.Fs.{Inode, no_inode, i_number_of, size_of}
use ab_os.Fs.Tests.{mounted, empty_memory, looked_up, get_inode-empty_memory, no_inode_number}
use ab_os.Syscalls.{Kernel, OpenFile, no_file, enter_inode}
use ab_os.Heap.{Heap}
use ab_os.Heap.Tests.{one, one-IsNode}
use ab_os.Heap.Chain.{IsNode-own}
use ab_os.Syscalls.Allocate.{sys_malloc, sys_free, IsHeap, whole, sys_free-sys_malloc}
use ab_os.Syscalls.Write.{sys_write, store_bytes}
use ab_os.Syscalls.Close.{sys_close, sys_close_twice}
use ab_os.Syscalls.Open.{sys_open, sys_open_missing}
use ab_os.Syscalls.Read.{sys_read, fetch_bytes, IsReadable, IsInside, sys_read_lem, refused}
use ab_os.Syscalls.Table.{Distinct, enter_inode-Distinct}

-- Number 9, of 200 bytes.
abbrev pub nine : Inode
nine = update (update no_inode 0 9) 5 200

abbrev pub opened : OpenFile
opened = record {
  inode_index = 0;
  lseek = 150;
  address = 0x40_0000;
  max_count = 1;
  flags = 1;
  pages_allocated = 1;
}

abbrev pub running : Kernel
running = record {
  fs = mounted;
  heap = record {
    vmm = record {
      memory = λ a. 0;
      pmm = record { memory_map = λ a. 0; max_blocks = 64; used_blocks = 0 };
      directory = 0x5000;
      cr3 = 0x5000;
      paging = true;
    };
    malloc_head = 0;
    malloc_virt_address = 0x30_0000;
    malloc_phys_address = 0;
    total_malloc_pages = 0;
    heap_end = 0;
  };
  open_files = λ i. if i == 0 then opened else no_file;
  open_inodes = λ i. if i == 0 then nine else no_inode;
  current_open_files = 1;
  current_open_inodes = 1;
  file_virtual_address = 0x40_1000;
}

nine_size : size_of nine ≡ 200
unfolding load32
nine_size = refl

pub nine_number : i_number_of nine ≢ 0
unfolding load32
nine_number = omega arith

running-IsReadable : IsReadable 0 100 running
running-IsReadable = record {
  handle = omega arith;
  loaded = omega arith;
  counted = omega arith;
  mode = refl;
  inside = omega (arith, nine_size);
  small = omega (arith, nine_size);
  room = omega arith;
}

sys_read_lem_example :
    let n = min 100 (size_of nine - 150) in
    let r = sys_read 0 0x2000 100 running in
    (r.0 ≡ n)
    × ((r.1.open_files 0).lseek ≡ 150 + n)
    × ((r.1.open_files 0).lseek ≤ size_of nine)
    × ((a : ℕ)
        → r.1.fs.memory a ≡ (
            if leb 0x2000 a && ltb a (0x2000 + n)
            then mounted.memory (0x40_0258 + (a - 0x2000))
            else mounted.memory a))
sys_read_lem_example = sys_read_lem 0 0x2000 100 running running-IsReadable (inl (omega arith))

abbrev rdwr : Kernel
rdwr = let k = running in let f = opened in record k { open_files = λ i. record f { flags = 3 } }

rdwr-IsInside : IsInside 0 20 rdwr
rdwr-IsInside = record {
  handle = omega arith;
  loaded = omega arith;
  counted = omega arith;
  inside = omega (arith, nine_size);
  small = omega (arith, nine_size);
  room = omega arith;
}

refused_example :
    (◌≡◌ {A = ℕ} 3 1)
      × (sys_read 0 0x2000 20 rdwr ≡ (20, fetch_bytes 0 0x2000 20 rdwr))
      × (sys_write 0 9 0 0x2000 20 rdwr ≡ some (20, store_bytes 0 9 0 0x2000 20 rdwr))
    ⊎ (◌≢◌ {A = ℕ} 3 1)
      × ((sys_read 0 0x2000 20 rdwr ≡ (minus_one, rdwr))
          ⊎ (sys_write 0 9 0 0x2000 20 rdwr ≡ some (minus_one, rdwr)))
refused_example = refused 0 9 0 0x2000 20 rdwr rdwr-IsInside (omega arith)

sys_close_twice_example :
    let (result, k') = sys_close 0 running in
    (result ≡ 0)
    × (k'.open_files 0 ≡ no_file)
    × ((i : ℕ) → i ≢ 0 → k'.open_files i ≡ running.open_files i)
    × (sys_close 0 k' ≡ (minus_one, k'))
sys_close_twice_example = sys_close_twice 0 running (omega arith) nine_number refl

abbrev none_open : Kernel
none_open = let k = running in record k { open_inodes = λ i. no_inode }

no_inode-Distinct : Distinct (λ i. no_inode)
unfolding load32
no_inode-Distinct i j l l' e ne = absurd (ne refl)

enter_inode-Distinct_example :
    let r = enter_inode nine none_open in
    Distinct r.1.open_inodes × (i_number_of (r.1.open_inodes r.0) ≡ i_number_of nine)
enter_inode-Distinct_example = enter_inode-Distinct nine none_open nine_number no_inode-Distinct

abbrev missing_path : Kernel
missing_path = let k = running in record k { fs = empty_memory }

sys_open_missing_example :
    sys_open (λ n. 2 ^ n) 0 0x6000 0x7000 9 100 0 missing_path
    ≡ some (minus_one, record (missing_path) { fs = looked_up })
sys_open_missing_example =
    sys_open_missing (λ n. 2 ^ n) 0 0x6000 0x7000 9 100 0 missing_path no_inode looked_up
      get_inode-empty_memory no_inode_number

-- A heap of one free block.
abbrev heaped : Kernel
heaped = let k = running in record k { heap = one }

heaped-IsHeap : IsHeap heaped.heap 0x1000 (whole 4076 ∷ [])
heaped-IsHeap = record {
  chain = (IsNode-own one-IsNode, tt);
  first = refl;
  some_block = omega arith;
  not_null = omega arith;
  inside = omega arith;
}

sys_free-sys_malloc_example :
    (k1 : Kernel) × (k2 : Kernel) × (sys_malloc 9 100 heaped ≡ some (0x1014, k1))
    × (sys_free 10 0x1014 k1 ≡ some k2)
    × IsHeap k2.heap 0x1000 (whole 4076 ∷ [])
sys_free-sys_malloc_example =
    sys_free-sys_malloc 9 100 0x1000 4076 heaped heaped-IsHeap (omega arith) (omega arith)
      (omega arith)
