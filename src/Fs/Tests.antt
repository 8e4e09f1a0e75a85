-- ===== src/Fs/Tests.antt =====
-- A path, and an inode on a disk that is otherwise all ones.
use ab_os.Base.{
  ℕ, suc, ◌+◌, ◌-◌, ◌*◌, ◌/◌, ◌^◌, ◌<◌, ◌≡◌, refl, ap, ◌∙◌, Bool, false, ◌==◌, ◌&&◌, Memory, update,
  Option, none, some, [], ◌∷◌, ltb, leb, if◌then◌else◌, arith,
}
use ab_os.Base.Words.{load32}
use ab_os.Str.{memset}
use ab_os.Str.Copy.{memset_lem}
use ab_os.Str.Scan.{StringAt}
use ab_os.Fs.{
  Fs, Inode, no_inode, update_inode, get_inode, path_loop, lookup, get_inode_in_dir, block_loop,
  bytes_to_blocks, bytes_to_blocks-ceiling, i_number_of, size_of,
}
use ab_os.Fs.Layout.{superblock_words}
use ab_os.Fs.Mount.{IsWords}
use ab_os.Fs.Disk.{update_inode_lem}

-- "/a"
abbrev path : Memory
path = update (update (λ a. 0) 100 b'/') 101 b'a'

path-StringAt : StringAt path 100 (b'/' ∷ b'a' ∷ [])
path-StringAt = (refl, omega arith, omega arith, (refl, omega arith, omega arith, refl))

-- Number 9, of size 7.
abbrev nine : Inode
nine = update (update (λ a. 0) 0 9) 5 7

abbrev pub mounted : Fs
mounted = record {
  disk = λ a. 1;
  memory = λ a. 2;
  block_buffer = 0x1000;
  sector_buffer = 0x8000;
  str_buffer = 0x9000;
  superblock = record {
    num_inodes = 8;
    num_inodes_bitmap = 1;
    num_data_bitmap = 1;
    num_inodes_per_block = 64;
    num_inodes_per_sector = 8;
    num_inode_blocks = 0;
    first_inode_bitmap = 0;
    first_inode_bitmap_block = 2;
    first_data_bitmap_block = 3;
    first_data_bitmap = 0;
    first_inode_block = 4;
    first_data_block = 4;
    inode_size = 64;
    num_datablocks = 20;
    max_file_size = 0xFFFFFFFF;
    root_i_number = 0;
    first_free_inode_bit = 8;
    first_free_data_bit = 20;
    device_number = 1;
  };
  current_dir_inode = no_inode;
  root_inode = no_inode;
}

nine_place : mounted.first_inode_block * 8 + load32 nine 0 / 8 < 2 ^ 28
unfolding load32
nine_place = omega arith

update_inode_lem_example :
    let place = 4 * 4096 + 64 * load32 nine 0 in
    (update_inode nine mounted).disk 16965
    ≡ (if leb place 16965 && ltb 16965 (place + 64) then nine (16965 - place) else 1)
update_inode_lem_example = update_inode_lem nine mounted 16965 nine_place

-- Memory of zeros, so every path is empty, and the current directory is too.
abbrev pub empty_memory : Fs
empty_memory = let s = mounted in record s { memory = λ a. 0 }

abbrev pub looked_up : Fs
looked_up = let s = mounted in record s { memory = update (memset 0x9000 0 60 (λ a. 0)) 0x9000 0 }

pub no_inode_number : i_number_of no_inode ≡ 0
unfolding load32
no_inode_number = refl

path_loop_empty :
    (fuel name : ℕ) (s : Fs)
    → s.memory name ≡ 0
    → path_loop (suc fuel) name s.current_dir_inode 0 s ≡ lookup fuel s.current_dir_inode 0 s
unfolding path_loop
path_loop_empty fuel name s e = rw e refl

lookup_empty :
    (fuel : ℕ) (dir : Inode) (s : Fs)
    → bytes_to_blocks (size_of dir) ≡ 0
    → lookup fuel dir 0 s
      ≡ some (no_inode, record s { memory = update s.memory (s.str_buffer + 0) 0 })
unfolding lookup get_inode_in_dir block_loop
lookup_empty fuel dir s z = rw z refl

get_inode_empty :
    (fuel name : ℕ) (s : Fs)
    → memset s.str_buffer 0 60 s.memory name ≡ 0
    → bytes_to_blocks (size_of s.current_dir_inode) ≡ 0
    → get_inode (suc fuel) name s
      ≡ some (
        no_inode,
        record s { memory = update (memset s.str_buffer 0 60 s.memory) (s.str_buffer + 0) 0 },
      )
unfolding get_inode load32
get_inode_empty fuel name s e z =
    let cleared = record s { memory = memset s.str_buffer 0 60 s.memory } in
    let finish : Option (Inode × Fs) → Option (Inode × Fs) = λ o. elim o [
      | none ↦ none
      | some (inode, s') ↦ some ((if i_number_of inode == 0 then no_inode else inode), s')
    ] in
    let relative : (cleared.memory name == b'/') ≡ false = ground (arith, e) in
    ap
      (λ (b : Bool). finish (
        path_loop (suc fuel) (if b then name + 1 else name)
          (if b then s.root_inode else s.current_dir_inode) 0 cleared))
      relative
    ∙ ap finish
        (path_loop_empty fuel name cleared e ∙ lookup_empty fuel s.current_dir_inode cleared z)

pub get_inode-empty_memory : get_inode 9 100 empty_memory ≡ some (no_inode, looked_up)
unfolding load32
get_inode-empty_memory =
    get_inode_empty 8 100 empty_memory (memset_lem 0x9000 0 60 (λ a. 0) 100)
      (omega (arith, bytes_to_blocks-ceiling 0))

mounted-IsWords : IsWords mounted.superblock
unfolding superblock_words
mounted-IsWords = (
  omega arith,
  (
    omega arith,
    (
      omega arith,
      (
        omega arith,
        (
          omega arith,
          (
            omega arith,
            (
              omega arith,
              (
                omega arith,
                (
                  omega arith,
                  (
                    omega arith,
                    (
                      omega arith,
                      (
                        omega arith,
                        (
                          omega arith,
                          (
                            omega arith,
                            (
                              omega arith,
                              (omega arith, (omega arith, (omega arith, (omega arith, refl)))),
                            ),
                          ),
                        ),
                      ),
                    ),
                  ),
                ),
              ),
            ),
          ),
        ),
      ),
    ),
  ),
)
