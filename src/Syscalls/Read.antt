-- ===== src/Syscalls/Read.antt =====
-- `sys_read`, and who may read and write.
use native.Mathlib.Decide.{ℕ_discrete}
use ab_os.Base.{
  ℕ, ◌+◌, ◌-◌, ◌*◌, ◌%◌, ◌≤◌, ◌<◌, ◌≡◌, ◌≢◌, ◌⊎◌, inl, inr, refl, ap, ◌∙◌, true, false, Bool-cases,
  ==_ne, ==_refl, ◌&&◌, ◌||◌, ltb, leb, ◌==◌, if◌then◌else◌, u32_mod, arith, some, min,
}
use ab_os.Pmm.{minus_one}
use ab_os.Vmm.{page_size}
use ab_os.Str.Copy.{memcpy_lem}
use ab_os.Fs.{size_of}
use ab_os.Syscalls.{
  Kernel, has_flag, is_negative, o_creat, o_rdonly, o_wronly, o_rdwr, o_append, put,
}
use ab_os.Str.{memcpy}
use ab_os.Syscalls.Write.{sys_write, store_bytes, write_refused, write_run}

-- The copy out of a file, and the offset behind it.
pub fetch_bytes : ℕ → ℕ → ℕ → Kernel → Kernel
fetch_bytes file_descriptor buffer n k =
    let f = k.open_files file_descriptor in
    let s = k.fs in
    record k {
      fs = record s { memory = memcpy buffer ((f.address + 4 * f.lseek) % u32_mod) n s.memory };
      open_files = put k.open_files file_descriptor (record f { lseek = (f.lseek + n) % u32_mod });
    }

pub sys_read : ℕ → ℕ → ℕ → Kernel → ℕ × Kernel
unfolding fetch_bytes
sys_read file_descriptor buffer length k =
    let f = k.open_files file_descriptor in
    let size = size_of (k.open_inodes f.inode_index) in
    let left = (size + u32_mod - f.lseek) % u32_mod in
    if is_negative file_descriptor
    then (file_descriptor, k)
    else if f.address == 0 || f.max_count == 0
    then (minus_one, k)
    else if has_flag f.flags o_wronly
    then (minus_one, k)
    else if ltb size ((f.lseek + length) % u32_mod)
    then (left, fetch_bytes file_descriptor buffer left k)
    else (length, fetch_bytes file_descriptor buffer length k)

-- A file that is open for `sys_read`, with its offset inside the file.
pub record IsReadable (fd length : ℕ) (k : Kernel) : Type 0 where
  pub handle : fd < 0x8000_0000
  pub loaded : (k.open_files fd).address ≢ 0
  pub counted : (k.open_files fd).max_count ≢ 0
  pub mode : has_flag (k.open_files fd).flags o_wronly ≡ false
  pub inside : (k.open_files fd).lseek ≤ size_of (k.open_inodes (k.open_files fd).inode_index)
  pub small : size_of (k.open_inodes (k.open_files fd).inode_index) < u32_mod
  pub room : (k.open_files fd).lseek + length < u32_mod

-- `sys_read` of such a file is a copy of as many bytes as it has left, but at most `length`.
sys_read_fetch :
    (fd buffer length : ℕ) (k : Kernel)
    → IsReadable fd length k
    → let f = k.open_files fd in
      let n = min length (size_of (k.open_inodes f.inode_index) - f.lseek) in
      sys_read fd buffer length k ≡ (n, fetch_bytes fd buffer n k)
unfolding sys_read
sys_read_fetch fd buffer length k h =
    let f = k.open_files fd in
    let size = size_of (k.open_inodes f.inode_index) in
    let pair : ℕ → ℕ × Kernel = λ t. (t, fetch_bytes fd buffer t k) in
    let e : is_negative fd ≡ false = ground (arith, h.handle) in
    rw (e, ==_ne f.address 0 h.loaded, ==_ne f.max_count 0 h.counted, h.mode)
      (elim (Bool-cases (ltb size ((f.lseek + length) % u32_mod))) [
        | inl beyond ↦ rw beyond (ap pair (ground (arith, h.small, h.inside, h.room)))
        | inr within ↦ rw within (ap pair (ground (arith, h.small, h.inside, h.room)))
      ])

-- `sys_read` of a descriptor that is not negative, whose file is open (a count and an address that
-- are not 0) in a mode without the bits of O_WRONLY (so not in O_RDWR), whose offset is inside the
-- file, whose size is below 2 ^ 32, and where the offset and `length` together are below 2 ^ 32,
-- returns the number of bytes that are left, but at most `length`; the offset moves by as many and
-- stays inside the file; they are copied from the file's pages, four times the offset behind its
-- address, and no other byte of memory changes, if the buffer does not start inside them.
pub sys_read_lem :
    (fd buffer length : ℕ) (k : Kernel)
    → IsReadable fd length k
    → let f = k.open_files fd in
      let size = size_of (k.open_inodes f.inode_index) in
      let n = min length (size - f.lseek) in
      let source = (f.address + 4 * f.lseek) % u32_mod in
      let r = sys_read fd buffer length k in
      (buffer ≤ source) ⊎ (source + n ≤ buffer)
      → (r.0 ≡ n)
        × ((r.1.open_files fd).lseek ≡ f.lseek + n)
        × ((r.1.open_files fd).lseek ≤ size)
        × ((a : ℕ)
            → r.1.fs.memory a ≡ (
                if leb buffer a && ltb a (buffer + n)
                then k.fs.memory (source + (a - buffer))
                else k.fs.memory a))
unfolding fetch_bytes
sys_read_lem fd buffer length k h apart =
    let f = k.open_files fd in
    let n = min length (size_of (k.open_inodes f.inode_index) - f.lseek) in
    let source = (f.address + 4 * f.lseek) % u32_mod in
    rw (sys_read_fetch fd buffer length k h, ==_refl fd)
      (
        refl,
        omega (arith, h.inside, h.small),
        omega (arith, h.inside, h.small),
        (λ a. memcpy_lem buffer source n k.fs.memory apart a),
      )

read_refused :
    (fd buffer length : ℕ) (k : Kernel)
    → fd < 0x8000_0000
    → has_flag (k.open_files fd).flags o_wronly ≡ true
    → sys_read fd buffer length k ≡ (minus_one, k)
unfolding sys_read
read_refused fd buffer length k l mode =
    let f = k.open_files fd in
    let e : is_negative fd ≡ false = ground (arith, l) in
    elim (Bool-cases (f.address == 0 || f.max_count == 0)) [
      | inl closed ↦ rw (e, closed) refl
      | inr opened ↦ rw (e, opened, mode) refl
    ]

-- A file that is open and in whose pages `length` bytes from its offset on are bytes of the file.
pub record IsInside (fd length : ℕ) (k : Kernel) : Type 0 where
  pub handle : fd < 0x8000_0000
  pub loaded : (k.open_files fd).address ≢ 0
  pub counted : (k.open_files fd).max_count ≢ 0
  pub inside :
      (k.open_files fd).lseek + length ≤ size_of (k.open_inodes (k.open_files fd).inode_index)
  pub small : size_of (k.open_inodes (k.open_files fd).inode_index) < u32_mod
  pub room : (k.open_files fd).lseek + length ≤ (k.open_files fd).pages_allocated * page_size

read_allowed :
    (fd buffer length : ℕ) (k : Kernel)
    → IsInside fd length k
    → has_flag (k.open_files fd).flags o_wronly ≡ false
    → sys_read fd buffer length k ≡ (length, fetch_bytes fd buffer length k)
read_allowed fd buffer length k h mode =
    let r : IsReadable fd length k = record {
      handle = h.handle;
      loaded = h.loaded;
      counted = h.counted;
      mode = mode;
      inside = omega (arith, h.inside);
      small = h.small;
      room = omega (arith, h.inside, h.small);
    } in
    let f = k.open_files fd in
    let e : min length (size_of (k.open_inodes f.inode_index) - f.lseek) ≡ length =
      omega (arith, h.inside) in
    sys_read_fetch fd buffer length k r ∙ ap (λ (n : ℕ). (n, fetch_bytes fd buffer n k)) e

refused_mode :
    (offset fuel fd buffer length : ℕ) (k : Kernel)
    → fd < 0x8000_0000
    → (k.open_files fd).flags ≤ o_append
    → (k.open_files fd).flags ≢ o_rdonly
    → (sys_read fd buffer length k ≡ (minus_one, k))
      ⊎ (sys_write offset fuel fd buffer length k ≡ some (minus_one, k))
refused_mode offset fuel fd buffer length k l mode other =
    let flags = (k.open_files fd).flags in
    let unread = λ (e : has_flag flags o_wronly ≡ true). read_refused fd buffer length k l e in
    let unwritten = λ (e : (has_flag flags o_wronly || has_flag flags o_rdwr) ≡ false).
      write_refused offset fuel fd buffer length k l e in
    elim (ℕ_discrete flags o_wronly) [
      | yes e ↦ inl (unread (rw e refl))
      | no a ↦ elim (ℕ_discrete flags o_rdwr) [
        | yes e ↦ inl (unread (rw e refl))
        | no b ↦ elim (ℕ_discrete flags o_creat) [
          | yes e ↦ inr (unwritten (rw e refl))
          | no c ↦ let e : flags ≡ o_append = omega arith in inr (unwritten (rw e refl))
        ]
      ]
    ]

-- The constants of `flags_t` are no separate bits: of its five modes just O_RDONLY lets a file be
-- both read and written. For a descriptor that is not negative, whose file is open in one of the
-- five modes and has `length` bytes from its offset on, in its pages too, and whose size is below 2
-- ^ 32: in O_RDONLY both `sys_read` and `sys_write` return `length`, after the copy out of the
-- file, and after the copy into it and the writes to the disk; in each other mode `sys_read` or
-- `sys_write` fails with -1 and changes nothing.
pub refused :
    (offset fuel fd buffer length : ℕ) (k : Kernel)
    → IsInside fd length k
    → (k.open_files fd).flags ≤ o_append
    → ((k.open_files fd).flags ≡ o_rdonly)
        × (sys_read fd buffer length k ≡ (length, fetch_bytes fd buffer length k))
        × (sys_write offset fuel fd buffer length k
            ≡ some (length, store_bytes offset fuel fd buffer length k))
      ⊎ ((k.open_files fd).flags ≢ o_rdonly)
        × ((sys_read fd buffer length k ≡ (minus_one, k))
            ⊎ (sys_write offset fuel fd buffer length k ≡ some (minus_one, k)))
refused offset fuel fd buffer length k h l = elim (ℕ_discrete (k.open_files fd).flags o_rdonly) [
  | yes e ↦ inl (
    e,
    read_allowed fd buffer length k h (rw e refl),
    write_run offset fuel fd buffer length k h.handle (rw e refl) (rw e refl) h.room
        (omega (arith, h.inside, h.small)),
  )
  | no ne ↦ inr (ne, refused_mode offset fuel fd buffer length k h.handle l ne)
]
