-- ===== src/Syscalls/Close.antt =====
-- `sys_close`.
use ab_os.Base.{
  ℕ, ◌+◌, ◌%◌, ◌<◌, ◌≡◌, ◌≢◌, refl, ap, true, false, ◌==◌, ==_ne, ==_refl, Bool-cases, inl, inr,
  arith, ◌*◌, ◌||◌, update, if◌then◌else◌, u32_mod, for_range,
}
use ab_os.Pmm.{minus_one}
use ab_os.Fs.{i_number_of, no_inode, size_of, max_count_of}
use ab_os.Syscalls.{Kernel, OpenFile, no_file, is_negative, put, blocks_for}
use ab_os.Vmm.{Vmm, get_page, free_page, unmap_page, page_size}

-- One round of the loop of `sys_close` frees a page.
pub release_page : ℕ → Vmm → Vmm
release_page address v = unmap_page address (free_page (get_page address v) v)

pub sys_close : ℕ → Kernel → ℕ × Kernel
unfolding release_page
sys_close file_descriptor k =
    let f = k.open_files file_descriptor in
    let inode = k.open_inodes f.inode_index in
    let h = k.heap in
    let count = (f.max_count + 255) % 256 in
    let released =
      for_range (blocks_for (size_of inode)) 0
        (λ i. release_page ((f.address + i * page_size) % u32_mod)) h.vmm in
    let lowered = update inode 62 ((max_count_of inode + 255) % 256) in
    if is_negative file_descriptor
    then (minus_one, k)
    else if i_number_of inode == 0 || f.max_count == 0
    then (minus_one, k)
    else if count == 0
    then (
      0,
      record k {
        heap = record h { vmm = released };
        open_inodes = put k.open_inodes f.inode_index no_inode;
        open_files = put k.open_files file_descriptor no_file;
      },
    )
    else (
      0,
      record k {
        open_inodes = put k.open_inodes f.inode_index lowered;
        open_files = put k.open_files file_descriptor (record f { max_count = count });
      },
    )

closed :
    (fd : ℕ) (k : Kernel)
    → fd < 0x8000_0000
    → (k.open_files fd).max_count ≡ 0
    → sys_close fd k ≡ (minus_one, k)
unfolding sys_close
closed fd k l none_left =
    let e : is_negative fd ≡ false = ground (arith, l) in
    let f = k.open_files fd in
    let c : (f.max_count == 0) ≡ true = ground (arith, none_left) in
    elim (Bool-cases (i_number_of (k.open_inodes f.inode_index) == 0)) [
      | inl free ↦ rw (e, free) refl
      | inr used ↦ rw (e, used, c) refl
    ]

-- The last `sys_close` of a descriptor returns 0 and frees its cell, and no other cell of the table of
-- files; one more `sys_close` of it fails with -1 and changes nothing.
pub sys_close_twice :
    (fd : ℕ) (k : Kernel)
    → fd < 0x8000_0000
    → i_number_of (k.open_inodes (k.open_files fd).inode_index) ≢ 0
    → (k.open_files fd).max_count ≡ 1
    → let (result, k') = sys_close fd k in
      (result ≡ 0)
      × (k'.open_files fd ≡ no_file)
      × ((i : ℕ) → i ≢ fd → k'.open_files i ≡ k.open_files i)
      × (sys_close fd k' ≡ (minus_one, k'))
unfolding sys_close
sys_close_twice fd k l named once =
    let f = k.open_files fd in
    let e : is_negative fd ≡ false = ground (arith, l) in
    let g = ==_ne (i_number_of (k.open_inodes f.inode_index)) 0 named in
    let c : (f.max_count == 0) ≡ false = ground (arith, once) in
    let d : ((f.max_count + 255) % 256 == 0) ≡ true = ground (arith, once) in
    let cell : (sys_close fd k).1.open_files fd ≡ no_file = rw (e, g, c, d, ==_refl fd) refl in
    (
      rw (e, g, c, d) refl,
      cell,
      (λ i other. rw (e, g, c, d, ==_ne i fd other) refl),
      closed fd (sys_close fd k).1 l (ap (λ (o : OpenFile). o.max_count) cell),
    )
