-- ===== src/Main.antt =====
-- `main` of kernel/kernel.c up to its call of the shell, without what it prints. The words that the
-- prekernel leaves are read from the memory of the heap, and the superblock from that of the file
-- system. A table that `malloc` gives is a function of an index, so only its first cell is set here.
pub mod Handover
use ab_os.Base.{ℕ, ◌*◌, Option, some, ◌>>=◌}
use ab_os.Base.Words.{load32}
use ab_os.Vmm.{Vmm}
use ab_os.Heap.Init.{init_malloc}
use ab_os.Fs.{no_inode}
use ab_os.Fs.Mount.{mount}
use ab_os.Interrupts.Idt.{Table, Handlers, install_handlers}
use ab_os.Interrupts.Pic.{Log, pic_disable, pic_remap, irq_clear_mask, set_pit}
use ab_os.Syscalls.{Kernel, no_file, put}
use ab_os.Syscalls.Dispatch.{Registers}
use ab_os.User.{malloc}

pub record Machine : Type 0 where
  pub kernel : Kernel
  pub table : Table
  pub outs : Log

-- `directory`, `max_blocks` and `used_blocks`, where the prekernel left them.
unfoldable pub take_over : Vmm → Vmm
take_over v =
    let p = v.pmm in
    record v {
      directory = load32 v.memory 0x1800;
      pmm = record p { max_blocks = load32 v.memory 0x1808; used_blocks = load32 v.memory 0x1804 };
    }

-- The controllers and the timer. `inb` gives what a port reads at each of the three times.
pub start_interrupts : (ℕ → ℕ → ℕ) → Log → Log
start_interrupts inb log =
    set_pit 0 2 11931
      (irq_clear_mask (inb 2) 1 (irq_clear_mask (inb 1) 0 (pic_remap (inb 0) 0x20 log)))

-- `sizeof(open_file_t) * 256` and `sizeof(inode_t) * 256`.
abbrev file_table_bytes : ℕ
file_table_bytes = 15 * 256

abbrev inode_table_bytes : ℕ
inode_table_bytes = 64 * 256

-- `root`, `idt` and `stubs` are addresses that the linker gives; `register` is where the compiler takes
-- the result of `malloc` from. The result holds the pointers to the two tables.
module _ (shift : ℕ → ℕ) (load_offset save_offset temp entry fuel : ℕ) (printed : Registers → ℕ)
    (left user_stack : ℕ) (r : Registers) (register : Registers → ℕ) (root idt : ℕ) (stubs : ℕ → ℕ)
    (handlers : Handlers) (inb : ℕ → ℕ → ℕ) where
  pub main : Machine → Option ((ℕ × ℕ) × Machine)
  unfolding take_over start_interrupts
  main m = do
    let k = m.kernel
    let h = k.heap
    heap ← init_malloc fuel (record h { vmm = take_over h.vmm })
    let started = record k { fs = mount root k.fs; heap = heap }
    (files, k1) ←
        malloc shift load_offset save_offset temp entry fuel printed left user_stack r started
          register file_table_bytes
    let k1' = record k1 { open_files = put k1.open_files 0 no_file }
    (inodes, k2) ←
        malloc shift load_offset save_offset temp entry fuel printed left user_stack r k1' register
          inode_table_bytes
    some (
      (files, inodes),
      record {
        kernel = record k2 {
          open_inodes = put k2.open_inodes 0 no_inode;
          current_open_files = 0;
          current_open_inodes = 0;
          file_virtual_address = 0x40000000;
        };
        table = install_handlers idt stubs handlers m.table;
        outs = start_interrupts inb (pic_disable m.outs);
      },
    )
