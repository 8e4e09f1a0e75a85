-- ===== src/Lib.antt =====
-- abOS, a 32-bit x86 kernel: the parts that hold its own logic, and what they guarantee.
--
-- The parts and their files:
--
-- - Pmm: kernel/memory/physical_memory_manager.c. `memory_map`, `max_blocks` and `used_blocks` are
--   a record; each function takes and returns it. `Pmm.Blocks` reads one bit, `Pmm.Range` the loops,
--   `Pmm.Find` the search, `Pmm.Alloc` what a caller gets, `Pmm.Count` the counter.
-- - Vmm: kernel/memory/virtual_memory_manager.c with the macros of virtual_memory_manager.h, on byte
--   memory and the allocator of Pmm. `Vmm.Entry` is one entry, `Vmm.Walk` the translation, `Vmm.Address`
--   `map_address`, `Vmm.Table` a new table, `Vmm.Create` `map_page` where it makes one, and `Vmm.Init`
--   `initialize_vmm`.
-- - Console: kernel/stdio.c up to `puts`. VGA memory is a function from the offset; `outs` is the log
--   of port writes, the last first.
-- - Printf: the rest of kernel/stdio.c that formats, with `_x86_div64_32` of kernel/x86.s. It prints
--   through Console. `Printf.Number` is about numbers, `Printf.Format` about formats.
-- - Interrupts.Pic, Interrupts.Idt, Interrupts.Keyboard, Interrupts.Faults: kernel/interrupts/pic.c,
--   idt.c, and the handlers of the keyboard, with keyboard.h, and of page faults of exceptions.c. The keyboard's handler
--   echoes through Console and ends with `PIC_sendEOI` of Interrupts.Pic. `Keyboard.Editor` is about one
--   key, and `Keyboard.Line` about a line.
-- - Str: kernel/util/string.c on byte memory. Vmm clears its tables with its `memset`.
-- - Heap: kernel/memory/malloc.c on the memory and the page tables of Vmm. `Heap.Node` is one node,
--   `Heap.Split` the split, `Heap.Chain` a list of blocks, `Heap.Place` first fit, and `Heap.Next`,
--   `Heap.Merge` and `Heap.Free` are `malloc_next`, `merge_free_blocks` and `malloc_free`.
-- - Fs: kernel/fs/fs_commands.c with kernel/fs/fs.h. `Fs.Layout` is the structures on the disk,
--   `Fs.Disk` the transfers and the place of an inode, `Fs.Transfer` `load_file` and `save_file`, `Fs.Path` the names, `Fs.Bitmap`
--   `find_free_bit`, `Fs.Marks` the writers of the bitmaps, and `Fs.Create` `create_file` and
--   `print_dir`: `Fs.Create.Bits` is about the bits of the new file, `Fs.Create.Link` and
--   `Fs.Create.Enter` about its entry in the directory. It compares names with `strcmp` of Str.
-- - Format: format_disk.c, which makes the disk that Fs reads. `Format.Tree` is the directories that
--   it copies, `Format.Boot` is the boot block, `Format` the counts, the superblock and the bitmaps, `Format.Files` the inodes, the
--   directories and the files. It shares the structures and `bytes_to_blocks` with Fs.
-- - Syscalls: kernel/interrupts/syscalls.c. The kernel is a file system of Fs, a heap of Heap, and
--   the tables of open files and inodes. `Syscalls.Table` is the table of inodes; `Syscalls.Open`,
--   `Syscalls.Read`, `Syscalls.Write` and `Syscalls.Close` have a call each with its theorems,
--   `Syscalls.Allocate` those on the heap, and `Syscalls.Exit` `sys_exit`. `Syscalls.Dispatch` is
--   `syscall_handler`, with the registers as a record.
-- - User: kernel/interrupts/unistd.c and kernel/stdlib.c, the calls of a user program, each an `int`
--   that ends in `Syscalls.Dispatch`.
-- - Prekernel: kernel/prekernel.c, which sets up Pmm and Vmm from the memory map, and the lists of
--   the map at the end of kernel/stdio.c. `Prekernel.Boot` is about the blocks in use, `Prekernel.Unmap`
--   the loop that unmaps, and `Prekernel.Space` the address space in which the kernel starts.
-- - Main: `main` of kernel/kernel.c, with the parts that it starts. `Main.Handover` joins Prekernel to it.
-- - Printlite: kernel/printlite.c, which nothing uses.
-- - Shell: the shell of kernel/kernel.c, on the system calls of Syscalls. `Shell.Commands` is the chain
--   of the commands' names. `Fs.Mount` and `Heap.Init` are the mount and `init_malloc` of that file.
-- - Base: the shared names, bits (`Base.Bits`), 32-bit words (`Base.Words`) and loops (`Base.Loops`).
--
-- C's names are kept, in lower case where they are capitalised (`PIC_remap` is `pic_remap`).
-- Unsigned arithmetic is written with `% u32_mod`; a negative `int32_t` is its bit pattern. A `for`
-- loop with a known number of rounds is `for_range`, the others are recursion on fuel:
--
-- - `find_loop` has `max_blocks` rounds, since each round advances by one block at least.
-- - `digit_loop` has 64, since each round divides a 64-bit number by 8 at least.
-- - `tab_loop` has 4, the largest bound that the loop's test can have.
-- - `strlen`, `strcmp`, `strrchr` and `strcpy` take their fuel; a fuel above the length of the string
--   is enough.
-- - `map_page` and `map_address` take their fuel, since they call themselves through new tables.
-- - The loops of Heap over the list of nodes, those of Fs over paths, and that of `sys_open` over the
--   open files take their fuel.
--
-- Memory accesses are sequential, and device registers that are only written are the log. What
-- `inb` reads is a parameter, as are the characters behind a `%s` pointer, and the addresses of the
-- interrupt stubs. The pointers that the memory manager follows are followed in physical memory; where
-- paging is on, that is the program's memory only for pages at their own addresses. Locals that the code
-- does not initialise, and what ECX holds after a call of `kprintf`, are parameters. Stores behind the end
-- of an array (a line of 256 characters, the eighth block of a file) go to offsets behind it, and what
-- stands there in the program is not modelled.
--
-- The formatter's writes succeed, and its directories have fewer than 2 ^ 26 entries with names of at
-- most 59 characters. `1 << k` of an `int` is a parameter where `k` can pass 30. The addresses of
-- arrays on the stack are parameters too.
--
-- Not modelled: the boot loader and the assembly but for the division, the debugging output, the
-- waiting for the disk, the handlers of exceptions.c that halt, and so far the switch to a program.
-- kernel/fs/elf.h has types only, which no modelled function uses.
pub mod Base
pub mod Console
pub mod Format
pub mod Fs
pub mod Heap
pub mod Interrupts
pub mod Main
pub mod Pmm
pub mod Prekernel
pub mod Printf
pub mod Printlite
pub mod Shell
pub mod Str
pub mod Syscalls
pub mod User
pub mod Vmm
