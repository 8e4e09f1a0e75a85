-- ===== src/User.antt =====
-- kernel/interrupts/unistd.c and kernel/stdlib.c: the calls of a user program, each an `int 0x80` with
-- its number in EAX. `r` is what the registers hold before.
mod Tests
use ab_os.Base.{
  true, false, ℕ, ◌+◌, ◌-◌, ◌%◌, ◌<◌, ◌≡◌, ◌≢◌, refl, ltb, Option, none, some, ◌>>=◌, arith,
  u32_mod,
}
use ab_os.Fs.{i_number_of}
use ab_os.Vmm.{page_size}
use ab_os.Syscalls.{Kernel, no_file, is_negative}
use ab_os.Syscalls.Allocate.{sys_malloc, sys_free}
use ab_os.Syscalls.Close.{sys_close, sys_close_twice}
use ab_os.Syscalls.Dispatch.{
  Registers, Outcome, returned, to_shell, syscall_handler, call_at, syscalls, run_call,
}
use ab_os.Syscalls.Exit.{sys_exit}
use ab_os.Syscalls.Open.{sys_open}
use ab_os.Syscalls.Read.{sys_read}
use ab_os.Syscalls.Write.{sys_write}

-- A register behind the `int`, and the state. `none` is a call that does not come back.
abbrev output : (Registers → ℕ) → Option Outcome → Option (ℕ × Kernel)
output register none = none
output register (some (returned r k)) = some (register r, k)
output register (some (to_shell stack k)) = none

abbrev result_in_eax : Registers → ℕ
result_in_eax r = r.eax

module _ (shift : ℕ → ℕ) (load_offset save_offset temp entry fuel : ℕ) (printed : Registers → ℕ)
    (left user_stack : ℕ) (r : Registers) (k : Kernel) where
  abbrev int_0x80 : Registers → Option Outcome
  int_0x80 regs =
      syscall_handler shift load_offset save_offset temp entry fuel printed left user_stack regs k

  pub open_file : ℕ → ℕ → Option (ℕ × Kernel)
  open_file path flags =
      output result_in_eax (int_0x80 (record r { eax = 4; ebx = path; ecx = flags }))

  pub close : ℕ → Option (ℕ × Kernel)
  close file_descriptor =
      output result_in_eax (int_0x80 (record r { eax = 5; ebx = file_descriptor }))

  pub write : ℕ → ℕ → ℕ → Option (ℕ × Kernel)
  write file_descriptor buffer length =
      output result_in_eax
        (int_0x80 (record r { eax = 6; ebx = file_descriptor; ecx = buffer; edx = length }))

  pub read : ℕ → ℕ → ℕ → Option (ℕ × Kernel)
  read file_descriptor buffer length =
      output result_in_eax
        (int_0x80 (record r { eax = 7; ebx = file_descriptor; ecx = buffer; edx = length }))

  pub testertesting123 : Option Outcome
  testertesting123 = int_0x80 (record r { eax = 1 })

  -- The constraint on the result names no register: the compiler picks one.
  pub malloc : (Registers → ℕ) → ℕ → Option (ℕ × Kernel)
  malloc register size = output register (int_0x80 (record r { eax = 2; ebx = size }))

  -- There is no result.
  pub free : ℕ → Option Kernel
  free ptr = output result_in_eax (int_0x80 (record r { eax = 3; ebx = ptr })) >>= λ p. some p.1

  pub exit : ℕ → Option Outcome
  exit fd = int_0x80 (record r { eax = 8; ebx = fd })

output-some :
    (o : Option (ℕ × Kernel)) (regs : Registers)
    → output result_in_eax (o >>= λ p. some (returned (record regs { eax = p.0 }) p.1)) ≡ o
output-some none regs = refl
output-some (some p) regs = refl

state-some :
    (o : Option Kernel) (regs : Registers) (left : ℕ)
    → (output result_in_eax (o >>= λ k. some (returned (record regs { eax = left }) k)) >>= λ p.
        some p.1)
      ≡ o
state-some none regs left = refl
state-some (some k) regs left = refl

-- The numbers in EAX are those of the table, and the arguments are in the registers that the
-- functions read: each of these calls of a user program is the function of the kernel of its name,
-- `malloc` if the compiler picks EAX for its result. The flags that `sys_open` gets are what its
-- `kprintf` leaves in ECX, which are those of the call only if `kprintf` keeps that register.
pub calls_lem :
    (shift : ℕ → ℕ) (load_offset save_offset temp entry fuel : ℕ) (printed : Registers → ℕ)
    (left user_stack : ℕ) (r : Registers) (k : Kernel) (path flags fd buffer length size ptr : ℕ)
    → (open_file shift load_offset save_offset temp entry fuel printed left user_stack r k path
          flags
        ≡ sys_open shift load_offset temp entry fuel path
            (printed (record r { eax = 4; ebx = path; ecx = flags }))
            k)
      × (close shift load_offset save_offset temp entry fuel printed left user_stack r k fd
          ≡ some (sys_close fd k))
      × (write shift load_offset save_offset temp entry fuel printed left user_stack r k fd buffer
            length
          ≡ sys_write save_offset fuel fd buffer length k)
      × (read shift load_offset save_offset temp entry fuel printed left user_stack r k fd buffer
            length
          ≡ some (sys_read fd buffer length k))
      × (malloc shift load_offset save_offset temp entry fuel printed left user_stack r k
            (λ regs. regs.eax)
            size
          ≡ sys_malloc fuel size k)
      × (free shift load_offset save_offset temp entry fuel printed left user_stack r k ptr
          ≡ sys_free fuel ptr k)
unfolding open_file close write read malloc free syscall_handler run_call
calls_lem shift load_offset save_offset temp entry fuel printed left user_stack r k path flags fd
      buffer length size ptr =
    (
      output-some
          (sys_open shift load_offset temp entry fuel path
            (printed (record r { eax = 4; ebx = path; ecx = flags })) k)
          (record r { eax = 4; ebx = path; ecx = flags }),
      refl,
      output-some (sys_write save_offset fuel fd buffer length k)
          (record r { eax = 6; ebx = fd; ecx = buffer; edx = length }),
      refl,
      output-some (sys_malloc fuel size k) (record r { eax = 2; ebx = size }),
      state-some (sys_free fuel ptr k) (record r { eax = 3; ebx = ptr }) left,
    )

-- `exit` closes the descriptor in EDX, which the call does not set, and not the one that it is given.
-- Where EDX holds a descriptor that is not negative, is open once and has an inode with a number: the
-- call ends in the shell with the stack one page lower, the cell of that descriptor is free, and each
-- other cell of the table of files is as it was, also that of the descriptor given if it is another.
pub exit_other :
    (shift : ℕ → ℕ) (load_offset save_offset temp entry fuel : ℕ) (printed : Registers → ℕ)
    (left user_stack : ℕ) (r : Registers) (k : Kernel) (fd : ℕ)
    → r.edx < 0x8000_0000
    → i_number_of (k.open_inodes (k.open_files r.edx).inode_index) ≢ 0
    → (k.open_files r.edx).max_count ≡ 1
    → (k' : Kernel) × (exit shift load_offset save_offset temp entry fuel printed left user_stack r
          k fd
        ≡ some (to_shell ((user_stack + u32_mod - page_size) % u32_mod) k'))
      × (k'.open_files r.edx ≡ no_file)
      × ((i : ℕ) → i ≢ r.edx → k'.open_files i ≡ k.open_files i)
unfolding exit syscall_handler run_call sys_exit
exit_other shift load_offset save_offset temp entry fuel printed left user_stack r k fd l named
      once =
    let e : is_negative r.edx ≡ false = ground (arith, l) in
    let (result, cell, others, again) = sys_close_twice r.edx k l named once in
    ((sys_close r.edx k).1, rw e refl, cell, others)
