-- ===== src/User/Tests.antt =====
-- Calls of a user program.
use ab_os.Base.{ℕ, ◌≡◌, ◌≢◌, refl, some, ◌^◌, arith}
use ab_os.Syscalls.{Kernel, no_file}
use ab_os.Syscalls.Allocate.{sys_malloc, sys_free}
use ab_os.Syscalls.Close.{sys_close}
use ab_os.Syscalls.Dispatch.{Registers, to_shell}
use ab_os.Syscalls.Open.{sys_open}
use ab_os.Syscalls.Read.{sys_read}
use ab_os.Syscalls.Tests.{running, nine_number}
use ab_os.Syscalls.Write.{sys_write}
use ab_os.User.{open_file, close, write, read, malloc, free, exit, calls_lem, exit_other}

-- ECX after the `kprintf`, if that keeps it.
abbrev kept : Registers → ℕ
kept r = r.ecx

abbrev registers : Registers
registers = record { eax = 1; ebx = 2; ecx = 3; edx = 0 }

calls_lem_example :
    (open_file (λ n. 2 ^ n) 8 16 0x6000 0x7000 9 kept 0 0x9000 registers running 100 1
      ≡ sys_open (λ n. 2 ^ n) 8 0x6000 0x7000 9 100 1 running)
    × (close (λ n. 2 ^ n) 8 16 0x6000 0x7000 9 kept 0 0x9000 registers running 0
        ≡ some (sys_close 0 running))
    × (write (λ n. 2 ^ n) 8 16 0x6000 0x7000 9 kept 0 0x9000 registers running 0 0x2000 8
        ≡ sys_write 16 9 0 0x2000 8 running)
    × (read (λ n. 2 ^ n) 8 16 0x6000 0x7000 9 kept 0 0x9000 registers running 0 0x2000 8
        ≡ some (sys_read 0 0x2000 8 running))
    × (malloc
          (λ n. 2 ^ n)
          8
          16
          0x6000
          0x7000
          9
          kept
          0
          0x9000
          registers
          running
          (λ regs. regs.eax)
          64
        ≡ sys_malloc 9 64 running)
    × (free (λ n. 2 ^ n) 8 16 0x6000 0x7000 9 kept 0 0x9000 registers running 0x1014
        ≡ sys_free 9 0x1014 running)
calls_lem_example =
    calls_lem (λ n. 2 ^ n) 8 16 0x6000 0x7000 9 kept 0 0x9000 registers running 100 1 0 0x2000 8 64
      0x1014

exit_other_example :
    (k' : Kernel) × (exit (λ n. 2 ^ n) 8 16 0x6000 0x7000 9 kept 0 0x9000 registers running 5
      ≡ some (to_shell 0x8000 k'))
    × (k'.open_files 0 ≡ no_file)
    × ((i : ℕ) → i ≢ 0 → k'.open_files i ≡ running.open_files i)
exit_other_example =
    exit_other (λ n. 2 ^ n) 8 16 0x6000 0x7000 9 kept 0 0x9000 registers running 5 (omega arith)
      nine_number refl
