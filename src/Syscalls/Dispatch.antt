-- ===== src/Syscalls/Dispatch.antt =====
-- `syscall_handler` and its table: the number of a call is in EAX, its arguments are in EBX, ECX and
-- EDX, and the other registers are not looked at.
use ab_os.Base.{List, [], ◌∷◌, ◌-◌, ℕ, zero, suc, ltb, if◌then◌else◌, Option, none, some, ◌>>=◌}
use ab_os.Pmm.{minus_one}
use ab_os.Syscalls.{Kernel}
use ab_os.Syscalls.Allocate.{sys_malloc, sys_free}
use ab_os.Syscalls.Close.{sys_close}
use ab_os.Syscalls.Exit.{sys_exit}
use ab_os.Syscalls.Open.{sys_open}
use ab_os.Syscalls.Read.{sys_read}
use ab_os.Syscalls.Write.{sys_write}

pub record Registers : Type 0 where
  pub eax : ℕ
  pub ebx : ℕ
  pub ecx : ℕ
  pub edx : ℕ

-- How a system call ends: behind the `int`, or in a new round of the shell.
pub data Outcome : Type 0 where
  returned : Registers → Kernel → Outcome
  to_shell : ℕ → Kernel → Outcome

-- The entries of the table.
pub data Call : Type 0 where
  call_test1 call_test2 call_malloc call_free call_open call_close call_write call_read call_exit :
      Call

abbrev pub syscalls : List Call
syscalls =
    call_test1 ∷ call_test2 ∷ call_malloc ∷ call_free ∷ call_open ∷ call_close ∷ call_write
    ∷ call_read ∷ call_exit ∷ []

abbrev pub max_syscalls : ℕ
max_syscalls = 9

-- A word of a table.
abbrev pub call_at : List Call → ℕ → Option Call
call_at [] n = none
call_at (c ∷ cs) zero = some c
call_at (c ∷ cs) (suc n) = call_at cs n

-- `EAX` as a call leaves it; the other registers are popped.
abbrev give : Registers → ℕ × Kernel → Outcome
give r (result, k) = returned (record r { eax = result }) k

-- `shift`, `temp`, `entry` and `fuel` are as in `sys_open`; `load_offset` and `save_offset` are the
-- uninitialised locals of `load_file` and of `save_file`; `left` is what a call that sets no EAX leaves
-- there; and `printed` is what ECX holds once the `kprintf` of `sys_open`, which need not keep that
-- register, has returned.
module _ (shift : ℕ → ℕ) (load_offset save_offset temp entry fuel : ℕ) (printed : Registers → ℕ)
    (left user_stack : ℕ) where
  unfoldable pub run_call : Call → Registers → Kernel → Option Outcome
  run_call call_test1 r k = some (give r (left, k))
  run_call call_test2 r k = some (give r (left, k))
  run_call call_malloc r k = sys_malloc fuel r.ebx k >>= λ p. some (give r p)
  run_call call_free r k = sys_free fuel r.ebx k >>= λ k'. some (give r (left, k'))
  run_call call_open r k =
      sys_open shift load_offset temp entry fuel r.ebx (printed r) k >>= λ p. some (give r p)
  run_call call_close r k = some (give r (sys_close r.ebx k))
  run_call call_write r k = sys_write save_offset fuel r.ebx r.ecx r.edx k >>= λ p. some (give r p)
  run_call call_read r k = some (give r (sys_read r.ebx r.ecx r.edx k))
  run_call call_exit r k = let (stack, k') = sys_exit r.edx user_stack k in some (to_shell stack k')

  unfoldable pub syscall_handler : Registers → Kernel → Option Outcome
  syscall_handler r k =
      if ltb (max_syscalls - 1) r.eax
      then some (returned (record r { eax = minus_one }) k)
      else (call_at syscalls r.eax >>= λ c. run_call c r k)
