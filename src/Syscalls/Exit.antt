-- ===== src/Syscalls/Exit.antt =====
-- `sys_exit`, up to its call of the shell, which does not return. Its `close` is the call of
-- unistd.c, which is `sys_close`; the segment registers are left out.
use ab_os.Base.{ℕ, ◌+◌, ◌-◌, ◌%◌, if◌then◌else◌, u32_mod}
use ab_os.Vmm.{page_size}
use ab_os.Syscalls.{Kernel, is_negative}
use ab_os.Syscalls.Close.{sys_close}

-- The descriptor, which it takes from EDX, the stack of user programs, and the state; it gives those
-- that the shell starts with.
unfoldable pub sys_exit : ℕ → ℕ → Kernel → ℕ × Kernel
sys_exit edx user_stack k =
    if is_negative edx
    then (user_stack, k)
    else ((user_stack + u32_mod - page_size) % u32_mod, (sys_close edx k).1)
