-- ===== src/Shell.antt =====
-- The shell of kernel/kernel.c. A line that is typed is in the buffer of `readline` with its
-- terminator; `input_buffer` is that buffer's address, and `literal` gives the addresses of the names
-- of the commands. The system calls are called as they are, without the register moves of unistd.c.
-- A round gives what it prints, which for the commands without effect here is only that they ran, and
-- `exec` ends with the jump to the program.
mod Tests
pub mod Commands
use ab_os.Base.{
  ℕ, zero, suc, ◌+◌, ◌*◌, ◌%◌, Bool, true, false, Memory, update, ◌==◌, if◌then◌else◌, u32_mod,
  Option, none, some, ◌>>=◌, List, [], ◌∷◌,
}
use ab_os.Pmm.{allocate_blocks}
use ab_os.Str.{strcmp}
use ab_os.Vmm.{map_address, page_size}
use ab_os.Fs.{Inode}
use ab_os.Fs.Create.{create_file, print_dir}
use ab_os.Syscalls.{Kernel, o_rdwr, is_negative}
use ab_os.Syscalls.Open.{sys_open}
use ab_os.Syscalls.Close.{sys_close}
use ab_os.Syscalls.Read.{sys_read}
use ab_os.Syscalls.Write.{sys_write}

pub data Command : Type 0 where
  printmem : Command
  ls : Command
  exit : Command
  clear : Command
  exec : Command
  help : Command
  touch : Command
  cat : Command
  editfile : Command
  printregisters : Command

-- The commands in the order of the tests.
abbrev pub commands : List Command
commands = printmem ∷ ls ∷ exit ∷ clear ∷ exec ∷ help ∷ touch ∷ cat ∷ editfile ∷ printregisters ∷ []

-- The chain of the tests: `some none` is "Command not found".
pub parse : ℕ → Memory → ℕ → (Command → ℕ) → List Command → Option (Option Command)
parse fuel m command literal [] = some none
parse fuel m command literal (c ∷ cs) = do
  r ← strcmp fuel m command (literal c)
  if r == 0 then some (some c) else parse fuel m command literal cs

-- What a line does to the buffer.
pub type_line : ℕ → List ℕ → Memory → Memory
type_line buffer [] m = update m buffer 0
type_line buffer (c ∷ cs) m = type_line (buffer + 1) cs (update m buffer c)

pub readline : ℕ → List ℕ → Kernel → Kernel
unfolding type_line
readline input_buffer line k =
    let s = k.fs in record k { fs = record s { memory = type_line input_buffer line s.memory } }

pub data Reply : Type 0 where
  done : Reply
  invalid_path : Reply
  text : Memory → Reply
  listing : Bool → List (Memory × Bool) → Reply
  jump : ℕ → ℕ → Reply
  not_found : Reply

-- `shift`, the two offsets, `temp`, `entry` and `fuel` are as in Syscalls.Dispatch.
module _ (shift : ℕ → ℕ) (load_offset save_offset temp entry fuel input_buffer : ℕ) where
  pub run_cat : ℕ → Kernel → Option (Reply × Kernel)
  run_cat command k = do
    (fd, k1) ← sys_open shift load_offset temp entry fuel command o_rdwr k
    let (n, k2) = sys_read fd command 4096 k1
    let (r, k3) = sys_close fd k2
    if is_negative fd
        then some (invalid_path, k1)
        else some (text (λ a. k2.fs.memory (command + a)), k3)

  pub run_editfile : ℕ → List ℕ → Kernel → Option (Reply × Kernel)
  unfolding readline
  run_editfile command line k = do
    (fd, k1) ← sys_open shift load_offset temp entry fuel command o_rdwr k
    let typed = readline input_buffer line k1
    let written = do
      (n, k2) ← sys_write save_offset fuel fd input_buffer 4096 typed
      let (r, k3) = sys_close fd k2
      some (done, k3)
    if is_negative fd then some (invalid_path, k1) else written

  -- `jump` has the new `user_stack`, whose page is mapped, and the program's first instruction. The
  -- stack pointer that the program gets is USER_STACK, not this one.
  pub run_exec : ℕ → ℕ → Kernel → Option (Reply × Kernel)
  run_exec command user_stack k = do
    (fd, k1) ← sys_open shift load_offset temp entry fuel command o_rdwr k
    let h = k1.heap
    let v = h.vmm
    let stack = (user_stack + page_size) % u32_mod
    let (phys_address, pmm') = allocate_blocks 1 v.pmm
    let mapped = do
      (ok, v') ← map_address fuel v.directory phys_address stack 7 (record v { pmm = pmm' })
      some (jump stack (k1.open_files fd).address, record k1 { heap = record h { vmm = v' } })
    if is_negative fd then some (invalid_path, k1) else mapped

  -- A command, with the lines that it reads.
  pub run_command : Command → List ℕ → List ℕ → ℕ → Kernel → Option (Reply × Kernel)
  unfolding run_cat run_editfile run_exec readline
  run_command ls line next user_stack k = do
    let k' = readline input_buffer line k
    ((ok, names), s) ← print_dir fuel input_buffer k'.fs
    some (listing ok names, record k' { fs = s })
  run_command touch line next user_stack k = do
    let k' = readline input_buffer line k
    (inode, s) ← create_file shift fuel temp entry input_buffer k'.fs
    some (done, record k' { fs = s })
  run_command cat line next user_stack k = run_cat input_buffer (readline input_buffer line k)
  run_command editfile line next user_stack k =
      run_editfile input_buffer next (readline input_buffer line k)
  run_command exec line next user_stack k =
      run_exec input_buffer user_stack (readline input_buffer line k)
  run_command printmem line next user_stack k = some (done, k)
  run_command exit line next user_stack k = some (done, k)
  run_command clear line next user_stack k = some (done, k)
  run_command help line next user_stack k = some (done, k)
  run_command printregisters line next user_stack k = some (done, k)

  -- One round of the loop, from the prompt on.
  pub round : (Command → ℕ) → List ℕ → List ℕ → List ℕ → ℕ → Kernel → Option (Reply × Kernel)
  unfolding parse run_command readline
  round literal first line next user_stack k = do
    let k' = readline input_buffer first k
    command ← parse fuel k'.fs.memory input_buffer literal commands
    elim command [ none ↦ some (not_found, k') | some c ↦ run_command c line next user_stack k' ]
