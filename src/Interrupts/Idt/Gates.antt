-- ===== src/Interrupts/Idt/Gates.antt =====
-- Where each vector leads.
use ab_os.Base.{
  ℕ, ◌+◌, ◌*◌, ◌/◌, ◌%◌, ◌^◌, ◌<◌, ◌≡◌, true, arith, ◌==◌, if◌then◌else◌, for_range_inv,
}
use ab_os.Interrupts.Idt.{
  Entry, Table, idt_set_descriptor, init_vector, init_idt, Handlers, install_handlers,
}

-- The address that the processor takes from an entry.
abbrev pub target : Entry → ℕ
target e = e.base_high * 2 ^ 16 + e.base_low

-- The privilege level in the attributes.
abbrev pub level : Entry → ℕ
level e = e.attributes / 32 % 4

-- The gate of vector `v`: its handler, whether it is present, its level, and its selector.
pub record Gate (t : Table) (v handler dpl : ℕ) : Type 0 where
  pub target_is : target (t.idt v) ≡ handler
  pub present : (t.idt v).attributes / 128 ≡ 1
  pub level_is : level (t.idt v) ≡ dpl
  pub selector : (t.idt v).segsel ≡ 0x08

-- The first `k` vectors lead to their stubs and are marked.
abbrev Filled : (ℕ → ℕ) → ℕ → Table → Type 0
Filled stubs k t =
    (v : ℕ) → v < k → (stubs v < 2 ^ 32) → Gate t v (stubs v) 0 × (t.vectors v ≡ true)

init_vector-Filled :
    (stubs : ℕ → ℕ) (k : ℕ) (t : Table)
    → Filled stubs k t
    → Filled stubs (k + 1) (init_vector stubs k t)
unfolding init_vector idt_set_descriptor
init_vector-Filled stubs k t h v l word = ground (arith, h v)

init_idt-Filled :
    (address : ℕ) (stubs : ℕ → ℕ) (t : Table) → Filled stubs 256 (init_idt address stubs t)
unfolding init_idt
init_idt-Filled address stubs t =
    for_range_inv (Filled stubs) (init_vector stubs) 256 (λ k u _. init_vector-Filled stubs k u) 208
      48 _ (omega arith)
      (for_range_inv (Filled stubs) (init_vector stubs) 48 (λ k u _. init_vector-Filled stubs k u)
        16 32 _ (omega arith)
        (for_range_inv (Filled stubs) (init_vector stubs) 32 (λ k u _. init_vector-Filled stubs k u)
          32 0 _ (omega arith) (λ v l. absurd (omega arith))))

-- The handler that the kernel means for a vector.
abbrev pub handler_of : (ℕ → ℕ) → Handlers → ℕ → ℕ
handler_of stubs h v =
    if v == 0
    then h.div_by_0
    else if v == 0x20
    then h.pit
    else if v == 0x21
    then h.keyboard
    else if v == 0x0E
    then h.page_fault
    else if v == 0x80
    then h.syscall
    else if v == 0xD
    then h.gpf
    else stubs v

-- After `initIDT` and the handlers of `main`, each vector whose handler has a 32-bit address leads
-- to that handler through a present gate with the code selector: its own for the six vectors with
-- one, the stub for all others. Only vector 0x80 may be raised from user mode.
pub install_handlers-Gate :
    (address : ℕ) (stubs : ℕ → ℕ) (h : Handlers) (t : Table) (v : ℕ)
    → v < 256
    → stubs v < 2 ^ 32
    → handler_of stubs h v < 2 ^ 32
    → Gate
        (install_handlers address stubs h t)
        v
        (handler_of stubs h v)
        (if v == 0x80 then 3 else 0)
unfolding install_handlers idt_set_descriptor
install_handlers-Gate address stubs h t v l stub word =
    ground (arith, init_idt-Filled address stubs t v l stub)
