-- ===== src/Interrupts/Idt.antt =====
-- kernel/interrupts/idt.c: the interrupt descriptor table, with the handlers that `main` of
-- kernel/kernel.c installs (lines 68 to 77).
pub mod Gates
use ab_os.Base.{ℕ, ◌+◌, ◌-◌, ◌*◌, ◌/◌, ◌%◌, ◌^◌, Bool, true, update, for_range}

-- `idt_entry_t`.
pub record Entry : Type 0 where
  pub base_low : ℕ
  pub segsel : ℕ
  pub donottouch : ℕ
  pub attributes : ℕ
  pub base_high : ℕ

-- The table, the `vectors` flags, and `idtr` as its limit and base.
pub record Table : Type 0 where
  pub idt : ℕ → Entry
  pub vectors : ℕ → Bool
  pub limit : ℕ
  pub base : ℕ

abbrev descriptor : ℕ → ℕ → Entry
descriptor isr flags = record {
  base_low = isr % 2 ^ 16;
  segsel = 0x08;
  donottouch = 0;
  attributes = flags;
  base_high = isr / 2 ^ 16;
}

pub idt_set_descriptor : ℕ → ℕ → ℕ → Table → Table
idt_set_descriptor vector isr flags t = record t {
  idt = update t.idt vector (descriptor isr flags);
}

-- The body of the three loops of `initIDT`.
pub init_vector : (ℕ → ℕ) → ℕ → Table → Table
init_vector isr_stub_table vector t =
    let t' = idt_set_descriptor vector (isr_stub_table vector) 0x8E t in
    record t' { vectors = update t'.vectors vector true }

-- `address` is that of `idt`, and an entry takes eight bytes.
pub init_idt : ℕ → (ℕ → ℕ) → Table → Table
init_idt address isr_stub_table t =
    let t0 = record t { base = address; limit = 8 * 256 - 1 } in
    let t1 = for_range 32 0 (init_vector isr_stub_table) t0 in
    let t2 = for_range (48 - 32) 32 (init_vector isr_stub_table) t1 in
    for_range (256 - 48) 48 (init_vector isr_stub_table) t2

-- The addresses of the handlers of the kernel.
pub record Handlers : Type 0 where
  pub div_by_0 : ℕ
  pub pit : ℕ
  pub keyboard : ℕ
  pub page_fault : ℕ
  pub syscall : ℕ
  pub gpf : ℕ

pub install_handlers : ℕ → (ℕ → ℕ) → Handlers → Table → Table
install_handlers address isr_stub_table h t =
    let t0 = init_idt address isr_stub_table t in
    let t1 = idt_set_descriptor 0 h.div_by_0 0x8E t0 in
    let t2 = idt_set_descriptor 0x20 h.pit 0x8E t1 in
    let t3 = idt_set_descriptor 0x21 h.keyboard 0x8E t2 in
    let t4 = idt_set_descriptor 0x0E h.page_fault 0x8E t3 in
    let t5 = idt_set_descriptor 0x80 h.syscall 0xEE t4 in idt_set_descriptor 0xD h.gpf 0x8E t5
