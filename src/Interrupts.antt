-- ===== src/Interrupts.antt =====
-- kernel/interrupts: the interrupt controller and the timer (Pic), the descriptor table (Idt), and
-- the keyboard handler (Keyboard), and those of page faults and the timer (Faults).
mod Tests
pub mod Faults
pub mod Idt
pub mod Keyboard
pub mod Pic
