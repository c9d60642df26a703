-- ===== src/Cpu.antt =====
-- src/cpu: interrupts.
pub mod Isr
