-- ===== src/Cpu/Isr/Tests.antt =====
-- Entry points 0x1000 and 0x2000, and a handler for the keyboard.
use james_os.Prelude.{
  ℕ, zero, suc, ◌+◌, ◌^◌, ◌≤◌, ◌<◌, ◌≡◌, ◌≢◌, refl, arith, [], ◌∷◌, some, leb, if◌then◌else◌,
  replicate, length-replicate, get_or,
}
use james_os.Cpu.Isr.{IdtGate, isr_install, byte_out, register_interrupt_handler, irq_handler}
use james_os.Cpu.Isr.Gates.{LeadsTo, isr_install-LeadsTo}
use james_os.Cpu.Isr.Dispatch.{irq_handler-register_interrupt_handler}

abbrev no_gate : IdtGate
no_gate = record { low_offset = 0; sel = 0; always0 = 0; flags = 0; high_offset = 0 }

replicate_below : (n v k : ℕ) → v < k → 0 < k → (q : ℕ) → get_or (replicate n v) q 0 < k
replicate_below zero v k lt pos q = pos
replicate_below (suc n) v k lt pos zero = lt
replicate_below (suc n) v k lt pos (suc q) = replicate_below n v k lt pos q

isr_install-LeadsTo_example :
    ((q : ℕ)
      → q < 32
      → LeadsTo (get_or (replicate 32 0x1ff000) q 0) (
          get_or
            (isr_install (replicate 32 0x1ff000) (replicate 16 0x3000) (replicate 256 no_gate)).0
            q
            no_gate))
    × ((q : ℕ)
        → q < 16
        → LeadsTo (get_or (replicate 16 0x3000) q 0) (
            get_or
              (isr_install (replicate 32 0x1ff000) (replicate 16 0x3000) (replicate 256 no_gate)).0
              (32 + q)
              no_gate))
    × ((q : ℕ)
        → 48 ≤ q
        → get_or
            (isr_install (replicate 32 0x1ff000) (replicate 16 0x3000) (replicate 256 no_gate)).0
            q
            no_gate
          ≡ get_or (replicate 256 no_gate) q no_gate)
isr_install-LeadsTo_example =
    isr_install-LeadsTo (replicate 32 0x1ff000) (replicate 16 0x3000) (replicate 256 no_gate)
      no_gate refl refl (length-replicate 256 no_gate)
      (replicate_below 32 0x1ff000 (2 ^ 32) (omega arith) (omega arith))
      (replicate_below 16 0x3000 (2 ^ 32) (omega arith) (omega arith))

irq_handler-register_interrupt_handler_example :
    ((irq_handler (register_interrupt_handler 33 0x4000 (replicate 256 0)) 33).1 ≡ some 0x4000)
    × ((other : ℕ)
        → other ≢ 33
        → (irq_handler (register_interrupt_handler 33 0x4000 (replicate 256 0)) other).1
          ≡ (irq_handler (replicate 256 0) other).1)
    × ((irq_handler (register_interrupt_handler 33 0x4000 (replicate 256 0)) 33).0 ≡ (
        if leb 40 33
        then byte_out 0xa0 0x20 ∷ byte_out 0x20 0x20 ∷ []
        else byte_out 0x20 0x20 ∷ []))
irq_handler-register_interrupt_handler_example =
    irq_handler-register_interrupt_handler 33 0x4000 (replicate 256 0)
      (length-replicate {A = ℕ} 256 0) (omega arith) (omega arith)
