-- ===== src/Cpu/Isr/Dispatch.antt =====
-- The handlers that interrupts call.
use james_os.Prelude.{
  ℕ, ◌<◌, ◌≡◌, ◌≢◌, refl, List, [], ◌∷◌, some, true, false, leb, ◌==◌, if◌then◌else◌, arith, length,
  get_or-set, u8,
}
use james_os.Cpu.Isr.{byte_out, registered, register_interrupt_handler, irq_handler}

-- After a handler at an address that is not 0 is registered in the table of 256 handlers for the
-- interrupt `n`, which is below 256, an interrupt `n` of the controllers calls it, and each other
-- interrupt calls what it called before. For the end of the interrupt, a byte goes to the second
-- controller exactly when `n` is at least 40, and one to the first after it.
pub irq_handler-register_interrupt_handler :
    (n handler : ℕ) (interrupt_handlers : List ℕ)
    → length interrupt_handlers ≡ 256
    → n < 256
    → handler ≢ 0
    → ((irq_handler (register_interrupt_handler n handler interrupt_handlers) n).1 ≡ some handler)
      × ((other : ℕ)
          → other ≢ n
          → (irq_handler (register_interrupt_handler n handler interrupt_handlers) other).1
            ≡ (irq_handler interrupt_handlers other).1)
      × ((irq_handler (register_interrupt_handler n handler interrupt_handlers) n).0 ≡ (
          if leb 40 n
          then byte_out 0xa0 0x20 ∷ byte_out 0x20 0x20 ∷ []
          else byte_out 0x20 0x20 ∷ []))
unfolding irq_handler register_interrupt_handler registered
irq_handler-register_interrupt_handler n handler interrupt_handlers size lt some_handler =
    let narrow : u8 n ≡ n = omega (arith, lt) in
    let new = λ (q : ℕ). get_or-set interrupt_handlers n q handler 0 (omega (arith, size, lt)) in
    let self : (n == n) ≡ true = ground arith in
    let there : (handler == 0) ≡ false = ground (arith, some_handler) in
    rw narrow (
      rw (new n, self, there) refl,
      λ other apart.
          let away : (n == other) ≡ false = ground (arith, apart) in rw (new other, away) refl,
      refl,
    )
