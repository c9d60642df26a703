-- ===== src/Cpu/Isr.antt =====
-- src/cpu/isr.c and src/cpu/idt.c: the table of interrupt gates, the interrupt controllers, and the
-- handlers. The addresses of the entry points in interrupt.asm are arguments, `isr` with 32 and
-- `irq` with 16 of them. A handler is the address of its function; 0 is for none.
pub mod Gates
pub mod Dispatch
mod Tests
use james_os.Prelude.{
  ℕ, zero, suc, ◌+◌, ◌-◌, ◌*◌, List, [], ◌∷◌, ◌++◌, Option, none, some, Bool, ◌==◌, leb,
  if◌then◌else◌, get_or, set, bit_and, ◌>>>◌, u8, u16, codes,
}
use james_os.Drivers.Vga.{Screen, kprint, kprint_debug, decimal}

abbrev pub light_red : ℕ
light_red = 0xc

pub record IdtGate : Type 0 where
  pub low_offset : ℕ
  pub sel : ℕ
  pub always0 : ℕ
  pub flags : ℕ
  pub high_offset : ℕ

pub low_16 : ℕ → ℕ
low_16 address = u16 (bit_and address 0xffff)

pub high_16 : ℕ → ℕ
high_16 address = u16 (bit_and (address >>> 16) 0xffff)

pub set_idt_gate : ℕ → ℕ → List IdtGate → List IdtGate
set_idt_gate n handler idt = set idt n (record {
  low_offset = low_16 handler;
  sel = 0x08;
  always0 = 0;
  flags = 0x8e;
  high_offset = high_16 handler;
})

-- The calls of `set_idt_gate` in a row, from gate `n` on, for a list of handlers.
pub set_gates : ℕ → List ℕ → List IdtGate → List IdtGate
set_gates n [] idt = idt
set_gates n (handler ∷ handlers) idt = set_gates (n + 1) handlers (set_idt_gate n handler idt)

-- A byte that goes to a port.
pub data Out : Type 0 where
  byte_out : ℕ → ℕ → Out

-- What `isr_install` sends to the two controllers.
pub remap : List Out
remap =
    (byte_out 0x20 0x11)
    ∷ (byte_out 0xA0 0x11)
    ∷ (byte_out 0x21 0x20)
    ∷ (byte_out 0xA1 0x28)
    ∷ (byte_out 0x21 0x04)
    ∷ (byte_out 0xA1 0x02)
    ∷ (byte_out 0x21 0x01)
    ∷ (byte_out 0xA1 0x01)
    ∷ (byte_out 0x21 0x0)
    ∷ (byte_out 0xA1 0x0)
    ∷ []

-- The gates, with the addresses of `isr0` to `isr31` and `irq0` to `irq15`, and what is sent.
pub isr_install : List ℕ → List ℕ → List IdtGate → List IdtGate × List Out
isr_install isr irq idt = (set_gates 32 irq (set_gates 0 isr idt), remap)

-- The base and the limit that `load_idt` gives to the processor.
pub load_idt : ℕ → ℕ × ℕ
load_idt idt = (idt, 256 * 8 - 1)

pub exception_messages : List (List ℕ)
exception_messages =
    codes "Division By Zero"
    ∷ codes "Debug"
    ∷ codes "Non Maskable Interrupt"
    ∷ codes "Breakpoint"
    ∷ codes "Into Detected Overflow"
    ∷ codes "Out of Bounds"
    ∷ codes "Invalid Opcode"
    ∷ codes "No Coprocessor"
    ∷ codes "Double Fault"
    ∷ codes "Coprocessor Segment Overrun"
    ∷ codes "Bad TSS"
    ∷ codes "Segment Not Present"
    ∷ codes "Stack Fault"
    ∷ codes "General Protection Fault"
    ∷ codes "Page Fault"
    ∷ codes "Unknown Interrupt"
    ∷ codes "Coprocessor Fault"
    ∷ codes "Alignment Check"
    ∷ codes "Machine Check"
    ∷ codes "Reserved"
    ∷ codes "Reserved"
    ∷ codes "Reserved"
    ∷ codes "Reserved"
    ∷ codes "Reserved"
    ∷ codes "Reserved"
    ∷ codes "Reserved"
    ∷ codes "Reserved"
    ∷ codes "Reserved"
    ∷ codes "Reserved"
    ∷ codes "Reserved"
    ∷ codes "Reserved"
    ∷ codes "Reserved"
    ∷ []

pub register_interrupt_handler : ℕ → ℕ → List ℕ → List ℕ
register_interrupt_handler n handler interrupt_handlers = set interrupt_handlers (u8 n) handler

-- The handler that is called, or none.
pub registered : ℕ → Option ℕ
registered handler = if handler == 0 then none else some handler

-- The text of an exception, and the handler that is called after it. `s` is the array for the number.
pub isr_handler : List ℕ → List ℕ → ℕ → Screen → Screen × Option ℕ
isr_handler s interrupt_handlers int_no screen =
    let s1 = kprint_debug (codes "interrupt received: ") light_red screen in
    let s2 = kprint_debug (decimal s int_no) light_red s1 in
    let s3 = kprint (10 ∷ []) s2 in
    let s4 = kprint_debug (get_or exception_messages int_no []) light_red s3 in
    (kprint (10 ∷ []) s4, registered (get_or interrupt_handlers int_no 0))

-- What goes to the controllers, and the handler that is called after it.
pub irq_handler : List ℕ → ℕ → List Out × Option ℕ
irq_handler interrupt_handlers int_no = (
  (if leb 40 int_no then byte_out 0xa0 0x20 ∷ byte_out 0x20 0x20 ∷ [] else byte_out 0x20 0x20 ∷ []),
  registered (get_or interrupt_handlers int_no 0),
)
