-- ===== src/Cpu/Isr/Gates.antt =====
-- The gates that are installed.
use james_os.Prelude.{
  ℕ, suc, ◌+◌, ◌-◌, ◌*◌, ◌^◌, ◌/◌, ◌≤◌, ◌<◌, ◌≡◌, refl, sym, ◌∙◌, ap, List, [], ◌∷◌, true, false,
  ◌&&◌, Bool-cases, inl, inr, ltb, leb, ◌==◌, if◌then◌else◌, arith, length, get_or, get_or-set,
  length-set,
}
use mathlib.Core.Path.{subst}
use james_os.Prelude.Binary.{bit_and_ones}
use james_os.Cpu.Isr.{IdtGate, low_16, high_16, set_idt_gate, set_gates, isr_install}

abbrev gate : ℕ → IdtGate
gate handler = record {
  low_offset = low_16 handler;
  sel = 0x08;
  always0 = 0;
  flags = 0x8e;
  high_offset = high_16 handler;
}

set_gates-lem :
    (handlers : List ℕ) (n : ℕ) (idt : List IdtGate) (q : ℕ) (d : IdtGate)
    → n + length handlers ≤ length idt
    → get_or (set_gates n handlers idt) q d ≡ (
        if leb n q && ltb q (n + length handlers)
        then gate (get_or handlers (q - n) 0)
        else get_or idt q d)
unfolding set_gates set_idt_gate
set_gates-lem [] n idt q d fits =
    let none_there : (leb n q && ltb q (n + 0)) ≡ false = ground arith in rw none_there refl
set_gates-lem (h ∷ handlers) n idt q d fits =
    let ih =
      set_gates-lem handlers (n + 1) (set_idt_gate n h idt) q d
        (omega (arith, fits, length-set idt n (gate h))) in
    let one = get_or-set idt n q (gate h) d (omega (arith, fits)) in
    elim (Bool-cases (n == q)) [
      | inl here ↦
          let place : q - n ≡ 0 = ground (arith, here) in
          let later : leb (n + 1) q ≡ false = ground (arith, here) in
          let within : (leb n q && ltb q (n + suc (length handlers))) ≡ true =
            ground (arith, here) in
          rw (place, within) (ih ∙ rw (later) (one ∙ rw here refl))
      | inr other ↦ elim (Bool-cases (leb n q)) [
        | inl behind ↦
            let place : q - n ≡ suc (q - (n + 1)) = ground (arith, behind, other) in
            let later : leb (n + 1) q ≡ true = ground (arith, behind, other) in
            let same : ltb q (n + suc (length handlers)) ≡ ltb q (n + 1 + length handlers) =
              ap (ltb q) (omega arith) in
            rw (place, behind, same)
              (ih
                ∙ rw later (
                    ap
                      (λ (g : IdtGate).
                        if ltb q (n + 1 + length handlers)
                        then gate (get_or handlers (q - (n + 1)) 0)
                        else g)
                      (one ∙ rw other refl)))
        | inr before ↦
            let later : leb (n + 1) q ≡ false = ground (arith, before) in
            rw before (ih ∙ rw later (one ∙ rw other refl))
      ]
    ]

-- The two halves of an address of 32 bits.
halves : (address : ℕ) → address < 2 ^ 32 → low_16 address + high_16 address * 2 ^ 16 ≡ address
unfolding low_16 high_16
halves address lt = omega (arith, bit_and_ones 16 address, bit_and_ones 16 (address / 2 ^ 16), lt)

-- A gate that leads to the handler at `address`.
pub record LeadsTo (address : ℕ) (g : IdtGate) : Type 0 where
  pub halves : g.low_offset + g.high_offset * 2 ^ 16 ≡ address
  pub sel : g.sel ≡ 0x08
  pub flags : g.flags ≡ 0x8e

gate-LeadsTo : (address : ℕ) → address < 2 ^ 32 → LeadsTo address (gate address)
gate-LeadsTo address lt = record { halves = halves address lt; sel = refl; flags = refl }

length-set_gates :
    (handlers : List ℕ) (n : ℕ) (idt : List IdtGate)
    → length (set_gates n handlers idt) ≡ length idt
unfolding set_gates set_idt_gate
length-set_gates [] n idt = refl
length-set_gates (h ∷ handlers) n idt =
    length-set_gates handlers (n + 1) (set_idt_gate n h idt) ∙ length-set idt n (gate h)

-- After `isr_install` on a table of 256 gates, the gates 0 to 31 lead to the entry points `isr0`
-- to `isr31` and the gates 32 to 47 to `irq0` to `irq15`, in order, and the gates after them are
-- as before. There are 32 and 16 entry points, at addresses of 32 bits.
pub isr_install-LeadsTo :
    (isr irq : List ℕ) (idt : List IdtGate) (d : IdtGate)
    → length isr ≡ 32
    → length irq ≡ 16
    → length idt ≡ 256
    → ((q : ℕ) → get_or isr q 0 < 2 ^ 32)
    → ((q : ℕ) → get_or irq q 0 < 2 ^ 32)
    → ((q : ℕ) → q < 32 → LeadsTo (get_or isr q 0) (get_or (isr_install isr irq idt).0 q d))
      × ((q : ℕ)
          → q < 16
          → LeadsTo (get_or irq q 0) (get_or (isr_install isr irq idt).0 (32 + q) d))
      × ((q : ℕ) → 48 ≤ q → get_or (isr_install isr irq idt).0 q d ≡ get_or idt q d)
unfolding isr_install
isr_install-LeadsTo isr irq idt d n_isr n_irq n_idt wide wide' =
    let first = λ (q : ℕ). set_gates-lem isr 0 idt q d (omega (arith, n_isr, n_idt)) in
    let second = λ (q : ℕ).
      set_gates-lem irq 32 (set_gates 0 isr idt) q d
        (omega (arith, n_irq, n_idt, length-set_gates isr 0 idt)) in
    (
      λ q lt.
          let early : (leb 32 q && ltb q (32 + length irq)) ≡ false = ground (arith, lt) in
          let inside : (leb 0 q && ltb q (0 + length isr)) ≡ true = ground (arith, lt, n_isr) in
          let place : q - 0 ≡ q = omega arith in
          subst (LeadsTo (get_or isr q 0))
            (sym (second q ∙ rw early (first q ∙ rw (inside, place) refl)))
            (gate-LeadsTo (get_or isr q 0) (wide q)),
      λ q lt.
          let inside : (leb 32 (32 + q) && ltb (32 + q) (32 + length irq)) ≡ true =
            ground (arith, lt, n_irq) in
          let place : 32 + q - 32 ≡ q = omega arith in
          subst (LeadsTo (get_or irq q 0)) (sym (second (32 + q) ∙ rw (inside, place) refl))
            (gate-LeadsTo (get_or irq q 0) (wide' q)),
      λ q le.
          let late : (leb 32 q && ltb q (32 + length irq)) ≡ false = ground (arith, le, n_irq) in
          let late' : (leb 0 q && ltb q (0 + length isr)) ≡ false = ground (arith, le, n_isr) in
          second q ∙ rw late (first q ∙ rw late' refl),
    )
