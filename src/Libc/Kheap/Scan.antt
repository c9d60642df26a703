-- ===== src/Libc/Kheap/Scan.antt =====
-- A rule for the two loops of `_kmalloc`: what holds of the place and of `count` at each bit.
use james_os.Prelude.{
  ℕ, zero, suc, ◌+◌, ◌*◌, ◌/◌, ◌%◌, ◌≤◌, ◌<◌, ◌≡◌, ◌≢◌, refl, List, Bool, true, false, not, ◌&&◌,
  Option, some, none, ◌==◌, arith, get_or, Bool-cases, inl, inr, ==→eq, ==→ne, u32,
}
use mathlib.Core.Path.{subst, sym}
use james_os.Prelude.Bits.{bit_of, bit_in}
use james_os.Libc.Kheap.{ByteScan, found, going, byte_loop, Place, heap_loop, bitset_size}
use james_os.Libc.Kheap.Fill.{bit_at}

module _ (align : Bool) (size : ℕ) (bitset : List ℕ) where
  -- At the first bit of a byte, an aligned scan with no run begins only on a page.
  abbrev pub Enters : ℕ → ℕ → Type 0
  Enters k count = align ≡ true → k % 8 ≡ 0 → count ≡ 0 → k % 0x1000 ≡ 0

  -- `Inv k count` holds before bit `k`, and `Ok k` after the bit at which a run is whole.
  pub record Rule (Inv : ℕ → ℕ → Type 0) (Ok : ℕ → Type 0) : Type 0 where
    pub short : (k count : ℕ) → Inv k count → count < size
    pub behind : (k count : ℕ) → Inv k count → count ≤ k
    pub hit :
        (k count : ℕ)
        → Inv k count
        → Enters k count
        → bit_at bitset k ≡ 0
        → count + 1 < size
        → Inv (k + 1) (count + 1)
    pub full :
        (k count : ℕ)
        → Inv k count
        → Enters k count
        → bit_at bitset k ≡ 0
        → count + 1 ≡ size
        → k < 8 * bitset_size
        → Ok k
    pub miss : (k count : ℕ) → Inv k count → bit_at bitset k ≢ 0 → Inv (k + 1) 0
    pub skip : (k : ℕ) → align ≡ true → k % 8 ≡ 0 → k % 0x1000 ≢ 0 → Inv k 0 → Inv (k + 8) 0

  module _ (Inv : ℕ → ℕ → Type 0) (Ok : ℕ → Type 0) (rule : Rule Inv Ok) where
    -- What the scan of byte `i` leaves.
    abbrev ByteDone : ℕ → ByteScan → Type 0
    ByteDone i (found j end) = Ok (i * 8 + j) × (end ≡ i * 8 + j + 1) × (j < 8)
    ByteDone i (going count end) = Inv (i * 8 + 8) count × (end ≡ i * 8 + 8)

    bit_at_byte : (i j : ℕ) → j < 8 → bit_of (get_or bitset i 0) j ≡ bit_at bitset (i * 8 + j)
    bit_at_byte i j h =
        let e : (i * 8 + j) / 8 ≡ i = omega arith in
        let f : (i * 8 + j) % 8 ≡ j = omega arith in rw (e, f) (unfold bit_in in refl)

    byte_loop-ByteDone :
        (i left j count end : ℕ)
        → j + left ≡ 8
        → i < bitset_size
        → end ≡ i * 8 + j
        → Inv (i * 8 + j) count
        → (0 < left → Enters (i * 8 + j) count)
        → ByteDone i (byte_loop size (get_or bitset i 0) j count end left)
    unfolding byte_loop
    byte_loop-ByteDone i zero j count end e lt at inv enters =
        let last : i * 8 + j ≡ i * 8 + 8 = omega arith in
        (subst (λ t. Inv t count) last inv, omega arith)
    byte_loop-ByteDone i (suc left) j count end e lt at inv enters =
        let k = i * 8 + j in
        let steps : k + 1 ≡ i * 8 + (j + 1) = omega arith in
        let end' : u32 (end + 1) ≡ i * 8 + (j + 1) = omega arith in
        let count' : u32 (count + 1) ≡ count + 1 = omega (arith, rule.behind k count inv) in
        let later : (c : ℕ) → 0 < left → Enters (i * 8 + (j + 1)) c =
          λ c h a z b. absurd (omega arith) in
        let none_is_whole : (0 == size) ≡ false = ground (arith, rule.short k count inv) in
        let enter : Enters k count = enters (omega arith) in
        rw (bit_at_byte i j (omega arith), end', count')
          (elim (Bool-cases (bit_at bitset k == 0)) [
            | inl free ↦ rw free (elim (Bool-cases (count + 1 == size)) [
              | inl whole ↦ rw whole (
                rule.full k count inv enter (==→eq _ _ free) (==→eq _ _ whole) (omega arith),
                omega arith,
                omega arith,
              )
              | inr more ↦ rw more (
                  byte_loop-ByteDone i left (j + 1) (count + 1) (i * 8 + (j + 1)) (omega arith) lt
                    refl
                    (subst (λ t. Inv t (count + 1)) steps
                      (rule.hit k count inv enter (==→eq _ _ free)
                        (omega (arith, rule.short k count inv, ==→ne _ _ more))))
                    (later (count + 1)))
            ])
            | inr taken ↦
                rw (taken, none_is_whole)
                  (byte_loop-ByteDone i left (j + 1) 0 (i * 8 + (j + 1)) (omega arith) lt refl
                    (subst (λ t. Inv t 0) steps (rule.miss k count inv (==→ne _ _ taken)))
                    (later 0))
          ])

    -- What the whole scan leaves.
    abbrev pub HeapDone : Option Place → Type 0
    HeapDone none = (count : ℕ) × Inv (8 * bitset_size) count
    HeapDone (some p) =
        Ok (p.byte * 8 + p.bit)
        × (p.end ≡ p.byte * 8 + p.bit + 1)
        × (p.byte * 8 + p.bit < 8 * bitset_size)

    -- The test that passes over a byte.
    abbrev passes : ℕ → ℕ → Bool
    passes k count = align && (count == 0) && not (k % 0x1000 == 0) && not (k == 0)

    passes-true :
        (k count : ℕ) → passes k count ≡ true → (align ≡ true) × (count ≡ 0) × (k % 0x1000 ≢ 0)
    passes-true k count h = ground arith

    passes-false : (k count : ℕ) → passes k count ≡ false → Enters k count
    passes-false k count h a z c = ground arith

    ByteDone-next :
        (i : ℕ) (scan : ByteScan) (rest : ℕ → ℕ → Option Place)
        → i < bitset_size
        → ByteDone i scan
        → ((count end : ℕ)
            → Inv ((i + 1) * 8) count
            → end ≡ (i + 1) * 8
            → HeapDone (rest count end))
        → HeapDone (elim scan [
          | found j end ↦ some (record { byte = i; bit = j; end = end })
          | going count end ↦ rest count end
        ])
    ByteDone-next i (found j end) rest lt done next = (done.0, done.1, omega (arith, done.2))
    ByteDone-next i (going count end) rest lt done next =
        let step : i * 8 + 8 ≡ (i + 1) * 8 = omega arith in
        next count end (subst (λ t. Inv t count) step done.0) (omega (arith, done.1))

    pub heap_loop-HeapDone :
        (left i count end : ℕ)
        → i + left ≡ bitset_size
        → end ≡ i * 8
        → Inv (i * 8) count
        → HeapDone (heap_loop align size bitset i count end left)
    unfolding heap_loop
    heap_loop-HeapDone zero i count end e at inv =
        let last : i * 8 ≡ 8 * bitset_size = omega arith in
        (count, subst (λ t. Inv t count) last inv)
    heap_loop-HeapDone (suc left) i count end e at inv =
        let bits : u32 (i * 8) ≡ i * 8 = omega arith in
        let end' : u32 (end + 8) ≡ (i + 1) * 8 = omega arith in
        let step : i * 8 + 8 ≡ (i + 1) * 8 = omega arith in
        let first : i * 8 ≡ i * 8 + 0 = omega arith in
        rw (bits, end')
          (elim (Bool-cases (passes (i * 8) count)) [
            | inl over ↦
                let (aligned, empty, off) = passes-true (i * 8) count over in
                let inv' : Inv (i * 8) 0 = subst (λ t. Inv (i * 8) t) empty inv in
                rw over (
                  heap_loop-HeapDone left (i + 1) count ((i + 1) * 8) (omega arith) refl (
                    subst (λ t. Inv ((i + 1) * 8) t) (sym empty)
                      (subst (λ t. Inv t 0) step
                        (rule.skip (i * 8) aligned (omega arith) off inv'))))
            | inr here ↦
                let enters : Enters (i * 8) count = passes-false (i * 8) count here in
                rw here (
                  ByteDone-next i _ (λ c e'. heap_loop align size bitset (i + 1) c e' left)
                    (omega arith)
                    (byte_loop-ByteDone i 8 0 count end refl (omega arith) (omega arith)
                      (subst (λ t. Inv t count) first inv)
                      (λ _. subst (λ t. Enters t count) first enters))
                    (λ c e' h g. heap_loop-HeapDone left (i + 1) c e' (omega arith) g h))
          ])
