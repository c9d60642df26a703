-- ===== src/Libc/Kheap/Align.antt =====
-- `kmalloc` looks for a run of free bytes that begins on a page, and mostly finds one.
use james_os.Prelude.{
  ℕ, zero, suc, ◌+◌, ◌-◌, ◌*◌, ◌%◌, ◌≤◌, ◌<◌, ◌≡◌, ◌≢◌, ◌⊎◌, refl, ap, List, true, false, Option,
  some, none, ◌==◌, arith, inl, inr,
}
use mathlib.Core.Path.{subst, sym, ◌∙◌}
use native.Mathlib.Decide.{ℕ_discrete, dec_le}
use james_os.Prelude.Runs.{Run, Run-suc}
use james_os.Prelude.Bits.{bit_of}
use james_os.Libc.Kheap.{
  heap_loop, byte_loop, heap_base, kheap_init, Place, bitset_size, granted, kmalloc_any, kmalloc,
}
use james_os.Libc.Kheap.Fill.{bit_at}
use james_os.Libc.Kheap.Scan.{Rule, Enters, HeapDone, heap_loop-HeapDone}
use james_os.Libc.Kheap.First.{IsBitset, IsFree, IsGranted, granted-IsGranted}

module _ (bitset : List ℕ) where
  -- A run begins on a page, or within a byte of the bitset, just after a byte that is taken.
  abbrev pub Begins : ℕ → Type 0
  Begins s = (s % 0x1000 ≡ 0) ⊎ ((s % 8 ≢ 0) × (bit_at bitset (s - 1) ≢ 0))

  module _ (size : ℕ) where
    -- No free run that begins on a page ends by `k`.
    abbrev pub NoPageBy : ℕ → Type 0
    NoPageBy k = (j : ℕ) → j % 0x1000 ≡ 0 → j + size ≤ k → ¬ Run (IsFree bitset) j size

    record Counted (k count : ℕ) : Type 0 where
      behind : count ≤ k
      short : count < size
      run : Run (IsFree bitset) (k - count) count
      begins : 0 < count → Begins (k - count)
      after : count ≡ 0 → k % 8 ≢ 0 → bit_at bitset (k - 1) ≢ 0
      covers : (j : ℕ) → j % 0x1000 ≡ 0 → j ≤ k → Run (IsFree bitset) j (k - j) → k - j ≤ count
      no_page : NoPageBy k

    -- A whole run that is complete after bit `k`.
    record Whole (k : ℕ) : Type 0 where
      enough : size ≤ k + 1
      run : Run (IsFree bitset) (k + 1 - size) size
      begins : Begins (k + 1 - size)

    Begins-here :
        (k count : ℕ) → Counted k count → Enters true size bitset k count → Begins (k - count)
    Begins-here k zero c enters = elim (ℕ_discrete (k % 8) 0) [
      | yes e ↦ inl (omega (arith, enters refl e refl))
      | no ne ↦ inr (
        omega (arith, ne),
        subst (λ t. bit_at bitset (t - 1) ≢ 0) (omega arith) (c.after refl ne),
      )
    ]
    Begins-here k (suc n) c enters = c.begins (omega arith)

    Counted-hit :
        (k count : ℕ)
        → Counted k count
        → Enters true size bitset k count
        → IsFree bitset k
        → count + 1 < size
        → Counted (k + 1) (count + 1)
    Counted-hit k count c enters free short = record {
      behind = omega (arith, c.behind);
      short = short;
      run =
          subst (λ t. Run (IsFree bitset) t (count + 1)) same
            (Run-suc (IsFree bitset) k count c.behind c.run free);
      begins = λ _. subst Begins same (Begins-here k count c enters);
      after = λ z. absurd (omega arith);
      covers = covers';
      no_page = λ j page ends r. elim (dec_le (j + size) k) [
        | yes h ↦ c.no_page j page h r
        | no h ↦ absurd (
            omega
              (arith, h, c.covers j page (omega (arith, h)) (λ i lo hi. r i lo (omega (arith, h)))))
      ];
    }
      where
        same : k - count ≡ k + 1 - (count + 1)
        same = omega arith

        covers' :
            (j : ℕ)
            → j % 0x1000 ≡ 0
            → j ≤ k + 1
            → Run (IsFree bitset) j (k + 1 - j)
            → k + 1 - j ≤ count + 1
        covers' j page le r = elim (dec_le j k) [
          | yes h ↦ omega (arith, h, c.covers j page h (λ i lo hi. r i lo (omega (arith, h))))
          | no h ↦ omega (arith, h)
        ]

    Counted-miss : (k count : ℕ) → Counted k count → ¬ IsFree bitset k → Counted (k + 1) 0
    Counted-miss k count c taken = record {
      behind = omega arith;
      short = omega (arith, c.short);
      run = λ j lo hi. absurd (omega arith);
      begins = λ h. absurd (omega arith);
      after = λ z ne. subst (λ t. bit_at bitset t ≢ 0) (omega arith) taken;
      covers = λ j page le r. elim (dec_le j k) [
        | yes h ↦ absurd (taken (r k h (omega (arith, h))))
        | no h ↦ omega (arith, h)
      ];
      no_page = λ j page ends r. elim (dec_le (j + size) k) [
        | yes h ↦ c.no_page j page h r
        | no h ↦ taken (r k (omega (arith, h, c.short)) (omega (arith, h)))
      ];
    }

    Counted-skip : (k : ℕ) → k % 8 ≡ 0 → k % 0x1000 ≢ 0 → Counted k 0 → Counted (k + 8) 0
    Counted-skip k byte off c = record {
      behind = omega arith;
      short = c.short;
      run = λ j lo hi. absurd (omega arith);
      begins = λ h. absurd (omega arith);
      after = λ z ne. absurd (omega arith);
      covers = λ j page le r. elim (dec_le j k) [
        | yes h ↦
            absurd (omega (arith, h, c.covers j page h (λ i lo hi. r i lo (omega (arith, h)))))
        | no h ↦ omega (arith, h)
      ];
      no_page = λ j page ends r. elim (dec_le (j + size) k) [
        | yes h ↦ c.no_page j page h r
        | no h ↦ absurd (
            omega (
              arith,
              h,
              c.short,
              c.covers j page (omega (arith, h, c.short)) (λ i lo hi. r i lo (omega (arith, h))),
            ))
      ];
    }

    Whole-full :
        (k count : ℕ)
        → Counted k count
        → Enters true size bitset k count
        → IsFree bitset k
        → count + 1 ≡ size
        → Whole k
    Whole-full k count c enters free whole = record {
      enough = omega (arith, c.behind);
      run =
          subst (λ t. Run (IsFree bitset) t size) same
            (subst (λ t. Run (IsFree bitset) (k - count) t) whole
              (Run-suc (IsFree bitset) k count c.behind c.run free));
      begins = subst Begins same (Begins-here k count c enters);
    }
      where
        same : k - count ≡ k + 1 - size
        same = omega arith

    page_rule : Rule true size bitset Counted Whole
    page_rule = record {
      short = λ k count c. c.short;
      behind = λ k count c. c.behind;
      hit = Counted-hit;
      full = λ k count c e free whole lt. Whole-full k count c e free whole;
      miss = Counted-miss;
      skip = λ k a byte off c. Counted-skip k byte off c;
    }

    Counted-start : 0 < size → Counted 0 0
    Counted-start pos = record {
      behind = omega arith;
      short = pos;
      run = λ j lo hi. absurd (omega arith);
      begins = λ h. absurd (omega arith);
      after = λ z ne. absurd (omega arith);
      covers = λ j page le r. omega arith;
      no_page = λ j page ends r. omega arith;
    }

-- A run of free bytes is handed out that begins on a page or just after a taken byte, or there is
-- none that begins on a page and nothing changes.
abbrev pub PageFit : ℕ → List ℕ → ℕ × List ℕ → Type 0
PageFit size bitset result =
    ((start : ℕ) × Begins bitset start × IsGranted size bitset start result)
    ⊎ ((result ≡ (0, bitset)) × NoPageBy bitset size (8 * bitset_size))

granted-PageFit :
    (size : ℕ) (bitset : List ℕ) (o : Option Place)
    → IsBitset bitset
    → HeapDone true size bitset (Counted bitset size) (Whole bitset size) (page_rule bitset size) o
    → PageFit size bitset (granted size bitset o)
granted-PageFit size bitset none v (count, c) = inr (unfold granted in refl, c.no_page)
granted-PageFit size bitset (some p) v (w, at, lt) = inl (
  p.byte * 8 + p.bit + 1 - size,
  w.begins,
  granted-IsGranted size bitset p (p.byte * 8 + p.bit + 1 - size) v at (omega (arith, w.enough)) lt
      w.run,
)

-- `kmalloc` for at least one byte hands out `size` free bytes in a row, which are taken afterwards
-- while no other byte changes. They begin on a page, or at a position that is no multiple of 8 and
-- just after a taken byte. It returns 0, and changes nothing, only if no `size` free bytes in a
-- row begin on a page.
pub kmalloc-PageFit :
    (size : ℕ) (bitset : List ℕ)
    → 0 < size
    → IsBitset bitset
    → PageFit size bitset (kmalloc size bitset)
unfolding kmalloc kmalloc_any
kmalloc-PageFit size bitset pos v =
    let some_size : (size == 0) ≡ false = ground arith in
    rw some_size (
      granted-PageFit size bitset _ v (
        heap_loop-HeapDone true size bitset (Counted bitset size) (Whole bitset size)
          (page_rule bitset size) bitset_size 0 0 0 (omega arith) (omega arith)
          (Counted-start bitset size pos)))

-- Each byte of the bitset is all free or all taken.
abbrev pub WholeBytes : List ℕ → Type 0
WholeBytes bitset = (k : ℕ) → k % 8 ≢ 0 → bit_at bitset k ≡ bit_at bitset (k - 1)

-- Where the heap is taken and freed in multiples of 8 bytes, so that each byte of the bitset is
-- all free or all taken, the address that `kmalloc` returns for at least one byte is a multiple of
-- the page size.
pub kmalloc-page :
    (size : ℕ) (bitset : List ℕ)
    → 0 < size
    → IsBitset bitset
    → WholeBytes bitset
    → (kmalloc size bitset).0 % 0x1000 ≡ 0
kmalloc-page size bitset pos v whole =
    on_page (kmalloc size bitset) (kmalloc-PageFit size bitset pos v)
  where
    on_page : (r : ℕ × List ℕ) → PageFit size bitset r → r.0 % 0x1000 ≡ 0
    on_page r (inl (start, inl page, g)) = omega (arith, g.address)
    on_page r (inl (start, inr (ne, taken), g)) =
        absurd (taken (sym (whole start ne) ∙ g.was_free start (omega arith) (omega arith)))
    on_page r (inr (none_left, h)) = omega (arith, ap (λ (p : ℕ × List ℕ). p.0) none_left)

-- The first page of the empty heap.
pub kmalloc-kheap_init : (kmalloc 0x1000 kheap_init).0 ≡ heap_base
unfolding kheap_init kmalloc kmalloc_any heap_loop byte_loop granted bit_of
kmalloc-kheap_init = refl
