-- ===== src/Libc/Kheap/Free.antt =====
-- `kfree` gives back what was handed out.
use james_os.Prelude.{
  ℕ, zero, suc, ◌+◌, ◌-◌, ◌*◌, ◌/◌, ◌%◌, ◌^◌, ◌≤◌, ◌<◌, ◌≡◌, ◌≢◌, ◌⊎◌, ap, List, Bool, true, false,
  ◌&&◌, ltb, leb, if◌then◌else◌, arith, inl, inr, u32,
}
use james_os.Prelude.Bits.{bit_in, bit_in_ext}
use james_os.Libc.Kheap.{heap_base, kmalloc_any, kmalloc_u, kmalloc, kfree}
use james_os.Libc.Kheap.Fill.{bit_at, bit_at-fill, fill-keeps}
use james_os.Libc.Kheap.First.{IsBitset, IsGranted, kmalloc_u-FirstFit}
use james_os.Libc.Kheap.Align.{kmalloc-PageFit}

bit_at_ext :
    (xs ys : List ℕ) → IsBitset xs → IsBitset ys → ((q : ℕ) → bit_at xs q ≡ bit_at ys q) → xs ≡ ys
bit_at_ext xs ys vx vy h =
    bit_in_ext xs ys vx.bytes vy.bytes (omega (arith, vx.full_length, vy.full_length)) same
  where
    same : (i b : ℕ) → b < 8 → bit_in xs i b ≡ bit_in ys i b
    same i b l =
        let byte : (i * 8 + b) / 8 ≡ i = omega arith in
        let bit : (i * 8 + b) % 8 ≡ b = omega arith in rw (byte, bit) at (h (i * 8 + b))

pub kfree-IsBitset :
    (addr size : ℕ) (bitset : List ℕ) → IsBitset bitset → IsBitset (kfree addr size bitset)
unfolding kfree
kfree-IsBitset addr size bitset v =
    let kept = fill-keeps false bitset (u32 (addr + 2 ^ 32 - heap_base)) size v.bytes in
    record { bytes = kept.0; full_length = omega (arith, kept.1, v.full_length) }

-- `kfree` sets the bits of `size` bytes from `addr` on to free, and no others.
pub bit_at-kfree :
    (addr size : ℕ) (bitset : List ℕ) (q : ℕ)
    → IsBitset bitset
    → heap_base ≤ addr
    → addr + size ≤ 0x200000
    → bit_at (kfree addr size bitset) q
      ≡ (if leb (addr - heap_base) q && ltb q (addr - heap_base + size) then 0 else bit_at bitset q)
unfolding kfree
bit_at-kfree addr size bitset q v lo hi =
    let first : u32 (addr + 2 ^ 32 - heap_base) ≡ addr - heap_base = omega arith in
    rw first
      (bit_at-fill false bitset (addr - heap_base) size q v.bytes (omega (arith, v.full_length)))

kfree-IsGranted :
    (size : ℕ) (bitset : List ℕ) (start : ℕ) (r : ℕ × List ℕ)
    → IsBitset bitset
    → IsGranted size bitset start r
    → kfree r.0 size r.1 ≡ bitset
kfree-IsGranted size bitset start r v g =
    bit_at_ext _ _ (kfree-IsBitset r.0 size r.1 g.valid) v λ q. ground (
      arith,
      bit_at-kfree r.0 size r.1 q g.valid (omega (arith, g.address)) (omega (arith, g.in_heap)),
      g.now_taken q,
      g.was_free q,
      g.address,
    )

-- Both allocators hand out a run, or return 0.
kmalloc_any-IsGranted :
    (align : Bool) (size : ℕ) (bitset : List ℕ)
    → 0 < size
    → IsBitset bitset
    → ((start : ℕ) × IsGranted size bitset start (kmalloc_any align size bitset))
      ⊎ (kmalloc_any align size bitset ≡ (0, bitset))
unfolding kmalloc_u kmalloc
kmalloc_any-IsGranted true size bitset pos v = elim (kmalloc-PageFit size bitset pos v) [
  | inl (start, _, g) ↦ inl (start, g)
  | inr (e, _) ↦ inr e
]
kmalloc_any-IsGranted false size bitset pos v = elim (kmalloc_u-FirstFit size bitset pos v) [
  | inl (start, _, g) ↦ inl (start, g)
  | inr (e, _) ↦ inr e
]

kmalloc_any-some :
    (align : Bool) (size : ℕ) (bitset : List ℕ)
    → 0 < size
    → IsBitset bitset
    → (kmalloc_any align size bitset).0 ≢ 0
    → (start : ℕ) × IsGranted size bitset start (kmalloc_any align size bitset)
kmalloc_any-some align size bitset pos v ne = elim (kmalloc_any-IsGranted align size bitset pos v) [
  | inl g ↦ g
  | inr e ↦ absurd (ne (ap (λ (p : ℕ × List ℕ). p.0) e))
]

-- The operations keep the state well formed: a bitset of the full length made of bytes. The
-- fresh heap is one.
pub kmalloc_any-IsBitset :
    (align : Bool) (size : ℕ) (bitset : List ℕ)
    → IsBitset bitset
    → IsBitset (kmalloc_any align size bitset).1
kmalloc_any-IsBitset align zero bitset v = unfold kmalloc_any in v
kmalloc_any-IsBitset align (suc n) bitset v =
    elim (kmalloc_any-IsGranted align (suc n) bitset (omega arith) v) [
      | inl (start, g) ↦ g.valid
      | inr e ↦ rw e v
    ]

-- Freeing what `kmalloc` or `kmalloc_u` has just handed out, with the size that was asked for,
-- gives back the bitset as it was.
pub kfree-kmalloc_any :
    (align : Bool) (size : ℕ) (bitset : List ℕ)
    → 0 < size
    → IsBitset bitset
    → (kmalloc_any align size bitset).0 ≢ 0
    → kfree (kmalloc_any align size bitset).0 size (kmalloc_any align size bitset).1 ≡ bitset
kfree-kmalloc_any align size bitset pos v ne =
    let (start, g) = kmalloc_any-some align size bitset pos v ne in
    kfree-IsGranted size bitset start _ v g

-- Two blocks handed out one after the other, each of at least one byte, do not overlap.
pub kmalloc_any_apart :
    (align align' : Bool) (size size' : ℕ) (bitset : List ℕ)
    → 0 < size
    → 0 < size'
    → IsBitset bitset
    → (kmalloc_any align size bitset).0 ≢ 0
    → let (a, bitset') = kmalloc_any align size bitset in
      let b = (kmalloc_any align' size' bitset').0 in b ≢ 0 → (a + size ≤ b) ⊎ (b + size' ≤ a)
kmalloc_any_apart align align' size size' bitset pos pos' v ne ne' =
    let (s, g) = kmalloc_any-some align size bitset pos v ne in
    let (s', g') = kmalloc_any-some align' size' _ pos' g.valid ne' in
    ground
      (arith, g.address, g'.address, g.now_taken s, g.now_taken s', g'.was_free s, g'.was_free s')
