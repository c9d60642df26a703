-- ===== src/Libc/Kheap/First.antt =====
-- `kmalloc_u` is a first fit.
use james_os.Prelude.{
  ℕ, ◌+◌, ◌-◌, ◌*◌, ◌%◌, ◌^◌, ◌≤◌, ◌<◌, ◌≡◌, ◌⊎◌, refl, List, true, false, ◌&&◌, Option, some, none,
  ◌==◌, ltb, leb, if◌then◌else◌, arith, length, IsBytes, replicate-IsBytes, length-replicate,
  get_or-replicate, inl, inr, u32,
}
use james_os.Prelude.Bits.{bit_in, zero_bit}
use james_os.Prelude.Runs.{
  Run, NoneBy, Scanned, IsFirst, Scanned-start, Scanned-hit, Scanned-miss, Scanned-full,
}
use james_os.Libc.Kheap.{
  Place, bitset_size, heap_base, heap_limit, granted, kmalloc_any, kmalloc_u, kheap_init,
}
use james_os.Libc.Kheap.Fill.{bit_at, bit_at-fill, fill-keeps}
use james_os.Libc.Kheap.Scan.{Rule, HeapDone, heap_loop-HeapDone}

-- The state of the allocator: a byte for each eight bytes of the heap.
pub record IsBitset (bitset : List ℕ) : Type 0 where
  pub bytes : IsBytes bitset
  pub full_length : length bitset ≡ bitset_size

abbrev pub IsFree : List ℕ → ℕ → Type 0
IsFree bitset k = bit_at bitset k ≡ 0

-- The bytes from `start` on, `size` of them, are handed out: they lie in the heap, they were free,
-- they are taken now, and nothing else changes.
pub record IsGranted (size : ℕ) (bitset : List ℕ) (start : ℕ) (result : ℕ × List ℕ) : Type 0 where
  pub address : result.0 ≡ heap_base + start
  pub in_heap : result.0 + size ≤ heap_limit
  pub was_free : Run (IsFree bitset) start size
  pub now_taken :
      (q : ℕ)
      → bit_at result.1 q ≡ (if leb start q && ltb q (start + size) then 1 else bit_at bitset q)
  pub valid : IsBitset result.1

pub granted-IsGranted :
    (size : ℕ) (bitset : List ℕ) (p : Place) (start : ℕ)
    → IsBitset bitset
    → p.end ≡ p.byte * 8 + p.bit + 1
    → start + size ≡ p.byte * 8 + p.bit + 1
    → p.byte * 8 + p.bit < 8 * bitset_size
    → Run (IsFree bitset) start size
    → IsGranted size bitset start (granted size bitset (some p))
unfolding granted
granted-IsGranted size bitset p start v at ends lt free =
    let first : u32 (p.end + 2 ^ 32 - size) ≡ start = omega arith in
    let kept = fill-keeps true bitset start size v.bytes in
    rw first (record {
      address = omega arith;
      in_heap = omega arith;
      was_free = free;
      now_taken = λ q. bit_at-fill true bitset start size q v.bytes (omega (arith, v.full_length));
      valid = record { bytes = kept.0; full_length = omega (arith, kept.1, v.full_length) };
    })

first_rule :
    (size : ℕ) (bitset : List ℕ)
    → Rule false size bitset
        (Scanned (IsFree bitset) size)
        (λ k. IsFirst (IsFree bitset) size (8 * bitset_size) (k + 1 - size) × (size ≤ k + 1))
first_rule size bitset = record {
  short = λ k c s. s.short;
  behind = λ k c s. s.behind;
  hit = λ k c s e free more. Scanned-hit (IsFree bitset) size k c s free more;
  full = λ k c s e free whole lt. (
    Scanned-full (IsFree bitset) size (8 * bitset_size) k c s free whole lt,
    omega (arith, s.behind),
  );
  miss = λ k c s taken. Scanned-miss (IsFree bitset) size k c s taken;
  skip = λ k a. absurd (cc);
}

-- A first fit: the first run of free bytes is handed out, or there is none and nothing changes.
abbrev pub FirstFit : ℕ → List ℕ → ℕ × List ℕ → Type 0
FirstFit size bitset result =
    ((start : ℕ) × IsFirst (IsFree bitset) size (8 * bitset_size) start
      × IsGranted size bitset start result)
    ⊎ ((result ≡ (0, bitset)) × NoneBy (IsFree bitset) size (8 * bitset_size))

granted-FirstFit :
    (size : ℕ) (bitset : List ℕ) (o : Option Place)
    → IsBitset bitset
    → HeapDone false size bitset
        (Scanned (IsFree bitset) size)
        (λ k. IsFirst (IsFree bitset) size (8 * bitset_size) (k + 1 - size) × (size ≤ k + 1))
        (first_rule size bitset)
        o
    → FirstFit size bitset (granted size bitset o)
granted-FirstFit size bitset none v (count, s) = inr (unfold granted in refl, s.none_yet)
granted-FirstFit size bitset (some p) v ((first, enough), at, lt) = inl (
  p.byte * 8 + p.bit + 1 - size,
  first,
  granted-IsGranted size bitset p (p.byte * 8 + p.bit + 1 - size) v at (omega arith) lt first.run,
)

-- `kmalloc_u` for at least one byte hands out the first `size` free bytes in a row: they lie in
-- the heap, they were free and are taken afterwards, and no other byte of the heap changes. It
-- returns 0, and changes nothing, only if no `size` bytes in a row are free.
pub kmalloc_u-FirstFit :
    (size : ℕ) (bitset : List ℕ)
    → 0 < size
    → IsBitset bitset
    → FirstFit size bitset (kmalloc_u size bitset)
unfolding kmalloc_u kmalloc_any
kmalloc_u-FirstFit size bitset pos v =
    let some_size : (size == 0) ≡ false = ground arith in
    rw some_size (
      granted-FirstFit size bitset _ v (
        heap_loop-HeapDone false size bitset (Scanned (IsFree bitset) size) _
          (first_rule size bitset) bitset_size 0 0 0 (omega arith) (omega arith)
          (Scanned-start (IsFree bitset) size pos)))

pub kheap_init-IsBitset : IsBitset kheap_init
unfolding kheap_init
kheap_init-IsBitset = record {
  bytes = replicate-IsBytes bitset_size 0 (omega arith);
  full_length = length-replicate {A = ℕ} bitset_size 0;
}

pub bit_at-kheap_init : (k : ℕ) → bit_at kheap_init k ≡ 0
unfolding kheap_init bit_in
bit_at-kheap_init k = rw get_or-replicate (zero_bit (k % 8) (omega arith))
