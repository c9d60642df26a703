-- ===== src/Libc/Kheap.antt =====
-- src/libc/kheap.c: the kernel heap. A bit for each byte of the heap tells whether it is taken;
-- the bits stand in the bytes from BITSET_BASE up to BITSET_LIMIT, and are the allocator's state.
pub mod Fill
pub mod Scan
pub mod First
pub mod Align
pub mod Free
mod Tests
use james_os.Prelude.{
  ℕ, zero, suc, ◌+◌, ◌-◌, ◌*◌, ◌/◌, ◌%◌, ◌^◌, List, Option, none, some, Bool, true, false, not,
  ◌&&◌, ◌==◌, if◌then◌else◌, get_or, u32, replicate,
}
use james_os.Prelude.Bits.{bit_of, or_bit_in, and_not_bit_in}

abbrev pub bitset_base : ℕ
bitset_base = 0x100000

abbrev pub bitset_limit : ℕ
bitset_limit = 0x11c200

abbrev pub heap_base : ℕ
heap_base = 0x11f000

abbrev pub heap_limit : ℕ
heap_limit = 0x200000

-- `bitset_limit - bitset_base`, the number of bytes of the bitset.
abbrev pub bitset_size : ℕ
bitset_size = bitset_limit - bitset_base

-- `kheap_init`, on whatever the memory held: all of the heap is free.
pub kheap_init : List ℕ
kheap_init = replicate bitset_size 0

-- The loop of `fill`, with `left` rounds to go from bit `i` on.
pub fill_loop : Bool → List ℕ → ℕ → ℕ → List ℕ
fill_loop value bitset i zero = bitset
fill_loop value bitset i (suc left) =
    let byte = i / 8 in
    let offset = i % 8 in
    fill_loop value
      (if value then or_bit_in bitset byte offset else and_not_bit_in bitset byte offset) (i + 1)
      left

pub fill : Bool → List ℕ → ℕ → ℕ → List ℕ
fill value bitset begin size = fill_loop value bitset begin size

-- How the scan of a byte ends: at bit `j`, with a whole run and the value of `end`; or at the last
-- bit, with the values of `count` and `end`.
pub data ByteScan : Type 0 where
  found : ℕ → ℕ → ByteScan
  going : ℕ → ℕ → ByteScan

-- The inner loop of `_kmalloc` over the bits of a byte, from bit `j` on with `left` to go.
pub byte_loop : ℕ → ℕ → ℕ → ℕ → ℕ → ℕ → ByteScan
byte_loop size byte j count end zero = going count end
byte_loop size byte j count end (suc left) =
    let end' = u32 (end + 1) in
    let count' = if bit_of byte j == 0 then u32 (count + 1) else 0 in
    let rest = byte_loop size byte (j + 1) count' end' left in
    if count' == size then found j end' else rest

-- A whole run: the byte and the bit at which it was complete, and `end`.
pub record Place : Type 0 where
  pub byte : ℕ
  pub bit : ℕ
  pub end : ℕ

-- The outer loop of `_kmalloc` over the bytes of the bitset, from byte `i` on with `left` to go.
pub heap_loop : Bool → ℕ → List ℕ → ℕ → ℕ → ℕ → ℕ → Option Place
heap_loop align size bitset i count end zero = none
heap_loop align size bitset i count end (suc left) =
    let bits = u32 (i * 8) in
    let skip = heap_loop align size bitset (i + 1) count (u32 (end + 8)) left in
    let scan : Option Place = elim (byte_loop size (get_or bitset i 0) 0 count end 8) [
      | found j end' ↦ some (record { byte = i; bit = j; end = end' })
      | going count' end' ↦ heap_loop align size bitset (i + 1) count' end' left
    ] in
    if align && (count == 0) && not (bits % 0x1000 == 0) && not (bits == 0) then skip else scan

-- The bits to set and the address that is returned, from where the run was complete.
pub granted : ℕ → List ℕ → Option Place → ℕ × List ℕ
granted size bitset none = (0, bitset)
granted size bitset (some p) = (
  u32 (p.byte * 8 + (p.bit + 1) + heap_base + 2 ^ 32 - size),
  fill true bitset (u32 (p.end + 2 ^ 32 - size)) size,
)

-- `_kmalloc`: the address, 0 for none, and the new bitset.
pub kmalloc_any : Bool → ℕ → List ℕ → ℕ × List ℕ
kmalloc_any align size bitset =
    if size == 0
    then (0, bitset)
    else granted size bitset (heap_loop align size bitset 0 0 0 bitset_size)

pub kmalloc_u : ℕ → List ℕ → ℕ × List ℕ
kmalloc_u size bitset = kmalloc_any false size bitset

pub kmalloc : ℕ → List ℕ → ℕ × List ℕ
kmalloc size bitset = kmalloc_any true size bitset

pub kfree : ℕ → ℕ → List ℕ → List ℕ
kfree addr size bitset = fill false bitset (u32 (addr + 2 ^ 32 - heap_base)) size
