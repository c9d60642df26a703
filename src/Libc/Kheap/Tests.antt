-- ===== src/Libc/Kheap/Tests.antt =====
-- Runs of the allocator, and its theorems on the fresh heap.
use james_os.Prelude.{◌+◌, ◌≤◌, ◌≡◌, ◌≢◌, ◌⊎◌, refl, arith, false, true}
use james_os.Prelude.Bits.{bit_of, or_bit, or_bit_in}
use james_os.Libc.Kheap.{
  kheap_init, kmalloc_any, kmalloc_u, kmalloc, kfree, byte_loop, heap_loop, granted, fill,
  fill_loop, heap_base,
}
use james_os.Libc.Kheap.First.{FirstFit, kmalloc_u-FirstFit, kheap_init-IsBitset}
use james_os.Libc.Kheap.Align.{PageFit, kmalloc-PageFit}
use james_os.Libc.Kheap.Free.{kfree-kmalloc_any, kmalloc_any_apart}

-- `kmalloc` after one byte was taken: the address is no multiple of the page size.
kmalloc_off_page : (kmalloc 0x1000 (kmalloc_u 1 kheap_init).1).0 ≡ heap_base + 1
unfolding kheap_init kmalloc_u kmalloc kmalloc_any heap_loop byte_loop granted fill fill_loop bit_of
    or_bit or_bit_in
kmalloc_off_page = refl

kmalloc_u-FirstFit_example : FirstFit 100 kheap_init (kmalloc_u 100 kheap_init)
kmalloc_u-FirstFit_example = kmalloc_u-FirstFit 100 kheap_init (omega arith) kheap_init-IsBitset

kmalloc-PageFit_example : PageFit 512 kheap_init (kmalloc 512 kheap_init)
kmalloc-PageFit_example = kmalloc-PageFit 512 kheap_init (omega arith) kheap_init-IsBitset

some_block : (kmalloc_any false 100 kheap_init).0 ≢ 0
unfolding kheap_init kmalloc_any heap_loop byte_loop granted fill fill_loop bit_of or_bit or_bit_in
some_block = omega arith

second_block : (kmalloc_any true 4 (kmalloc_any false 100 kheap_init).1).0 ≢ 0
unfolding kheap_init kmalloc_any heap_loop byte_loop granted fill fill_loop bit_of or_bit or_bit_in
second_block = omega arith

kfree-kmalloc_any_example :
    kfree (kmalloc_any false 100 kheap_init).0 100 (kmalloc_any false 100 kheap_init).1 ≡ kheap_init
kfree-kmalloc_any_example =
    kfree-kmalloc_any false 100 kheap_init (omega arith) kheap_init-IsBitset some_block

kmalloc_any_apart_example :
    let (a, bitset) = kmalloc_any false 100 kheap_init in
    let b = (kmalloc_any true 4 bitset).0 in (a + 100 ≤ b) ⊎ (b + 4 ≤ a)
kmalloc_any_apart_example =
    kmalloc_any_apart false true 100 4 kheap_init (omega arith) (omega arith) kheap_init-IsBitset
      some_block second_block
