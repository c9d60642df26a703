-- ===== src/Libc.antt =====
-- src/libc: bitmaps, the kernel heap, and the routines on memory.
pub mod Bitmap
pub mod Kheap
pub mod Minmax
pub mod Mem
pub mod Text
pub mod Paging
