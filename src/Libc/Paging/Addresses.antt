-- ===== src/Libc/Paging/Addresses.antt =====
-- Addresses and their pages.
use james_os.Prelude.{
  ℕ, ◌+◌, ◌*◌, ◌/◌, ◌%◌, ◌^◌, ◌<◌, ◌≡◌, ◌≢◌, refl, true, false, Bool-cases, some, inl, inr, ◌↔◌,
  ◌==◌, arith, length, get_or, get_or-set, bit_and, bit_or, ◌<<<◌, u32,
}
use james_os.Prelude.Binary.{bit_and_ones, bit_and_shifted, bit_or_disjoint}
use james_os.Libc.Kheap.{kmalloc}
use james_os.Libc.Paging.{
  Memory, Page, PageDirectory, page_entry, find_page, frame_address, virtual2phys, get_page,
}

-- The address that is put together from a frame and an address: the low 8 bits of the frame are
-- replaced by bits of the address.
frame_and_offset :
    (frame virt_addr : ℕ)
    → frame < 2 ^ 20
    → bit_or (bit_and (u32 (frame <<< 12)) 0xfff00000) (bit_and virt_addr 0xfffff)
      ≡ frame / 256 * 2 ^ 20 + virt_addr % 2 ^ 20
frame_and_offset frame virt_addr lt =
    let narrow : u32 (frame <<< 12) ≡ frame * 4096 = omega (arith, lt) in
    let high : bit_and (frame * 4096) 0xfff00000 ≡ frame / 256 * 2 ^ 20 = omega (
      arith,
      bit_and_shifted 20 (frame * 4096) 0xfff,
      bit_and_ones 12 (frame * 4096 / 2 ^ 20),
      lt,
    ) in
    let low = bit_and_ones 20 virt_addr in
    rw (narrow, high, low) (bit_or_disjoint 20 (frame / 256) (virt_addr % 2 ^ 20) (omega arith))

-- With paging on, the physical address that `virtual2phys` gives for an address in a page that is
-- present, with a frame below 2 ^ 20, is the address in that frame if and only if the low 8 bits
-- of the frame's number are those of the page's number.
pub virtual2phys-right :
    (dir : PageDirectory) (virt_addr : ℕ) (m : Memory) (page : Page)
    → m.page_enabled ≡ true
    → find_page virt_addr dir ≡ some page
    → (page_entry page m).present ≢ 0
    → (page_entry page m).frame < 2 ^ 20
    → (virtual2phys dir virt_addr m ≡ (page_entry page m).frame * 4096 + virt_addr % 4096)
      ↔ ((page_entry page m).frame % 256 ≡ virt_addr / 4096 % 256)
unfolding virtual2phys frame_address page_entry
virtual2phys-right dir virt_addr m page on found there lt =
    let present : ((page_entry page m).present == 0) ≡ false = ground (arith, there) in
    rw (on, found, present, frame_and_offset (page_entry page m).frame virt_addr lt)
      (λ e. omega (arith, e), λ e. omega (arith, e))

-- With `make`, where the address has a place in the directory and the heap has a block for a page
-- table, `get_page` gives a page; it is the one that the address has from then on, and the pages
-- of the addresses in other page tables are as before.
pub get_page-found :
    (address : ℕ) (dir : PageDirectory) (m : Memory)
    → address / 0x1000 / 1024 < length dir.tables
    → (kmalloc 4096 m.heap).0 ≢ 0
    → ((page : Page) × ((get_page address true dir m).0 ≡ some page)
        × (find_page address (get_page address true dir m).1 ≡ some page))
      × ((other : ℕ)
          → other / 0x1000 / 1024 ≢ address / 0x1000 / 1024
          → find_page other (get_page address true dir m).1 ≡ find_page other dir)
unfolding get_page find_page
get_page-found address dir m inside made =
    let idx = address / 0x1000 / 1024 in
    let table = (kmalloc 4096 m.heap).0 in
    let new = λ (i : ℕ). get_or-set dir.tables idx i table 0 inside in
    let self : (idx == idx) ≡ true = ground arith in
    let there : (table == 0) ≡ false = ground (arith, made) in
    elim (Bool-cases (get_or dir.tables idx 0 == 0)) [
      | inl missing ↦ rw missing (
          rw (new idx, self, there)
            (
              (record { table = table; index = address / 0x1000 % 1024 }, refl, refl),
              λ other apart.
                  let away : (idx == other / 0x1000 / 1024) ≡ false = ground (arith, apart) in
                  rw (new (other / 0x1000 / 1024), away) refl,
            ))
      | inr has ↦ rw has (
        (
          record { table = get_or dir.tables idx 0; index = address / 0x1000 % 1024 },
          refl,
          rw has refl,
        ),
        λ other apart. refl,
      )
    ]
