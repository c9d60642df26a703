-- ===== src/Libc/Paging.antt =====
-- src/libc/paging.c: the frames of the memory in a bitmap, page tables, and addresses. A page is
-- the address of its table and its place in it, a page table stands in the memory at its address,
-- and the address 0 is for a table that is not there. Of an entry, the fields the code uses.
pub mod Frames
pub mod Pages
pub mod Free
pub mod Addresses
mod Tests
use james_os.Prelude.{
  ℕ, zero, suc, ◌+◌, ◌-◌, ◌*◌, ◌/◌, ◌%◌, ◌^◌, List, [], ◌∷◌, ◌++◌, codes, Bool, true, false, Option,
  none, some, ◌==◌, not, if◌then◌else◌, get_or, set, replicate, bit_and, bit_or, ◌<<<◌, ◌>>>◌, u32,
  minus_one,
}
use james_os.Prelude.Bits.{bit_in, or_bit_in, and_not_bit_in}
use mathlib.Core.Option
use james_os.Libc.Kheap.{kmalloc}
use james_os.Drivers.Vga.{Screen, int, kprint_debug, kprintf, decimal}

pub record PageTableEntry : Type 0 where
  pub present : ℕ
  pub rw : ℕ
  pub user : ℕ
  pub frame : ℕ

pub record PageDirEntry : Type 0 where
  pub present : ℕ
  pub rw : ℕ
  pub user : ℕ
  pub page_size : ℕ
  pub frame : ℕ

pub record PageDirectory : Type 0 where
  pub tables_physical : List PageDirEntry
  pub tables : List ℕ

-- The globals, the heap, and the memory where page tables stand.
pub record Memory : Type 0 where
  pub page_enabled : Bool
  pub bitmap : List ℕ
  pub nframes : ℕ
  pub heap : List ℕ
  pub page_tables : ℕ → List PageTableEntry

pub record Page : Type 0 where
  pub table : ℕ
  pub index : ℕ

abbrev pub light_green : ℕ
light_green = 0xa

abbrev pub empty_page : PageTableEntry
empty_page = record { present = 0; rw = 0; user = 0; frame = 0 }

pub page_entry : Page → Memory → PageTableEntry
page_entry page m = get_or (m.page_tables page.table) page.index empty_page

pub set_page_entry : Page → PageTableEntry → Memory → Memory
set_page_entry page entry m = record m {
  page_tables = λ addr.
      if addr == page.table then set (m.page_tables addr) page.index entry else m.page_tables addr;
}

pub set_frame : ℕ → List ℕ → List ℕ
set_frame frame_addr bitmap = or_bit_in bitmap (frame_addr / 8) (frame_addr % 8)

pub clear_frame : ℕ → List ℕ → List ℕ
clear_frame frame_addr bitmap = and_not_bit_in bitmap (frame_addr / 8) (frame_addr % 8)

-- The loops of `first_frame`, from bit `j` of byte `i` on, and from byte `i` on.
pub frame_bits : List ℕ → ℕ → ℕ → ℕ → Option ℕ
frame_bits bitmap i j zero = none
frame_bits bitmap i j (suc left) =
    let rest = frame_bits bitmap i (j + 1) left in
    if bit_in bitmap i j == 0 then some (i * 8 + j) else rest

first : Option ℕ → Option ℕ → Option ℕ
first none rest = rest
first (some frame) rest = some frame

pub frame_bytes : List ℕ → ℕ → ℕ → Option ℕ
frame_bytes bitmap i zero = none
frame_bytes bitmap i (suc left) =
    let rest = frame_bytes bitmap (i + 1) left in
    if get_or bitmap i 0 == 0xff then rest else first (frame_bits bitmap i 0 8) rest

-- `none` stands for the -1 that is returned.
pub first_frame : Memory → Option ℕ
first_frame m = frame_bytes m.bitmap 0 (m.nframes / 8)

-- `none` is for a machine that has halted, since no frame is free.
pub take_frame : Page → ℕ → ℕ → Memory → Option ℕ → Option Memory
take_frame page is_kernel is_writeable m none = none
take_frame page is_kernel is_writeable m (some idx) =
    let m' : Memory = record m { bitmap = set_frame idx m.bitmap } in
    some (
      set_page_entry page
        (record {
          present = 1;
          rw = is_writeable % 2;
          user = (1 + is_kernel) % 2;
          frame = idx % 2 ^ 20;
        })
        m')

pub alloc_page : Page → ℕ → ℕ → Memory → Option Memory
alloc_page page is_kernel is_writeable m =
    if not ((page_entry page m).present == 0)
    then some m
    else take_frame page is_kernel is_writeable m (first_frame m)

-- The frame is a number of a frame already; it is divided by the size of a frame here.
pub free_page : Page → Memory → Memory
free_page page m =
    let entry = page_entry page m in
    if entry.present == 0
    then m
    else set_page_entry page (record entry { frame = 0; present = 0 })
        (record m { bitmap = clear_frame (entry.frame / 0x1000) m.bitmap })

pub enable_paging : Memory → Memory
enable_paging m = record m { page_enabled = true }

-- `get_page` without `make`.
pub find_page : ℕ → PageDirectory → Option Page
find_page address dir =
    let table = get_or dir.tables (address / 0x1000 / 1024) 0 in
    if not (table == 0)
    then some (record { table = table; index = address / 0x1000 % 1024 })
    else none

frame_address : ℕ → Memory → Option Page → ℕ
frame_address virt_addr m none = 0
frame_address virt_addr m (some page) =
    let entry = page_entry page m in
    if entry.present == 0
    then 0
    else bit_or (bit_and (u32 (entry.frame <<< 12)) 0xfff00000) (bit_and virt_addr 0xfffff)

pub virtual2phys : PageDirectory → ℕ → Memory → ℕ
virtual2phys dir virt_addr m =
    if not m.page_enabled then virt_addr else frame_address virt_addr m (find_page virt_addr dir)

-- `get_page`: the page, or none, with the directory and the memory it leaves. A page table has
-- 4096 bytes.
pub get_page : ℕ → Bool → PageDirectory → Memory → Option Page × PageDirectory × Memory
get_page address make dir m =
    let table_idx = address / 0x1000 / 1024 in
    let (table, heap) = kmalloc 4096 m.heap in
    let m' : Memory = record m { heap = heap } in
    let tables = set dir.tables table_idx table in
    let tmp = virtual2phys (record dir { tables = tables }) table m' in
    let dir' : PageDirectory = record {
      tables = tables;
      tables_physical =
          set dir.tables_physical table_idx
            (record { present = 1; rw = 1; user = 1; page_size = 0; frame = tmp >>> 12 });
    } in
    if not (get_or dir.tables table_idx 0 == 0)
    then (find_page address dir, dir, m)
    else if make
    then (some (record { table = table; index = address / 0x1000 % 1024 }), dir', m')
    else (none, dir, m)

map_page : Option Page → PageDirectory → Memory → Option (PageDirectory × Memory)
map_page none dir m = none
map_page (some page) dir m = Option.map (λ m'. (dir, m')) (alloc_page page 0 0 m)

-- The loop of `paging_init`, from address `i` on with `left` pages to go.
pub init_loop : ℕ → ℕ → Option (PageDirectory × Memory) → Option (PageDirectory × Memory)
init_loop left i none = none
init_loop zero i (some state) = some state
init_loop (suc left) i (some (dir, m)) =
    let (page, dir', m') = get_page i true dir m in
    init_loop left (i + 0x1000) (map_page page dir' m')

-- What `kmalloc` gives is not cleared: `fresh` is what the memory held where the directory is.
-- Nothing is returned when the machine has halted.
pub paging_init : PageDirectory → Memory → Option (PageDirectory × Memory)
paging_init fresh m =
    let nframes = 0x1000000 / 0x1000 in
    let (bitmap, heap) = kmalloc (nframes / 8) m.heap in
    let (kernel_directory, heap') = kmalloc 8192 heap in
    let m' : Memory = record m {
      nframes = nframes;
      bitmap = replicate (nframes / 8) 0;
      heap = heap';
    } in
    Option.map (λ (dir, m''). (dir, enable_paging m''))
      (init_loop (0xf00000 / 0x1000 + 1) 0 (some (fresh, m')))

-- The address that the processor gets: `dir` or what stands there by the current directory.
pub switch_page_directory : PageDirectory → ℕ → ℕ → Memory → ℕ
switch_page_directory current_directory dir phy m =
    if phy == 0 then virtual2phys current_directory dir m else dir

-- The processor is stopped after this.
pub page_fault_handler : List ℕ → ℕ → ℕ → Screen → Screen
page_fault_handler str faulting_addr err_code screen =
    let present = bit_and err_code 0x1 in
    let rw = bit_and err_code 0x2 in
    let user = bit_and err_code 0x4 in
    let s1 =
      kprint_debug
        (codes "FECHEM OS PORTOOOOOOOOES!! ESTAMOS SENDO ATACAAAAAAAAADOS!!!" ++ (10 ∷ []))
        light_green screen in
    let s2 = kprint_debug (codes "falting addr: ") light_green s1 in
    let s3 = kprint_debug (decimal str faulting_addr) light_green s2 in
    let s4 = kprintf str (codes ": %x" ++ (10 ∷ [])) (int faulting_addr ∷ []) s3 in
    let s5 =
      if present == 0
      then kprint_debug (codes "page not present" ++ (10 ∷ [])) light_green s4
      else s4 in
    let s6 =
      if rw == 0
      then s5
      else kprint_debug (codes "page is read only" ++ (10 ∷ [])) light_green s5 in
    let s7 =
      if user == 0
      then s6
      else kprint_debug (codes "page is read only" ++ (10 ∷ [])) light_green s6 in
    kprint_debug (codes "halting...") light_green s7
