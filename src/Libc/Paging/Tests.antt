-- ===== src/Libc/Paging/Tests.antt =====
-- 16 frames, of which 0 and 3 are taken, and the pages of one table at 0x100000.
use james_os.Prelude.{
  ℕ, zero, suc, ◌==◌, if◌then◌else◌, ◌+◌, ◌*◌, ◌/◌, ◌%◌, ◌≡◌, ◌≢◌, ◌↔◌, refl, arith, List, [], ◌∷◌,
  true, some, inr, get_or,
}
use james_os.Prelude.Bits.{bit_in, bit_of, or_bit, or_bit_in}
use james_os.Libc.Paging.{
  Memory, Page, PageTableEntry, empty_page, page_entry, alloc_page, take_frame, set_page_entry,
  set_frame, first_frame, frame_bytes, frame_bits, first, free_page, find_page, virtual2phys,
}
use james_os.Libc.Paging.Frames.{frame_bit}
use james_os.Libc.Paging.Pages.{
  HasFrames, HasPage, AllocOutcome, alloc_page-AllocOutcome, Sound, alloc_page-Sound,
}
use james_os.Libc.Paging.Free.{Differ, alloc_page-free_page}
use james_os.Libc.Paging.Addresses.{virtual2phys-right}

abbrev in_frame : ℕ → PageTableEntry
in_frame f = record { present = 1; rw = 0; user = 1; frame = f }

abbrev entries : List PageTableEntry
entries = in_frame 0 ∷ in_frame 3 ∷ empty_page ∷ []

abbrev memory : Memory
memory = record {
  page_enabled = true;
  bitmap = 9 ∷ 0 ∷ [];
  nframes = 16;
  heap = [];
  page_tables = λ addr. entries;
}

abbrev page_at : ℕ → Page
page_at i = record { table = 0x100000; index = i }

memory-HasFrames : HasFrames memory
memory-HasFrames = record {
  bytes = (omega arith, (omega arith, tt));
  whole = omega arith;
  room = omega arith;
  fits = omega arith;
}

alloc_page-free_page_example :
    (frame_bit (free_page (page_at 1) memory).bitmap 3 ≡ 1)
    × ((m' : Memory) × (alloc_page (page_at 2) 0 0 (free_page (page_at 1) memory) ≡ some m')
        × ((page_entry (page_at 2) m').present ≢ 0)
        × ((page_entry (page_at 0) m').present ≢ 0)
        × ((page_entry (page_at 2) m').frame ≡ (page_entry (page_at 0) m').frame))
unfolding page_entry HasPage Differ frame_bit bit_in bit_of
alloc_page-free_page_example =
    alloc_page-free_page (page_at 0) (page_at 1) (page_at 2) 0 0 memory memory-HasFrames
      (omega arith) (omega arith) (omega arith) (inr (omega arith)) (inr (omega arith))
      (inr (omega arith)) (omega arith) refl (omega arith) (omega arith) (omega arith) refl refl

alloc_page-AllocOutcome_example :
    AllocOutcome (page_at 2) 0 1 memory (alloc_page (page_at 2) 0 1 memory)
unfolding HasPage
alloc_page-AllocOutcome_example =
    alloc_page-AllocOutcome (page_at 2) 0 1 memory memory-HasFrames (omega arith)

virtual2phys-right_example :
    (virtual2phys (record { tables_physical = []; tables = 0x100000 ∷ [] }) 0x1abc memory
      ≡ 3 * 4096 + 0x1abc % 4096)
    ↔ (3 % 256 ≡ 0x1abc / 4096 % 256)
unfolding page_entry find_page
virtual2phys-right_example =
    virtual2phys-right (record { tables_physical = []; tables = 0x100000 ∷ [] }) 0x1abc memory
      (page_at 1) refl refl (omega arith) (omega arith)

-- A memory in which no page is present yet.
abbrev no_pages : Memory
no_pages = record memory { bitmap = 0 ∷ 0 ∷ []; page_tables = λ addr. empty_page ∷ empty_page ∷ [] }

no_pages-HasFrames : HasFrames no_pages
no_pages-HasFrames = record {
  bytes = (omega arith, (omega arith, tt));
  whole = omega arith;
  room = omega arith;
  fits = omega arith;
}

all_absent : (i : ℕ) → (get_or (empty_page ∷ empty_page ∷ []) i empty_page).present ≡ 0
all_absent zero = refl
all_absent (suc zero) = refl
all_absent (suc (suc i)) = refl

no_pages-Sound : Sound no_pages
unfolding page_entry
no_pages-Sound = record {
  taken = λ p there. absurd (there (all_absent p.index));
  own = λ p q there there' same. absurd (there (all_absent p.index));
}

abbrev one_page : Memory
one_page = record no_pages {
  bitmap = 1 ∷ 0 ∷ [];
  page_tables = λ addr.
      if addr == 0x100000 then in_frame 0 ∷ empty_page ∷ [] else empty_page ∷ empty_page ∷ [];
}

alloc_page-Sound_example : Sound one_page
unfolding HasPage alloc_page take_frame page_entry set_page_entry first_frame frame_bytes frame_bits
    first set_frame bit_in bit_of or_bit_in or_bit
alloc_page-Sound_example =
    alloc_page-Sound (page_at 0) 0 0 no_pages one_page no_pages-HasFrames (omega arith)
      no_pages-Sound refl
