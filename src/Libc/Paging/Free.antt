-- ===== src/Libc/Paging/Free.antt =====
-- Freeing a page clears the bit of frame 0.
use james_os.Prelude.{
  ℕ, ◌/◌, ◌<◌, ◌≡◌, ◌≢◌, refl, sym, ◌∙◌, ap, true, false, Bool-cases, Option, some, inl, inr, ◌⊎◌,
  ◌==◌, ==→eq, ==→ne, if◌then◌else◌, arith, length, length-set,
}
use james_os.Prelude.Bits.{length-put_bit, put_bit-IsBytes}
use james_os.Libc.Paging.{
  Memory, Page, PageTableEntry, page_entry, set_page_entry, clear_frame, alloc_page, free_page,
}
use james_os.Libc.Paging.Frames.{frame_bit, frame_bit-clear_frame, IsFirstFree}
use james_os.Libc.Paging.Pages.{
  HasPage, HasFrames, same_page, page_entry-set_page_entry, AllocOutcome, kept, halted, allocated,
  alloc_page-AllocOutcome,
}

-- Two pages are not the same.
unfoldable pub Differ : Page → Page → Type 0
Differ p q = (q.table ≢ p.table) ⊎ (q.index ≢ p.index)

-- What is left of a page whose frame is one of the first 4096: the page is not present, the bit of
-- frame 0 is cleared and the bit of its own frame stays, and no other page changes.
pub record Freed (page : Page) (m m' : Memory) : Type 0 where
  pub absent : (page_entry page m').present ≡ 0
  pub bits : (q : ℕ) → frame_bit m'.bitmap q ≡ (if 0 == q then 0 else frame_bit m.bitmap q)
  pub others : (q : Page) → Differ page q → page_entry q m' ≡ page_entry q m
  pub frames : HasFrames m'
  pub nframes : m'.nframes ≡ m.nframes
  pub pages : (q : Page) → HasPage m q → HasPage m' q

abbrev free_entry : Page → Memory → PageTableEntry
free_entry page m = record (page_entry page m) { frame = 0; present = 0 }

abbrev freed : Page → Memory → Memory
freed page m =
    set_page_entry page (free_entry page m) (record m { bitmap = clear_frame 0 m.bitmap })

free_page-freed :
    (page : Page) (m : Memory)
    → (page_entry page m).present ≢ 0
    → (page_entry page m).frame < 4096
    → free_page page m ≡ freed page m
unfolding free_page
free_page-freed page m there low =
    let here : ((page_entry page m).present == 0) ≡ false = ground (arith, there) in
    let zeroth : (page_entry page m).frame / 0x1000 ≡ 0 = omega (arith, low) in
    rw (here, zeroth) refl

length-set_page_entry :
    (p : Page) (e : PageTableEntry) (m : Memory) (addr : ℕ)
    → length ((set_page_entry p e m).page_tables addr) ≡ length (m.page_tables addr)
unfolding set_page_entry
length-set_page_entry p e m addr = elim (Bool-cases (addr == p.table)) [
  | inl same ↦ rw same (length-set (m.page_tables addr) p.index e)
  | inr other ↦ rw other refl
]

freed-HasFrames : (page : Page) (m : Memory) → HasFrames m → HasFrames (freed page m)
unfolding set_page_entry clear_frame
freed-HasFrames page m h = record {
  bytes = put_bit-IsBytes false m.bitmap 0 0 h.bytes;
  whole = h.whole;
  room = omega (arith, h.room, length-put_bit false m.bitmap 0 0);
  fits = h.fits;
}

pub free_page-Freed :
    (page : Page) (m : Memory)
    → HasFrames m
    → 0 < m.nframes
    → HasPage m page
    → (page_entry page m).present ≢ 0
    → (page_entry page m).frame < 4096
    → Freed page m (free_page page m)
unfolding HasPage set_page_entry Differ
free_page-Freed page m h some_frames has there low =
    let m0 : Memory = record m { bitmap = clear_frame 0 m.bitmap } in
    let now = λ (q : Page). page_entry-set_page_entry page q (free_entry page m) m0 has in
    let self : same_page page page ≡ true = ground arith in
    rw (free_page-freed page m there low) (record {
      absent = ap (λ (e : PageTableEntry). e.present) (now page) ∙ rw self refl;
      bits = λ q.
          frame_bit-clear_frame m.bitmap 0 q h.bytes (omega (arith, h.room, h.whole, some_frames));
      others = λ q other.
          let no : same_page page q ≡ false = ground (arith, other) in
          now q ∙ rw no (unfold page_entry in refl);
      frames = freed-HasFrames page m h;
      nframes = refl;
      pages = λ q hq. rw (length-set_page_entry page (free_entry page m) m0 q.table) hq;
    })

-- Where frame 0 is free, it is the frame that a page gets.
shares :
    (z q : Page) (is_kernel is_writeable : ℕ) (m : Memory) (result : Option Memory)
    → 0 < m.nframes
    → (page_entry q m).present ≡ 0
    → Differ q z
    → frame_bit m.bitmap 0 ≡ 0
    → AllocOutcome q is_kernel is_writeable m result
    → (m' : Memory) × (result ≡ some m')
      × ((page_entry q m').frame ≡ 0)
      × ((page_entry q m').present ≡ 1)
      × (page_entry z m' ≡ page_entry z m)
unfolding IsFirstFree Differ
shares z q is_kernel is_writeable m _ some_frames absent other free (kept there) =
    absurd (there absent)
shares z q is_kernel is_writeable m _ some_frames absent other free (halted absent' all) =
    absurd (omega (arith, all 0 (omega arith) some_frames, free))
shares z q is_kernel is_writeable m _ some_frames absent other free (allocated f m' a) =
    let (from, inside, free', before) = a.lowest in
    let zeroth : f ≡ 0 = elim (Bool-cases (f == 0)) [
      | inl is ↦ ==→eq _ _ is
      | inr not_zero ↦
          omega (arith, before 0 (omega arith) (omega (arith, ==→ne _ _ not_zero)), free)
    ] in
    (
      m',
      refl,
      ap (λ (e : PageTableEntry). e.frame) a.entry ∙ omega (arith, zeroth),
      ap (λ (e : PageTableEntry). e.present) a.entry,
      a.others z other,
    )

-- Three different pages `z`, `p` and `q` are given, where `z` has frame 0, `p` has a frame from 1
-- to 4095 that is taken, and `q` is not present; the bitmap has a bit for each frame. When `p` is
-- freed, its frame stays taken, and when `q` is allocated after that, it gets the frame that `z`
-- has: the two share it.
pub alloc_page-free_page :
    (z p q : Page) (is_kernel is_writeable : ℕ) (m : Memory)
    → HasFrames m
    → 0 < m.nframes
    → HasPage m p
    → HasPage m q
    → Differ p z
    → Differ q z
    → Differ p q
    → (page_entry z m).present ≢ 0
    → (page_entry z m).frame ≡ 0
    → (page_entry p m).present ≢ 0
    → 0 < (page_entry p m).frame
    → (page_entry p m).frame < 4096
    → frame_bit m.bitmap (page_entry p m).frame ≡ 1
    → (page_entry q m).present ≡ 0
    → (frame_bit (free_page p m).bitmap (page_entry p m).frame ≡ 1)
      × ((m' : Memory) × (alloc_page q is_kernel is_writeable (free_page p m) ≡ some m')
          × ((page_entry q m').present ≢ 0)
          × ((page_entry z m').present ≢ 0)
          × ((page_entry q m').frame ≡ (page_entry z m').frame))
alloc_page-free_page z p q is_kernel is_writeable m h some_frames has has' pz qz pq there zeroth
      there' pos low taken absent =
    let free = free_page-Freed p m h some_frames has there' low in
    let m1 = free_page p m in
    let (m', done, frame, present, stays) =
      shares z q is_kernel is_writeable m1 _ (omega (arith, free.nframes, some_frames))
        (ap (λ (e : PageTableEntry). e.present) (free.others q pq) ∙ absent) qz (free.bits 0)
        (alloc_page-AllocOutcome q is_kernel is_writeable m1 free.frames (free.pages q has')) in
    let same = stays ∙ free.others z pz in
    (
      ground (arith, free.bits (page_entry p m).frame, pos, taken),
      (
        m',
        done,
        omega (arith, present),
        λ none_there. there (sym (ap (λ (e : PageTableEntry). e.present) same) ∙ none_there),
        frame ∙ sym (ap (λ (e : PageTableEntry). e.frame) same ∙ zeroth),
      ),
    )
