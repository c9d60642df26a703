-- ===== src/Libc/Paging/Pages.antt =====
-- Pages and their frames.
use james_os.Prelude.{
  ℕ, ◌+◌, ◌*◌, ◌/◌, ◌%◌, ◌^◌, ◌≤◌, ◌<◌, ◌≡◌, ◌≢◌, refl, sym, ◌∙◌, ap, List, Bool, true, false, ◌&&◌,
  Bool-cases, Option, none, some, inl, inr, ◌⊎◌, ◌==◌, ==→eq, ==→ne, if◌then◌else◌, arith, length,
  get_or-set, IsBytes,
}
use mathlib.Core.Path.{subst}
use mathlib.Core.Option.{none-ne-some, some-injective}
use james_os.Libc.Paging.{
  Memory, Page, PageTableEntry, empty_page, page_entry, set_page_entry, set_frame, first_frame,
  take_frame, alloc_page,
}
use james_os.Libc.Paging.Frames.{
  frame_bit, frame_bit-set_frame, IsFirstFree, first_frame-IsFirstFree,
}

abbrev pub same_page : Page → Page → Bool
same_page p q = (q.table == p.table) && (p.index == q.index)

-- The place of the page is in its table.
unfoldable pub HasPage : Memory → Page → Type 0
HasPage m page = page.index < length (m.page_tables page.table)

pub page_entry-set_page_entry :
    (p q : Page) (entry : PageTableEntry) (m : Memory)
    → HasPage m p
    → page_entry q (set_page_entry p entry m) ≡ (if same_page p q then entry else page_entry q m)
unfolding page_entry set_page_entry HasPage
page_entry-set_page_entry p q entry m has = elim (Bool-cases (q.table == p.table)) [
  | inl same ↦ rw same (
      let here : q.table ≡ p.table = ==→eq _ _ same in
      rw here (get_or-set (m.page_tables p.table) p.index q.index entry empty_page has))
  | inr other ↦ rw other refl
]

-- The bitmap has a bit for each frame, and an entry has room for its number.
pub record HasFrames (m : Memory) : Type 0 where
  pub bytes : IsBytes m.bitmap
  pub whole : m.nframes % 8 ≡ 0
  pub room : m.nframes ≤ 8 * length m.bitmap
  pub fits : m.nframes ≤ 2 ^ 20

-- A page that is present has a frame of its own, and that frame is taken.
pub record Sound (m : Memory) : Type 0 where
  pub taken :
      (p : Page)
      → (page_entry p m).present ≢ 0
      → ((page_entry p m).frame < m.nframes) × (frame_bit m.bitmap (page_entry p m).frame ≡ 1)
  pub own :
      (p q : Page)
      → (page_entry p m).present ≢ 0
      → (page_entry q m).present ≢ 0
      → (page_entry p m).frame ≡ (page_entry q m).frame
      → (p.table ≡ q.table) × (p.index ≡ q.index)

-- An entry that is changed is the page's own, and the others are as before.
pub entry_cases :
    (p q : Page) (entry : PageTableEntry) (m : Memory) (bitmap : List ℕ)
    → HasPage m p
    → ((p.table ≡ q.table)
        × (p.index ≡ q.index)
        × (page_entry q (set_page_entry p entry (record m { bitmap = bitmap })) ≡ entry))
      ⊎ (page_entry q (set_page_entry p entry (record m { bitmap = bitmap })) ≡ page_entry q m)
unfolding page_entry HasPage
entry_cases p q entry m bitmap has =
    let now = page_entry-set_page_entry p q entry (record m { bitmap = bitmap }) has in
    elim (Bool-cases (same_page p q)) [
      | inl same ↦ inl (ground (arith, same), ground (arith, same), now ∙ rw same refl)
      | inr other ↦ inr (now ∙ rw other refl)
    ]

module _ (page : Page) (is_kernel is_writeable f : ℕ) (m : Memory) where
  abbrev granted_entry : PageTableEntry
  granted_entry = record {
    present = 1;
    rw = is_writeable % 2;
    user = (1 + is_kernel) % 2;
    frame = f % 2 ^ 20;
  }

  abbrev granted : Memory
  granted = set_page_entry page granted_entry (record m { bitmap = set_frame f m.bitmap })

  granted-Sound :
      HasFrames m
      → HasPage m page
      → IsFirstFree m.bitmap 0 m.nframes (some f)
      → Sound m
      → Sound granted
  unfolding IsFirstFree set_page_entry
  granted-Sound frames has (from, inside, free, before) sound = record { taken = taken; own = own }
    where
      room : f / 8 < length m.bitmap
      room = omega (arith, inside, frames.room, frames.whole)

      taken :
          (q : Page)
          → (page_entry q granted).present ≢ 0
          → ((page_entry q granted).frame < m.nframes)
            × (frame_bit (set_frame f m.bitmap) (page_entry q granted).frame ≡ 1)
      taken q there =
          let bit = frame_bit-set_frame m.bitmap f (page_entry q granted).frame frames.bytes room in
          elim (entry_cases page q granted_entry m (set_frame f m.bitmap) has) [
            | inl (table, index, now) ↦
                let at : (page_entry q granted).frame ≡ f =
                  ap (λ (e : PageTableEntry). e.frame) now ∙ omega (arith, inside, frames.fits) in
                (omega (arith, at, inside), ground (arith, at, bit))
            | inr now ↦
                let at : (page_entry q granted).frame ≡ (page_entry q m).frame =
                  ap (λ (e : PageTableEntry). e.frame) now in
                let (below, one) =
                  sound.taken q (λ z. there (ap (λ (e : PageTableEntry). e.present) now ∙ z)) in
                (omega (arith, at, below), ground (arith, ap (frame_bit m.bitmap) at, one, bit))
          ]

      -- No page had the frame before.
      new : (q : Page) → (page_entry q m).present ≢ 0 → (page_entry q m).frame ≢ f
      new q there same = omega (arith, (sound.taken q there).1, ap (frame_bit m.bitmap) same, free)

      own :
          (p q : Page)
          → (page_entry p granted).present ≢ 0
          → (page_entry q granted).present ≢ 0
          → (page_entry p granted).frame ≡ (page_entry q granted).frame
          → (p.table ≡ q.table) × (p.index ≡ q.index)
      own p q there there' same =
          let frame = λ (e : PageTableEntry). e.frame in
          let present = λ (e : PageTableEntry). e.present in
          let narrow : f % 2 ^ 20 ≡ f = omega (arith, inside, frames.fits) in
          let cases = λ (r : Page). entry_cases page r granted_entry m (set_frame f m.bitmap) has in
          elim (cases p) [
            | inl (table, index, now) ↦ elim (cases q) [
              | inl (table', index', now') ↦ (sym table ∙ table', sym index ∙ index')
              | inr now' ↦ absurd (
                  new q (λ z. there' (ap present now' ∙ z))
                    (sym (ap frame now') ∙ sym same ∙ ap frame now ∙ narrow))
            ]
            | inr now ↦ elim (cases q) [
              | inl (table', index', now') ↦ absurd (
                  new p (λ z. there (ap present now ∙ z))
                    (sym (ap frame now) ∙ same ∙ ap frame now' ∙ narrow))
              | inr now' ↦
                  sound.own p q (λ z. there (ap present now ∙ z))
                    (λ z. there' (ap present now' ∙ z)) (sym (ap frame now) ∙ same ∙ ap frame now')
            ]
          ]

-- A page that now has frame `f`, the lowest that was free.
pub record Allocated (page : Page) (is_kernel is_writeable f : ℕ) (m m' : Memory) : Type 0 where
  pub absent : (page_entry page m).present ≡ 0
  pub lowest : IsFirstFree m.bitmap 0 m.nframes (some f)
  pub entry : page_entry page m' ≡ (record {
    present = 1;
    rw = is_writeable % 2;
    user = (1 + is_kernel) % 2;
    frame = f % 2 ^ 20;
  })
  pub bits : (q : ℕ) → frame_bit m'.bitmap q ≡ (if f == q then 1 else frame_bit m.bitmap q)
  pub others :
      (q : Page)
      → (q.table ≢ page.table) ⊎ (q.index ≢ page.index)
      → page_entry q m' ≡ page_entry q m

-- What allocating a page does: nothing to a page that is present; the machine halts where no frame
-- is free; and else the page gets a frame.
pub data AllocOutcome (page : Page) (is_kernel is_writeable : ℕ) (m : Memory)
    : Option Memory → Type 0 where
  kept : (page_entry page m).present ≢ 0 → AllocOutcome page is_kernel is_writeable m (some m)
  halted :
      (page_entry page m).present ≡ 0
      → IsFirstFree m.bitmap 0 m.nframes none
      → AllocOutcome page is_kernel is_writeable m none
  allocated :
      (f : ℕ) (m' : Memory)
      → Allocated page is_kernel is_writeable f m m'
      → AllocOutcome page is_kernel is_writeable m (some m')

granted-Allocated :
    (page : Page) (is_kernel is_writeable f : ℕ) (m : Memory)
    → HasFrames m
    → HasPage m page
    → (page_entry page m).present ≡ 0
    → IsFirstFree m.bitmap 0 m.nframes (some f)
    → Allocated page is_kernel is_writeable f m (granted page is_kernel is_writeable f m)
unfolding IsFirstFree HasPage set_page_entry
granted-Allocated page is_kernel is_writeable f m frames has absent (from, inside, free, before) =
    let entry = granted_entry page is_kernel is_writeable f m in
    let now = λ (q : Page).
      page_entry-set_page_entry page q entry (record m { bitmap = set_frame f m.bitmap }) has in
    let self : same_page page page ≡ true = ground arith in
    record {
      absent = absent;
      lowest = (from, inside, free, before);
      entry = now page ∙ rw self refl;
      bits = λ q.
          frame_bit-set_frame m.bitmap f q frames.bytes
            (omega (arith, inside, frames.room, frames.whole));
      others = λ q other.
          let no : same_page page q ≡ false = ground (arith, other) in
          now q ∙ rw no (unfold page_entry in refl);
    }

take_frame-AllocOutcome :
    (page : Page) (is_kernel is_writeable : ℕ) (m : Memory) (found : Option ℕ)
    → HasFrames m
    → HasPage m page
    → (page_entry page m).present ≡ 0
    → IsFirstFree m.bitmap 0 m.nframes found
    → AllocOutcome page is_kernel is_writeable m (take_frame page is_kernel is_writeable m found)
unfolding take_frame
take_frame-AllocOutcome page is_kernel is_writeable m none frames has absent lowest =
    halted absent lowest
take_frame-AllocOutcome page is_kernel is_writeable m (some f) frames has absent lowest =
    allocated f (granted page is_kernel is_writeable f m)
      (granted-Allocated page is_kernel is_writeable f m frames has absent lowest)

-- Where the bitmap has a bit for each frame, the number of frames is a multiple of 8 and at most
-- 2 ^ 20, and the page is a place in its table: allocating a page does nothing to a page that is
-- present. Else it takes the lowest frame that is free for the page, and changes no other page
-- and the bit of no other frame; the machine halts only when no frame is free.
pub alloc_page-AllocOutcome :
    (page : Page) (is_kernel is_writeable : ℕ) (m : Memory)
    → HasFrames m
    → HasPage m page
    → AllocOutcome page is_kernel is_writeable m (alloc_page page is_kernel is_writeable m)
unfolding alloc_page
alloc_page-AllocOutcome page is_kernel is_writeable m frames has =
    elim (Bool-cases ((page_entry page m).present == 0)) [
      | inl absent ↦ rw absent (
          take_frame-AllocOutcome page is_kernel is_writeable m (first_frame m) frames has
            (==→eq _ _ absent) (first_frame-IsFirstFree m frames.whole))
      | inr there ↦ rw there (kept (==→ne _ _ there))
    ]

take_frame-Sound :
    (page : Page) (is_kernel is_writeable : ℕ) (m m' : Memory) (found : Option ℕ)
    → HasFrames m
    → HasPage m page
    → IsFirstFree m.bitmap 0 m.nframes found
    → Sound m
    → take_frame page is_kernel is_writeable m found ≡ some m'
    → Sound m'
unfolding take_frame
take_frame-Sound page is_kernel is_writeable m m' none frames has lowest sound e =
    absurd (none-ne-some _ e)
take_frame-Sound page is_kernel is_writeable m m' (some f) frames has lowest sound e =
    subst Sound (some-injective _ _ e)
      (granted-Sound page is_kernel is_writeable f m frames has lowest sound)

-- Where the bitmap has a bit for each frame, the number of frames is a multiple of 8 and at most
-- 2 ^ 20, and the page is a place in its table: if each page that is present has a frame of its
-- own that is taken, this is also so after a page is allocated.
pub alloc_page-Sound :
    (page : Page) (is_kernel is_writeable : ℕ) (m m' : Memory)
    → HasFrames m
    → HasPage m page
    → Sound m
    → alloc_page page is_kernel is_writeable m ≡ some m'
    → Sound m'
unfolding alloc_page
alloc_page-Sound page is_kernel is_writeable m m' frames has sound =
    elim (Bool-cases ((page_entry page m).present == 0)) [
      | inl absent ↦ rw absent (
          take_frame-Sound page is_kernel is_writeable m m' (first_frame m) frames has
            (first_frame-IsFirstFree m frames.whole) sound)
      | inr there ↦ rw there (λ e. subst Sound (some-injective _ _ e) sound)
    ]
