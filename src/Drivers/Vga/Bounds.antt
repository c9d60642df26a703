-- ===== src/Drivers/Vga/Bounds.antt =====
-- Printing stays on the screen.
use james_os.Prelude.{
  ℕ, ◌+◌, ◌*◌, ◌/◌, ◌%◌, ◌≤◌, ◌<◌, ◌≡◌, refl, ◌∙◌, List, [], ◌∷◌, Bool-cases, inl, inr, ltb, arith,
  length, get_or, set, get_or-set, length-set,
}
use james_os.Drivers.Vga.{
  Screen, print_char, scroll_past, print_loop, kprint_at, kprint, get_cursor_offset,
  set_cursor_offset,
}
use james_os.Drivers.Vga.Scroll.{set_cursor_offset-cursor, scroll_screen-Scrolled}

-- The cursor is on the screen, and the memory has the row after it that scrolling reads.
pub record OnScreen (s : Screen) : Type 0 where
  pub size : 4160 ≤ length s.video
  pub cursor : s.cursor < 2000

-- What printing keeps: the size of the memory, the colour, and all that stands after the screen.
pub record Kept (s : Screen) (s' : Screen) : Type 0 where
  pub size : length s'.video ≡ length s.video
  pub attribute : s'.attribute ≡ s.attribute
  pub after : (q : ℕ) → 4000 ≤ q → get_or s'.video q 0 ≡ get_or s.video q 0

Kept-trans : {a b c : Screen} → Kept a b → Kept b c → Kept a c
Kept-trans ab bc = record {
  size = bc.size ∙ ab.size;
  attribute = bc.attribute ∙ ab.attribute;
  after = λ q le. bc.after q le ∙ ab.after q le;
}

-- One character, from an even offset on the screen.
print_char-lem :
    (c attribute offset : ℕ) (video : List ℕ)
    → offset < 4000
    → offset % 2 ≡ 0
    → 4160 ≤ length video
    → ((print_char c attribute offset video).0 ≤ 4000)
      × ((print_char c attribute offset video).0 % 2 ≡ 0)
      × (length (print_char c attribute offset video).1 ≡ length video)
      × ((q : ℕ) → 4000 ≤ q → get_or (print_char c attribute offset video).1 q 0 ≡ get_or video q 0)
unfolding print_char
print_char-lem c attribute offset video lt even fits =
    let v1 = set video offset c in
    let l1 = length-set video offset c in
    (
      ground arith,
      ground arith,
      ground (arith, l1, length-set v1 (offset + 1) attribute),
      λ q le. ground (
        arith,
        get_or-set v1 (offset + 1) q attribute 0 (omega (arith, l1, fits)),
        get_or-set video offset q c 0 (omega (arith, fits)),
      ),
    )

scroll_past-Kept :
    (offset : ℕ) (s : Screen)
    → offset ≤ 4000
    → offset % 2 ≡ 0
    → 4160 ≤ length s.video
    → ((scroll_past offset s).1 < 4000)
      × ((scroll_past offset s).1 % 2 ≡ 0)
      × Kept s (scroll_past offset s).0
unfolding scroll_past get_cursor_offset
scroll_past-Kept offset s le even fits =
    let sc = scroll_screen-Scrolled s fits in
    elim (Bool-cases (ltb 3999 offset)) [
      | inl past ↦ rw past (
        omega (arith, sc.cursor),
        omega (arith, sc.cursor),
        record {
          size = sc.size;
          attribute = sc.attribute;
          after = λ q le'. ground (arith, sc.cells q, le');
        },
      )
      | inr inside ↦ rw inside (
        ground (arith, inside),
        even,
        record { size = refl; attribute = refl; after = λ q le'. refl },
      )
    ]

pub print_loop-Kept :
    (message : List ℕ) (offset : ℕ) (s : Screen)
    → offset < 4000
    → offset % 2 ≡ 0
    → 4160 ≤ length s.video
    → ((print_loop message offset s).1 < 4000)
      × ((print_loop message offset s).1 % 2 ≡ 0)
      × Kept s (print_loop message offset s).0
unfolding print_loop
print_loop-Kept [] offset s lt even fits =
    (lt, even, record { size = refl; attribute = refl; after = λ q le. refl })
print_loop-Kept (c ∷ message) offset s lt even fits =
    let (le, even', size, after) = print_char-lem c s.attribute offset s.video lt even fits in
    let offset' = (print_char c s.attribute offset s.video).0 in
    let s' : Screen = record s { video = (print_char c s.attribute offset s.video).1 } in
    let one : Kept s s' = record { size = size; attribute = refl; after = after } in
    let (lt', even'', two) = scroll_past-Kept offset' s' le even' (omega (arith, size, fits)) in
    let (lt'', even''', rest) =
      print_loop-Kept message (scroll_past offset' s').1 (scroll_past offset' s').0 lt' even''
        (omega (arith, two.size, size, fits)) in
    (lt'', even''', Kept-trans (Kept-trans one two) rest)

-- Where the cursor is on the screen and the video memory has one more row than the screen,
-- whatever is printed leaves the cursor on the screen, and changes neither what stands after the
-- screen nor the colour nor the size of the memory.
pub kprint-OnScreen :
    (message : List ℕ) (s : Screen)
    → OnScreen s
    → OnScreen (kprint message s) × Kept s (kprint message s)
unfolding kprint kprint_at get_cursor_offset
kprint-OnScreen message s h =
    let (lt, even, kept) =
      print_loop-Kept message (s.cursor * 2) s (omega (arith, h.cursor)) (omega arith) h.size in
    let out = (print_loop message (s.cursor * 2) s).0 in
    let at = (print_loop message (s.cursor * 2) s).1 in
    let here = set_cursor_offset-cursor (at / 2) out (omega (arith, lt)) in
    unfold set_cursor_offset in
    (
      record { size = omega (arith, h.size, kept.size); cursor = omega (arith, here, lt) },
      record { size = kept.size; attribute = kept.attribute; after = kept.after },
    )
