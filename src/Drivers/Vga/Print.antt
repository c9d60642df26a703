-- ===== src/Drivers/Vga/Print.antt =====
-- Printing a text: where its bytes stand on the screen.
use james_os.Prelude.{
  ℕ, zero, suc, ◌+◌, ◌*◌, ◌/◌, ◌≤◌, ◌<◌, ◌≡◌, refl, ◌∙◌, ap, List, [], ◌∷◌, Bool, true, false, not,
  ◌&&◌, inl, inr, ◌⊎◌, ltb, ◌==◌, if◌then◌else◌, arith, length, get_or, set, get_or-set, length-set,
}
use james_os.Drivers.Vga.{
  Screen, print_char, scroll_past, print_loop, kprint_at, kprint, get_cursor_offset,
  set_cursor_offset,
}
use james_os.Drivers.Vga.Scroll.{set_cursor_offset-cursor}
use james_os.Drivers.Vga.Bounds.{OnScreen, print_loop-Kept}

-- No line feed is in the text.
unfoldable pub plain : List ℕ → Bool
plain [] = true
plain (c ∷ message) = not (c == 10) && plain message

-- The text stands from `offset` on, each byte with the colour after it, and all other bytes of
-- the video memory are as before.
pub record Printed (message : List ℕ) (offset : ℕ) (s : Screen) (s' : Screen) : Type 0 where
  pub bytes : (i : ℕ) → i < length message → get_or s'.video (offset + 2 * i) 0 ≡ get_or message i 0
  pub colours : (i : ℕ) → i < length message → get_or s'.video (offset + 2 * i + 1) 0 ≡ s.attribute
  pub others :
      (q : ℕ)
      → (q < offset) ⊎ (offset + 2 * length message ≤ q)
      → get_or s'.video q 0 ≡ get_or s.video q 0

print_loop-∷ :
    (c : ℕ) (message : List ℕ) (offset : ℕ) (s : Screen)
    → (c == 10) ≡ false
    → offset + 2 < 4000
    → print_loop (c ∷ message) offset s
      ≡ print_loop message
          (offset + 2)
          (record s { video = set (set s.video offset c) (offset + 1) s.attribute })
unfolding print_loop print_char scroll_past
print_loop-∷ c message offset s other lt =
    let inside : ltb 3999 (offset + 2) ≡ false = ground (arith, lt) in rw (other, inside) refl

abbrev written : ℕ → ℕ → Screen → List ℕ
written c offset s = set (set s.video offset c) (offset + 1) s.attribute

-- One byte before the rest of the text.
module _ (c : ℕ) (message : List ℕ) (offset : ℕ) (s s' : Screen)
    (fits : offset + 1 < length s.video) where
  get_or-written :
      (q : ℕ)
      → get_or (written c offset s) q 0
        ≡ (if q == offset then c else if q == offset + 1 then s.attribute else get_or s.video q 0)
  get_or-written q =
      let v1 = set s.video offset c in
      let l1 = length-set s.video offset c in
      ground (
        arith,
        get_or-set v1 (offset + 1) q s.attribute 0 (omega (arith, l1, fits)),
        get_or-set s.video offset q c 0 (omega (arith, fits)),
      )

  Printed-∷ :
      Printed message (offset + 2) (record s { video = written c offset s }) s'
      → Printed (c ∷ message) offset s s'
  Printed-∷ rest = record { bytes = bytes; colours = colours; others = others }
    where
      bytes :
          (i : ℕ)
          → i < suc (length message)
          → get_or s'.video (offset + 2 * i) 0 ≡ get_or (c ∷ message) i 0
      bytes zero lt =
          ground (
            arith,
            rest.others (offset + 2 * 0) (inl (omega arith)),
            get_or-written (offset + 2 * 0),
          )
      bytes (suc i) lt =
          ap (λ (q : ℕ). get_or s'.video q 0) (omega arith) ∙ rest.bytes i (omega (arith, lt))

      colours :
          (i : ℕ) → i < suc (length message) → get_or s'.video (offset + 2 * i + 1) 0 ≡ s.attribute
      colours zero lt = ground (
        arith,
        rest.others (offset + 2 * 0 + 1) (inl (omega arith)),
        get_or-written (offset + 2 * 0 + 1),
      )
      colours (suc i) lt =
          ap (λ (q : ℕ). get_or s'.video q 0) (omega arith) ∙ rest.colours i (omega (arith, lt))

      others :
          (q : ℕ)
          → (q < offset) ⊎ (offset + 2 * suc (length message) ≤ q)
          → get_or s'.video q 0 ≡ get_or s.video q 0
      others q (inl before) =
          ground (arith, rest.others q (inl (omega (arith, before))), get_or-written q)
      others q (inr behind) =
          ground (arith, rest.others q (inr (omega (arith, behind))), get_or-written q)

print_loop-Printed :
    (message : List ℕ) (offset : ℕ) (s : Screen)
    → plain message ≡ true
    → offset + 2 * length message < 4000
    → 4000 ≤ length s.video
    → ((print_loop message offset s).1 ≡ offset + 2 * length message)
      × Printed message offset s (print_loop message offset s).0
unfolding plain
print_loop-Printed [] offset s ok lt fits =
    unfold print_loop in
    (
      omega arith,
      record {
        bytes = λ i le. omega (arith, le);
        colours = λ i le. omega (arith, le);
        others = λ q away. refl;
      },
    )
print_loop-Printed (c ∷ message) offset s ok lt fits =
    let s' : Screen = record s { video = written c offset s } in
    let size = length-set s.video offset c in
    let size' = length-set (set s.video offset c) (offset + 1) s.attribute in
    let (at, rest) =
      print_loop-Printed message (offset + 2) s' (ground (arith, ok)) (omega (arith, lt))
        (omega (arith, size, size', fits)) in
    rw (print_loop-∷ c message offset s (ground (arith, ok)) (omega (arith, lt)))
      (omega (arith, at), Printed-∷ c message offset s _ (omega (arith, fits, lt)) rest)

-- Where the cursor is on the screen and the video memory has one more row, a text without a line
-- feed that fits on the rest of the screen is written from the cursor on, each byte with the
-- current colour after it; no other byte changes, the cursor stands after the text, and the
-- colour is as before.
pub kprint-Printed :
    (message : List ℕ) (s : Screen)
    → OnScreen s
    → plain message ≡ true
    → s.cursor + length message < 2000
    → Printed message (s.cursor * 2) s (kprint message s)
      × ((kprint message s).cursor ≡ s.cursor + length message)
      × ((kprint message s).attribute ≡ s.attribute)
unfolding kprint kprint_at get_cursor_offset
kprint-Printed message s h ok room =
    let (at, there) =
      print_loop-Printed message (s.cursor * 2) s ok (omega (arith, room))
        (omega (arith, h.size)) in
    let (lt, even, kept) =
      print_loop-Kept message (s.cursor * 2) s (omega (arith, h.cursor)) (omega arith) h.size in
    let out = print_loop message (s.cursor * 2) s in
    let here = set_cursor_offset-cursor (out.1 / 2) out.0 (omega (arith, at, room)) in
    unfold set_cursor_offset in
    (
      record { bytes = there.bytes; colours = there.colours; others = there.others },
      omega (arith, here, at),
      kept.attribute,
    )
