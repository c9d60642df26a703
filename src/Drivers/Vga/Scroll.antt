-- ===== src/Drivers/Vga/Scroll.antt =====
-- What scrolling leaves on the screen.
use james_os.Prelude.{
  ℕ, zero, suc, ◌+◌, ◌-◌, ◌*◌, ◌≤◌, ◌<◌, ◌≡◌, refl, ◌∙◌, ap, List, ◌&&◌, ltb, leb, if◌then◌else◌,
  arith, length, get_or, inl,
}
use james_os.Prelude.Binary.{bit_and_ones}
use james_os.Libc.Mem.{memcpy}
use james_os.Libc.Mem.Copy.{memcpy-moved, length-memcpy}
use james_os.Drivers.Vga.{Screen, scroll_loop, scroll_screen, set_cursor_offset}

scroll_loop-moved :
    (left : ℕ) (video : List ℕ) (row q : ℕ)
    → 0 < row
    → (row + left) * 160 ≤ length video
    → get_or (scroll_loop video row left) q 0 ≡ (
        if leb ((row - 1) * 160) q && ltb q ((row - 1 + left) * 160)
        then get_or video (q + 160) 0
        else get_or video q 0)
unfolding scroll_loop
scroll_loop-moved zero video row q pos fits = ground arith
scroll_loop-moved (suc n) video row q pos fits =
    let video' = memcpy video (row * 160) (row * 160 - 160) 160 in
    let moved = λ (i : ℕ).
      memcpy-moved video (row * 160) (row * 160 - 160) 160 i (omega (arith, pos, fits))
        (inl (omega arith)) in
    let here : row * 160 + (q - (row * 160 - 160)) ≡ row * 160 + (q - (row * 160 - 160)) = refl in
    scroll_loop-moved n video' (row + 1) q (omega arith)
      (omega (arith, length-memcpy video (row * 160) (row * 160 - 160) 160, fits))
    ∙ ground (arith, moved q, moved (q + 160), index, pos)
  where
    index :
        (row - 1) * 160 ≤ q
        → get_or video (row * 160 + (q - (row * 160 - 160))) 0 ≡ get_or video (q + 160) 0
    index le = ap (λ (i : ℕ). get_or video i 0) (omega (arith, pos))

length-scroll_loop :
    (left : ℕ) (video : List ℕ) (row : ℕ) → length (scroll_loop video row left) ≡ length video
unfolding scroll_loop
length-scroll_loop zero video row = refl
length-scroll_loop (suc n) video row =
    length-scroll_loop n (memcpy video (row * 160) (row * 160 - 160) 160) (row + 1)
    ∙ length-memcpy video (row * 160) (row * 160 - 160) 160

pub set_cursor_offset-cursor :
    (offset : ℕ) (s : Screen) → offset < 65536 → (set_cursor_offset offset s).cursor ≡ offset
unfolding set_cursor_offset
set_cursor_offset-cursor offset s lt = omega (arith, bit_and_ones 8 offset)

-- What scrolling leaves in the video memory: each row of the screen is the one below it, where
-- the last row is what stood after the screen.
pub record Scrolled (s : Screen) (s' : Screen) : Type 0 where
  pub cells :
      (q : ℕ)
      → get_or s'.video q 0
        ≡ (if ltb q 4000 then get_or s.video (q + 160) 0 else get_or s.video q 0)
  pub cursor : s'.cursor ≡ 1920
  pub attribute : s'.attribute ≡ s.attribute
  pub size : length s'.video ≡ length s.video

pub scroll_screen-Scrolled : (s : Screen) → 4160 ≤ length s.video → Scrolled s (scroll_screen s)
unfolding scroll_screen set_cursor_offset
scroll_screen-Scrolled s fits = record {
  cells = λ q. ground (arith, scroll_loop-moved 25 s.video 1 q (omega arith) (omega (arith, fits)));
  cursor = refl;
  attribute = refl;
  size = length-scroll_loop 25 s.video 1;
}
