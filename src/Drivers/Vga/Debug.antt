-- ===== src/Drivers/Vga/Debug.antt =====
-- Printing in a colour.
use james_os.Prelude.{ℕ, ◌≡◌, ◌∙◌, sym, ap, List, ◌++◌}
use james_os.Drivers.Vga.{Screen, kprint, kprint_debug, yellow_on_black}
use james_os.Drivers.Vga.Bounds.{OnScreen, kprint-OnScreen}
use james_os.Drivers.Vga.Format.{kprint-++}

OnScreen-coloured : (s : Screen) (k : ℕ) → OnScreen s → OnScreen (record s { attribute = k })
OnScreen-coloured s k h = record { size = h.size; cursor = h.cursor }

pub kprint_debug-OnScreen :
    (message : List ℕ) (color : ℕ) (s : Screen)
    → OnScreen s
    → OnScreen (kprint_debug message color s)
unfolding kprint_debug kprint
kprint_debug-OnScreen message color s h =
    let s' : Screen = record s { attribute = color } in
    OnScreen-coloured (kprint message s') yellow_on_black
      (kprint-OnScreen message s' (OnScreen-coloured s color h)).0

-- Two texts in one colour are one text in it.
pub kprint_debug-++ :
    (a b : List ℕ) (color : ℕ) (s : Screen)
    → OnScreen s
    → kprint_debug b color (kprint_debug a color s) ≡ kprint_debug (a ++ b) color s
unfolding kprint_debug kprint
kprint_debug-++ a b color s h =
    let s' : Screen = record s { attribute = color } in
    let h' = OnScreen-coloured s color h in
    let kept = (kprint-OnScreen a s' h').1 in
    ap
      (λ (k : ℕ). record (kprint b (record (kprint a s') { attribute = k })) {
        attribute = yellow_on_black;
      })
      (sym kept.attribute)
    ∙ ap (λ (t : Screen). record t { attribute = yellow_on_black }) (kprint-++ a b s' h')

-- The same after texts that are one text.
pub kprint_debug_onto :
    {t : Screen} (a b : List ℕ) (color : ℕ) (s : Screen)
    → OnScreen s
    → t ≡ kprint_debug a color s
    → kprint_debug b color t ≡ kprint_debug (a ++ b) color s
kprint_debug_onto a b color s h e = ap (kprint_debug b color) e ∙ kprint_debug-++ a b color s h
