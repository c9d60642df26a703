-- ===== src/Drivers/Vga/Tests.antt =====
-- The empty screen with its cursor in its first cell, and what is printed on it.
use james_os.Prelude.{
  ℕ, ◌+◌, ◌*◌, ◌≡◌, refl, arith, [], ◌∷◌, ◌++◌, replicate, length, length-replicate, codes,
}
use james_os.Drivers.Vga.{Screen, int, text, kprint, kprintf}
use james_os.Drivers.Vga.Bounds.{OnScreen, Kept, kprint-OnScreen}
use james_os.Drivers.Vga.Print.{Printed, plain, kprint-Printed}
use james_os.Drivers.Vga.Conversions.{takes, shown, hex_text, hex_digit}
use james_os.Drivers.Vga.Format.{expand, kprintf-expand}

abbrev blank : Screen
blank = record { video = replicate 4160 0; cursor = 0; attribute = 0x0e }

blank-OnScreen : OnScreen blank
blank-OnScreen = record {
  size = omega (arith, length-replicate {A = ℕ} 4160 0);
  cursor = omega arith;
}

expand_runs :
    expand (replicate 11 0) (codes "50%% of %x") (int 4094 ∷ []) ≡ codes "50% of 0x00000ffe"
unfolding expand takes shown hex_text hex_digit
expand_runs = refl

kprint-OnScreen_example :
    OnScreen (kprint (codes "jamesOS" ++ (10 ∷ [])) blank)
    × Kept blank (kprint (codes "jamesOS" ++ (10 ∷ [])) blank)
kprint-OnScreen_example = kprint-OnScreen (codes "jamesOS" ++ (10 ∷ [])) blank blank-OnScreen

kprint-Printed_example :
    Printed (codes "jamesOS") (blank.cursor * 2) blank (kprint (codes "jamesOS") blank)
    × ((kprint (codes "jamesOS") blank).cursor ≡ blank.cursor + length (codes "jamesOS"))
    × ((kprint (codes "jamesOS") blank).attribute ≡ blank.attribute)
kprint-Printed_example =
    kprint-Printed (codes "jamesOS") blank blank-OnScreen (unfold plain in refl) (omega arith)

kprintf-expand_example :
    kprintf (replicate 11 0) (codes "%d of %s") (int 7 ∷ text (codes "ten") ∷ []) blank
    ≡ kprint (expand (replicate 11 0) (codes "%d of %s") (int 7 ∷ text (codes "ten") ∷ [])) blank
kprintf-expand_example =
    kprintf-expand (replicate 11 0) (codes "%d of %s") (int 7 ∷ text (codes "ten") ∷ []) blank
      blank-OnScreen
