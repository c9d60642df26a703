-- ===== src/Drivers/Keyboard/Tests.antt =====
-- The enter key on an empty screen, and its release.
use james_os.Prelude.{ℕ, ◌≡◌, refl, arith, [], ◌∷◌, ◌++◌, replicate, length-replicate, some, codes}
use james_os.Drivers.Vga.{Screen, kprint, kprint_debug, decimal}
use james_os.Drivers.Keyboard.{key_name, keyboard_callback, white}
use james_os.Drivers.Keyboard.Describe.{describe, keyboard_callback-describe}

enter_released : describe 0x9c ≡ codes "enter released"
unfolding describe key_name
enter_released = refl

abbrev blank : Screen
blank = record { video = replicate 4160 0; cursor = 0; attribute = 0x0e }

keyboard_callback-describe_example :
    keyboard_callback (replicate 10 0) 0x9c blank
    ≡ some (
        kprint (10 ∷ []) (
          kprint_debug
            (codes "scan_code: "
              ++ decimal (replicate 10 0) 0x9c
              ++ codes " ("
              ++ describe 0x9c
              ++ codes ")")
            white
            blank))
keyboard_callback-describe_example =
    keyboard_callback-describe (replicate 10 0) 0x9c blank (omega arith)
      (record { size = omega (arith, length-replicate {A = ℕ} 4160 0); cursor = omega arith })
