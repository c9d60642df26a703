-- ===== src/Drivers/Keyboard.antt =====
-- src/drivers/keyboard.c: the interrupt of the keyboard, which prints the key. The interrupt's
-- scan code, which the port gives, is an argument.
pub mod Describe
mod Tests
use james_os.Prelude.{
  ℕ, zero, suc, ◌+◌, ◌-◌, List, [], ◌∷◌, ◌++◌, Option, none, some, ltb, leb, if◌then◌else◌, get_or,
  codes, u8,
}
use james_os.Cpu.Isr.{register_interrupt_handler}
use james_os.Drivers.Vga.{Screen, kprint, kprint_debug, decimal}

abbrev pub white : ℕ
white = 0xf

-- The cases of `print_letter` in order, 0 first, and those from 0x1D on.
abbrev pub low_names : List (List ℕ)
low_names =
    codes "ERROR"
    ∷ codes "esc"
    ∷ codes "1"
    ∷ codes "2"
    ∷ codes "3"
    ∷ codes "4"
    ∷ codes "5"
    ∷ codes "6"
    ∷ codes "7"
    ∷ codes "8"
    ∷ codes "9"
    ∷ codes "0"
    ∷ codes "-"
    ∷ codes "+"
    ∷ codes "backspace"
    ∷ codes "tab"
    ∷ codes "q"
    ∷ codes "w"
    ∷ codes "e"
    ∷ codes "r"
    ∷ codes "t"
    ∷ codes "y"
    ∷ codes "u"
    ∷ codes "i"
    ∷ codes "o"
    ∷ codes "p"
    ∷ codes "["
    ∷ codes "]"
    ∷ codes "enter"
    ∷ []

abbrev pub high_names : List (List ℕ)
high_names =
    codes "left_ctrl"
    ∷ codes "a"
    ∷ codes "s"
    ∷ codes "d"
    ∷ codes "f"
    ∷ codes "g"
    ∷ codes "h"
    ∷ codes "j"
    ∷ codes "k"
    ∷ codes "l"
    ∷ codes ";"
    ∷ codes "'"
    ∷ codes "`"
    ∷ codes "left_shift"
    ∷ codes "\\"
    ∷ codes "z"
    ∷ codes "x"
    ∷ codes "c"
    ∷ codes "v"
    ∷ codes "b"
    ∷ codes "n"
    ∷ codes "m"
    ∷ codes ","
    ∷ codes "."
    ∷ codes "/"
    ∷ codes "right_shift"
    ∷ codes "*"
    ∷ codes "left_alt"
    ∷ codes "space"
    ∷ []

pub key_name : ℕ → List ℕ
key_name scancode = get_or (low_names ++ high_names) scancode []

pub then_released : Option Screen → Option Screen
then_released none = none
then_released (some s) = some (kprint_debug (codes " released") white s)

-- Each call takes one from the fuel, and there is no result without fuel. The code that is
-- released is 0x80 more than the one that is pushed.
pub print_letter : ℕ → ℕ → Screen → Option Screen
print_letter zero scancode screen = none
print_letter (suc fuel) scancode screen =
    let pushed = print_letter fuel (u8 (scancode - 0x80)) screen in
    if leb scancode 0x39
    then some (kprint_debug (key_name scancode) white screen)
    else if leb scancode 0x7f
    then some (kprint_debug (codes "unknown") white screen)
    else if leb scancode (0x39 + 0x80)
    then then_released pushed
    else some (kprint_debug (codes "unknown released") white screen)

pub close_line : Option Screen → Option Screen
close_line none = none
close_line (some s) = some (kprint (10 ∷ []) (kprint_debug (codes ")") white s))

-- `sc_ascii` is the array for the number.
pub keyboard_callback : List ℕ → ℕ → Screen → Option Screen
keyboard_callback sc_ascii scancode screen =
    let s1 = kprint_debug (codes "scan_code: ") white screen in
    let s2 = kprint_debug (decimal sc_ascii scancode) white s1 in
    let s3 = kprint_debug (codes " (") white s2 in close_line (print_letter 2 scancode s3)

-- Interrupt 33, IRQ1, calls `keyboard_callback`, which stands at the address `callback`.
pub keyboard_init : ℕ → List ℕ → List ℕ
keyboard_init callback interrupt_handlers =
    register_interrupt_handler 33 callback interrupt_handlers
