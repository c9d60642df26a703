-- ===== src/Drivers/Keyboard/Describe.antt =====
-- What the keyboard's interrupt prints.
use james_os.Prelude.{
  ℕ, ◌-◌, ◌<◌, ◌≡◌, refl, ◌∙◌, ap, List, [], ◌∷◌, ◌++◌, some, true, false, ◌&&◌, Bool-cases, inl,
  inr, ◌==◌, get_or, ltb, leb, if◌then◌else◌, codes, arith, u8,
}
use james_os.Drivers.Vga.{Screen, kprint, kprint_debug, decimal}
use james_os.Drivers.Vga.Bounds.{OnScreen}
use james_os.Drivers.Vga.Debug.{kprint_debug-OnScreen, kprint_debug-++, kprint_debug_onto}
use james_os.Drivers.Keyboard.{
  key_name, then_released, white, print_letter, close_line, keyboard_callback,
}

-- The words of a text, the first of which begins with `word`.
abbrev words_from : List ℕ → List ℕ → List (List ℕ)
words_from word [] = word ∷ []
words_from word (c ∷ text) =
    let rest = words_from (word ++ (c ∷ [])) text in
    let next = words_from [] text in if c == b' ' then word ∷ next else rest

-- The keys by their scan codes, from 0 on, which is no key.
abbrev pub keys : List (List ℕ)
keys = words_from [] (
    codes
      "ERROR esc 1 2 3 4 5 6 7 8 9 0 - + backspace tab q w e r t y u i o p [ ] enter left_ctrl a s d f g h j k l ; ' ` left_shift \\ z x c v b n m , . / right_shift * left_alt space")

key_name-keys : (scancode : ℕ) → key_name scancode ≡ get_or keys scancode []
unfolding key_name
key_name-keys scancode = refl

-- A scan code as a text: a key is pushed by its code, and released by its code and 0x80.
unfoldable pub describe : ℕ → List ℕ
describe scancode =
    if leb scancode 0x39
    then get_or keys scancode []
    else if leb 0x80 scancode && leb scancode 0xb9
    then get_or keys (scancode - 0x80) [] ++ codes " released"
    else if ltb scancode 0x80
    then codes "unknown"
    else codes "unknown released"

print_letter-describe :
    (scancode : ℕ) (s : Screen)
    → scancode < 256
    → OnScreen s
    → print_letter 2 scancode s ≡ some (kprint_debug (describe scancode) white s)
unfolding print_letter describe then_released
print_letter-describe scancode s lt h = elim (Bool-cases (leb scancode 0x39)) [
  | inl key ↦ rw (key, key_name-keys scancode) refl
  | inr far ↦ elim (Bool-cases (leb scancode 0x7f)) [
    | inl unknown ↦
        let up : leb 0x80 scancode ≡ false = ground (arith, unknown) in
        let below : ltb scancode 0x80 ≡ true = ground (arith, unknown) in
        rw (far, unknown, up, below) refl
    | inr up' ↦
        let up : leb 0x80 scancode ≡ true = ground (arith, up') in
        let below : ltb scancode 0x80 ≡ false = ground (arith, up') in
        elim (Bool-cases (leb scancode 0xb9)) [
          | inl key ↦
              let code : u8 (scancode - 0x80) ≡ scancode - 0x80 = omega (arith, lt) in
              let small : leb (scancode - 0x80) 0x39 ≡ true = ground (arith, key, up) in
              rw (far, up', up, key, code, small)
                (ap some (
                  rw (key_name-keys (scancode - 0x80)) (
                    kprint_debug-++ (get_or keys (scancode - 0x80) []) (codes " released") white s
                      h)))
          | inr unknown ↦ rw (far, up', up, unknown, below) refl
        ]
  ]
]

-- Where the cursor is on the screen and the video memory has one more row, the interrupt for each
-- scan code below 256 comes back from its calls with one line in white on the screen: the code in
-- decimal as `itoa` leaves it, and in brackets the name of the key by `keys`, followed by `released`
-- when the code is a key's and 0x80; for a code that is neither it is `unknown` below 0x80 and
-- `unknown released` from there on.
pub keyboard_callback-describe :
    (sc_ascii : List ℕ) (scancode : ℕ) (s : Screen)
    → scancode < 256
    → OnScreen s
    → keyboard_callback sc_ascii scancode s
      ≡ some (
          kprint (10 ∷ []) (
            kprint_debug
              (codes "scan_code: "
                ++ decimal sc_ascii scancode
                ++ codes " ("
                ++ describe scancode
                ++ codes ")")
              white
              s))
unfolding keyboard_callback close_line
keyboard_callback-describe sc_ascii scancode s lt h =
    let number = decimal sc_ascii scancode in
    let h1 = kprint_debug-OnScreen (codes "scan_code: ") white s h in
    let h2 = kprint_debug-OnScreen number white (kprint_debug (codes "scan_code: ") white s) h1 in
    let h3 =
      kprint_debug-OnScreen (codes " (") white
        (kprint_debug number white (kprint_debug (codes "scan_code: ") white s)) h2 in
    let t2 = codes "scan_code: " ++ number in
    let t3 = t2 ++ codes " (" in
    let t4 = t3 ++ describe scancode in
    ap close_line (print_letter-describe scancode _ lt h3)
    ∙ ap (λ (s' : Screen). some (kprint (10 ∷ []) s'))
        (kprint_debug_onto t4 (codes ")") white s h (
          kprint_debug_onto t3 (describe scancode) white s h (
            kprint_debug_onto t2 (codes " (") white s h
              (kprint_debug-++ (codes "scan_code: ") number white s h))))
