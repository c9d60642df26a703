-- ===== src/Drivers/Vga.antt =====
-- src/drivers/vga.c: the text screen. The state is the video memory from `VIDEO_ADDRESS` on, the
-- cursor that the two ports hold, and the default colour. A text is the list of its bytes before
-- the 0 that ends it, and none of them is 0.
pub mod Scroll
pub mod Bounds
pub mod Print
pub mod Conversions
pub mod Format
pub mod Debug
mod Tests
use james_os.Prelude.{
  ℕ, zero, suc, ◌+◌, ◌-◌, ◌*◌, ◌/◌, ◌%◌, ◌^◌, List, [], ◌∷◌, ◌++◌, Bool, ◌||◌, ◌==◌, ltb,
  if◌then◌else◌, get_or, set, length, take, replicate, bit_and, u8, u32, ◌>>>◌, codes,
}
use james_os.Prelude.Int.{ℤ, pos, negsuc}
use james_os.Libc.Mem.{memcpy}
use james_os.Libc.Text.{strlen, itoa}

abbrev pub max_rows : ℕ
max_rows = 25

abbrev pub max_cols : ℕ
max_cols = 80

abbrev pub white_on_black : ℕ
white_on_black = 0x0f

abbrev pub yellow_on_black : ℕ
yellow_on_black = 0x0e

pub record Screen : Type 0 where
  pub video : List ℕ
  pub cursor : ℕ
  pub attribute : ℕ

-- A character into the video memory, and the offset of the next one. 10 is the line feed.
pub print_char : ℕ → ℕ → ℕ → List ℕ → ℕ × List ℕ
print_char character attribute offset video =
    if character == 10
    then (max_cols * (offset / 2 / max_cols + 1) * 2, video)
    else (offset + 2, set (set video offset character) (offset + 1) attribute)

-- The ports give the two bytes back that were written to them.
pub get_cursor_offset : Screen → ℕ
get_cursor_offset s = s.cursor

pub set_cursor_offset : ℕ → Screen → Screen
set_cursor_offset offset s = record s {
  cursor = u8 (offset >>> 8) * 256 + u8 (bit_and offset 0xff);
}

-- The loop of `scroll_screen`, from the row before `row` on with `left` to go.
pub scroll_loop : List ℕ → ℕ → ℕ → List ℕ
scroll_loop video row zero = video
scroll_loop video row (suc left) =
    scroll_loop
      (memcpy video (row * (max_cols * 2)) (row * (max_cols * 2) - max_cols * 2) (max_cols * 2))
      (row + 1) left

pub scroll_screen : Screen → Screen
scroll_screen s =
    set_cursor_offset (max_rows * max_cols - max_cols)
      (record s { video = scroll_loop s.video 1 max_rows })

-- The test after each character: past the screen, it scrolls.
pub scroll_past : ℕ → Screen → Screen × ℕ
scroll_past offset s =
    if ltb (max_cols * max_rows * 2 - 1) offset
    then (scroll_screen s, get_cursor_offset (scroll_screen s) * 2)
    else (s, offset)

-- The loop of `kprint_at` over the message: the screen and the offset.
pub print_loop : List ℕ → ℕ → Screen → Screen × ℕ
print_loop [] offset s = (s, offset)
print_loop (c ∷ message) offset s =
    let (offset', video) = print_char c s.attribute offset s.video in
    let (next, at) = scroll_past offset' (record s { video = video }) in print_loop message at next

pub kprint_at : List ℕ → ℤ → Screen → Screen
kprint_at message (pos offset) s =
    let (s', at) = print_loop message offset s in set_cursor_offset (at / 2) s'
kprint_at message (negsuc k) s =
    let (s', at) = print_loop message (get_cursor_offset s * 2) s in set_cursor_offset (at / 2) s'

pub kprint : List ℕ → Screen → Screen
kprint message s = kprint_at message (negsuc 0) s

pub kprint_debug : List ℕ → ℕ → Screen → Screen
kprint_debug message color s =
    record (kprint_at message (negsuc 0) (record s { attribute = color })) {
      attribute = yellow_on_black;
    }

-- The cells from cell `i` on with `left` to go.
pub clear_loop : List ℕ → ℕ → ℕ → List ℕ
clear_loop video i zero = video
clear_loop video i (suc left) = clear_loop (print_char 32 white_on_black i video).1 (i + 2) left

pub clear_screen : Screen → Screen
clear_screen s =
    set_cursor_offset 0 (record s { video = clear_loop s.video 0 (max_rows * max_cols) })

-- An argument of `kprintf`.
pub data Arg : Type 0 where
  int : ℕ → Arg
  text : List ℕ → Arg

-- A number in decimal, as `itoa` leaves it in the array `s`.
pub decimal : List ℕ → ℕ → List ℕ
decimal s n = let out = itoa n s in take (strlen out) out

-- The eight digits of a number, from the one at `shift` on with `left` to go.
pub hex_digits : ℕ → ℕ → ℕ → List ℕ
hex_digits n shift zero = []
hex_digits n shift (suc left) =
    get_or (codes "0123456789abcdef") (bit_and (n >>> shift) 0xf) 0 ∷ hex_digits n (shift - 4) left

pub hexadecimal : ℕ → List ℕ
hexadecimal n = codes "0x" ++ hex_digits n 28 8

-- One conversion: what it prints, and the arguments that are left. Without an argument of its
-- kind a conversion prints nothing; in C it reads what stands on the stack.
pub convert : List ℕ → ℕ → List Arg → List ℕ × List Arg
convert s c [] = ([], [])
convert s c (int n ∷ args) =
    if c == b'd'
    then (decimal s n, args)
    else if c == b'x'
    then (hexadecimal n, args)
    else if c == b's'
    then ([], args)
    else ([], int n ∷ args)
convert s c (text t ∷ args) =
    if c == b's'
    then (t, args)
    else if (c == b'd') || (c == b'x')
    then ([], args)
    else ([], text t ∷ args)

-- `kprintf` on the rest of the format, with the text in `buff` that waits; `s` is the array for
-- numbers. A `%` at the end is a conversion of the 0 after it.
pub kprintf_loop : List ℕ → List ℕ → List ℕ → List Arg → Screen → Screen
kprintf_loop s buff [] args screen = if length buff == 0 then screen else kprint buff screen
kprintf_loop s buff (c ∷ []) args screen =
    if c == b'%' then kprint buff screen else kprint (buff ++ (c ∷ [])) screen
kprintf_loop s buff (c ∷ d ∷ str) args screen =
    let escaped = kprintf_loop s (buff ++ (c ∷ [])) str args screen in
    let converted =
      let (out, args') = convert s d args in
      kprintf_loop s [] str args' (kprint out (kprint buff screen)) in
    let plain = kprintf_loop s (buff ++ (c ∷ [])) (d ∷ str) args screen in
    if c == b'%' then if d == b'%' then escaped else converted else plain

pub kprintf : List ℕ → List ℕ → List Arg → Screen → Screen
kprintf s str args screen = kprintf_loop s [] str args screen
