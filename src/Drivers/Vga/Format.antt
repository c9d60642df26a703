-- ===== src/Drivers/Vga/Format.antt =====
-- What `kprintf` prints: one text, the format with its arguments in it.
use james_os.Prelude.{
  ℕ, true, ==→eq, suc, ◌*◌, ◌/◌, ◌≡◌, refl, sym, ◌∙◌, ap, List, [], ◌∷◌, ◌++◌, false, Bool-cases,
  inl, inr, ◌⊎◌, ltb, ◌==◌, if◌then◌else◌, arith, length,
}
use mathlib.Core.List.{append-nil, append_assoc}
use james_os.Drivers.Vga.{
  Screen, Arg, convert, print_char, scroll_past, scroll_screen, print_loop, kprint_at, kprint,
  kprintf_loop, kprintf, get_cursor_offset, set_cursor_offset,
}
use james_os.Drivers.Vga.Scroll.{set_cursor_offset-cursor}
use james_os.Drivers.Vga.Bounds.{OnScreen, kprint-OnScreen, print_loop-Kept}
use james_os.Drivers.Vga.Conversions.{shown, takes, convert-shown}

-- The format with its arguments in it.
unfoldable pub expand : List ℕ → List ℕ → List Arg → List ℕ
expand s [] args = []
expand s (c ∷ []) args = if c == b'%' then [] else c ∷ []
expand s (c ∷ d ∷ str) [] =
    let escaped = expand s str [] in
    let plain = expand s (d ∷ str) [] in
    if c == b'%' then if d == b'%' then c ∷ escaped else escaped else c ∷ plain
expand s (c ∷ d ∷ str) (a ∷ args) =
    let escaped = expand s str (a ∷ args) in
    let rest = expand s str args in
    let plain = expand s (d ∷ str) (a ∷ args) in
    if c == b'%'
    then if d == b'%' then c ∷ escaped else if takes d then shown s d a ++ rest else escaped
    else c ∷ plain

expand-escaped :
    (s : List ℕ) (c d : ℕ) (str : List ℕ) (args : List Arg)
    → (c == b'%') ≡ true
    → (d == b'%') ≡ true
    → expand s (c ∷ d ∷ str) args ≡ c ∷ expand s str args
unfolding expand
expand-escaped s c d str [] is both = rw (is, both) refl
expand-escaped s c d str (a ∷ args) is both = rw (is, both) refl

expand-plain :
    (s : List ℕ) (c d : ℕ) (str : List ℕ) (args : List Arg)
    → (c == b'%') ≡ false
    → expand s (c ∷ d ∷ str) args ≡ c ∷ expand s (d ∷ str) args
unfolding expand
expand-plain s c d str [] other = rw other refl
expand-plain s c d str (a ∷ args) other = rw other refl

-- A conversion after what waits.
expand-conversion :
    (s : List ℕ) (d : ℕ) (str : List ℕ) (args : List Arg)
    → (d == b'%') ≡ false
    → (convert s d args).0 ++ expand s str (convert s d args).1 ≡ expand s (b'%' ∷ d ∷ str) args
unfolding expand
expand-conversion s d str [] other = rw other (unfold convert in refl)
expand-conversion s d str (a ∷ args) other =
    rw (other, convert-shown s d a args)
      (elim (Bool-cases (takes d)) [ inl is ↦ rw is refl | inr none' ↦ rw none' refl ])

print_loop-++ :
    (a b : List ℕ) (offset : ℕ) (s : Screen)
    → print_loop (a ++ b) offset s
      ≡ print_loop b (print_loop a offset s).1 (print_loop a offset s).0
unfolding print_loop
print_loop-++ [] b offset s = refl
print_loop-++ (c ∷ a) b offset s = print_loop-++ a b _ _

-- Where the cursor stands does not matter while a text is printed.
scroll_past-cursor :
    (offset : ℕ) (s : Screen) (k : ℕ)
    → (scroll_past offset (record s { cursor = k }) ≡ scroll_past offset s)
      ⊎ ((scroll_past offset (record s { cursor = k }) ≡ (record s { cursor = k }, offset))
          × (scroll_past offset s ≡ (s, offset)))
unfolding scroll_past scroll_screen set_cursor_offset
scroll_past-cursor offset s k = elim (Bool-cases (ltb 3999 offset)) [
  | inl past ↦ rw past (inl refl)
  | inr inside ↦ rw inside (inr (refl, refl))
]

print_loop-cursor :
    (message : List ℕ) (offset : ℕ) (s : Screen) (k : ℕ)
    → ((print_loop message offset (record s { cursor = k })).1 ≡ (print_loop message offset s).1)
      × ((x : ℕ)
          → set_cursor_offset x (print_loop message offset (record s { cursor = k })).0
            ≡ set_cursor_offset x (print_loop message offset s).0)
unfolding print_loop
print_loop-cursor [] offset s k = unfold set_cursor_offset in (refl, λ x. refl)
print_loop-cursor (c ∷ message) offset s k =
    let (offset', video) = print_char c s.attribute offset s.video in
    let s' : Screen = record s { video = video } in
    let end = λ (p : Screen × ℕ). (print_loop message p.1 p.0).1 in
    let drawn = λ (x : ℕ) (p : Screen × ℕ). set_cursor_offset x (print_loop message p.1 p.0).0 in
    elim (scroll_past-cursor offset' s' k) [
      | inl same ↦ (ap end same, λ x. ap (drawn x) same)
      | inr stay ↦
          let (ends, draws) = print_loop-cursor message offset' s' k in
          (
            ap end stay.0 ∙ ends ∙ sym (ap end stay.1),
            λ x. ap (drawn x) stay.0 ∙ draws x ∙ sym (ap (drawn x) stay.1),
          )
    ]

pub kprint-++ : (a b : List ℕ) (s : Screen) → OnScreen s → kprint b (kprint a s) ≡ kprint (a ++ b) s
unfolding kprint kprint_at get_cursor_offset set_cursor_offset
kprint-++ a b s h =
    let (lt, even, kept) =
      print_loop-Kept a (s.cursor * 2) s (omega (arith, h.cursor)) (omega arith) h.size in
    let (s', at) = print_loop a (s.cursor * 2) s in
    let end = λ (p : Screen × ℕ). set_cursor_offset (p.1 / 2) p.0 in
    let here = set_cursor_offset-cursor (at / 2) s' (omega (arith, lt)) in
    let again : (set_cursor_offset (at / 2) s').cursor * 2 ≡ at = omega (arith, here, even) in
    let (same, drawn) = print_loop-cursor b at s' (set_cursor_offset (at / 2) s').cursor in
    ap (λ (o : ℕ). end (print_loop b o (set_cursor_offset (at / 2) s'))) again
    ∙ drawn ((print_loop b at (set_cursor_offset (at / 2) s')).1 / 2)
    ∙ ap (λ (x : ℕ). set_cursor_offset (x / 2) (print_loop b at s').0) same
    ∙ sym (ap end (print_loop-++ a b (s.cursor * 2) s))

kprint-nil : (s : Screen) → OnScreen s → kprint [] s ≡ s
unfolding kprint kprint_at get_cursor_offset print_loop set_cursor_offset
kprint-nil s h =
    let here = set_cursor_offset-cursor (s.cursor * 2 / 2) s (omega (arith, h.cursor)) in
    ap (λ (c : ℕ). record s { cursor = c }) (here ∙ omega arith)

kprintf_loop-expand :
    (s buff str : List ℕ) (args : List Arg) (screen : Screen)
    → OnScreen screen
    → kprintf_loop s buff str args screen ≡ kprint (buff ++ expand s str args) screen
unfolding kprintf_loop expand
kprintf_loop-expand s [] [] args screen h = sym (kprint-nil screen h)
kprintf_loop-expand s (b ∷ buff) [] args screen h =
    let more : (suc (length buff) == 0) ≡ false = ground arith in
    rw more (ap (λ (t : List ℕ). kprint t screen) (sym (append-nil (b ∷ buff))))
kprintf_loop-expand s buff (c ∷ []) args screen h = elim (Bool-cases (c == b'%')) [
  | inl is ↦ rw is (ap (λ (t : List ℕ). kprint t screen) (sym (append-nil buff)))
  | inr other ↦ rw other refl
]
kprintf_loop-expand s buff (c ∷ d ∷ str) args screen h =
    let escaped = kprintf_loop-expand s (buff ++ (c ∷ [])) str args screen h in
    let (out, args') = convert s d args in
    let h1 = (kprint-OnScreen buff screen h).0 in
    let h2 = (kprint-OnScreen out (kprint buff screen) h1).0 in
    let converted =
      kprintf_loop-expand s [] str args' (kprint out (kprint buff screen)) h2
      ∙ kprint-++ out (expand s str args') (kprint buff screen) h1
      ∙ kprint-++ buff (out ++ expand s str args') screen h in
    let plain = kprintf_loop-expand s (buff ++ (c ∷ [])) (d ∷ str) args screen h in
    let joined =
      λ (t : List ℕ). ap (λ (u : List ℕ). kprint u screen) (append_assoc buff (c ∷ []) t) in
    elim (Bool-cases (c == b'%')) [
      | inl is ↦ elim (Bool-cases (d == b'%')) [
        | inl both ↦
            rw (is, both)
              (escaped
                ∙ joined (expand s str args)
                ∙ ap (λ (t : List ℕ). kprint (buff ++ t) screen)
                    (sym (expand-escaped s c d str args is both)))
        | inr other ↦
            let c_is : c ≡ b'%' = ==→eq _ _ is in
            rw (is, other)
              (converted
                ∙ ap (λ (t : List ℕ). kprint (buff ++ t) screen)
                    (expand-conversion s d str args other
                      ∙ ap (λ (k : ℕ). expand s (k ∷ d ∷ str) args) (sym c_is)))
      ]
      | inr other ↦ rw other (
          plain
          ∙ joined (expand s (d ∷ str) args)
          ∙ ap (λ (t : List ℕ). kprint (buff ++ t) screen)
              (sym (expand-plain s c d str args other)))
    ]

-- Where the cursor is on the screen and the video memory has one more row, `kprintf` does what
-- `kprint` does on one text: the format with the text that `itoa` leaves for a number at `%d`, with
-- `0x` and the eight digits of a number at `%x`, with the argument at `%s` and with `%` at `%%`.
-- Another letter prints nothing and takes no argument.
pub kprintf-expand :
    (s str : List ℕ) (args : List Arg) (screen : Screen)
    → OnScreen screen
    → kprintf s str args screen ≡ kprint (expand s str args) screen
unfolding kprintf
kprintf-expand s str args screen h = kprintf_loop-expand s [] str args screen h
