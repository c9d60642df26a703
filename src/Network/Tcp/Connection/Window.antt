-- ===== src/Network/Tcp/Connection/Window.antt =====
-- The loop that puts received bytes into the window.
use james_os.Prelude.{
  ℕ, zero, suc, ◌+◌, ◌-◌, ◌^◌, ◌%◌, ◌≤◌, ◌<◌, ◌≡◌, refl, ◌∙◌, ap, List, some, true, false,
  Bool-cases, inl, inr, ◌==◌, leb, if◌then◌else◌, arith, length, get_or, get_or-set, length-set,
  IsBytes, u32,
}
use james_os.Libc.Bitmap.{bitmap_read}
use james_os.Libc.Bitmap.Fill.{bitmap_read-put, put-keeps}
use james_os.Network.Tcp.Connection.{RecvWindow, recv_byte, recv_loop}

-- The bitmap and the buffer have their sizes.
pub record HasRoom (w : RecvWindow) : Type 0 where
  pub bytes : IsBytes w.bitmap
  pub bits : length w.bitmap ≡ 128
  pub buffer : length w.buffer ≡ 1024

abbrev pub taken : RecvWindow → ℕ → ℕ
taken w b = bitmap_read w.bitmap (b % 1024)

abbrev pub byte : RecvWindow → ℕ → ℕ
byte w b = get_or w.buffer (b % 1024) 0

-- One byte that has not come before.
recv_byte-lem :
    (payload : List ℕ) (seq curr : ℕ) (w : RecvWindow)
    → HasRoom w
    → taken w curr ≡ 0
    → HasRoom (recv_byte payload seq curr w)
      × ((b : ℕ)
          → byte (recv_byte payload seq curr w) b ≡ (
              if curr % 1024 == b % 1024
              then get_or payload (u32 (curr + 2 ^ 32 - seq)) 0
              else byte w b))
      × ((b : ℕ)
          → taken (recv_byte payload seq curr w) b
            ≡ (if curr % 1024 == b % 1024 then 1 else taken w b))
unfolding recv_byte
recv_byte-lem payload seq curr w room free =
    let at = curr % 1024 in
    let keeps = put-keeps true w.bitmap at room.bytes in
    let is_free : (bitmap_read w.bitmap at == 0) ≡ true = ground (arith, free) in
    rw is_free (
      record {
        bytes = keeps.0;
        bits = keeps.1 ∙ room.bits;
        buffer = length-set w.buffer at _ ∙ room.buffer;
      },
      λ b. get_or-set w.buffer at (b % 1024) _ 0 (omega (arith, room.buffer)),
      λ b. bitmap_read-put true w.bitmap at (b % 1024) room.bytes (omega (arith, room.bits)),
    )

recv_byte-places :
    (payload : List ℕ) (seq curr : ℕ) (w : RecvWindow)
    → ((recv_byte payload seq curr w).last_acked_byte ≡ w.last_acked_byte)
      × ((recv_byte payload seq curr w).first_window_byte ≡ w.first_window_byte)
unfolding recv_byte
recv_byte-places payload seq curr w = elim (Bool-cases (bitmap_read w.bitmap (curr % 1024) == 0)) [
  | inl free ↦ rw free (refl, refl)
  | inr has ↦ rw has (refl, refl)
]

-- `left` bytes from `curr` on.
pub recv_bytes : List ℕ → ℕ → ℕ → ℕ → RecvWindow → RecvWindow
recv_bytes payload seq zero curr w = w
recv_bytes payload seq (suc left) curr w =
    recv_bytes payload seq left (curr + 1) (recv_byte payload seq curr w)

-- With one round more than there are bytes, the loop ends.
pub recv_loop-ends :
    (payload : List ℕ) (seq left fuel curr last : ℕ) (w : RecvWindow)
    → left < fuel
    → curr + left ≡ last + 1
    → last + 1 < 2 ^ 32
    → recv_loop payload seq fuel curr last w
      ≡ some (curr + left, recv_bytes payload seq left curr w)
unfolding recv_loop recv_bytes
recv_loop-ends payload seq left zero curr last w lt e wide = absurd (omega (arith, lt))
recv_loop-ends payload seq zero (suc fuel) curr last w lt e wide =
    let past : leb curr last ≡ false = ground (arith, e) in
    let at : curr + 0 ≡ curr = omega arith in rw (past, at) refl
recv_loop-ends payload seq (suc left) (suc fuel) curr last w lt e wide =
    let more : leb curr last ≡ true = ground (arith, e) in
    let next : u32 (curr + 1) ≡ curr + 1 = omega (arith, e, wide) in
    let at : curr + suc left ≡ curr + 1 + left = omega arith in
    rw (more, next, at)
      (recv_loop-ends payload seq left fuel (curr + 1) last (recv_byte payload seq curr w)
        (omega (arith, lt)) (omega (arith, e)) wide)

-- The window with `left` new bytes from `curr` on; the other places are as before.
pub record Filled (payload : List ℕ) (seq left curr : ℕ) (w w' : RecvWindow) : Type 0 where
  pub room : HasRoom w'
  pub new :
      (i : ℕ) → i < left → byte w' (curr + i) ≡ get_or payload (u32 (curr + i + 2 ^ 32 - seq)) 0
  pub old : (i : ℕ) → left ≤ i → i < 1024 → byte w' (curr + i) ≡ byte w (curr + i)
  pub now_taken : (i : ℕ) → i < left → taken w' (curr + i) ≡ 1
  pub as_taken : (i : ℕ) → left ≤ i → i < 1024 → taken w' (curr + i) ≡ taken w (curr + i)
  pub acked : w'.last_acked_byte ≡ w.last_acked_byte
  pub first : w'.first_window_byte ≡ w.first_window_byte

pub byte_at : (w : RecvWindow) (a b : ℕ) → a % 1024 ≡ b % 1024 → byte w a ≡ byte w b
byte_at w a b e = ap (λ (p : ℕ). get_or w.buffer p 0) e

pub taken_at : (w : RecvWindow) (a b : ℕ) → a % 1024 ≡ b % 1024 → taken w a ≡ taken w b
taken_at w a b e = ap (bitmap_read w.bitmap) e

-- One byte, and then the rest.
module _ (payload : List ℕ) (seq left curr : ℕ) (w w' : RecvWindow) (room : HasRoom w)
    (le : suc left ≤ 1024) (free : taken w curr ≡ 0)
    (rest : Filled payload seq left (curr + 1) (recv_byte payload seq curr w) w') where
  wrote :
      (b : ℕ)
      → byte (recv_byte payload seq curr w) b ≡ (
          if curr % 1024 == b % 1024
          then get_or payload (u32 (curr + 2 ^ 32 - seq)) 0
          else byte w b)
  wrote = (recv_byte-lem payload seq curr w room free).1

  took :
      (b : ℕ)
      → taken (recv_byte payload seq curr w) b ≡ (if curr % 1024 == b % 1024 then 1 else taken w b)
  took = (recv_byte-lem payload seq curr w room free).2

  new :
      (i : ℕ) → i < suc left → byte w' (curr + i) ≡ get_or payload (u32 (curr + i + 2 ^ 32 - seq)) 0
  new zero lt =
      let at : curr + 0 ≡ curr = omega arith in
      rw at (
        byte_at w' curr (curr + 1 + 1023) (omega arith)
        ∙ rest.old 1023 (omega (arith, le)) (omega arith)
        ∙ ground (arith, wrote (curr + 1 + 1023)))
  new (suc i) lt =
      let at : curr + suc i ≡ curr + 1 + i = omega arith in rw at (rest.new i (omega (arith, lt)))

  old : (i : ℕ) → suc left ≤ i → i < 1024 → byte w' (curr + i) ≡ byte w (curr + i)
  old zero from to = absurd (omega (arith, from))
  old (suc i) from to =
      let at : curr + suc i ≡ curr + 1 + i = omega arith in
      rw at (
        rest.old i (omega (arith, from)) (omega (arith, to))
        ∙ ground (arith, wrote (curr + 1 + i), to))

  now_taken : (i : ℕ) → i < suc left → taken w' (curr + i) ≡ 1
  now_taken zero lt =
      taken_at w' (curr + 0) (curr + 1 + 1023) (omega arith)
      ∙ rest.as_taken 1023 (omega (arith, le)) (omega arith)
      ∙ ground (arith, took (curr + 1 + 1023))
  now_taken (suc i) lt =
      let at : curr + suc i ≡ curr + 1 + i = omega arith in
      rw at (rest.now_taken i (omega (arith, lt)))

  as_taken : (i : ℕ) → suc left ≤ i → i < 1024 → taken w' (curr + i) ≡ taken w (curr + i)
  as_taken zero from to = absurd (omega (arith, from))
  as_taken (suc i) from to =
      let at : curr + suc i ≡ curr + 1 + i = omega arith in
      rw at (
        rest.as_taken i (omega (arith, from)) (omega (arith, to))
        ∙ ground (arith, took (curr + 1 + i), to))

  Filled-suc : Filled payload seq (suc left) curr w w'
  Filled-suc = record {
    room = rest.room;
    new = new;
    old = old;
    now_taken = now_taken;
    as_taken = as_taken;
    acked = rest.acked ∙ (recv_byte-places payload seq curr w).0;
    first = rest.first ∙ (recv_byte-places payload seq curr w).1;
  }

pub recv_bytes-Filled :
    (payload : List ℕ) (seq left curr : ℕ) (w : RecvWindow)
    → HasRoom w
    → left ≤ 1024
    → ((i : ℕ) → i < left → taken w (curr + i) ≡ 0)
    → Filled payload seq left curr w (recv_bytes payload seq left curr w)
unfolding recv_bytes
recv_bytes-Filled payload seq zero curr w room le free = record {
  room = room;
  new = λ i lt. absurd (omega (arith, lt));
  old = λ i from to. refl;
  now_taken = λ i lt. absurd (omega (arith, lt));
  as_taken = λ i from to. refl;
  acked = refl;
  first = refl;
}
recv_bytes-Filled payload seq (suc left) curr w room le free =
    let w1 = recv_byte payload seq curr w in
    let now : taken w curr ≡ 0 = ap (taken w) (omega arith) ∙ free 0 (omega arith) in
    let (room1, wrote, took) = recv_byte-lem payload seq curr w room now in
    Filled-suc payload seq left curr w _ room le now (
      recv_bytes-Filled payload seq left (curr + 1) w1 room1 (omega (arith, le)) (λ i lt. ground (
        arith,
        took (curr + 1 + i),
        taken_at w (curr + 1 + i) (curr + suc i) (omega arith),
        free (suc i) (omega (arith, lt)),
        lt,
        le,
      )))
