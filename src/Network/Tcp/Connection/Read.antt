-- ===== src/Network/Tcp/Connection/Read.antt =====
-- src/network/tcp.c: `tcp_read`, and what it gives after data has arrived.
use james_os.Prelude.{
  ℕ, zero, suc, ◌+◌, ◌-◌, ◌^◌, ◌%◌, ◌≤◌, ◌<◌, ◌≡◌, refl, ◌∙◌, ap, List, [], ◌∷◌, some, false,
  Bool-cases, inl, inr, ◌==◌, ltb, if◌then◌else◌, arith, length, get_or, get_or-set, set,
  length-set, u32,
}
use james_os.Libc.Minmax.{min}
use james_os.Libc.Bitmap.{bitmap_clear}
use james_os.Libc.Bitmap.Fill.{bitmap_read-put, put-keeps}
use james_os.Network.Utils.{get_bits_attr_value}
use james_os.Network.Tcp.Connection.{RecvWindow, tcp_send_ack, recv_data}
use james_os.Network.Tcp.Connection.Window.{HasRoom, taken, byte, byte_at, taken_at}
use james_os.Network.Tcp.Connection.Arrival.{recv_data-in_order}

-- The loop, from byte `curr_byte` on with `left` to go: the bytes read, the buffer, the window.
read_loop : ℕ → ℕ → ℕ → List ℕ → RecvWindow → ℕ × List ℕ × RecvWindow
read_loop zero curr_byte bytes_read buffer window = (bytes_read, buffer, window)
read_loop (suc left) curr_byte bytes_read buffer window =
    read_loop left (curr_byte + 1) (bytes_read + 1)
      (set buffer bytes_read (get_or window.buffer (curr_byte % 1024) 0))
      (record window {
        bitmap = bitmap_clear window.bitmap (curr_byte % 1024);
        first_window_byte = u32 (window.first_window_byte + 1);
      })

-- The interrupts are off meanwhile.
pub tcp_read : RecvWindow → List ℕ → ℕ → ℕ × List ℕ × RecvWindow
tcp_read window buffer size =
    let first_byte = window.first_window_byte in
    let last_byte = min (u32 (first_byte + size + 2 ^ 32 - 1)) window.last_acked_byte in
    read_loop (last_byte - first_byte) first_byte 0 buffer window

-- What `left` rounds leave: the bytes in the buffer, and their places free again.
record Taken (left curr n : ℕ) (buffer : List ℕ) (w : RecvWindow) (out : ℕ × List ℕ × RecvWindow)
    : Type 0 where
  pub count : out.0 ≡ n + left
  pub new : (i : ℕ) → i < left → get_or out.1 (n + i) 0 ≡ byte w (curr + i)
  pub old : (q : ℕ) → q < n → get_or out.1 q 0 ≡ get_or buffer q 0
  pub room : HasRoom out.2
  pub now_free : (i : ℕ) → i < left → taken out.2 (curr + i) ≡ 0
  pub as_taken : (i : ℕ) → left ≤ i → i < 1024 → taken out.2 (curr + i) ≡ taken w (curr + i)
  pub acked : out.2.last_acked_byte ≡ w.last_acked_byte
  pub first : out.2.first_window_byte ≡ w.first_window_byte + left

module _ (left curr n : ℕ) (buffer : List ℕ) (w : RecvWindow) where
  abbrev cleared : RecvWindow
  cleared = record w {
    bitmap = bitmap_clear w.bitmap (curr % 1024);
    first_window_byte = u32 (w.first_window_byte + 1);
  }

  abbrev copied : List ℕ
  copied = set buffer n (byte w curr)

  module _ (room : HasRoom w) (le : suc left ≤ 1024) (fits : n + suc left ≤ length buffer)
      (wide : w.first_window_byte + suc left < 2 ^ 32) where
    cleared-HasRoom : HasRoom cleared
    cleared-HasRoom =
        let keeps = put-keeps false w.bitmap (curr % 1024) room.bytes in
        record { bytes = keeps.0; bits = keeps.1 ∙ room.bits; buffer = room.buffer }

    freed : (b : ℕ) → taken cleared b ≡ (if curr % 1024 == b % 1024 then 0 else taken w b)
    freed b =
        bitmap_read-put false w.bitmap (curr % 1024) (b % 1024) room.bytes
          (omega (arith, room.bits))

    Taken-suc :
        (out : ℕ × List ℕ × RecvWindow)
        → Taken left (curr + 1) (n + 1) copied cleared out
        → Taken (suc left) curr n buffer w out
    Taken-suc out rest = record {
      count = rest.count ∙ omega arith;
      new = new;
      old = λ q lt.
          rest.old q (omega (arith, lt))
          ∙ ground (arith, get_or-set buffer n q (byte w curr) 0 (omega (arith, fits)), lt);
      room = rest.room;
      now_free = now_free;
      as_taken = as_taken;
      acked = rest.acked;
      first = rest.first ∙ omega (arith, wide);
    }
      where
        new : (i : ℕ) → i < suc left → get_or out.1 (n + i) 0 ≡ byte w (curr + i)
        new zero lt =
            ap (λ (q : ℕ). get_or out.1 q 0) (omega arith)
            ∙ rest.old n (omega arith)
            ∙ ground (arith, get_or-set buffer n n (byte w curr) 0 (omega (arith, fits)))
            ∙ byte_at w curr (curr + 0) (omega arith)
        new (suc i) lt =
            ap (λ (q : ℕ). get_or out.1 q 0) (omega arith)
            ∙ rest.new i (omega (arith, lt))
            ∙ byte_at w (curr + 1 + i) (curr + suc i) (omega arith)

        now_free : (i : ℕ) → i < suc left → taken out.2 (curr + i) ≡ 0
        now_free zero lt =
            taken_at out.2 (curr + 0) (curr + 1 + 1023) (omega arith)
            ∙ rest.as_taken 1023 (omega (arith, le)) (omega arith)
            ∙ ground (arith, freed (curr + 1 + 1023))
        now_free (suc i) lt =
            taken_at out.2 (curr + suc i) (curr + 1 + i) (omega arith)
            ∙ rest.now_free i (omega (arith, lt))

        as_taken : (i : ℕ) → suc left ≤ i → i < 1024 → taken out.2 (curr + i) ≡ taken w (curr + i)
        as_taken zero from to = absurd (omega (arith, from))
        as_taken (suc i) from to =
            taken_at out.2 (curr + suc i) (curr + 1 + i) (omega arith)
            ∙ rest.as_taken i (omega (arith, from)) (omega (arith, to))
            ∙ ground (arith, freed (curr + 1 + i), to)
            ∙ taken_at w (curr + 1 + i) (curr + suc i) (omega arith)

read_loop-Taken :
    (left curr n : ℕ) (buffer : List ℕ) (w : RecvWindow)
    → HasRoom w
    → left ≤ 1024
    → n + left ≤ length buffer
    → w.first_window_byte + left < 2 ^ 32
    → Taken left curr n buffer w (read_loop left curr n buffer w)
unfolding read_loop
read_loop-Taken zero curr n buffer w room le fits wide = record {
  count = omega arith;
  new = λ i lt. absurd (omega (arith, lt));
  old = λ q lt. refl;
  room = room;
  now_free = λ i lt. absurd (omega (arith, lt));
  as_taken = λ i from to. refl;
  acked = refl;
  first = omega arith;
}
read_loop-Taken (suc left) curr n buffer w room le fits wide =
    Taken-suc left curr n buffer w room le fits wide _ (
      read_loop-Taken left (curr + 1) (n + 1) (copied left curr n buffer w)
        (cleared left curr n buffer w) (cleared-HasRoom left curr n buffer w room le fits wide)
        (omega (arith, le)) (omega (arith, fits, length-set buffer n (byte w curr)))
        (omega (arith, wide)))

-- A read that asks for more bytes than are waiting.
tcp_read-Taken :
    (w : RecvWindow) (buffer : List ℕ) (n size : ℕ)
    → HasRoom w
    → w.last_acked_byte ≡ w.first_window_byte + n
    → n ≤ 1024
    → n < size
    → w.first_window_byte + size < 2 ^ 32
    → n ≤ length buffer
    → Taken n w.first_window_byte 0 buffer w (tcp_read w buffer size)
unfolding tcp_read min
tcp_read-Taken w buffer n size room acked le more wide fits =
    let up : u32 (w.first_window_byte + size + 2 ^ 32 - 1) ≡ w.first_window_byte + size - 1 =
      omega (arith, more, wide) in
    let rounds : min (w.first_window_byte + size - 1) w.last_acked_byte - w.first_window_byte ≡ n =
      ground (arith, acked, more) in
    rw (up, rounds)
      (read_loop-Taken n w.first_window_byte 0 buffer w room le (omega (arith, fits))
        (omega (arith, more, wide)))

-- What a read gives back: the bytes in order, their number, and a window that waits for the next
-- byte and has nothing in it.
pub record ReadBack (payload : List ℕ) (next n : ℕ) (out : ℕ × List ℕ × RecvWindow) : Type 0 where
  pub count : out.0 ≡ n
  pub bytes : (i : ℕ) → i < n → get_or out.1 i 0 ≡ get_or payload i 0
  pub room : HasRoom out.2
  pub empty : (b : ℕ) → taken out.2 b ≡ 0
  pub acked : out.2.last_acked_byte ≡ next
  pub first : out.2.first_window_byte ≡ next

-- Data of at least one byte and at most the window's size that arrives in order at an empty window
-- is acknowledged, and a read that asks for more bytes than have come gives exactly those bytes and
-- leaves the window empty at the byte after them. The buffer has room for them, and the sequence
-- numbers do not wrap around.
pub tcp_read-recv_data :
    (header payload buffer : List ℕ) (seq n size : ℕ) (w : RecvWindow)
    → get_bits_attr_value header 32 32 ≡ seq
    → w.last_acked_byte ≡ seq
    → w.first_window_byte ≡ seq
    → 0 < n
    → n ≤ 1024
    → n < size
    → seq + 1024 < 2 ^ 32
    → seq + size < 2 ^ 32
    → n ≤ length buffer
    → HasRoom w
    → ((b : ℕ) → taken w b ≡ 0)
    → (w' : RecvWindow) × (recv_data header payload n w
        ≡ some (w', tcp_send_ack header (seq + n) ∷ []))
      × ReadBack payload (seq + n) n (tcp_read w' buffer size)
tcp_read-recv_data header payload buffer seq n size w at awaited first pos le more wide wide' fits
      room empty =
    let (w', e, got) =
      recv_data-in_order header payload seq n w at awaited (omega (arith, first)) pos
        (omega (arith, first, le)) (omega (arith, first, wide)) room (λ i lt. empty (seq + i)) in
    let begin : w'.first_window_byte ≡ seq = got.first ∙ first in
    let out = tcp_read w' buffer size in
    let read =
      tcp_read-Taken w' buffer n size got.room (omega (arith, got.acked, begin)) le more
        (omega (arith, begin, wide')) fits in
    let now_free = λ (b : ℕ).
      let j = (b + 1024 - seq % 1024) % 1024 in
      let here = taken_at out.2 b (w'.first_window_byte + j) (omega (arith, begin)) in
      here ∙ elim (Bool-cases (ltb j n)) [
        | inl within ↦ read.now_free j (ground (arith, within))
        | inr beyond ↦
            read.as_taken j (ground (arith, beyond)) (omega arith)
            ∙ ap (λ (k : ℕ). taken w' (k + j)) begin
            ∙ got.as_taken j (ground (arith, beyond)) (omega arith)
            ∙ empty (seq + j)
      ] in
    (
      w',
      e,
      record {
        count = read.count ∙ omega arith;
        bytes = λ i lt.
            ap (λ (k : ℕ). get_or out.1 k 0) (omega arith)
            ∙ read.new i lt
            ∙ ap (λ (k : ℕ). byte w' (k + i)) begin
            ∙ got.new i lt;
        room = read.room;
        empty = now_free;
        acked = read.acked ∙ got.acked;
        first = read.first ∙ omega (arith, begin);
      },
    )
