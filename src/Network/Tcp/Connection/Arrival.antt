-- ===== src/Network/Tcp/Connection/Arrival.antt =====
-- Receiving data ends, and data that arrives in order stands in the window.
use james_os.Prelude.{
  ℕ, ◌+◌, ◌-◌, ◌^◌, ◌≤◌, ◌<◌, ◌≡◌, refl, sym, ◌∙◌, ap, List, [], ◌∷◌, some, true, false, Bool-cases,
  inl, inr, ltb, leb, arith, get_or, u32,
}
use james_os.Libc.Minmax.{max, min}
use james_os.Network.Utils.{get_bits_attr_value}
use james_os.Network.Tcp.Connection.{
  RecvWindow, Reply, tcp_send_ack, recv_loop, send_highest_ack, recv_data,
}
use james_os.Network.Tcp.Connection.Window.{
  HasRoom, taken, byte, recv_bytes, recv_loop-ends, recv_bytes-Filled,
}

-- The loop ends for each segment: the bytes that fit are at most 1024.
recv_loop-returns :
    (payload : List ℕ) (seq curr last : ℕ) (w : RecvWindow)
    → last + 1 < 2 ^ 32
    → last < curr + 1024
    → (out : ℕ × RecvWindow) × (recv_loop payload seq 1025 curr last w ≡ some out)
unfolding recv_loop
recv_loop-returns payload seq curr last w wide short = elim (Bool-cases (leb curr last)) [
  | inl more ↦ (
    _,
    recv_loop-ends payload seq (last + 1 - curr) 1025 curr last w (ground (arith, short))
        (ground (arith, more)) wide,
  )
  | inr past ↦ ((curr, w), rw past refl)
]

min_le : (i j : ℕ) → min i j ≤ i
unfolding min
min_le i j = ground arith

le_max : (i j : ℕ) → i ≤ max i j
unfolding max
le_max i j = ground arith

min_right : (i j : ℕ) → j ≤ i → min i j ≡ j
unfolding min
min_right i j le = ground (arith, le)

max_same : (i j : ℕ) → i ≡ j → max i j ≡ j
unfolding max
max_same i j e = ground (arith, e)

-- Whatever data arrives, the loop of receiving it ends within its 1025 rounds, where the window's
-- first byte is at most the one that is acknowledged next and the window ends before 2 ^ 32.
pub recv_data-returns :
    (header payload : List ℕ) (n : ℕ) (w : RecvWindow)
    → w.first_window_byte ≤ w.last_acked_byte
    → w.first_window_byte + 1024 < 2 ^ 32
    → (out : RecvWindow × List Reply) × (recv_data header payload n w ≡ some out)
unfolding recv_data
recv_data-returns header payload n w le wide =
    let seq = get_bits_attr_value header 32 32 in
    let possible = u32 (w.first_window_byte + 1024 + 2 ^ 32 - 1) in
    let received = u32 (seq + n + 2 ^ 32 - 1) in
    elim (Bool-cases (ltb possible seq)) [
      | inl beyond ↦ rw beyond (_, refl)
      | inr fits ↦ elim (Bool-cases (ltb received w.last_acked_byte)) [
        | inl again ↦ rw (fits, again) (_, refl)
        | inr fresh ↦
            let (out, e) =
              recv_loop-returns payload seq (max w.last_acked_byte seq) (min possible received) w
                (omega (arith, min_le possible received, wide))
                (omega (arith, min_le possible received, le_max w.last_acked_byte seq, le, wide)) in
            rw (fits, fresh, e) (_, refl)
      ]
    ]

-- The window after data that came in order: the bytes stand in it, and they are acknowledged.
pub record Received (payload : List ℕ) (seq n : ℕ) (w w' : RecvWindow) : Type 0 where
  pub room : HasRoom w'
  pub new : (i : ℕ) → i < n → byte w' (seq + i) ≡ get_or payload i 0
  pub now_taken : (i : ℕ) → i < n → taken w' (seq + i) ≡ 1
  pub as_taken : (i : ℕ) → n ≤ i → i < 1024 → taken w' (seq + i) ≡ taken w (seq + i)
  pub acked : w'.last_acked_byte ≡ seq + n
  pub first : w'.first_window_byte ≡ w.first_window_byte

-- At least one byte of data that begins at the byte that is awaited, fits in the window and whose
-- places are free, is put into the window, and one reply acknowledges all of it.
pub recv_data-in_order :
    (header payload : List ℕ) (seq n : ℕ) (w : RecvWindow)
    → get_bits_attr_value header 32 32 ≡ seq
    → w.last_acked_byte ≡ seq
    → w.first_window_byte ≤ seq
    → 0 < n
    → seq + n ≤ w.first_window_byte + 1024
    → w.first_window_byte + 1024 < 2 ^ 32
    → HasRoom w
    → ((i : ℕ) → i < n → taken w (seq + i) ≡ 0)
    → (w' : RecvWindow) × (recv_data header payload n w
        ≡ some (w', tcp_send_ack header (seq + n) ∷ []))
      × Received payload seq n w w'
unfolding recv_data send_highest_ack
recv_data-in_order header payload seq n w at awaited le pos fits wide room free =
    let filled = recv_bytes-Filled payload seq n seq w room (omega (arith, fits, le)) free in
    let w1 = recv_bytes payload seq n seq w in
    let e =
      recv_loop-ends payload seq n 1025 seq (seq + n - 1) w (omega (arith, fits, le))
        (omega (arith, pos)) (omega (arith, fits, wide)) in
    let got = get_bits_attr_value header 32 32 in
    let possible = u32 (w.first_window_byte + 1024 + 2 ^ 32 - 1) in
    let received = u32 (got + n + 2 ^ 32 - 1) in
    let inside : ltb possible got ≡ false = ground (arith, at, le, pos, fits, wide) in
    let fresh : ltb received w.last_acked_byte ≡ false =
      ground (arith, at, awaited, pos, fits, wide) in
    let from : max w.last_acked_byte got ≡ got =
      max_same w.last_acked_byte got (awaited ∙ sym at) in
    let to : min possible received ≡ seq + n - 1 =
      min_right possible received (omega (arith, at, pos, fits, wide))
      ∙ omega (arith, at, pos, fits, wide) in
    let later : ltb w.last_acked_byte (seq + n) ≡ true = ground (arith, awaited, pos) in
    (
      record w1 { last_acked_byte = seq + n },
      rw (inside, fresh, from, to, at, e, later) refl,
      record {
        room = record {
          bytes = filled.room.bytes;
          bits = filled.room.bits;
          buffer = filled.room.buffer;
        };
        new = λ i lt.
            filled.new i lt ∙ ap (λ (k : ℕ). get_or payload k 0) (omega (arith, lt, fits, wide));
        now_taken = filled.now_taken;
        as_taken = filled.as_taken;
        acked = refl;
        first = filled.first;
      },
    )
