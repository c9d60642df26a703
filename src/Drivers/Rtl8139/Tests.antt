-- ===== src/Drivers/Rtl8139/Tests.antt =====
-- A card with a packet of three bytes and its checksum, and four frames that are sent.
use mathlib.Core.Option
use james_os.Prelude.{
  ℕ, ◌++◌, length, replicate, get_or, List, ◌+◌, ◌%◌, ◌≡◌, refl, [], ◌∷◌, none, some, ◌==◌,
  if◌then◌else◌, arith,
}
use james_os.Drivers.Rtl8139.{RtlDevice, rtl8139_send_frame, receive_round}
use james_os.Drivers.Rtl8139.Offset.{reset_writes, read_to, next_offset, receive_round-reads}

abbrev card : RtlDevice
card = record {
  io_base = 0xc000;
  rx_address = 0x100000;
  rx_buffer = 1 ∷ 0 ∷ 7 ∷ 0 ∷ 5 ∷ 6 ∷ 7 ∷ 0 ∷ 0 ∷ 0 ∷ 0 ∷ [];
  tx_cur = 3;
  rx_cur = 0;
}

first_descriptor_again : (rtl8139_send_frame card 0x2000 60).0.tx_cur ≡ 0
unfolding rtl8139_send_frame
first_descriptor_again = refl

receive_round-reads_example :
    ((receive_round card (9 ∷ 9 ∷ 9 ∷ [])).0 ≡ record card {
      rx_cur = next_offset card 1 7;
      tx_cur = if 1 == 0xffff then 0 else 3;
      rx_buffer = if 1 == 0xffff then replicate 8208 0xff else card.rx_buffer;
    })
    × (Option.map length (receive_round card (9 ∷ 9 ∷ 9 ∷ [])).1
        ≡ (if 1 == 0xffff then none else some ((7 + 65532) % 65536)))
    × (Option.map (λ (frame : List ℕ). get_or frame 2 0) (receive_round card (9 ∷ 9 ∷ 9 ∷ [])).1
        ≡ (if 1 == 0xffff then none else some (get_or card.rx_buffer (0 + 4 + 2) 0)))
    × ((receive_round card (9 ∷ 9 ∷ 9 ∷ [])).2
        ≡ (if 1 == 0xffff then reset_writes card else [])
          ++ (read_to card (next_offset card 1 7) ∷ []))
receive_round-reads_example =
    receive_round-reads card (9 ∷ 9 ∷ 9 ∷ []) 1 7 2 (omega arith) (omega arith) refl refl refl
      (omega arith)
