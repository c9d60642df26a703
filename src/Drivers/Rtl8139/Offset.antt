-- ===== src/Drivers/Rtl8139/Offset.antt =====
-- Where the driver reads in the receive buffer.
use james_os.Prelude.{
  ◌++◌, [], ◌∷◌, ◌-◌, length, replicate, ℕ, ◌+◌, ◌*◌, ◌/◌, ◌%◌, ◌^◌, ◌<◌, ◌≡◌, refl, ◌∙◌, ap, List,
  none, some, arith, get_or, bit_and, u16, u32, Bool-cases, inl, inr, ◌==◌, if◌then◌else◌,
}
use mathlib.Core.Option
use james_os.Network.Utils.{copy_block}
use james_os.Network.Utils.Blocks.{get_or-copy_block, length-copy_block}
use james_os.Prelude.Binary.{bit_and_ones, bit_and_shifted}
use james_os.Drivers.Rtl8139.{RtlDevice, next_rx_cur, finish_round, rtl8139_reset, receive_round}

next_rx_cur-bytes :
    (rx_cur pckt_sz : ℕ)
    → rx_cur < 8192
    → pckt_sz < 65536
    → next_rx_cur rx_cur pckt_sz ≡ (rx_cur + pckt_sz + 7) / 4 * 4 % 8192
unfolding next_rx_cur
next_rx_cur-bytes rx_cur pckt_sz lr lp =
    let n = rx_cur + pckt_sz + 4 + 3 in
    let cut : u32 n ≡ n = omega (arith, lr, lp) in
    let low : bit_and n 0xfffffffc ≡ n / 4 * 4 =
      bit_and_shifted 2 n 1073741823 ∙ omega (arith, bit_and_ones 30 (n / 2 ^ 2), lr, lp) in
    rw (cut, low) (ap (λ (t : ℕ). t / 4 * 4 % 8192) (omega arith))

abbrev pub load16_at : List ℕ → ℕ → ℕ
load16_at bytes i = get_or bytes i 0 + get_or bytes (i + 1) 0 * 256

-- The ports that are written to reset the card, and the one that tells it where the driver reads.
abbrev pub reset_writes : RtlDevice → List (ℕ × ℕ)
reset_writes device =
    ((device.io_base + 0x52) % 65536, 0)
    ∷ ((device.io_base + 0x37) % 65536, 0x10)
    ∷ ((device.io_base + 0x30) % 65536, device.rx_address)
    ∷ ((device.io_base + 0x3c) % 65536, 5)
    ∷ ((device.io_base + 0x44) % 65536, 15)
    ∷ ((device.io_base + 0x37) % 65536, 12)
    ∷ []

abbrev pub read_to : RtlDevice → ℕ → ℕ × ℕ
read_to device offset = ((device.io_base + 0x38) % 65536, (offset + 4294967280) % 65536)

-- Where the driver reads next: behind the packet, or, after a status of 0xffff, at an offset from the
-- size that was read before the reset.
abbrev pub next_offset : RtlDevice → ℕ → ℕ → ℕ
next_offset device status size =
    if status == 0xffff
    then ((size + 4) % 65536 + 7) / 4 * 4 % 8192
    else (device.rx_cur + size + 7) / 4 * 4 % 8192

-- A round at a packet of `size` bytes with its checksum hands over `size - 4` bytes, as a `uint16_t`,
-- which are those behind the packet's header of four bytes, and moves to the next multiple of four
-- behind the packet, round 8192 bytes; the offset less 16 is written to a port of the card. With the
-- status 0xffff no frame is handed over, the buffer is filled with 0xff and the card is reset by six
-- writes to its ports; the offset of the next packet is then computed from the size that was read
-- before the reset. The memory for the frame has its size, and the offset is below 8192.
pub receive_round-reads :
    (device : RtlDevice) (block : List ℕ) (status size q : ℕ)
    → device.rx_cur < 8192
    → size < 65536
    → load16_at device.rx_buffer device.rx_cur ≡ status
    → load16_at device.rx_buffer (device.rx_cur + 2) ≡ size
    → length block ≡ (size + 65532) % 65536
    → q < (size + 65532) % 65536
    → ((receive_round device block).0 ≡ record device {
      rx_cur = next_offset device status size;
      tx_cur = if status == 0xffff then 0 else device.tx_cur;
      rx_buffer = if status == 0xffff then replicate 8208 0xff else device.rx_buffer;
    })
      × (Option.map length (receive_round device block).1
          ≡ (if status == 0xffff then none else some ((size + 65532) % 65536)))
      × (Option.map (λ (frame : List ℕ). get_or frame q 0) (receive_round device block).1 ≡ (
          if status == 0xffff
          then none
          else some (get_or device.rx_buffer (device.rx_cur + 4 + q) 0)))
      × ((receive_round device block).2
          ≡ (if status == 0xffff then reset_writes device else [])
            ++ (read_to device (next_offset device status size) ∷ []))
unfolding receive_round finish_round rtl8139_reset
receive_round-reads device block status size q lr ls e_status e_size lb lq =
    let n = (size + 65532) % 65536 in
    let back : u16 (u16 (size + 65532) + 4) ≡ size = omega (arith, ls) in
    let e_size' : get_or device.rx_buffer (device.rx_cur + 2) 0
          + get_or device.rx_buffer (device.rx_cur + 3) 0 * 256
        ≡ size =
      ap
        (λ (t : ℕ).
          get_or device.rx_buffer (device.rx_cur + 2) 0 + get_or device.rx_buffer t 0 * 256)
        (omega arith)
      ∙ e_size in
    let gone_next : next_rx_cur 0 (u16 (size + 4)) ≡ ((size + 4) % 65536 + 7) / 4 * 4 % 8192 =
      next_rx_cur-bytes 0 (u16 (size + 4)) (omega arith) (omega arith)
      ∙ ap (λ (t : ℕ). (t + 7) / 4 * 4 % 8192) (omega arith) in
    let fine_next = next_rx_cur-bytes device.rx_cur size lr ls in
    let long = length-copy_block device.rx_buffer (device.rx_cur + 4) block 0 n ∙ lb in
    let index : device.rx_cur + 4 + q - 0 ≡ device.rx_cur + 4 + q = omega arith in
    let byte : get_or (copy_block device.rx_buffer (device.rx_cur + 4) block 0 n) q 0
        ≡ get_or device.rx_buffer (device.rx_cur + 4 + q) 0 =
      ground (
        arith,
        lq,
        get_or-copy_block device.rx_buffer (device.rx_cur + 4) block 0 n q (omega (arith, lb)),
        ap (λ (t : ℕ). get_or device.rx_buffer t 0) index,
      ) in
    elim (Bool-cases (status == 0xffff)) [
      | inl gone ↦ rw (e_status, e_size', gone, gone_next) (refl, refl, refl, refl)
      | inr fine ↦
          rw (e_status, e_size', fine, back, fine_next) (refl, ap some long, ap some byte, refl)
    ]
