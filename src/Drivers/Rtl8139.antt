-- ===== src/Drivers/Rtl8139.antt =====
-- src/drivers/rtl8139.c: the frames that the network card sends and receives. A write to a port is
-- the port with the value.
pub mod Offset
mod Tests
use james_os.Prelude.{
  ℕ, ◌+◌, ◌*◌, ◌%◌, List, [], ◌∷◌, Option, none, some, ◌==◌, if◌then◌else◌, ltb, ◌++◌, ◌-◌, get_or,
  replicate, take, drop, bit_and, u8, u16, u32,
}
use james_os.Network.Utils.{copy_block}

abbrev pub rx_buffer_size : ℕ
rx_buffer_size = 0x2010

-- The fields of `struct rtl8139_dev` that sending and receipt use; the memory that `rx_buffer` points
-- to stands for the pointer, which is `rx_address`.
pub record RtlDevice : Type 0 where
  pub io_base : ℕ
  pub rx_address : ℕ
  pub rx_buffer : List ℕ
  pub tx_cur : ℕ
  pub rx_cur : ℕ

-- The card has four descriptors, which are used in turn; `frame` is an address.
pub rtl8139_send_frame : RtlDevice → ℕ → ℕ → RtlDevice × List (ℕ × ℕ)
rtl8139_send_frame device frame size =
    let tsad = get_or (0x20 ∷ 0x24 ∷ 0x28 ∷ 0x2c ∷ []) device.tx_cur 0 in
    let tsd = get_or (0x10 ∷ 0x14 ∷ 0x18 ∷ 0x1c ∷ []) device.tx_cur 0 in
    let tx_cur = u8 (device.tx_cur + 1) in
    (
      record device { tx_cur = if ltb 3 tx_cur then 0 else tx_cur },
      (u16 (device.io_base + tsad), frame) ∷ (u16 (device.io_base + tsd), size) ∷ [],
    )

-- The reset, without the wait for the card.
pub rtl8139_reset : RtlDevice → RtlDevice × List (ℕ × ℕ)
rtl8139_reset device = (
  record device { tx_cur = 0; rx_cur = 0; rx_buffer = replicate rx_buffer_size 0xff },
  (u16 (device.io_base + 0x52), 0)
      ∷ (u16 (device.io_base + 0x37), 0x10)
      ∷ (u16 (device.io_base + 0x30), device.rx_address)
      ∷ (u16 (device.io_base + 0x3c), 0x0005)
      ∷ (u16 (device.io_base + 0x44), 0xf)
      ∷ (u16 (device.io_base + 0x37), 0x0c)
      ∷ [],
)

-- Where the next packet begins.
pub next_rx_cur : ℕ → ℕ → ℕ
next_rx_cur rx_cur pckt_sz =
    bit_and (u32 (rx_cur + pckt_sz + 4 + 3)) 0xfffffffc % (rx_buffer_size - 0x10)

-- The part of a round after `rx_error`.
pub finish_round : RtlDevice → ℕ → RtlDevice × List (ℕ × ℕ)
finish_round device pckt_sz =
    let rx_cur = next_rx_cur device.rx_cur (u16 (pckt_sz + 4)) in
    (
      record device { rx_cur = rx_cur },
      (u16 (device.io_base + 0x38), u16 (rx_cur + 4294967280)) ∷ [],
    )

-- One round of `rtl8139_receive_frame`: the frame that is given to `nht_enqueue_recv_frame`, if one
-- is, and the ports that are written. `block` is the memory for the frame. 65532 is -4 as a `uint16_t`, 4294967280 is -16 as a `uint32_t`.
pub receive_round : RtlDevice → List ℕ → RtlDevice × Option (List ℕ) × List (ℕ × ℕ)
receive_round device block =
    let at = device.rx_cur in
    let status = get_or device.rx_buffer at 0 + get_or device.rx_buffer (at + 1) 0 * 256 in
    let pckt_sz = get_or device.rx_buffer (at + 2) 0 + get_or device.rx_buffer (at + 3) 0 * 256 in
    if status == 0xffff
    then (let (fresh, writes) = rtl8139_reset device in
        let (done, more) = finish_round fresh pckt_sz in (done, none, writes ++ more))
    else (let size = u16 (pckt_sz + 65532) in
        let (done, more) = finish_round device size in
        (done, some (copy_block device.rx_buffer (at + 4) block 0 size), more))
