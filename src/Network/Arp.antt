-- ===== src/Network/Arp.antt =====
-- src/network/arp.c: the packets of the address resolution, and the table of addresses. A packet is
-- its header of 28 bytes; a pointer into one is the bytes that are read from it.
pub mod Packet
pub mod Table
pub mod Answers
mod Tests
use james_os.Prelude.{
  ℕ, zero, suc, ◌+◌, ◌-◌, ◌*◌, ◌/◌, ◌%◌, List, [], ◌∷◌, Option, none, some, Bool, true, false, ◌&&◌,
  ◌==◌, if◌then◌else◌, get_or, set, take, drop, u8, u16, u32, ◌<<<◌, ◌>>>◌, bit_and,
}
use james_os.Network.Utils.{set_bytes_attr_value, copy_block}
use james_os.Network.Ethernet.{bytes_of_16}

-- The address of the network card.
pub record Device : Type 0 where
  pub mac_addr : List ℕ
  pub ip_addr : ℕ

-- An IP address stands as its four bytes in the order of the network.
pub record ArpTableEntry : Type 0 where
  pub ip_addr : List ℕ
  pub mac_addr : List ℕ

pub record ArpTable : Type 0 where
  pub arp_table : List ArpTableEntry
  pub arp_table_size : ℕ

abbrev pub no_entry : ArpTableEntry
no_entry = record { ip_addr = []; mac_addr = [] }

-- The `n` bytes from `offset` on.
abbrev pub bytes_from : List ℕ → ℕ → ℕ → List ℕ
bytes_from header offset n = take n (drop offset header)

-- `!memcmp` on two blocks of `n` bytes.
pub same_bytes : ℕ → List ℕ → List ℕ → Bool
same_bytes zero a b = true
same_bytes (suc n) a b =
    let rest = same_bytes n (drop 1 a) (drop 1 b) in
    if get_or a 0 0 == get_or b 0 0 then rest else false

-- The loop of `update_arp_table`, from entry `i` on with `left` to go.
pub search_mac : List ArpTableEntry → List ℕ → ℕ → ℕ → Option ℕ
search_mac table mac i zero = none
search_mac table mac i (suc left) =
    let rest = search_mac table mac (i + 1) left in
    if same_bytes 6 (get_or table i no_entry).mac_addr mac then some i else rest

store_entry : List ℕ → ArpTable → Option ℕ → ArpTable
store_entry header t (some i) =
    let entry = get_or t.arp_table i no_entry in
    record t {
      arp_table =
          set t.arp_table i (record entry { ip_addr = copy_block header 14 entry.ip_addr 0 4 });
    }
store_entry header t none =
    let entry = get_or t.arp_table t.arp_table_size no_entry in
    record {
      arp_table = set t.arp_table t.arp_table_size (record {
        ip_addr = copy_block header 14 entry.ip_addr 0 4;
        mac_addr = copy_block header 8 entry.mac_addr 0 6;
      });
      arp_table_size = u8 (t.arp_table_size + 1);
    }

-- The sender of the packet into the table; the number of entries is a `uint8_t`.
pub update_arp_table : List ℕ → ArpTable → ArpTable
update_arp_table header t =
    store_entry header t (search_mac t.arp_table (bytes_from header 8 6) 0 t.arp_table_size)

pub record ArpFields : Type 0 where
  pub htype : ℕ
  pub ptype : ℕ
  pub hlen : ℕ
  pub plen : ℕ
  pub oper : ℕ
  pub sha : List ℕ
  pub spa : List ℕ
  pub tha : List ℕ
  pub tpa : List ℕ

pub build_arp_packet : List ℕ → ArpFields → List ℕ
build_arp_packet header f =
    let h0 = set_bytes_attr_value header 0 2 (bytes_of_16 f.htype) in
    let h1 = set_bytes_attr_value h0 2 2 (bytes_of_16 f.ptype) in
    let h2 = set_bytes_attr_value h1 4 1 (f.hlen ∷ []) in
    let h3 = set_bytes_attr_value h2 5 1 (f.plen ∷ []) in
    let h4 = set_bytes_attr_value h3 6 2 (bytes_of_16 f.oper) in
    let h5 = set_bytes_attr_value h4 8 6 f.sha in
    let h6 = set_bytes_attr_value h5 14 4 f.spa in
    let h7 = set_bytes_attr_value h6 18 6 f.tha in set_bytes_attr_value h7 24 4 f.tpa

-- The packet that is sent in reply; `block` is its memory. It goes to the address in its bytes 18
-- to 23, in a frame of the type for ARP.
pub send_arp_reply : Device → List ℕ → List ℕ → List ℕ
send_arp_reply device block header = build_arp_packet block (record {
  htype = 0x0100;
  ptype = 0x0008;
  hlen = 6;
  plen = 4;
  oper = 0x0200;
  sha = device.mac_addr;
  spa = bytes_from header 24 4;
  tha = bytes_from header 8 6;
  tpa = bytes_from header 14 4;
})

-- The bytes of an address, the highest first.
pub ip_bytes : ℕ → List ℕ
ip_bytes ip =
    u8 (bit_and (ip >>> 24) 0xff)
    ∷ u8 (bit_and (ip >>> 16) 0xff)
    ∷ u8 (bit_and (ip >>> 8) 0xff)
    ∷ u8 (bit_and ip 0xff)
    ∷ []

-- `nowhere` is the memory at address 0, which is given as the target's address.
pub send_arp_request : Device → List ℕ → List ℕ → ℕ → List ℕ
send_arp_request device block nowhere ip = build_arp_packet block (record {
  htype = 0x0100;
  ptype = 0x0800;
  hlen = 6;
  plen = 4;
  oper = 0x0200;
  sha = device.mac_addr;
  spa = ip_bytes device.ip_addr;
  tha = nowhere;
  tpa = ip_bytes ip;
})

-- The loop over the target's address, from byte `i` on with `left` to go.
pub target_loop : List ℕ → ℕ → ℕ → ℕ → ℕ
target_loop header target_ip i zero = target_ip
target_loop header target_ip i (suc left) =
    target_loop header (u32 (target_ip + get_or header (24 + i) 0 <<< (24 - i * 8))) (i + 1) left

pub recv_arp_request : Device → List ℕ → List ℕ → ArpTable → ArpTable × Option (List ℕ)
recv_arp_request device block header t =
    let arp_ptype = u16 (u16 (get_or header 2 0 <<< 8) + get_or header 3 0) in
    if arp_ptype == 0x0800
    then if target_loop header 0 0 4 == device.ip_addr
      then (update_arp_table header t, some (send_arp_reply device block header))
      else (t, none)
    else (t, none)

-- The table, and the packet that is sent, if one is.
pub recv_arp_handler : Device → List ℕ → List ℕ → ArpTable → ArpTable × Option (List ℕ)
recv_arp_handler device block header t =
    if get_or header 7 0 == 1
    then recv_arp_request device block header t
    else if get_or header 7 0 == 2
    then (update_arp_table header t, none)
    else (t, none)
