-- ===== src/Network/Arp/Answers.antt =====
-- Requests and their answers.
use james_os.Prelude.{ℕ, ◌/◌, ◌%◌, ◌≡◌, List, [], ◌∷◌, ◌++◌, arith, length}
use james_os.Network.Arp.{Device, bytes_from, send_arp_reply}
use james_os.Network.Arp.Packet.{packet, build_arp_packet-packet}
use james_os.Network.Arp.Table.{length-part}

-- The reply to a request as its 28 bytes: an Ethernet and IPv4 reply, from the card with the address
-- that was asked for to the sender.
pub send_arp_reply-packet :
    (device : Device) (block header : List ℕ)
    → length block ≡ 28
    → length header ≡ 28
    → length device.mac_addr ≡ 6
    → send_arp_reply device block header
      ≡ (0 ∷ 1 ∷ 8 ∷ 0 ∷ 6 ∷ 4 ∷ 0 ∷ 2 ∷ [])
        ++ device.mac_addr
        ++ bytes_from header 24 4
        ++ bytes_from header 8 6
        ++ bytes_from header 14 4
unfolding send_arp_reply packet
send_arp_reply-packet device block header lb lh lm =
    build_arp_packet-packet block _ lb lm (length-part header 24 4 (omega (arith, lh)))
      (length-part header 8 6 (omega (arith, lh))) (length-part header 14 4 (omega (arith, lh)))

-- The bytes of an address, the highest first.
abbrev pub address_bytes : ℕ → List ℕ
address_bytes ip = ip / 16777216 % 256 ∷ ip / 65536 % 256 ∷ ip / 256 % 256 ∷ ip % 256 ∷ []
