-- ===== src/Network/Ipv4/Arrays.antt =====
-- A packet as an array of bytes.
use james_os.Prelude.{ℕ, ◌+◌, ◌<◌, u32, ◌≡◌, ◌∙◌, ap₂, List, arith, length}
use james_os.Network.Utils.Blocks.{copy_block-joined}
use james_os.Network.Ipv4.{Ipv4Packet, ipv4_to_array, array_to_ipv4}

-- A packet with a header of 20 bytes and `size` bytes of data, turned into an array of the size
-- that `ipv4_to_array` allocates and read back by `array_to_ipv4` into fresh memory, is as before. The size of the array has 32 bits.
pub array_to_ipv4-ipv4_to_array :
    (packet fresh : Ipv4Packet) (array : List ℕ) (size : ℕ)
    → length packet.header ≡ 20
    → length packet.payload ≡ size
    → length array ≡ size + 20
    → length fresh.header ≡ 20
    → length fresh.payload ≡ size
    → size < 4294967276
    → array_to_ipv4 fresh (ipv4_to_array packet size array) (size + 20) ≡ packet
unfolding ipv4_to_array array_to_ipv4
array_to_ipv4-ipv4_to_array packet fresh array size lh lp la lh' lp' fits =
    let rest : u32 (size + 20 + 4294967276) ≡ size = omega (arith, fits) in
    let (same, same') =
      copy_block-joined packet.header packet.payload array fresh.header fresh.payload 20 size lh lp
        (la ∙ omega arith) lh' lp' in
    rw rest (ap₂ (λ (h p : List ℕ). record { header = h; payload = p }) same same')
