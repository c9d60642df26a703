-- ===== src/Network/Icmp/Tests.antt =====
-- An echo request with two bytes of data.
use james_os.Prelude.{
  ℕ, ◌+◌, ◌*◌, ◌≡◌, refl, arith, List, [], ◌∷◌, some, drop, replicate, replicate-IsBytes, IsBytes,
}
use james_os.Network.Utils.{internet_checksum}
use james_os.Network.Icmp.{Icmp4, recv_icmp4_packet}
use james_os.Network.Icmp.Echo.{zero_header, recv_icmp4_packet-echoes}

abbrev block : Icmp4
block = record { header = replicate 8 0; payload = 9 ∷ 9 ∷ [] }

abbrev request : List ℕ
request = 8 ∷ 0 ∷ 1 ∷ 2 ∷ 3 ∷ 4 ∷ 5 ∷ 6 ∷ 7 ∷ 8 ∷ []

request_bytes : IsBytes request
request_bytes = (
  omega arith,
  (
    omega arith,
    (
      omega arith,
      (
        omega arith,
        (
          omega arith,
          (omega arith, (omega arith, (omega arith, (omega arith, (omega arith, tt))))),
        ),
      ),
    ),
  ),
)

recv_icmp4_packet-echoes_example :
    (high low : ℕ) × (recv_icmp4_packet block block (replicate 10 7) request (2 + 8)
      ≡ some ((0 ∷ 0 ∷ high ∷ low ∷ drop 4 request) ∷ []))
    × (internet_checksum (zero_header request) 8 (drop 8 request) 2 [] 0 ≡ some (high * 256 + low))
recv_icmp4_packet-echoes_example =
    recv_icmp4_packet-echoes block block (replicate 10 7) request 2 refl refl refl refl refl refl
      (replicate-IsBytes 8 0 (omega arith)) (omega arith, (omega arith, tt))
      (replicate-IsBytes 8 0 (omega arith)) (omega arith, (omega arith, tt)) request_bytes
      (omega arith) refl
