-- ===== src/Network/Arp/Tests.antt =====
-- A request for the address 10.0.0.2 from 10.0.0.1, and one that the kernel sends.
use james_os.Prelude.{ℕ, Bool, true, ltb, ◌&&◌, ◌≡◌, refl, List, [], ◌∷◌, replicate}
use james_os.Network.Arp.{Device, ArpTable, ArpTableEntry, target_loop}

abbrev device : Device
device = record { mac_addr = 2 ∷ 0 ∷ 0 ∷ 0 ∷ 0 ∷ 2 ∷ []; ip_addr = 0x0a000002 }

abbrev request : List ℕ
request =
    0 ∷ 1 ∷ 8 ∷ 0 ∷ 6 ∷ 4 ∷ 0 ∷ 1 ∷ 2 ∷ 0 ∷ 0 ∷ 0 ∷ 0 ∷ 1 ∷ 10 ∷ 0 ∷ 0 ∷ 1 ∷ 0 ∷ 0 ∷ 0 ∷ 0 ∷ 0 ∷ 0
    ∷ 10 ∷ 0 ∷ 0 ∷ 2 ∷ []

abbrev free : ArpTableEntry
free = record { ip_addr = replicate 4 0; mac_addr = replicate 6 0 }

abbrev table : ArpTable
table = record { arp_table = replicate 256 free; arp_table_size = 0 }

asks_device : target_loop request 0 0 4 ≡ 0x0a000002
unfolding target_loop
asks_device = refl

all_bytes : List ℕ → Bool
all_bytes [] = true
all_bytes (x ∷ xs) = ltb x 256 && all_bytes xs
