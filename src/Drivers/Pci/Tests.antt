-- ===== src/Drivers/Pci/Tests.antt =====
-- A bus with a network card as device 3 of bus 0.
use james_os.Prelude.{ℕ, ◌+◌, ◌*◌, ◌==◌, ◌&&◌, if◌then◌else◌, arith}
use james_os.Drivers.Pci.{pci_get_device}
use james_os.Drivers.Pci.Search.{decoded, FirstDevice, pci_get_device-FirstDevice}

abbrev one_card : ℕ → ℕ → ℕ → ℕ → ℕ
one_card bus device function register =
    if bus == 0 && device == 3 && function == 0 && register == 0 then 0x813910ec else 0xffffffff

pci_get_device-FirstDevice_example :
    FirstDevice one_card
      (0x8139 * 65536 + 0x10ec)
      (pci_get_device (decoded one_card (λ address. 0)) 0x10ec 0x8139)
pci_get_device-FirstDevice_example =
    pci_get_device-FirstDevice one_card (λ address. 0) 0x10ec 0x8139 (omega arith) (omega arith)
