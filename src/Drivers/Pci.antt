-- ===== src/Drivers/Pci.antt =====
-- src/drivers/pci.c: the configuration space of the bus, and the search for a device.
pub mod Search
mod Tests
use james_os.Prelude.{
  ℕ, zero, suc, ◌+◌, ◌*◌, List, [], ◌∷◌, Option, none, some, ◌==◌, if◌then◌else◌, bit_and, bit_or,
  u32, ◌<<<◌,
}

pub pci_gen_address : ℕ → ℕ → ℕ → ℕ
pci_gen_address bus device offset =
    let lfunc : ℕ = 0 in
    bit_or
      (bit_or (bit_or (bit_or (u32 (bus <<< 16)) (u32 (device <<< 11))) (u32 (lfunc <<< 8)))
        (bit_and offset 0xfc))
      0x80000000

-- `config` is the hardware: what the data port gives after an address is written to the address
-- port.
pub pci_read_data : (ℕ → ℕ) → ℕ → ℕ → ℕ → ℕ
pci_read_data config bus device offset = config (pci_gen_address bus device offset)

-- The ports that are written, with the values.
pub pci_write_data : ℕ → ℕ → ℕ → ℕ → List (ℕ × ℕ)
pci_write_data bus device offset value =
    (0xcf8, pci_gen_address bus device offset) ∷ (0xcfc, value) ∷ []

-- The inner loop of `pci_get_device`, from device `j` on with `left` to go.
pub device_loop : (ℕ → ℕ) → ℕ → ℕ → ℕ → ℕ → Option ℕ
device_loop config reg bus j zero = none
device_loop config reg bus j (suc left) =
    let rest = device_loop config reg bus (j + 1) left in
    if pci_read_data config bus j 0 == reg then some j else rest

-- The outer loop, from bus `i` on with `left` to go; `none` where the bus and the device of the
-- caller stay as they are.
pub bus_loop : (ℕ → ℕ) → ℕ → ℕ → ℕ → Option (ℕ × ℕ)
bus_loop config reg i zero = none
bus_loop config reg i (suc left) =
    let rest = bus_loop config reg (i + 1) left in
    elim (device_loop config reg i 0 32) [ some j ↦ some (i, j) | none ↦ rest ]

pub pci_get_device : (ℕ → ℕ) → ℕ → ℕ → Option (ℕ × ℕ)
pci_get_device config vendor_id device_id =
    bus_loop config (bit_or (u32 (device_id <<< 16)) vendor_id) 0 256
